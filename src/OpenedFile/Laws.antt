-- ===== src/OpenedFile/Laws.antt =====
-- What is written through a descriptor is read back.
use hscfs.Base.{
  ℕ, zero, suc, ◌+◌, ◌-◌, ◌*◌, ◌/◌, ◌%◌, ◌^◌, ◌<◌, ◌≤◌, ◌≡◌, inl, inr, refl, ap, ◌∙◌, subst, min,
  max, List, true, ◌&&◌, Option, ltb, leb, arith, length,
}
use hscfs.Base.Outcome.{done}
use hscfs.PageCache.{Page}
use hscfs.File
use hscfs.File.{File, copied, idx_of_blk, off_in_blk}
use hscfs.File.Coherence.{Coherent, view}
use hscfs.File.Reading.{Readable, read-bytes}
use hscfs.File.Passes.{bytes_of}
use hscfs.File.Writing.{write-bytes}
use hscfs.File.Patches.{patched}
use hscfs.OpenedFile.{
  OpenedFile, read, write, set_rw_pos, write_pos, clamped, rw_check_flags, read_operation,
  write_operation, seek_set,
}

-- The bytes in a range that was written are those of the buffer.
bytes_of-patched :
    (f g : ℕ → Page) (pos end_pos : ℕ) (buffer : ℕ → ℕ) (p n : ℕ)
    → ((b off : ℕ) → off < 4096 → g b off ≡ patched f pos end_pos buffer b off)
    → pos ≤ p
    → p + n ≤ end_pos
    → end_pos ≤ 2 ^ 44
    → bytes_of g p n ≡ copied buffer (p - pos) n
bytes_of-patched f g pos end_pos buffer p zero written after inside limit = refl
bytes_of-patched f g pos end_pos buffer p (suc n) written after inside limit =
    let place : idx_of_blk p * 4096 + off_in_blk p ≡ p = omega (arith, inside, limit) in
    let here : g (idx_of_blk p) (off_in_blk p)
        ≡ patched f pos end_pos buffer (idx_of_blk p) (off_in_blk p) =
      written (idx_of_blk p) (off_in_blk p) (omega arith) in
    let in_range : (leb pos p && ltb p end_pos) ≡ true = ground (arith, after, inside) in
    let byte : g (idx_of_blk p) (off_in_blk p) ≡ buffer (p - pos) =
      here ∙ rw (place, in_range) refl in
    let ih =
      bytes_of-patched f g pos end_pos buffer (p + 1) n written (omega (arith, after))
        (omega (arith, inside)) limit in
    let next : p + 1 - pos ≡ p - pos + 1 = omega (arith, after) in rw (byte, ih, next) refl

length-copied : (page : Page) (start n : ℕ) → length (copied page start n) ≡ n
length-copied page start zero = refl
length-copied page start (suc n) = ap suc (length-copied page (start + 1) n)

module _ (size_in_inode : ℕ) (addr : ℕ → ℕ) (device : ℕ → Option Page) where
  write_runs :
      (o : OpenedFile) (f f' : File) (buffer : ℕ → ℕ) (count : ℕ)
      → rw_check_flags o write_operation ≡ true
      → count < 2 ^ 63
      → File.write size_in_inode addr device f buffer count
          (write_pos size_in_inode addr device o f)
        ≡ done count f'
      → write size_in_inode addr device (o, f) buffer count
        ≡ done count
            (record o { pos = (write_pos size_in_inode addr device o f + count) % 2 ^ 64 }, f')
  unfolding write
  write_runs o f f' buffer count allowed small ran =
      let same : clamped count ≡ count = ground (arith, small) in
      rw (allowed, same, write) (rw ran refl)

  read_runs :
      (o : OpenedFile) (f f' : File) (count : ℕ) (bytes : List ℕ)
      → rw_check_flags o read_operation ≡ true
      → count < 2 ^ 63
      → File.read size_in_inode addr device f count o.pos ≡ done bytes f'
      → read size_in_inode addr device (o, f) count
        ≡ done bytes (record o { pos = (o.pos + length bytes) % 2 ^ 64 }, f')
  unfolding read
  read_runs o f f' count bytes allowed small ran =
      let same : clamped count ≡ count = ground (arith, small) in
      rw (allowed, same, read) (rw ran refl)

  first_half :
      (f : File) (n : ℕ)
      → Readable size_in_inode addr device f.page_cache (2 * n)
      → Readable size_in_inode addr device f.page_cache n
  first_half f n r = record {
    there = r.there;
    room = elim r.room [ inl backed ↦ inl backed | inr roomy ↦ inr (omega (arith, roomy)) ];
    word = omega (arith, r.word);
  }

  second_half :
      (f f' : File) (n : ℕ)
      → Readable size_in_inode addr device f.page_cache (2 * n)
      → f'.page_cache.cur_size ≤ f.page_cache.cur_size + n
      → f'.page_cache.expect_size ≡ f.page_cache.expect_size
      → Readable size_in_inode addr device f'.page_cache n
  second_half f f' n r size' expect = record {
    there = r.there;
    room = elim r.room [
      | inl backed ↦ inl backed
      | inr roomy ↦ inr (omega (arith, roomy, size', expect))
    ];
    word = omega (arith, r.word, size');
  }

  -- What is written through a descriptor that is open for reading and writing is read back: the write
  -- starts at the descriptor's position, or at the end of the file if the descriptor appends, and moves
  -- the position behind its range; a read of as many bytes from the start of the range returns the
  -- buffer's bytes. The conditions are those of a read and of a write, with room for both.
  pub write-read :
      (o : OpenedFile) (f : File) (held : ℕ → ℕ) (buffer : ℕ → ℕ) (count : ℕ)
      → rw_check_flags o read_operation ≡ true
      → rw_check_flags o write_operation ≡ true
      → Coherent size_in_inode addr device f.page_cache held
      → ((j : ℕ) → held j + 4 < 2 ^ 32)
      → Readable size_in_inode addr device f.page_cache (2 * (count / 4096 + 2))
      → write_pos size_in_inode addr device o f + count ≤ 2 ^ 44
      → (o' : OpenedFile) × (f' : File) × (f'' : File) × (write size_in_inode addr device
            (o, f)
            buffer
            count
          ≡ done count (o', f'))
        × (o'.pos ≡ write_pos size_in_inode addr device o f + count)
        × (f'.size ≡ max f.size (write_pos size_in_inode addr device o f + count))
        × (read size_in_inode addr device
              (set_rw_pos (o', f') (write_pos size_in_inode addr device o f) seek_set)
              count
            ≡ done (copied buffer 0 count) (o', f''))
        × Coherent size_in_inode addr device f''.page_cache held
  unfolding set_rw_pos
  write-read o f held buffer count readable writable h room r limit =
      let start = write_pos size_in_inode addr device o f in
      let n = count / 4096 + 2 in
      let (f', ran, h', written, size', cur', expect') =
        write-bytes size_in_inode addr device f held buffer count start h room (first_half f n r)
          limit in
      let (f'', ran', h'', same, size'') =
        read-bytes size_in_inode addr device f' held count start h' room
          (second_half f f' n r cur' expect') limit in
      let whole : min f'.size (start + count) - start ≡ count = omega (arith, size') in
      let from : start - start ≡ 0 = omega arith in
      let bytes : bytes_of (view size_in_inode addr device f'.page_cache) start
            (min f'.size (start + count) - start)
          ≡ copied buffer 0 count =
        rw whole (
          subst
            (λ i.
              bytes_of (view size_in_inode addr device f'.page_cache) start count
              ≡ copied buffer i count)
            from
            (bytes_of-patched (view size_in_inode addr device f.page_cache)
              (view size_in_inode addr device f'.page_cache) start (start + count) buffer start
              count written (omega arith) (omega arith) limit)) in
      let o' : OpenedFile = record o { pos = (start + count) % 2 ^ 64 } in
      let read_back : read size_in_inode addr device (record o { pos = start }, f') count
          ≡ done (copied buffer 0 count)
              (record o { pos = (start + length (copied buffer 0 count)) % 2 ^ 64 }, f'') =
        read_runs (record o { pos = start }) f' f'' count (copied buffer 0 count) readable
          (omega (arith, limit))
          (subst (λ b. File.read size_in_inode addr device f' count start ≡ done b f'') bytes
            ran') in
      (
        o',
        f',
        f'',
        write_runs o f f' buffer count writable (omega (arith, limit)) ran,
        omega (arith, limit),
        size',
        subst
            (λ l.
              read size_in_inode addr device (record o { pos = start }, f') count
              ≡ done (copied buffer 0 count) (record o { pos = (start + l) % 2 ^ 64 }, f''))
            (length-copied buffer 0 count) read_back,
        h'',
      )
