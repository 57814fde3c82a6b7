-- ===== src/File/Writing.antt =====
-- A write changes the bytes of its range, and no other.
use hscfs.Base.{
  ℕ, zero, suc, ◌+◌, ◌-◌, ◌*◌, ◌/◌, ◌%◌, ◌^◌, ◌<◌, ◌≤◌, ◌≡◌, inl, inr, refl, sym, ap, ◌∙◌, subst,
  min, max, true, false, ◌&&◌, Option, none, some, ltb, leb, ◌==◌, if◌then◌else◌, put, nat_key,
  arith, Bool-cases,
}
use hscfs.Base.Outcome.{done}
use hscfs.PageCache
use hscfs.PageCache.{PageCache, PageEntry, PageState, Page, set_entry}
use hscfs.File.{
  File, prepare_page_content, end_handle, write_loop, write, overwritten, idx_of_blk, off_in_blk,
  end_pos_of_cur_blk, set_cur_size_if_larger,
}
use hscfs.File.Coherence.{Coherent, view}
use hscfs.File.Steps.{held_by, end_handle-Coherent, load-Coherent, store-Coherent, Coherent-cong}
use hscfs.File.Reading.{Readable, loads, left}
use hscfs.File.Passes.{Advances, advance, at_most_one}
use hscfs.File.Patches.{patched, patched-patched, overwritten-patched}

module _ (size_in_inode : ℕ) (addr : ℕ → ℕ) (device : ℕ → Option Page) where
  -- One pass of the loop, when its calls succeed.
  write_loop_passes :
      (fuel : ℕ) (c c1 c2 c3 c4 c5 : PageCache) (pre : Option ℕ) (pos end_pos k cnt : ℕ)
      (q : PageEntry)
      → (buffer : ℕ → ℕ) (write_count count : ℕ) → write_count < count
      → pos < end_pos
      → idx_of_blk pos ≡ k
      → min (end_pos_of_cur_blk pos) end_pos - pos ≡ cnt
      → PageCache.get c k ≡ some c1
      → prepare_page_content size_in_inode addr device c1 k ≡ done tt c2
      → c2.manager.index k ≡ some q
      → PageCache.mark_dirty
          (set_entry c2 k (record q {
            page = overwritten q.page (off_in_blk pos) cnt (λ i. buffer (write_count + i));
          }))
          k
        ≡ some c3
      → end_handle pre c3 ≡ some c4
      → write_loop size_in_inode addr device fuel c4
          (some k)
          (pos + cnt)
          end_pos
          buffer
          (write_count + cnt)
          count
        ≡ done tt c5
      → write_loop size_in_inode addr device (suc fuel) c pre pos end_pos buffer write_count count
        ≡ done tt c5
  unfolding write_loop
  write_loop_passes fuel c c1 c2 c3 c4 c5 pre pos end_pos k cnt q buffer wc count more inside block
        cnt_is got prepared cached marked ended rest =
      let test : ltb wc count ≡ true = ground (arith, more) in
      let asserted : ltb pos end_pos ≡ true = ground (arith, inside) in
      rw (test, asserted, write_loop)
        (rw (block, cnt_is) (rw (got, prepared, cached, marked, ended) rest))

  -- What the loop does with `fuel`: it ends, the bytes up to `end_pos` come from the buffer and no other
  -- byte changes, the handles are those that were held before, and there are at most `n` pages more.
  abbrev Writes : ℕ → PageCache → (ℕ → ℕ) → Option ℕ → ℕ → ℕ → (ℕ → ℕ) → ℕ → ℕ → ℕ → Type 0
  Writes fuel c held pre pos end_pos buffer write_count count n =
      (c' : PageCache) × (write_loop size_in_inode addr device fuel c pre pos end_pos buffer
          write_count count
        ≡ done tt c')
      × Coherent size_in_inode addr device c' held
      × ((b off : ℕ)
          → off < 4096
          → view size_in_inode addr device c' b off
            ≡ patched (view size_in_inode addr device c) pos end_pos (λ i. buffer (write_count + i))
                b off)
      × (c'.cur_size ≤ c.cur_size + n)
      × (c'.expect_size ≡ c.expect_size)

  write_loop-ends :
      (n : ℕ) (c : PageCache) (held : ℕ → ℕ) (pre : Option ℕ) (pos end_pos : ℕ) (buffer : ℕ → ℕ)
      (write_count count : ℕ)
      → Coherent size_in_inode addr device c (λ j. held j + held_by pre j)
      → ((j : ℕ) → held j + 4 < 2 ^ 32)
      → end_pos ≤ pos
      → count ≤ write_count
      → Writes (suc n) c held pre pos end_pos buffer write_count count n
  unfolding write_loop
  write_loop-ends n c held pre pos end_pos buffer wc count h room over all =
      let (c', ended, h', same, size', expect) =
        end_handle-Coherent size_in_inode addr device pre c (λ j. held j + held_by pre j) held h
          (λ j. refl) (λ j. omega (arith, room j)) in
      let test : ltb wc count ≡ false = ground (arith, all) in
      (
        c',
        rw (test, write_loop) (rw ended refl),
        h',
        λ b off inside.
            let outside : (leb pos (b * 4096 + off) && ltb (b * 4096 + off) end_pos) ≡ false =
              ground (arith, over) in
            rw outside (ap (λ p. p off) (same b)),
        omega (arith, size'),
        expect,
      )

  -- A pass, and the loop after it.
  written_on :
      (c c4 c5 : PageCache) (pos end_pos n : ℕ) (q : PageEntry) (buffer : ℕ → ℕ) (write_count : ℕ)
      → (let cnt = min (end_pos_of_cur_blk pos) end_pos - pos in
          let content = view size_in_inode addr device in
          let k = idx_of_blk pos in
          Advances pos end_pos cnt n
          → q.page ≡ content c k
          → ((b : ℕ)
              → content c4 b ≡ (
                  if k == b
                  then overwritten q.page (off_in_blk pos) cnt (λ i. buffer (write_count + i))
                  else content c b))
          → ((b off : ℕ)
              → off < 4096
              → content c5 b off
                ≡ patched
                    (content c4)
                    (pos + cnt)
                    end_pos
                    (λ i. buffer (write_count + cnt + i))
                    b
                    off)
          → (b off : ℕ) → off < 4096
          → content c5 b off
            ≡ patched (content c) pos end_pos (λ i. buffer (write_count + i)) b off)
  written_on c c4 c5 pos end_pos n q buffer wc a bytes stored rest b off inside =
      let cnt = min (end_pos_of_cur_blk pos) end_pos - pos in
      let content = view size_in_inode addr device in
      rest b off inside
      ∙ patched-patched (content c) (content c4) pos cnt end_pos (λ i. buffer (wc + i))
          (λ i. buffer (wc + cnt + i)) b off a.within (λ i. ap buffer (omega arith))
          (overwritten-patched (content c) (content c4) q.page (idx_of_blk pos) (off_in_blk pos) pos
            cnt (λ i. buffer (wc + i)) b off a.place a.fits inside bytes (stored b))

  write_loop-Writes :
      (n : ℕ) (c : PageCache) (held : ℕ → ℕ) (pre : Option ℕ) (pos end_pos : ℕ) (buffer : ℕ → ℕ)
      (write_count count : ℕ)
      → Coherent size_in_inode addr device c (λ j. held j + held_by pre j)
      → ((j : ℕ) → held j + 4 < 2 ^ 32)
      → Readable size_in_inode addr device c n
      → end_pos ≤ 2 ^ 44
      → (pos < end_pos → (end_pos + 4095) / 4096 ≤ pos / 4096 + n)
      → write_count + (end_pos - pos) ≡ count
      → pos ≤ end_pos
      → Writes (suc n) c held pre pos end_pos buffer write_count count n
  write_loop-Writes zero c held pre pos end_pos buffer wc count h room r limit enough sum ahead =
      write_loop-ends 0 c held pre pos end_pos buffer wc count h room (grind (arith, enough))
        (grind (arith, enough, sum))
  write_loop-Writes (suc n) c held pre pos end_pos buffer wc count h room r limit enough sum ahead =
      elim (Bool-cases (ltb pos end_pos)) [
        | inr over ↦
            write_loop-ends (suc n) c held pre pos end_pos buffer wc count h room
              (ground (arith, over)) (ground (arith, over, sum))
        | inl more ↦
            let before : pos < end_pos = ground (arith, more) in
            let k = idx_of_blk pos in
            let cnt = min (end_pos_of_cur_blk pos) end_pos - pos in
            let owned : ℕ → ℕ = λ j. held j + held_by pre j in
            let owned_room : (j : ℕ) → owned j + 3 < 2 ^ 32 =
              λ j. at_most_one held pre j (room j) in
            let a = advance pos end_pos n before limit (enough before) in
            let (c1, c2, q, got, prepared, cached, is, bytes, h2, same2, size2, expect2) =
              load-Coherent size_in_inode addr device c owned k h (omega (arith, owned_room k))
                (omega (arith, r.word)) (loads size_in_inode addr device c n k r) in
            let (c3, marked, h3, stored, size3, expect3) =
              store-Coherent size_in_inode addr device c2 (put owned k (owned k + 1)) k q
                (overwritten q.page (off_in_blk pos) cnt (λ i. buffer (wc + i))) h2 cached is
                (ground arith) (ground (arith, owned_room k)) in
            let (c4, ended, h4, same4, size4, expect4) =
              end_handle-Coherent size_in_inode addr device pre c3 (put owned k (owned k + 1))
                (λ j. held j + held_by (some k) j) h3 (λ j. ground arith)
                (λ j. omega (arith, at_most_one held (some k) j (room j))) in
            let (c5, ran, h5, written, size5, expect5) =
              write_loop-Writes n c4 held (some k) (pos + cnt) end_pos buffer (wc + cnt) count h4
                room
                (left size_in_inode addr device c c4 n r (omega (arith, size2, size3, size4))
                  (omega (arith, expect4, expect3, expect2)))
                limit a.enough (omega (arith, sum, a.total)) a.within in
            (
              c5,
              write_loop_passes (suc n) c c1 c2 c3 c4 c5 pre pos end_pos k cnt q buffer wc count
                  (omega (arith, sum, before)) before refl refl got prepared cached marked ended
                  ran,
              h5,
              written_on c c4 c5 pos end_pos n q buffer wc a bytes
                  (λ b.
                    same4 b
                    ∙ stored b
                    ∙ ap
                        (λ p.
                          if k == b
                          then overwritten q.page (off_in_blk pos) cnt (λ i. buffer (wc + i))
                          else p)
                        (same2 b))
                  written,
              omega (arith, size5, size4, size3, size2),
              omega (arith, expect5, expect4, expect3, expect2),
            )
      ]

  write_returns :
      (f : File) (buffer : ℕ → ℕ) (count pos : ℕ) (c' : PageCache)
      → pos + count ≤ 2 ^ 44
      → write_loop size_in_inode addr device
          (suc (count / 4096 + 2))
          f.page_cache
          none
          pos
          (pos + count)
          buffer
          0
          count
        ≡ done tt c'
      → write size_in_inode addr device f buffer count pos
        ≡ done count (record f { page_cache = c'; size = max f.size (pos + count) })
  unfolding write
  write_returns f buffer count pos c' limit ran =
      let word : pos + count ≡ (pos + count) % 2 ^ 64 = omega (arith, limit) in
      let larger : set_cur_size_if_larger size_in_inode addr device (record f { page_cache = c' })
            (pos + count)
          ≡ record f { page_cache = c'; size = max f.size (pos + count) } =
        ground (arith) in
      rw
        (
          subst
              (λ e.
                write_loop size_in_inode addr device (suc (count / 4096 + 2)) f.page_cache none pos
                  e buffer 0 count
                ≡ done tt c')
              word ran,
          write,
        )
        (rw (sym word) (ap (λ g. done count g) larger))

  -- A write of `count` bytes at `pos` ends and returns `count`; the file has the bytes of the buffer from
  -- `pos` on and is the same everywhere else, and its size is the larger one of the old size and the
  -- end of the range, also for `count` zero. The handles that it took have ended, and at most the pages
  -- of the range have been added to the cache. The device must give
  -- every block that has an address, the cache must have room for the pages of the range if some block
  -- is a hole, and offsets stay below 16 TiB.
  pub write-bytes :
      (f : File) (held : ℕ → ℕ) (buffer : ℕ → ℕ) (count pos : ℕ)
      → Coherent size_in_inode addr device f.page_cache held
      → ((j : ℕ) → held j + 4 < 2 ^ 32)
      → Readable size_in_inode addr device f.page_cache (count / 4096 + 2)
      → pos + count ≤ 2 ^ 44
      → (f' : File) × (write size_in_inode addr device f buffer count pos ≡ done count f')
        × Coherent size_in_inode addr device f'.page_cache held
        × ((b off : ℕ)
            → off < 4096
            → view size_in_inode addr device f'.page_cache b off
              ≡ patched
                  (view size_in_inode addr device f.page_cache)
                  pos
                  (pos + count)
                  buffer
                  b
                  off)
        × (f'.size ≡ max f.size (pos + count))
        × (f'.page_cache.cur_size ≤ f.page_cache.cur_size + (count / 4096 + 2))
        × (f'.page_cache.expect_size ≡ f.page_cache.expect_size)
  write-bytes f held buffer count pos h room r limit =
      let owned : ℕ → ℕ = λ j. held j + held_by none j in
      let (c', ran, h', written, size', expect) =
        write_loop-Writes (count / 4096 + 2) f.page_cache held none pos (pos + count) buffer 0 count
          (Coherent-cong size_in_inode addr device f.page_cache held owned (λ j. omega arith) h)
          room r limit (λ more. omega arith) (omega arith) (omega arith) in
      (
        record f { page_cache = c'; size = max f.size (pos + count) },
        write_returns f buffer count pos c' limit ran,
        h',
        λ b off inside.
            let first : 0 + (b * 4096 + off - pos) ≡ b * 4096 + off - pos = omega arith in
            rw (sym first) (written b off inside),
        refl,
        size',
        expect,
      )
