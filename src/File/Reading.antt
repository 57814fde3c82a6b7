-- ===== src/File/Reading.antt =====
-- A read returns the bytes of the file.
use hscfs.Base.{
  ℕ, zero, suc, ◌+◌, ◌-◌, ◌/◌, ◌%◌, ◌^◌, ◌<◌, ◌≤◌, ◌≡◌, ◌≢◌, ◌⊎◌, inl, inr, refl, ap, ◌∙◌, subst,
  min, List, ◌++◌, true, false, Option, none, some, ltb, put, nat_key, arith, Bool-cases,
}
use hscfs.Base.Outcome.{done}
use hscfs.Fs.{invalid_lpa}
use hscfs.PageCache
use hscfs.PageCache.{PageCache, PageEntry, PageState, Page}
use hscfs.File.{
  File, lpa_of, prepare_page_content, end_handle, read_loop, read, copied, idx_of_blk, off_in_blk,
  end_pos_of_cur_blk,
}
use hscfs.File.Coherence.{Coherent, Loadable, view}
use hscfs.File.Steps.{held_by, end_handle-Coherent, load-Coherent, Coherent-cong}
use hscfs.File.Passes.{Advances, advance, at_most_one, bytes_of, bytes_of-cong, copied-bytes_of}

module _ (size_in_inode : ℕ) (addr : ℕ → ℕ) (device : ℕ → Option Page) where
  -- One pass of the loop, when its calls succeed.
  read_loop_passes :
      (fuel : ℕ) (c c1 c2 c3 c4 : PageCache) (pre : Option ℕ) (pos end_pos k cnt : ℕ)
      (q : PageEntry) (rest : List ℕ)
      → pos < end_pos
      → idx_of_blk pos ≡ k
      → min (end_pos_of_cur_blk pos) end_pos - pos ≡ cnt
      → PageCache.get c k ≡ some c1
      → prepare_page_content size_in_inode addr device c1 k ≡ done tt c2
      → c2.manager.index k ≡ some q
      → end_handle pre c2 ≡ some c3
      → read_loop size_in_inode addr device fuel c3 (some k) (pos + cnt) end_pos ≡ done rest c4
      → read_loop size_in_inode addr device (suc fuel) c pre pos end_pos
        ≡ done (copied q.page (off_in_blk pos) cnt ++ rest) c4
  unfolding read_loop
  read_loop_passes fuel c c1 c2 c3 c4 pre pos end_pos k cnt q rest more block count got prepared
        cached ended done_rest =
      let test : ltb pos end_pos ≡ true = ground (arith, more) in
      rw (test, read_loop)
        (rw (block, count) (rw (got, prepared, cached, ended) (rw done_rest refl)))

  -- The blocks that may have to be loaded are there, and the cache has room for them if one is a hole.
  pub record Readable (c : PageCache) (n : ℕ) : Type 0 where
    pub there :
        (b : ℕ)
        → lpa_of size_in_inode addr device b ≢ invalid_lpa
        → device (lpa_of size_in_inode addr device b) ≢ none
    pub room :
        ((b : ℕ) → lpa_of size_in_inode addr device b ≢ invalid_lpa)
        ⊎ (c.cur_size + n ≤ c.expect_size)
    pub word : c.cur_size + n < 2 ^ 64

  pub loads :
      (c : PageCache) (n k : ℕ) → Readable c (suc n) → Loadable size_in_inode addr device c k
  loads c n k r = record {
    readable = r.there k;
    zeroed = elim r.room [ inl backed ↦ inl (backed k) | inr roomy ↦ inr (omega (arith, roomy)) ];
  }

  pub left :
      (c c' : PageCache) (n : ℕ)
      → Readable c (suc n)
      → c'.cur_size ≤ c.cur_size + 1
      → c'.expect_size ≡ c.expect_size
      → Readable c' n
  left c c' n r size' expect = record {
    there = r.there;
    room = elim r.room [
      | inl backed ↦ inl backed
      | inr roomy ↦ inr (omega (arith, roomy, size', expect))
    ];
    word = omega (arith, r.word, size');
  }

  -- What the loop does with `fuel`: it ends, with the bytes up to `end_pos`, the handles that were held
  -- before, the same file, and at most `n` pages more.
  abbrev Reads : ℕ → PageCache → (ℕ → ℕ) → Option ℕ → ℕ → ℕ → ℕ → Type 0
  Reads fuel c held pre pos end_pos n =
      (c' : PageCache) × (read_loop size_in_inode addr device fuel c pre pos end_pos
        ≡ done (bytes_of (view size_in_inode addr device c) pos (end_pos - pos)) c')
      × Coherent size_in_inode addr device c' held
      × ((b : ℕ) → view size_in_inode addr device c' b ≡ view size_in_inode addr device c b)
      × (c'.cur_size ≤ c.cur_size + n)
      × (c'.expect_size ≡ c.expect_size)

  read_loop-ends :
      (n : ℕ) (c : PageCache) (held : ℕ → ℕ) (pre : Option ℕ) (pos end_pos : ℕ)
      → Coherent size_in_inode addr device c (λ j. held j + held_by pre j)
      → ((j : ℕ) → held j + 4 < 2 ^ 32)
      → end_pos ≤ pos
      → Reads (suc n) c held pre pos end_pos n
  unfolding read_loop
  read_loop-ends n c held pre pos end_pos h room over =
      let (c', ended, h', same, size', expect) =
        end_handle-Coherent size_in_inode addr device pre c (λ j. held j + held_by pre j) held h
          (λ j. refl) (λ j. omega (arith, room j)) in
      let none_left : end_pos - pos ≡ 0 = omega (arith, over) in
      let test : ltb pos end_pos ≡ false = ground (arith, over) in
      (c', rw (none_left, test) (rw ended refl), h', same, omega (arith, size'), expect)

  -- A pass, and the loop after it.
  read_loop_passes-Reads :
      (fuel : ℕ) (c c1 c2 c3 c4 : PageCache) (pre : Option ℕ) (pos end_pos n : ℕ) (q : PageEntry)
      → (let cnt = min (end_pos_of_cur_blk pos) end_pos - pos in
          let k = idx_of_blk pos in
          pos < end_pos
          → Advances pos end_pos cnt n
          → PageCache.get c k ≡ some c1
          → prepare_page_content size_in_inode addr device c1 k ≡ done tt c2
          → c2.manager.index k ≡ some q
          → end_handle pre c2 ≡ some c3
          → q.page ≡ view size_in_inode addr device c k
          → ((b : ℕ) → view size_in_inode addr device c2 b ≡ view size_in_inode addr device c b)
          → ((b : ℕ) → view size_in_inode addr device c3 b ≡ view size_in_inode addr device c2 b)
          → read_loop size_in_inode addr device fuel c3 (some k) (pos + cnt) end_pos
            ≡ done
                (bytes_of (view size_in_inode addr device c3) (pos + cnt) (end_pos - (pos + cnt)))
                c4
          → (held : ℕ → ℕ) → Coherent size_in_inode addr device c4 held
          → ((b : ℕ) → view size_in_inode addr device c4 b ≡ view size_in_inode addr device c3 b)
          → c4.cur_size ≤ c.cur_size + suc n
          → c4.expect_size ≡ c.expect_size
          → Reads (suc fuel) c held pre pos end_pos (suc n))
  read_loop_passes-Reads fuel c c1 c2 c3 c4 pre pos end_pos n q before a got prepared cached ended
        bytes same2 same3 ran held h4 same4 size4 expect4 =
      let cnt = min (end_pos_of_cur_blk pos) end_pos - pos in
      let k = idx_of_blk pos in
      let rest = end_pos - (pos + cnt) in
      let view_c = view size_in_inode addr device c in
      let view_c3 = view size_in_inode addr device c3 in
      let unchanged : (b : ℕ) → view_c3 b ≡ view_c b = λ b. same3 b ∙ same2 b in
      let joined : copied q.page (off_in_blk pos) cnt ++ bytes_of view_c3 (pos + cnt) rest
          ≡ bytes_of view_c pos (end_pos - pos) =
        ap (λ l. copied q.page (off_in_blk pos) cnt ++ l)
          (bytes_of-cong view_c3 view_c (pos + cnt) rest unchanged)
        ∙ copied-bytes_of view_c q.page k (off_in_blk pos) pos cnt rest bytes a.place a.fits a.word
        ∙ ap (bytes_of view_c pos) a.total in
      (
        c4,
        read_loop_passes fuel c c1 c2 c3 c4 pre pos end_pos k cnt q
              (bytes_of view_c3 (pos + cnt) rest) before refl refl got prepared cached ended ran
            ∙ ap (λ l. done l c4) joined,
        h4,
        λ b. same4 b ∙ unchanged b,
        size4,
        expect4,
      )

  read_loop-Reads :
      (n : ℕ) (c : PageCache) (held : ℕ → ℕ) (pre : Option ℕ) (pos end_pos : ℕ)
      → Coherent size_in_inode addr device c (λ j. held j + held_by pre j)
      → ((j : ℕ) → held j + 4 < 2 ^ 32)
      → Readable c n
      → end_pos ≤ 2 ^ 44
      → (pos < end_pos → (end_pos + 4095) / 4096 ≤ pos / 4096 + n)
      → Reads (suc n) c held pre pos end_pos n
  read_loop-Reads zero c held pre pos end_pos h room r limit enough =
      read_loop-ends 0 c held pre pos end_pos h room (grind (arith, enough))
  read_loop-Reads (suc n) c held pre pos end_pos h room r limit enough =
      elim (Bool-cases (ltb pos end_pos)) [
        | inr over ↦ read_loop-ends (suc n) c held pre pos end_pos h room (ground (arith, over))
        | inl more ↦
            let before : pos < end_pos = ground (arith, more) in
            let k = idx_of_blk pos in
            let cnt = min (end_pos_of_cur_blk pos) end_pos - pos in
            let owned : ℕ → ℕ = λ j. held j + held_by pre j in
            let owned_room : (j : ℕ) → owned j + 3 < 2 ^ 32 =
              λ j. at_most_one held pre j (room j) in
            let a = advance pos end_pos n before limit (enough before) in
            let (c1, c2, q, got, prepared, cached, is, bytes, h2, same2, size2, expect2) =
              load-Coherent size_in_inode addr device c owned k h (omega (arith, owned_room k))
                (omega (arith, r.word)) (loads c n k r) in
            let (c3, ended, h3, same3, size3, expect3) =
              end_handle-Coherent size_in_inode addr device pre c2 (put owned k (owned k + 1))
                (λ j. held j + held_by (some k) j) h2 (λ j. ground arith)
                (λ j. omega (arith, at_most_one held (some k) j (room j))) in
            let (c4, ran, h4, same4, size4, expect4) =
              read_loop-Reads n c3 held (some k) (pos + cnt) end_pos h3 room
                (left c c3 n r (omega (arith, size2, size3)) (omega (arith, expect3, expect2)))
                limit a.enough in
            read_loop_passes-Reads (suc n) c c1 c2 c3 c4 pre pos end_pos n q before a got prepared
              cached ended bytes same2 same3 ran held h4 same4 (omega (arith, size4, size3, size2))
              (omega (arith, expect4, expect3, expect2))
      ]

  read_returns :
      (f : File) (count pos : ℕ) (c' : PageCache) (bytes : List ℕ)
      → pos + count ≤ 2 ^ 44
      → read_loop size_in_inode addr device
          (suc (count / 4096 + 2))
          f.page_cache
          none
          pos
          (min f.size (pos + count))
        ≡ done bytes c'
      → read size_in_inode addr device f count pos ≡ done bytes (record f { page_cache = c' })
  unfolding read
  read_returns f count pos c' bytes limit ran =
      let word : pos + count ≡ (pos + count) % 2 ^ 64 = omega (arith, limit) in
      rw
        (
          subst
              (λ e.
                read_loop size_in_inode addr device (suc (count / 4096 + 2)) f.page_cache none pos
                  (min f.size e)
                ≡ done bytes c')
              word ran,
          read,
        )
        refl

  -- A read of `count` bytes at `pos` ends, returns exactly the bytes of the file from `pos` up to the
  -- end of the file or of the range, and changes no byte, the file's size included; the handles that it
  -- took have ended. The device must give every block that has an address, the cache must have room for
  -- the pages of the range if some block is a hole, and offsets stay below 16 TiB.
  pub read-bytes :
      (f : File) (held : ℕ → ℕ) (count pos : ℕ)
      → Coherent size_in_inode addr device f.page_cache held
      → ((j : ℕ) → held j + 4 < 2 ^ 32)
      → Readable f.page_cache (count / 4096 + 2)
      → pos + count ≤ 2 ^ 44
      → (f' : File) × (read size_in_inode addr device f count pos
          ≡ done
              (bytes_of
                (view size_in_inode addr device f.page_cache)
                pos
                (min f.size (pos + count) - pos))
              f')
        × Coherent size_in_inode addr device f'.page_cache held
        × ((b : ℕ)
            → view size_in_inode addr device f'.page_cache b
              ≡ view size_in_inode addr device f.page_cache b)
        × (f'.size ≡ f.size)
  read-bytes f held count pos h room r limit =
      let owned : ℕ → ℕ = λ j. held j + held_by none j in
      let (c', ran, h', same, size', expect) =
        read_loop-Reads (count / 4096 + 2) f.page_cache held none pos (min f.size (pos + count))
          (Coherent-cong size_in_inode addr device f.page_cache held owned (λ j. omega arith) h)
          room r (omega (arith, limit)) (λ more. omega arith) in
      (
        record f { page_cache = c' },
        read_returns f count pos c'
            (bytes_of (view size_in_inode addr device f.page_cache) pos
              (min f.size (pos + count) - pos))
            limit ran,
        h',
        same,
        refl,
      )
