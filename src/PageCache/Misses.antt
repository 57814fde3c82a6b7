-- ===== src/PageCache/Misses.antt =====
-- What a lookup does, and that a page which is not cached is added or takes the buffer of another.
use hscfs.Base.{
  ℕ, ◌+◌, ◌^◌, ◌<◌, ◌≤◌, ◌≡◌, ◌≢◌, ◌⊎◌, refl, false, none, some, put, nat_key, arith, succ64,
}
use hscfs.CacheManager
use hscfs.CacheManager.{CacheManager}
use hscfs.CacheManager.Invariant
use hscfs.PageCache.{
  PageCache, PageEntry, invalid, zero_page, new_entry, add_refcount, add_new, reuse,
}
use hscfs.PageCache.Invariant.{IsValid, do_replace-Keeps}
use hscfs.PageCache.Counting.{with_count, add_refcount-Adds}

-- What a lookup does: page `k` is cached, with one reference more than before; a page that was cached is
-- otherwise the same, and one that was not is invalid and clean. Another page stays, or was not
-- referred to and leaves the cache.
pub record Gets (c c' : PageCache) (k : ℕ) (p : PageEntry) : Type 0 where
  pub valid : IsValid c'
  pub cached : c'.manager.index k ≡ some p
  pub hit : (q : PageEntry) → c.manager.index k ≡ some q → p ≡ with_count q (q.ref_count + 1)
  pub miss :
      c.manager.index k ≡ none
      → (p.content_state ≡ invalid) × (p.is_dirty ≡ false) × (p.ref_count ≡ 1)
  pub old : (j : ℕ) → j ≢ k → (c'.manager.index j ≡ c.manager.index j) ⊎ (c'.manager.index j ≡ none)
  pub referred :
      (j : ℕ) (q : PageEntry)
      → j ≢ k
      → c.manager.index j ≡ some q
      → q.ref_count ≢ 0
      → c'.manager.index j ≡ some q
  pub dirty_pages : c'.dirty_pages ≡ c.dirty_pages
  pub expect : c'.expect_size ≡ c.expect_size
  pub grown : c'.cur_size ≤ c.cur_size + 1
  -- Below the expected size no page leaves the cache, and a new page is zeroed.
  pub roomy :
      c.cur_size < c.expect_size
      → ((j : ℕ) → j ≢ k → c'.manager.index j ≡ c.manager.index j)
        × (c.manager.index k ≡ none → p.page ≡ zero_page)

module _ (c : PageCache) (k : ℕ) (v : IsValid c) (absent : c.manager.index k ≡ none) where
  -- An entry with no reference joins the cache, and its handle is made.
  joined :
      (p : PageEntry)
      → p.blkoff ≡ k
      → p.ref_count ≡ 0
      → p.is_dirty ≡ false
      → (m : CacheManager ℕ PageEntry) × (c' : PageCache) × (CacheManager.add c.manager k p
          ≡ some m)
        × (add_refcount (record c { manager = m }) k ≡ some c')
        × IsValid c'
        × ((j : ℕ) → c'.manager.index j ≡ put c.manager.index k (some (with_count p 1)) j)
        × (c'.cur_size ≡ c.cur_size)
        × (c'.expect_size ≡ c.expect_size)
        × (c'.dirty_pages ≡ c.dirty_pages)
  joined p key z clean =
      let (m, added, index, states, consistent, sized) =
        Invariant.add-Gives c.manager v.manager k p absent in
      let v1 : IsValid (record c { manager = m }) = record {
        manager = consistent;
        keyed = λ j q e. ground (arith, index j, v.keyed j q);
        pinned = λ j q e. ground (arith, index j, states j, v.pinned j q);
        dirty = λ j q e. ground (arith, index j, v.dirty j q);
      } in
      let (c', ran, valid, index', size', expect, dirties) =
        add_refcount-Adds (record c { manager = m }) k p v1 (ground (arith, index k))
          (omega (arith, z)) in
      (m, c', added, ran, valid, λ j. ground (arith, index' j, index j, z), size', expect, dirties)

  pub add_new-Gets :
      c.cur_size + 1 < 2 ^ 64
      → (c' : PageCache) × (add_new c k ≡ some c') × Gets c c' k (with_count (new_entry k) 1)
  unfolding add_new
  add_new-Gets small =
      let (m, c1, added, ran, valid, index, size1, expect, dirties) =
        joined (new_entry k) refl refl refl in
      (
        record c1 { cur_size = succ64 c1.cur_size },
        ground (arith, added, ran),
        record {
          valid = record {
            manager = valid.manager;
            keyed = valid.keyed;
            pinned = valid.pinned;
            dirty = valid.dirty;
          };
          cached = ground (arith, index k);
          hit = λ q e. absurd (ground (arith, absent));
          miss = λ e. (refl, refl, refl);
          old = λ j ne. ground (arith, index j);
          referred = λ j q ne e r. ground (arith, index j);
          dirty_pages = dirties;
          expect = expect;
          grown = omega (arith, size1);
          roomy = λ room. (λ j ne. ground (arith, index j), λ e. refl);
        },
      )

  pub reuse-Gets :
      (victim : PageEntry)
      → victim.ref_count ≡ 0
      → victim.is_dirty ≡ false
      → (c' : PageCache) × (reuse c k victim ≡ some c')
        × IsValid c'
        × (c'.manager.index k
            ≡ some (record victim { blkoff = k; content_state = invalid; ref_count = 1 }))
        × ((j : ℕ) → j ≢ k → (c'.manager.index j ≡ c.manager.index j) ⊎ (c'.manager.index j ≡ none))
        × ((j : ℕ) (q : PageEntry)
            → j ≢ k
            → c.manager.index j ≡ some q
            → q.ref_count ≢ 0
            → c'.manager.index j ≡ some q)
        × (c'.dirty_pages ≡ c.dirty_pages)
        × (c'.expect_size ≡ c.expect_size)
        × (c'.cur_size ≤ c.cur_size + 1)
  unfolding reuse
  reuse-Gets victim z clean =
      let p : PageEntry = record victim { blkoff = k; content_state = invalid } in
      let (m, c1, added, ran, valid, index, size1, expect, dirties) = joined p refl z clean in
      let (c2, replaced, keeps) = do_replace-Keeps c1 valid in
      (
        c2,
        ground (arith, z, clean, added, ran, replaced),
        keeps.valid,
        keeps.referred k (with_count p 1) (ground (arith, index k)) (λ e. ground arith),
        λ j ne. ground (arith, keeps.old j, index j),
        λ j q ne e r. keeps.referred j q (ground (arith, index j)) r,
        ground (arith, keeps.dirty_pages, dirties),
        ground (arith, keeps.expect, expect),
        omega (arith, keeps.fewer, size1),
      )
