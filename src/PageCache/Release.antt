-- ===== src/PageCache/Release.antt =====
-- The end of a handle, the content of a page and the dirty mark, on a valid cache.
use hscfs.Base.{
  ℕ, ◌-◌, ◌^◌, ◌<◌, ◌≡◌, inl, inr, refl, sym, subst, true, false, some, ◌==◌, put, nat_key, arith,
  Bool-cases, pred32,
}
use hscfs.CacheManager
use hscfs.CacheManager.{CacheManager}
use hscfs.CacheManager.Invariant as Manager
use hscfs.PageCache.{PageCache, PageEntry, set_entry, fetch_sub, unpin_if_zero, sub_refcount}
use hscfs.PageCache.Invariant.{IsValid}
use hscfs.PageCache.Counting.{with_count, counted-IsConsistent}

module _ (c : PageCache) (k : ℕ) (p : PageEntry) (v : IsValid c)
    (cached : c.manager.index k ≡ some p) where
  last_ends :
      (m : CacheManager ℕ PageEntry)
      → p.ref_count ≡ 1
      → p.is_dirty ≡ false
      → CacheManager.unpin (set_entry c k (with_count p 0)).manager k ≡ some m
      → sub_refcount c k ≡ some (record c { manager = m })
  unfolding sub_refcount fetch_sub unpin_if_zero
  last_ends m one clean h =
      let zeroed : pred32 p.ref_count ≡ 0 = omega (arith, one) in
      let unpinned : CacheManager.unpin (set_entry c k (with_count p 0)).manager p.blkoff ≡ some m =
        subst (λ i. CacheManager.unpin (set_entry c k (with_count p 0)).manager i ≡ some m)
          (sym (v.keyed k p cached)) h in
      rw (cached, sub_refcount, fetch_sub) (rw zeroed (ground (arith, one, clean, unpinned)))

  -- A reference that is not the last one of a dirty page is given back, and nothing else changes.
  pub sub_refcount-Drops :
      0 < p.ref_count
      → p.ref_count < 2 ^ 32
      → (p.ref_count ≡ 1 → p.is_dirty ≡ false)
      → (c' : PageCache) × (sub_refcount c k ≡ some c')
        × IsValid c'
        × ((j : ℕ)
            → c'.manager.index j ≡ put c.manager.index k (some (with_count p (p.ref_count - 1))) j)
        × (c'.cur_size ≡ c.cur_size)
        × (c'.expect_size ≡ c.expect_size)
        × (c'.dirty_pages ≡ c.dirty_pages)
  unfolding sub_refcount fetch_sub
  sub_refcount-Drops some_left word last =
      let less : pred32 p.ref_count ≡ p.ref_count - 1 = omega (arith, some_left, word) in
      elim (Bool-cases (p.ref_count == 1)) [
        | inl one ↦
            let (m, done, index, states, consistent, sized) =
              Manager.unpin-Gives (set_entry c k (with_count p 0)).manager
                (counted-IsConsistent c k p v cached 0) k (λ e. ground arith) in
            (
              record c { manager = m },
              last_ends m (ground (arith, one)) (last (ground (arith, one))) done,
              record {
                manager = consistent;
                keyed = λ j q e. ground (arith, index j, v.keyed j q, v.keyed k p cached);
                pinned = λ j q e. ground (arith, index j, states j, v.pinned j q);
                dirty = λ j q e. ground (arith, index j, v.dirty j q, last);
              },
              λ j. ground (arith, index j),
              refl,
              refl,
              refl,
            )
        | inr more ↦ (
          set_entry c k (with_count p (p.ref_count - 1)),
          rw (cached, sub_refcount, fetch_sub) (rw less (ground arith)),
          record {
            manager = counted-IsConsistent c k p v cached (p.ref_count - 1);
            keyed = λ j q e. ground (arith, v.keyed j q, v.keyed k p cached);
            pinned = λ j q e. ground (arith, v.pinned j q, v.pinned k p cached);
            dirty = λ j q e. ground (arith, v.dirty j q, v.dirty k p cached);
          },
          λ j. refl,
          refl,
          refl,
          refl,
        )
      ]

  -- Another content, another state or another address of a page, and a dirty mark on one that is
  -- referred to, keep the cache valid.
  pub set_entry-IsValid :
      (q : PageEntry)
      → q.blkoff ≡ p.blkoff
      → q.ref_count ≡ p.ref_count
      → (q.is_dirty ≡ true → 0 < p.ref_count)
      → IsValid (set_entry c k q)
  set_entry-IsValid q key count mark = record {
    manager = record {
      lists = v.manager.lists;
      domain = λ j. ground (arith, v.manager.domain j, cached);
    };
    keyed = λ j r e. ground (arith, v.keyed j r, v.keyed k p cached);
    pinned = λ j r e. ground (arith, v.pinned j r, v.pinned k p cached);
    dirty = λ j r e. ground (arith, v.dirty j r, v.dirty k p cached);
  }
