-- ===== src/PageCache/Counting.antt =====
-- A reference that is added to a page.
use hscfs.Base.{
  ℕ, ◌+◌, ◌^◌, ◌<◌, ◌≡◌, inl, inr, refl, sym, subst, false, some, ◌==◌, put, nat_key, arith,
  Bool-cases, succ32,
}
use hscfs.CacheManager
use hscfs.CacheManager.{CacheManager}
use hscfs.CacheManager.Invariant
use hscfs.PageCache.{PageCache, PageEntry, set_entry, add_refcount}
use hscfs.PageCache.Invariant.{IsValid}

abbrev pub with_count : PageEntry → ℕ → PageEntry
with_count p n = record p { ref_count = n }

-- The cache with another count of one page, before and after the pin bit follows.
module _ (c : PageCache) (k : ℕ) (p : PageEntry) (v : IsValid c)
    (cached : c.manager.index k ≡ some p) where
  add_refcount_pins :
      (m : CacheManager ℕ PageEntry)
      → p.ref_count ≡ 0
      → p.is_dirty ≡ false
      → CacheManager.pin (set_entry c k (with_count p 1)).manager k ≡ some m
      → add_refcount c k ≡ some (record c { manager = m })
  unfolding add_refcount
  add_refcount_pins m z clean h =
      let one : succ32 p.ref_count ≡ 1 = omega arith in
      let pinned : CacheManager.pin (set_entry c k (with_count p 1)).manager p.blkoff ≡ some m =
        subst (λ i. CacheManager.pin (set_entry c k (with_count p 1)).manager i ≡ some m)
          (sym (v.keyed k p cached)) h in
      rw (cached, add_refcount) (rw one (ground (arith, z, clean, pinned)))

  pub counted-IsConsistent :
      (n : ℕ) → Invariant.IsConsistent (set_entry c k (with_count p n)).manager
  counted-IsConsistent n = record {
    lists = v.manager.lists;
    domain = λ j. ground (arith, v.manager.domain j, cached);
  }

  -- With room in the count, a reference is added, and nothing else changes.
  pub add_refcount-Adds :
      p.ref_count + 1 < 2 ^ 32
      → (c' : PageCache) × (add_refcount c k ≡ some c')
        × IsValid c'
        × ((j : ℕ)
            → c'.manager.index j ≡ put c.manager.index k (some (with_count p (p.ref_count + 1))) j)
        × (c'.cur_size ≡ c.cur_size)
        × (c'.expect_size ≡ c.expect_size)
        × (c'.dirty_pages ≡ c.dirty_pages)
  unfolding add_refcount
  add_refcount-Adds h =
      let sum : succ32 p.ref_count ≡ p.ref_count + 1 = omega arith in
      elim (Bool-cases (p.ref_count == 0)) [
        | inl z ↦
            let (m, done, index, states, consistent, sized) =
              Invariant.pin-Gives (set_entry c k (with_count p 1)).manager (counted-IsConsistent 1)
                k (λ e. ground arith) in
            (
              record c { manager = m },
              add_refcount_pins m (ground arith) (ground (arith, v.dirty k p)) done,
              record {
                manager = consistent;
                keyed = λ j q e. ground (arith, index j, v.keyed j q, v.keyed k p cached);
                pinned = λ j q e. ground (arith, index j, states j, v.pinned j q);
                dirty = λ j q e. ground (arith, index j, v.dirty j q);
              },
              λ j. ground (arith, index j),
              refl,
              refl,
              refl,
            )
        | inr z ↦ (
          set_entry c k (with_count p (p.ref_count + 1)),
          rw (cached, add_refcount) (rw sum (ground arith)),
          record {
            manager = counted-IsConsistent (p.ref_count + 1);
            keyed = λ j q e. ground (arith, v.keyed j q, v.keyed k p cached);
            pinned = λ j q e. ground (arith, v.pinned j q, v.pinned k p cached);
            dirty = λ j q e. ground (arith, v.dirty j q);
          },
          λ j. refl,
          refl,
          refl,
          refl,
        )
      ]
