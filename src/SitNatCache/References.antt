-- ===== src/SitNatCache/References.antt =====
-- Reference counting: the counts and the pin bits move together, so that an entry is evicted only
-- after its last reference is gone.
use hscfs.Base.{
  sym, subst, ◌∙◌, ℕ, ◌+◌, ◌-◌, ◌^◌, ◌<◌, ◌≡◌, ◌≢◌, inl, inr, refl, not, Option, some, arith, ◌==◌,
  Bool-cases, pred32, succ32, put, nat_key,
}
use hscfs.Lru.Size.{size}
use hscfs.CacheManager
use hscfs.CacheManager.{CacheManager}
use hscfs.CacheManager.Invariant
use hscfs.SitNatCache
use hscfs.SitNatCache.{SitNatCache, Entry, set_entry}
use hscfs.SitNatCache.Invariant.{IsValid, Keeps, Keeps-refl, IsTrimmed}
use hscfs.SitNatCache.Replacement.{do_replace-Trims}

-- The entry with another count.
abbrev pub with_count : {Block : Type 0} → Entry Block → ℕ → Entry Block
with_count p n = record p { ref_count = n }

-- The call succeeds and changes nothing but the count of one entry.
abbrev pub Recounts :
    {Block : Type 0} → SitNatCache Block → ℕ → Entry Block → Option (SitNatCache Block) → Type 0
Recounts {Block} c k p result =
    (c' : SitNatCache Block) × (result ≡ some c')
    × IsValid c'
    × ((j : ℕ) → c'.manager.index j ≡ put c.manager.index k (some p) j)
    × (c'.cur_size ≡ c.cur_size)
    × (c'.expect_size ≡ c.expect_size)

module _ {Block : Type 0} (c : SitNatCache Block) (k : ℕ) (p : Entry Block) (v : IsValid c)
    (cached : c.manager.index k ≡ some p) where
  -- The cache whose entry `k` has the count `n`; its pin bit is not yet adjusted.
  recounted : ℕ → SitNatCache Block
  recounted n = set_entry c k (with_count p n)

  recounted-IsConsistent : (n : ℕ) → Invariant.IsConsistent (recounted n).manager
  unfolding recounted
  recounted-IsConsistent n = record {
    lists = v.manager.lists;
    domain = λ j. ground (arith, v.manager.domain j, cached);
  }

  -- The invariant once the pin bit of `k` agrees with the new count.
  adjusted-IsValid :
      (n : ℕ) (m : CacheManager ℕ (Entry Block))
      → ((j : ℕ) → m.index j ≡ put c.manager.index k (some (with_count p n)) j)
      → ((j : ℕ)
          → m.replacer.key_states j ≡ put c.manager.replacer.key_states k (some (not (n == 0))) j)
      → Invariant.IsConsistent m
      → size m.replacer ≡ size c.manager.replacer
      → IsValid (record c { manager = m })
  adjusted-IsValid n m index states consistent sized = record {
    manager = consistent;
    keyed = λ j q h. ground (arith, index j, v.keyed j q, v.keyed k p cached);
    pinned = λ j q h. ground (arith, index j, states j, v.pinned j q);
    counted = omega (arith, v.counted);
    word = v.word;
  }

  at_lpa :
      {m : CacheManager ℕ (Entry Block)}
      (f : CacheManager ℕ (Entry Block) → ℕ → Option (CacheManager ℕ (Entry Block))) (n : ℕ)
      → f (recounted n).manager k ≡ some m
      → f (recounted n).manager p.lpa ≡ some m
  at_lpa {m} f n h = subst (λ i. f (recounted n).manager i ≡ some m) (sym (v.keyed k p cached)) h

  add_refcount_pins :
      (m : CacheManager ℕ (Entry Block))
      → p.ref_count ≡ 0
      → CacheManager.pin (recounted 1).manager k ≡ some m
      → SitNatCache.add_refcount c k ≡ some (record c { manager = m })
  unfolding SitNatCache.add_refcount recounted
  add_refcount_pins m z h =
      let one : succ32 p.ref_count ≡ 1 = omega arith in
      let pinned : CacheManager.pin (recounted 1).manager p.lpa ≡ some m =
        at_lpa CacheManager.pin 1 h in
      rw (cached, SitNatCache.add_refcount) (rw one (rw pinned))

  add_refcount_counts :
      p.ref_count ≢ 0
      → p.ref_count + 1 < 2 ^ 32
      → SitNatCache.add_refcount c k ≡ some (recounted (p.ref_count + 1))
  unfolding SitNatCache.add_refcount recounted
  add_refcount_counts z h =
      let sum : succ32 p.ref_count ≡ p.ref_count + 1 = omega arith in
      rw (cached, SitNatCache.add_refcount) (rw sum (ground arith))

  -- With room in the count, a reference is added.
  pub add_refcount-Recounts :
      p.ref_count + 1 < 2 ^ 32
      → Recounts c k (with_count p (p.ref_count + 1)) (SitNatCache.add_refcount c k)
  unfolding recounted
  add_refcount-Recounts h = elim (Bool-cases (p.ref_count == 0)) [
    | inl z ↦
        let (m, done, index, states, consistent, sized) =
          Invariant.pin-Gives (recounted 1).manager (recounted-IsConsistent 1) k
            (λ e. ground arith) in
        (
          record c { manager = m },
          add_refcount_pins m (ground arith) done,
          adjusted-IsValid 1 m index states consistent sized,
          λ j. ground (arith, index j),
          refl,
          refl,
        )
    | inr z ↦ (
      recounted (p.ref_count + 1),
      add_refcount_counts (ground arith) h,
      adjusted-IsValid (p.ref_count + 1) (recounted (p.ref_count + 1)).manager (λ j. refl)
          (λ j. ground (arith, v.pinned k p cached)) (recounted-IsConsistent (p.ref_count + 1))
          refl,
      λ j. refl,
      refl,
      refl,
    )
  ]

  -- The last reference: the entry can be replaced from here on, and the cache is trimmed.
  unpinned : CacheManager ℕ (Entry Block) → SitNatCache Block
  unpinned m = record c { manager = m }

  sub_refcount_unpins :
      (m : CacheManager ℕ (Entry Block))
      → p.ref_count ≡ 1
      → CacheManager.unpin (recounted 0).manager k ≡ some m
      → SitNatCache.sub_refcount c k ≡ SitNatCache.do_replace (unpinned m)
  unfolding SitNatCache.sub_refcount recounted unpinned
  sub_refcount_unpins m z h =
      let none_left : pred32 p.ref_count ≡ 0 = omega arith in
      let freed : CacheManager.unpin (recounted 0).manager p.lpa ≡ some m =
        at_lpa CacheManager.unpin 0 h in
      rw (cached, SitNatCache.sub_refcount) (rw none_left (rw freed))

  sub_refcount_counts :
      1 < p.ref_count
      → p.ref_count < 2 ^ 32
      → SitNatCache.sub_refcount c k ≡ some (recounted (p.ref_count - 1))
  unfolding SitNatCache.sub_refcount recounted
  sub_refcount_counts z h =
      let rest : pred32 p.ref_count ≡ p.ref_count - 1 = omega arith in
      rw (cached, SitNatCache.sub_refcount) (rw rest (ground arith))

  -- A reference that is not the last one goes, and nothing else happens.
  pub sub_refcount-Recounts :
      1 < p.ref_count
      → p.ref_count < 2 ^ 32
      → Recounts c k (with_count p (p.ref_count - 1)) (SitNatCache.sub_refcount c k)
  unfolding recounted
  sub_refcount-Recounts more h = (
    recounted (p.ref_count - 1),
    sub_refcount_counts more h,
    adjusted-IsValid (p.ref_count - 1) (recounted (p.ref_count - 1)).manager (λ j. refl)
        (λ j. ground (arith, v.pinned k p cached)) (recounted-IsConsistent (p.ref_count - 1)) refl,
    λ j. refl,
    refl,
    refl,
  )

  pub sub_refcount-Trims :
      0 < p.ref_count
      → p.ref_count < 2 ^ 32
      → (c' : SitNatCache Block) × (SitNatCache.sub_refcount c k ≡ some c')
        × IsValid c'
        × Keeps (set_entry c k (with_count p (p.ref_count - 1))) c'
        × (p.ref_count ≡ 1 → IsTrimmed c')
  unfolding recounted unpinned
  sub_refcount-Trims pos h = elim (Bool-cases (p.ref_count == 1)) [
    | inl one ↦
        let (m, done, index, states, consistent, sized) =
          Invariant.unpin-Gives (recounted 0).manager (recounted-IsConsistent 0) k
            (λ e. ground arith) in
        let v' = adjusted-IsValid 0 m index states consistent sized in
        let (c', ran, valid, keeps, trimmed) = do_replace-Trims (unpinned m) v' in
        (
          c',
          sub_refcount_unpins m (ground arith) done ∙ ran,
          valid,
          record {
            old = λ j q e. ground (arith, keeps.old j q e, index j);
            referred = λ j q e ne. keeps.referred j q (ground (arith, index j)) ne;
            expect = keeps.expect;
            no_more = keeps.no_more;
          },
          λ _. trimmed,
        )
    | inr more ↦ (
      recounted (p.ref_count - 1),
      sub_refcount_counts (ground arith) h,
      adjusted-IsValid (p.ref_count - 1) (recounted (p.ref_count - 1)).manager (λ j. refl)
          (λ j. ground (arith, v.pinned k p cached)) (recounted-IsConsistent (p.ref_count - 1))
          refl,
      Keeps-refl (recounted (p.ref_count - 1)),
      λ one. ground arith,
    )
  ]
