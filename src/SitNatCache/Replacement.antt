-- ===== src/SitNatCache/Replacement.antt =====
-- `do_replace`: it ends, evicts only entries that nothing refers to, and stops only within the
-- expected size or when every entry is referred to.
use hscfs.Base.{
  ℕ, zero, suc, ◌<◌, ◌≡◌, ◌≢◌, inl, inr, refl, false, Option, none, some, arith, leb, ltb,
  if◌then◌else◌, Bool-cases, pred64, put, nat_key,
}
use hscfs.Lru.Size.{size}
use hscfs.CacheManager
use hscfs.CacheManager.{CacheManager}
use hscfs.CacheManager.Invariant
use hscfs.SitNatCache
use hscfs.SitNatCache.{SitNatCache, Entry}
use hscfs.SitNatCache.Invariant.{IsValid, Keeps, Keeps-refl, Keeps-trans, IsTrimmed}

abbrev pub Trims : {Block : Type 0} → SitNatCache Block → Option (SitNatCache Block) → Type 0
Trims {Block} c result =
    (c' : SitNatCache Block) × (result ≡ some c') × IsValid c' × Keeps c c' × IsTrimmed c'

module _ {Block : Type 0} where
  -- The cache after one entry is replaced.
  module _ (c : SitNatCache Block) (v : IsValid c) (key : ℕ) (m : CacheManager ℕ (Entry Block))
      (entry : Entry Block) (cached : c.manager.index key ≡ some entry)
      (free : c.manager.replacer.key_states key ≡ some false)
      (index : (j : ℕ) → m.index j ≡ put c.manager.index key none j)
      (states : (j : ℕ) → m.replacer.key_states j ≡ put c.manager.replacer.key_states key none j)
      (consistent : Invariant.IsConsistent m)
      (sized : suc (size m.replacer) ≡ size c.manager.replacer) where
    smaller : SitNatCache Block
    smaller = record c { manager = m; cur_size = pred64 c.cur_size }

    smaller-IsValid : IsValid smaller
    unfolding smaller
    smaller-IsValid = record {
      manager = consistent;
      keyed = λ k p h. v.keyed k p (ground (arith, index k));
      pinned = λ k p h. ground (arith, states k, index k, v.pinned k p);
      counted = omega (arith, v.counted, v.word);
      word = omega (arith, v.word);
    }

    unreferred : entry.ref_count ≡ 0
    unreferred = ground (arith, v.pinned key entry)

    smaller-Keeps : Keeps c smaller
    unfolding smaller
    smaller-Keeps = record {
      old = λ k p h. ground (arith, index k);
      referred = λ k p h ne. ground (arith, index k, unreferred);
      expect = refl;
      no_more = omega (arith, v.counted, v.word);
    }

  all_pinned-IsTrimmed :
      (c : SitNatCache Block)
      → IsValid c
      → ((j : ℕ) → c.manager.replacer.key_states j ≢ some false)
      → IsTrimmed c
  all_pinned-IsTrimmed c v pinned =
      inr (λ k p h zero_count. pinned k (ground (arith, v.pinned k p)))

  loop_ends :
      (fuel : ℕ) (c : SitNatCache Block)
      → CacheManager.replace_one c.manager ≡ some (none, c.manager)
      → SitNatCache.replace_loop (suc fuel) c ≡ some c
  unfolding SitNatCache.replace_loop
  loop_ends fuel c h = ground arith

  loop_goes_on :
      (fuel : ℕ) (c : SitNatCache Block) (entry : Entry Block) (m : CacheManager ℕ (Entry Block))
      → CacheManager.replace_one c.manager ≡ some (some entry, m)
      → entry.ref_count ≡ 0
      → SitNatCache.replace_loop (suc fuel) c ≡ (
          if leb (pred64 c.cur_size) c.expect_size
          then some (record c { manager = m; cur_size = pred64 c.cur_size })
          else SitNatCache.replace_loop fuel
              (record c { manager = m; cur_size = pred64 c.cur_size }))
  unfolding SitNatCache.replace_loop
  loop_goes_on fuel c entry m h z = rw (h, SitNatCache.replace_loop) (ground arith)

  replace_loop-Trims :
      (fuel : ℕ) (c : SitNatCache Block)
      → IsValid c
      → size c.manager.replacer < fuel
      → Trims c (SitNatCache.replace_loop fuel c)
  unfolding smaller
  replace_loop-Trims zero c v h = absurd (omega arith)
  replace_loop-Trims (suc fuel) c v h = elim (Invariant.replace_one-cases c.manager v.manager) [
    | inl (replaced, pinned) ↦
        (c, loop_ends fuel c replaced, v, Keeps-refl c, all_pinned-IsTrimmed c v pinned)
    | inr (key, entry, m, replaced, cached, free, index, states, consistent, sized) ↦
        let c' : SitNatCache Block =
          smaller c v key m entry cached free index states consistent sized in
        let v' : IsValid c' =
          smaller-IsValid c v key m entry cached free index states consistent sized in
        let k' : Keeps c c' =
          smaller-Keeps c v key m entry cached free index states consistent sized in
        let next =
          loop_goes_on fuel c entry m replaced
            (unreferred c v key m entry cached free index states consistent sized) in
        elim (Bool-cases (leb c'.cur_size c'.expect_size)) [
          | inl enough ↦ (c', ground arith, v', k', inl (ground arith))
          | inr more ↦
              let (d, ran, valid, keeps, trimmed) = replace_loop-Trims fuel c' v' (omega arith) in
              (d, ground arith, valid, Keeps-trans k' keeps, trimmed)
        ]
  ]

  -- On any valid cache `do_replace` returns with no failed assertion. The cache is valid again, has
  -- no new entry, has kept every entry that is referred to, and is within its expected size unless
  -- every entry left is referred to.
  pub do_replace-Trims : (c : SitNatCache Block) → IsValid c → Trims c (SitNatCache.do_replace c)
  unfolding SitNatCache.do_replace
  do_replace-Trims c v = elim (Bool-cases (ltb c.expect_size c.cur_size)) [
    | inl over ↦
        let (d, ran, valid, keeps, trimmed) =
          replace_loop-Trims (suc (size c.manager.replacer)) c v (omega arith) in
        (d, ground arith, valid, keeps, trimmed)
    | inr within ↦ (c, ground arith, v, Keeps-refl c, inl (ground arith))
  ]
