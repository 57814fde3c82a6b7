-- ===== src/Lru/Total.antt =====
-- On a consistent replacer the calls fail only on a key that is not there (or, for `add`, one that
-- is); what they do to the pin bits, pointwise.
use hscfs.Base.{
  ℕ, suc, ◌-◌, ◌≡◌, ◌≢◌, ◌⊎◌, inl, inr, refl, List, [], ◌∷◌, Bool, true, false, Option, none, some,
  arith, Eq, put, Option-cases, =?_refl,
}
use hscfs.Lru
use hscfs.Lru.{Lru}
use hscfs.Lru.Size.{
  size, size-add, size-pin, size-unpin, size-access, size-remove, size-pop_replaced,
}
use hscfs.Lru.Invariant.{
  IsConsistent, add-IsConsistent, pin-IsConsistent, unpin-IsConsistent, access-IsConsistent,
  remove-IsConsistent, pop_replaced-IsConsistent,
}

-- The call succeeds, keeps the invariant, and leaves these pin bits and this number of keys.
abbrev pub Gives : {K : Type 0} ⦃e : Eq K⦄ → Option (Lru K) → (K → Option Bool) → ℕ → Type 0
Gives {K} result states n =
    (r' : Lru K) × (result ≡ some r')
    × ((j : K) → r'.key_states j ≡ states j)
    × IsConsistent r'
    × (size r' ≡ n)

module _ {K : Type 0} ⦃e : Eq K⦄ (r : Lru K) (key : K) (v : IsConsistent r) where
  pub add-Gives :
      r.key_states key ≡ none
      → Gives (Lru.add r key) (put r.key_states key (some false)) (suc (size r))
  unfolding Lru.add
  add-Gives h = elim (Option-cases (Lru.add r key)) [
    | inl failed ↦ absurd (ground arith)
    | inr (r', done) ↦ (
      r',
      done,
      λ j. ground arith,
      add-IsConsistent r key v done,
      omega (arith, size-add r key v done),
    )
  ]

  pub pin-Gives :
      r.key_states key ≢ none → Gives (Lru.pin r key) (put r.key_states key (some true)) (size r)
  unfolding Lru.pin
  pin-Gives h = elim (Option-cases (Lru.pin r key)) [
    | inl failed ↦ absurd (ground arith)
    | inr (r', done) ↦ (
      r',
      done,
      λ j. ground (arith, e.beq_iff key j),
      pin-IsConsistent r key v done,
      omega (arith, size-pin r key v done),
    )
  ]

  pub unpin-Gives :
      r.key_states key ≢ none → Gives (Lru.unpin r key) (put r.key_states key (some false)) (size r)
  unfolding Lru.unpin
  unpin-Gives h = elim (Option-cases (Lru.unpin r key)) [
    | inl failed ↦ absurd (ground arith)
    | inr (r', done) ↦ (
      r',
      done,
      λ j. ground (arith, e.beq_iff key j),
      unpin-IsConsistent r key v done,
      omega (arith, size-unpin r key v done),
    )
  ]

  pub access-Gives : r.key_states key ≢ none → Gives (Lru.access r key) r.key_states (size r)
  unfolding Lru.access
  access-Gives h = elim (Option-cases (Lru.access r key)) [
    | inl failed ↦ absurd (ground arith)
    | inr (r', done) ↦ (
      r',
      done,
      λ j. ground arith,
      access-IsConsistent r key v done,
      omega (arith, size-access r key v done),
    )
  ]

  pub remove-Gives :
      r.key_states key ≢ none → Gives (Lru.remove r key) (put r.key_states key none) (size r - 1)
  unfolding Lru.remove
  remove-Gives h = elim (Option-cases (Lru.remove r key)) [
    | inl failed ↦ absurd (ground arith)
    | inr (r', done) ↦ (
      r',
      done,
      λ j. ground arith,
      remove-IsConsistent r key v done,
      omega (arith, size-remove r key v done),
    )
  ]

-- With no key to replace every key is pinned; otherwise an unpinned key is taken out.
abbrev pub PopCases : {K : Type 0} ⦃e : Eq K⦄ → Lru K → Type 0
PopCases {K} r =
    ((Lru.get_num_can_replace r ≡ 0) × ((j : K) → r.key_states j ≢ some false))
    ⊎ ((key : K) × (r' : Lru K) × (Lru.get_num_can_replace r ≢ 0)
        × (Lru.pop_replaced r ≡ some (key, r'))
        × (r.key_states key ≡ some false)
        × ((j : K) → r'.key_states j ≡ put r.key_states key none j)
        × IsConsistent r'
        × (suc (size r') ≡ size r))

pub pop_replaced-cases : {K : Type 0} ⦃e : Eq K⦄ (r : Lru K) → IsConsistent r → PopCases r
unfolding Lru.pop_replaced Lru.get_num_can_replace
pop_replaced-cases {K} ⦃e⦄ r v = go r.lru_list refl
  where
    go : (l : List K) → r.lru_list ≡ l → PopCases r
    go [] h = inl (ground arith, λ j free. absurd (ground (arith, v.lru j)))
    go (key ∷ rest) h =
        let free : r.key_states key ≡ some false = ground (arith, v.lru key, =?_refl key) in
        elim (Option-cases (Lru.pop_replaced r)) [
          | inl failed ↦ absurd (ground arith)
          | inr ((k, r'), done) ↦ inr (
            k,
            r',
            ground arith,
            done,
            ground arith,
            λ j. ground arith,
            pop_replaced-IsConsistent r k v done,
            size-pop_replaced r k v done,
          )
        ]
