-- ===== src/CacheManager/Invariant.antt =====
-- The index and the replacer of a cache manager hold the same keys. On such a manager the calls
-- fail only by a wrong use; what they do to the entries and to the pin bits, key by key.
use hscfs.Base.{
  ℕ, suc, ◌-◌, ◌≡◌, ◌≢◌, ◌⊎◌, inl, inr, refl, Bool, true, false, Option, none, some, arith, Eq, put,
  is_some, Option-cases, Bool-cases,
}
use hscfs.Lru
use hscfs.Lru.{Lru}
use hscfs.Lru.Invariant
use hscfs.Lru.Total
use hscfs.Lru.Size.{size}
use hscfs.CacheManager
use hscfs.CacheManager.{CacheManager}

pub record IsConsistent {K E : Type 0} ⦃e : Eq K⦄ (m : CacheManager K E) : Type 0 where
  pub lists : Invariant.IsConsistent m.replacer
  pub domain : (k : K) → is_some (m.index k) ≡ is_some (m.replacer.key_states k)

abbrev pub Gives :
    {K E : Type 0} ⦃e : Eq K⦄
    → Option (CacheManager K E)
    → (K → Option E)
    → (K → Option Bool)
    → ℕ
    → Type 0
Gives {K} {E} result entries states n =
    (m' : CacheManager K E) × (result ≡ some m')
    × ((j : K) → m'.index j ≡ entries j)
    × ((j : K) → m'.replacer.key_states j ≡ states j)
    × IsConsistent m'
    × (size m'.replacer ≡ n)

module _ {K E : Type 0} ⦃e : Eq K⦄ where
  pub empty-IsConsistent : IsConsistent (CacheManager.empty {K = K} {E = E})
  unfolding CacheManager.empty Lru.empty
  empty-IsConsistent = record { lists = Invariant.empty-IsConsistent; domain = λ k. refl }

module _ {K E : Type 0} ⦃e : Eq K⦄ (m : CacheManager K E) (v : IsConsistent m) (key : K) where
  abbrev bits : K → Option Bool
  bits = m.replacer.key_states

  -- A new key is accepted; its entry is found, and can be replaced.
  pub add-Gives :
      (entry : E)
      → m.index key ≡ none
      → Gives
          (CacheManager.add m key entry)
          (put m.index key (some entry))
          (put bits key (some false))
          (suc (size m.replacer))
  unfolding CacheManager.add
  add-Gives entry h =
      let absent : bits key ≡ none = ground (arith, v.domain key) in
      let (r, done, states, lists, sized) = Total.add-Gives m.replacer key v.lists absent in
      (
        record { index = put m.index key (some entry); replacer = r },
        ground arith,
        λ j. refl,
        states,
        record { lists = lists; domain = λ j. ground (arith, states j, v.domain j) },
        sized,
      )

  cached : m.index key ≢ none → bits key ≢ none
  cached h = λ absent. ground (arith, v.domain key)

  pub pin-Gives :
      m.index key ≢ none
      → Gives (CacheManager.pin m key) m.index (put bits key (some true)) (size m.replacer)
  unfolding CacheManager.pin
  pin-Gives h =
      let (r, done, states, lists, sized) = Total.pin-Gives m.replacer key v.lists (cached h) in
      (
        record m { replacer = r },
        ground arith,
        λ j. refl,
        states,
        record {
          lists = lists;
          domain =
              λ j. ground (arith, states j, v.domain j, v.domain key, e.beq_iff key j, cached h);
        },
        sized,
      )

  pub unpin-Gives :
      m.index key ≢ none
      → Gives (CacheManager.unpin m key) m.index (put bits key (some false)) (size m.replacer)
  unfolding CacheManager.unpin
  unpin-Gives h =
      let (r, done, states, lists, sized) = Total.unpin-Gives m.replacer key v.lists (cached h) in
      (
        record m { replacer = r },
        ground arith,
        λ j. refl,
        states,
        record {
          lists = lists;
          domain =
              λ j. ground (arith, states j, v.domain j, v.domain key, e.beq_iff key j, cached h);
        },
        sized,
      )

  -- A removal, also of a pinned key.
  pub remove-Gives :
      m.index key ≢ none
      → Gives
          (CacheManager.remove m key)
          (put m.index key none)
          (put bits key none)
          (size m.replacer - 1)
  unfolding CacheManager.remove
  remove-Gives h =
      let (r, done, states, lists, sized) = Total.remove-Gives m.replacer key v.lists (cached h) in
      (
        record { index = put m.index key none; replacer = r },
        ground arith,
        λ j. refl,
        states,
        record { lists = lists; domain = λ j. ground (arith, states j, v.domain j) },
        sized,
      )

  -- A lookup returns the entry, hit or miss, and changes neither the entries nor the pin bits.
  pub get-Gives :
      (is_access : Bool)
      → (m' : CacheManager K E) × (CacheManager.get m key is_access ≡ some (m.index key, m'))
        × ((j : K) → m'.index j ≡ m.index j)
        × ((j : K) → m'.replacer.key_states j ≡ bits j)
        × IsConsistent m'
        × (size m'.replacer ≡ size m.replacer)
  unfolding CacheManager.get
  get-Gives is_access = elim (Option-cases (m.index key)) [
    | inl miss ↦ (m, ground arith, λ j. refl, λ j. refl, v, refl)
    | inr (entry, hit) ↦ elim (Bool-cases is_access) [
      | inl touch ↦
          let (r, done, states, lists, sized) =
            Total.access-Gives m.replacer key v.lists (cached (ground arith)) in
          (
            record m { replacer = r },
            ground arith,
            λ j. refl,
            states,
            record { lists = lists; domain = λ j. ground (arith, states j, v.domain j) },
            sized,
          )
      | inr look ↦ (m, ground arith, λ j. refl, λ j. refl, v, refl)
    ]
  ]

-- What a replacement does: with every key pinned nothing; otherwise an unpinned entry leaves the
-- cache and is handed over, and the rest stays.
abbrev pub ReplaceCases : {K E : Type 0} ⦃e : Eq K⦄ → CacheManager K E → Type 0
ReplaceCases {K} {E} m =
    ((CacheManager.replace_one m ≡ some (none, m))
      × ((j : K) → m.replacer.key_states j ≢ some false))
    ⊎ ((key : K) × (entry : E) × (m' : CacheManager K E) × (CacheManager.replace_one m
          ≡ some (some entry, m'))
        × (m.index key ≡ some entry)
        × (m.replacer.key_states key ≡ some false)
        × ((j : K) → m'.index j ≡ put m.index key none j)
        × ((j : K) → m'.replacer.key_states j ≡ put m.replacer.key_states key none j)
        × IsConsistent m'
        × (suc (size m'.replacer) ≡ size m.replacer))

pub replace_one-cases :
    {K E : Type 0} ⦃e : Eq K⦄ (m : CacheManager K E) → IsConsistent m → ReplaceCases m
unfolding CacheManager.replace_one
replace_one-cases m v = elim (Total.pop_replaced-cases m.replacer v.lists) [
  | inl (empty, pinned) ↦ inl (ground arith, pinned)
  | inr (key, r, some_free, popped, free, states, lists, sized) ↦
      elim (Option-cases (m.index key)) [
        | inl miss ↦ absurd (ground (arith, v.domain key))
        | inr (entry, hit) ↦ inr (
          key,
          entry,
          record { index = put m.index key none; replacer = r },
          ground arith,
          hit,
          free,
          λ j. refl,
          states,
          record { lists = lists; domain = λ j. ground (arith, states j, v.domain j) },
          sized,
        )
      ]
]
