-- ===== src/Lru/Invariant.antt =====
-- The representation invariant of the replacer: `key_states` says which list holds a key, and the
-- lists hold each key once.
use hscfs.Base.{
  ℕ, ◌≡◌, refl, Bool, true, false, Option, none, some, arith, Eq, count, count-snoc, count-erase,
  erase,
}
use hscfs.Lru
use hscfs.Lru.{Lru}

-- The number of places that a key has in each list, by its state.
abbrev pub in_lru : Option Bool → ℕ
in_lru none = 0
in_lru (some true) = 0
in_lru (some false) = 1

abbrev pub in_pinned : Option Bool → ℕ
in_pinned none = 0
in_pinned (some true) = 1
in_pinned (some false) = 0

pub record IsConsistent {K : Type 0} ⦃e : Eq K⦄ (r : Lru K) : Type 0 where
  pub lru : (k : K) → count k r.lru_list ≡ in_lru (r.key_states k)
  pub pinned : (k : K) → count k r.pinned_list ≡ in_pinned (r.key_states k)

module _ {K : Type 0} ⦃e : Eq K⦄ where
  pub empty-IsConsistent : IsConsistent (Lru.empty {K = K})
  unfolding Lru.empty
  empty-IsConsistent = record { lru = λ k. refl; pinned = λ k. refl }

module _ {K : Type 0} ⦃e : Eq K⦄ (r : Lru K) (key : K) {r' : Lru K} (v : IsConsistent r) where
  pub add-IsConsistent : Lru.add r key ≡ some r' → IsConsistent r'
  unfolding Lru.add
  add-IsConsistent h = record {
    lru = λ j. ground (arith, v.lru j, e.beq_iff key j, count-snoc j key r.lru_list);
    pinned = λ j. ground (arith, v.pinned j, e.beq_iff key j);
  }

  pub pin-IsConsistent : Lru.pin r key ≡ some r' → IsConsistent r'
  unfolding Lru.pin
  pin-IsConsistent h = record {
    lru = λ j. ground (arith, v.lru j, e.beq_iff key j, count-erase j key r.lru_list);
    pinned = λ j. ground (arith, v.pinned j, e.beq_iff key j, count-snoc j key r.pinned_list);
  }

  pub unpin-IsConsistent : Lru.unpin r key ≡ some r' → IsConsistent r'
  unfolding Lru.unpin
  unpin-IsConsistent h = record {
    lru = λ j. ground (arith, v.lru j, e.beq_iff key j, count-snoc j key r.lru_list);
    pinned = λ j. ground (arith, v.pinned j, e.beq_iff key j, count-erase j key r.pinned_list);
  }

  pub access-IsConsistent : Lru.access r key ≡ some r' → IsConsistent r'
  unfolding Lru.access
  access-IsConsistent h = record {
    lru = λ j. ground (
      arith,
      v.lru j,
      e.beq_iff key j,
      count-erase j key r.lru_list,
      count-snoc j key (erase key r.lru_list),
    );
    pinned = λ j. ground (arith, v.pinned j);
  }

  pub remove-IsConsistent : Lru.remove r key ≡ some r' → IsConsistent r'
  unfolding Lru.remove
  remove-IsConsistent h = record {
    lru = λ j. ground (arith, v.lru j, e.beq_iff key j, count-erase j key r.lru_list);
    pinned = λ j. ground (arith, v.pinned j, e.beq_iff key j, count-erase j key r.pinned_list);
  }

  pub pop_replaced-IsConsistent : Lru.pop_replaced r ≡ some (key, r') → IsConsistent r'
  unfolding Lru.pop_replaced
  pop_replaced-IsConsistent h = record {
    lru = λ j. ground (arith, v.lru j, e.beq_iff key j);
    pinned = λ j. ground (arith, v.pinned j, e.beq_iff key j);
  }
