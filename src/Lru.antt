-- ===== src/Lru.antt =====
-- The replacer of the caches (inc/cache/cache_manager.hh, `lru_replacer`): the list of the keys that
-- may be replaced, least recently used first, the list of the pinned keys, and the map `key_states`
-- from a key to its pin bit. A `std::list` iterator in `key_states` stands for the element that
-- holds the key: an element is found again by its key, since no key is in the lists twice
-- (Lru/Invariant.antt). `none` is a failed assertion, or `at` of a key that is not there.
pub mod Invariant
mod Stamps
pub mod Total
pub mod Size
pub mod Recency
use hscfs.Base.{
  ℕ, List, [], ◌∷◌, ◌++◌, Bool, true, false, Option, none, some, length, if◌then◌else◌, Eq, erase,
  put,
}

pub record Lru (K : Type 0) : Type 0 where
  pub lru_list : List K
  pub pinned_list : List K
  pub key_states : K → Option Bool

module _ {K : Type 0} ⦃e : Eq K⦄ where
  unfoldable pub empty : Lru K
  empty = record { lru_list = []; pinned_list = []; key_states = λ _. none }

  unfoldable pub add : Lru K → K → Option (Lru K)
  add r key = elim (r.key_states key) [
    | none ↦ some (record r {
      lru_list = r.lru_list ++ key ∷ [];
      key_states = put r.key_states key (some false);
    })
    | some _ ↦ none
  ]

  unfoldable pub get_num_can_replace : Lru K → ℕ
  get_num_can_replace r = length r.lru_list

  -- The checks and the removal, for a list that has the front `key`.
  pop_front : Lru K → K → List K → Option Bool → Option (K × Lru K)
  pop_front r key rest (some false) =
      some (key, record r { lru_list = rest; key_states = put r.key_states key none })
  pop_front r key rest _ = none

  unfoldable pub pop_replaced : Lru K → Option (K × Lru K)
  unfolding pop_front
  pop_replaced r = elim r.lru_list [
    | [] ↦ none
    | key ∷ rest ↦ pop_front r key rest (r.key_states key)
  ]

  unfoldable pub pin : Lru K → K → Option (Lru K)
  pin r key = elim (r.key_states key) [
    | none ↦ none
    | some true ↦ some r
    | some false ↦ some (record {
      lru_list = erase key r.lru_list;
      pinned_list = r.pinned_list ++ key ∷ [];
      key_states = put r.key_states key (some true);
    })
  ]

  unfoldable pub unpin : Lru K → K → Option (Lru K)
  unpin r key = elim (r.key_states key) [
    | none ↦ none
    | some false ↦ some r
    | some true ↦ some (record {
      lru_list = r.lru_list ++ key ∷ [];
      pinned_list = erase key r.pinned_list;
      key_states = put r.key_states key (some false);
    })
  ]

  unfoldable pub access : Lru K → K → Option (Lru K)
  access r key = elim (r.key_states key) [
    | none ↦ none
    | some true ↦ some r
    | some false ↦ some (record r { lru_list = erase key r.lru_list ++ key ∷ [] })
  ]

  unfoldable pub remove : Lru K → K → Option (Lru K)
  remove r key = elim (r.key_states key) [
    | none ↦ none
    | some pinned ↦ some (record {
      lru_list = if pinned then r.lru_list else erase key r.lru_list;
      pinned_list = if pinned then erase key r.pinned_list else r.pinned_list;
      key_states = put r.key_states key none;
    })
  ]
