-- ===== src/Lru/Size.antt =====
-- The number of keys that a replacer holds, over both lists.
use hscfs.Base.{
  ℕ, suc, ◌+◌, ◌≡◌, ◌≢◌, List, [], ◌∷◌, some, arith, Eq, count, erase, length, length-append,
}
use hscfs.Lru
use hscfs.Lru.{Lru}
use hscfs.Lru.Invariant.{IsConsistent}

abbrev pub size : {K : Type 0} → Lru K → ℕ
size r = length r.lru_list + length r.pinned_list

length-erase :
    {K : Type 0} ⦃e : Eq K⦄ (k : K) (xs : List K)
    → count k xs ≢ 0
    → suc (length (erase k xs)) ≡ length xs
length-erase k [] h = absurd (omega arith)
length-erase k (x ∷ xs) h = ground (arith, length-erase k xs)

module _ {K : Type 0} ⦃e : Eq K⦄ (r : Lru K) (key : K) {r' : Lru K} (v : IsConsistent r) where
  pub size-add : Lru.add r key ≡ some r' → size r' ≡ suc (size r)
  unfolding Lru.add
  size-add h = ground (arith, length-append r.lru_list (key ∷ []))

  pub size-pin : Lru.pin r key ≡ some r' → size r' ≡ size r
  unfolding Lru.pin
  size-pin h =
      ground (arith, v.lru key, length-erase key r.lru_list, length-append r.pinned_list (key ∷ []))

  pub size-unpin : Lru.unpin r key ≡ some r' → size r' ≡ size r
  unfolding Lru.unpin
  size-unpin h =
      ground
        (arith, v.pinned key, length-erase key r.pinned_list, length-append r.lru_list (key ∷ []))

  pub size-access : Lru.access r key ≡ some r' → size r' ≡ size r
  unfolding Lru.access
  size-access h = ground (
    arith,
    v.lru key,
    length-erase key r.lru_list,
    length-append (erase key r.lru_list) (key ∷ []),
  )

  pub size-remove : Lru.remove r key ≡ some r' → suc (size r') ≡ size r
  unfolding Lru.remove
  size-remove h =
      ground (
        arith,
        v.lru key,
        v.pinned key,
        length-erase key r.lru_list,
        length-erase key r.pinned_list,
      )

  pub size-pop_replaced : Lru.pop_replaced r ≡ some (key, r') → suc (size r') ≡ size r
  unfolding Lru.pop_replaced
  size-pop_replaced h = ground arith
