-- ===== src/Lru/Stamps.antt =====
-- Lists of keys whose stamps ascend, the shape of a list kept in the order of last use.
use hscfs.Base.{ℕ, suc, ◌<◌, ◌≡◌, ◌≢◌, List, [], ◌∷◌, ◌++◌, arith, Eq, count, erase, put, =?_refl}

module _ {K : Type 0} ⦃e : Eq K⦄ where
  abbrev pub After : (K → ℕ) → ℕ → List K → Type 0
  After u n [] = Unit {0}
  After u n (x ∷ xs) = (n < u x) × After u n xs

  abbrev pub Before : (K → ℕ) → ℕ → List K → Type 0
  Before u n [] = Unit {0}
  Before u n (x ∷ xs) = (u x < n) × Before u n xs

  abbrev pub Ascending : (K → ℕ) → List K → Type 0
  Ascending u [] = Unit {0}
  Ascending u (x ∷ xs) = After u (u x) xs × Ascending u xs

  After-erase : (u : K → ℕ) (n : ℕ) (k : K) (xs : List K) → After u n xs → After u n (erase k xs)
  After-erase u n k [] h = tt
  After-erase u n k (x ∷ xs) h = ground (arith, After-erase u n k xs h.1)

  pub Before-erase :
      (u : K → ℕ) (n : ℕ) (k : K) (xs : List K) → Before u n xs → Before u n (erase k xs)
  Before-erase u n k [] h = tt
  Before-erase u n k (x ∷ xs) h = ground (arith, Before-erase u n k xs h.1)

  pub Ascending-erase :
      (u : K → ℕ) (k : K) (xs : List K) → Ascending u xs → Ascending u (erase k xs)
  Ascending-erase u k [] h = tt
  Ascending-erase u k (x ∷ xs) h =
      ground (arith, After-erase u (u x) k xs h.0, Ascending-erase u k xs h.1)

  pub Before-later : (u : K → ℕ) (n : ℕ) (xs : List K) → Before u n xs → Before u (suc n) xs
  Before-later u n [] h = tt
  Before-later u n (x ∷ xs) h = (omega arith, Before-later u n xs h.1)

  -- A key that is not in the list may be stamped anew.
  After-put :
      (u : K → ℕ) (n t : ℕ) (k : K) (xs : List K)
      → count k xs ≡ 0
      → After u n xs
      → After (put u k t) n xs
  After-put u n t k [] c h = tt
  After-put u n t k (x ∷ xs) c h =
      ground (arith, After-put u n t k xs, e.beq_iff k x, e.beq_iff x k)

  pub Before-put :
      (u : K → ℕ) (n t : ℕ) (k : K) (xs : List K)
      → count k xs ≡ 0
      → Before u n xs
      → Before (put u k t) n xs
  Before-put u n t k [] c h = tt
  Before-put u n t k (x ∷ xs) c h =
      ground (arith, Before-put u n t k xs, e.beq_iff k x, e.beq_iff x k)

  pub Ascending-put :
      (u : K → ℕ) (t : ℕ) (k : K) (xs : List K)
      → count k xs ≡ 0
      → Ascending u xs
      → Ascending (put u k t) xs
  Ascending-put u t k [] c h = tt
  Ascending-put u t k (x ∷ xs) c h =
      ground (arith, After-put u (u x) t k xs, Ascending-put u t k xs, e.beq_iff k x, e.beq_iff x k)

  After-snoc :
      (u : K → ℕ) (n : ℕ) (k : K) (xs : List K) → After u n xs → n < u k → After u n (xs ++ k ∷ [])
  After-snoc u n k [] h l = (l, tt)
  After-snoc u n k (x ∷ xs) h l = (h.0, After-snoc u n k xs h.1 l)

  Ascending-snoc :
      (u : K → ℕ) (k : K) (xs : List K)
      → Ascending u xs
      → Before u (u k) xs
      → Ascending u (xs ++ k ∷ [])
  Ascending-snoc u k [] h b = (tt, tt)
  Ascending-snoc u k (x ∷ xs) h b = (After-snoc u (u x) k xs h.0 b.0, Ascending-snoc u k xs h.1 b.1)

  Before-snoc :
      (u : K → ℕ) (n : ℕ) (k : K) (xs : List K)
      → Before u n xs
      → u k < n
      → Before u n (xs ++ k ∷ [])
  Before-snoc u n k [] h l = (l, tt)
  Before-snoc u n k (x ∷ xs) h l = (h.0, Before-snoc u n k xs h.1 l)

  -- A key used at time `t` goes to the end.
  pub Ascending-use :
      (u : K → ℕ) (t : ℕ) (k : K) (xs : List K)
      → count k xs ≡ 0
      → Ascending u xs
      → Before u t xs
      → Ascending (put u k t) (xs ++ k ∷ [])
  Ascending-use u t k xs c h b =
      Ascending-snoc (put u k t) k xs (Ascending-put u t k xs c h)
        (rw (=?_refl k) (Before-put u t t k xs c b))

  pub Before-use :
      (u : K → ℕ) (t : ℕ) (k : K) (xs : List K)
      → count k xs ≡ 0
      → Before u t xs
      → Before (put u k t) (suc t) (xs ++ k ∷ [])
  Before-use u t k xs c b =
      Before-snoc (put u k t) (suc t) k xs
        (Before-later (put u k t) t xs (Before-put u t t k xs c b)) (rw (=?_refl k) (omega arith))

  -- What stands after a stamp was used later.
  pub After-count :
      (u : K → ℕ) (n : ℕ) (k : K) (xs : List K) → After u n xs → count k xs ≢ 0 → n < u k
  After-count u n k [] h c = absurd (omega arith)
  After-count u n k (x ∷ xs) h c = ground (arith, After-count u n k xs h.1, e.beq_iff x k)
