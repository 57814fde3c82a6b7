-- ===== src/Path/Names.antt =====
-- The iterator gives the names of a path, in order.
use hscfs.Base.{
  ℕ, zero, suc, ◌+◌, ◌-◌, ◌<◌, ◌≤◌, ◌≡◌, inl, inr, refl, sym, ap, ◌∙◌, subst, List, [], ◌∷◌, ◌++◌,
  true, false, none, some, ◌==◌, if◌then◌else◌, arith, Bool-cases, Option-cases, length, take, drop,
  length-drop,
}
use hscfs.Path.{
  slash, first_at, find_first_of, value_or, PathDentryIterator, begin, get, next, names_from,
  is_pos_equal,
}

-- The names in a string, independently of the iterator: the runs of other characters than slashes.
abbrev pub emit : List ℕ → List (List ℕ) → List (List ℕ)
emit [] names = names
emit (x ∷ xs) names = (x ∷ xs) ∷ names

abbrev pub names_after : List ℕ → List ℕ → List (List ℕ)
names_after name [] = emit name []
names_after name (x ∷ xs) =
    if x == slash then emit name (names_after [] xs) else names_after (name ++ (x ∷ [])) xs

abbrev pub names_of : List ℕ → List (List ℕ)
names_of path = names_after [] path

no_name : (s : List ℕ) → first_at false s ≡ none → names_of s ≡ []
no_name [] h = refl
no_name (x ∷ xs) h = ground (arith, no_name xs)

skipped :
    (s : List ℕ) (i : ℕ)
    → first_at false s ≡ some i
    → (names_of s ≡ names_of (drop i s)) × (i < length s) × (first_at false (drop i s) ≡ some 0)
skipped [] i h = absurd (ground arith)
skipped (x ∷ xs) i h = elim (Bool-cases (x == slash)) [
  | inl here ↦ elim (Option-cases (first_at false xs)) [
    | inl gone ↦ absurd (ground arith)
    | inr (k, found) ↦
        let at : i ≡ suc k = ground (arith, here, found) in
        let ih = skipped xs k found in rw at (ground (arith, here), omega (arith, ih.1), ih.2)
  ]
  | inr elsewhere ↦
      let at : i ≡ 0 = ground (arith, elsewhere) in
      rw at (refl, omega arith, ground (arith, elsewhere))
]

name_length : List ℕ → ℕ
name_length [] = 0
name_length (x ∷ xs) = if x == slash then 0 else suc (name_length xs)

name_length-eq : (t : List ℕ) → value_or (first_at true t) (length t) ≡ name_length t
unfolding name_length
name_length-eq [] = refl
name_length-eq (x ∷ xs) = elim (Option-cases (first_at true xs)) [
  | inl gone ↦ ground (arith, name_length-eq xs)
  | inr (k, found) ↦ ground (arith, name_length-eq xs)
]

pub append_nil : (xs : List ℕ) → xs ++ [] ≡ xs
append_nil [] = refl
append_nil (x ∷ xs) = ap (λ l. x ∷ l) (append_nil xs)

append_one : (xs ys : List ℕ) (x : ℕ) → (xs ++ (x ∷ [])) ++ ys ≡ xs ++ (x ∷ ys)
append_one [] ys x = refl
append_one (z ∷ xs) ys x = ap (λ l. z ∷ l) (append_one xs ys x)

cut :
    (t name : List ℕ)
    → names_after name t ≡ emit (name ++ take (name_length t) t) (names_of (drop (name_length t) t))
unfolding name_length
cut [] name = rw (append_nil name) refl
cut (x ∷ xs) name = elim (Bool-cases (x == slash)) [
  | inl here ↦ rw here (rw (append_nil name, here) refl)
  | inr more ↦
      rw more (rw (sym (append_one name (take (name_length xs) xs) x)) (cut xs (name ++ (x ∷ []))))
]

starts :
    (t : List ℕ)
    → first_at false t ≡ some 0
    → names_of t ≡ take (name_length t) t ∷ names_of (drop (name_length t) t)
unfolding name_length
starts [] h = absurd (ground arith)
starts (x ∷ xs) h = elim (Bool-cases (x == slash)) [
  | inl here ↦ elim (Option-cases (first_at false xs)) [
    | inl gone ↦ absurd (ground arith)
    | inr (k, found) ↦ absurd (ground (arith, here, found))
  ]
  | inr other ↦ rw other (cut xs (x ∷ []))
]

name_length-positive : (t : List ℕ) → first_at false t ≡ some 0 → 0 < name_length t
unfolding name_length
name_length-positive [] h = absurd (ground arith)
name_length-positive (x ∷ xs) h = elim (Option-cases (first_at false xs)) [
  | inl gone ↦ ground arith
  | inr (k, found) ↦ ground arith
]

name_length-le : (t : List ℕ) → name_length t ≤ length t
unfolding name_length
name_length-le [] = omega arith
name_length-le (x ∷ xs) = ground (arith, name_length-le xs)

drop-drop : (m n : ℕ) (xs : List ℕ) → drop n (drop m xs) ≡ drop (m + n) xs
drop-drop zero n xs = ap (λ k. drop k xs) (omega arith)
drop-drop (suc m) zero [] = let e : suc m + 0 ≡ suc m = omega arith in rw e refl
drop-drop (suc m) (suc n) [] = let e : suc m + suc n ≡ suc (m + suc n) = omega arith in rw e refl
drop-drop (suc m) n (x ∷ xs) =
    let e : suc m + n ≡ suc (m + n) = omega arith in rw e (drop-drop m n xs)

drop-length : (xs : List ℕ) → drop (length xs) xs ≡ []
drop-length [] = refl
drop-length (x ∷ xs) = drop-length xs

abbrev at_pos : ℕ → PathDentryIterator
at_pos p = record { cur_pos = p; nxt_start_pos = none }

-- Where the name that starts at `p` ends.
end_of_name :
    (path : List ℕ) (p : ℕ)
    → p ≤ length path
    → value_or (find_first_of path p) (length path) ≡ p + name_length (drop p path)
end_of_name path p inside = elim (Option-cases (first_at true (drop p path))) [
  | inl none_left ↦ ground (arith, name_length-eq (drop p path), length-drop p path)
  | inr (k, found) ↦ ground (arith, name_length-eq (drop p path))
]

get-eq :
    (path : List ℕ) (p i : ℕ)
    → first_at false (drop p path) ≡ some i
    → p + i ≤ length path
    → (let t = drop (p + i) path in
        get path (at_pos p) ≡ (
          take (name_length t) t,
          record { cur_pos = p; nxt_start_pos = some (p + i + name_length t) },
        ))
unfolding get
get-eq path p i found inside =
    let stop = end_of_name path (p + i) inside in
    let len : p + i + name_length (drop (p + i) path) - (p + i) ≡ name_length (drop (p + i) path) =
      omega arith in
    rw (found, stop, get) (rw len refl)

-- A step of the loop.
names_from-ends :
    (fuel : ℕ) (path : List ℕ) (p : ℕ)
    → first_at false (drop p path) ≡ none
    → names_from (suc fuel) path (at_pos p) ≡ some []
unfolding names_from
names_from-ends fuel path p h = rw (drop-length path) (ground (arith, h, drop-length path))

names_from-goes_on :
    (fuel : ℕ) (path : List ℕ) (p i : ℕ) (names : List (List ℕ))
    → first_at false (drop p path) ≡ some i
    → p + i < length path
    → names_from fuel path (at_pos (p + i + name_length (drop (p + i) path))) ≡ some names
    → names_from (suc fuel) path (at_pos p)
      ≡ some (take (name_length (drop (p + i) path)) (drop (p + i) path) ∷ names)
unfolding names_from next
names_from-goes_on fuel path p i names found inside rest =
    let goes : is_pos_equal path p (length path) ≡ false =
      rw (drop-length path, found) (ground (arith, inside)) in
    let got = get-eq path p i found (omega (arith, inside)) in
    rw (goes, names_from) (rw (got, next) (rw rest refl))

names_from-names_of :
    (fuel : ℕ) (path : List ℕ) (p : ℕ)
    → p ≤ length path
    → length path - p < fuel
    → names_from fuel path (at_pos p) ≡ some (names_of (drop p path))
names_from-names_of zero path p inside enough = absurd (omega (arith, enough))
names_from-names_of (suc fuel) path p inside enough =
    elim (Option-cases (first_at false (drop p path))) [
      | inl gone ↦ rw (no_name (drop p path) gone) (names_from-ends fuel path p gone)
      | inr (i, found) ↦
          let (skip, short, start) = skipped (drop p path) i found in
          let place = drop-drop p i path in
          let start' : first_at false (drop (p + i) path) ≡ some 0 =
            subst (λ t. first_at false t ≡ some 0) place start in
          let inner : p + i < length path = omega (arith, short, length-drop p path) in
          let size : name_length (drop (p + i) path) ≤ length path - (p + i) =
            omega (arith, name_length-le (drop (p + i) path), length-drop (p + i) path) in
          let step = name_length-positive (drop (p + i) path) start' in
          let rest =
            names_from-names_of fuel path (p + i + name_length (drop (p + i) path))
              (omega (arith, size, inner)) (omega (arith, enough, step, inner)) in
          names_from-goes_on fuel path p i
            (names_of (drop (p + i + name_length (drop (p + i) path)) path)) found inner rest
          ∙ ap some (
              sym (
                skip
                ∙ ap names_of place
                ∙ starts (drop (p + i) path) start'
                ∙ ap (λ l. take (name_length (drop (p + i) path)) (drop (p + i) path) ∷ names_of l)
                    (drop-drop (p + i) (name_length (drop (p + i) path)) path)))
    ]

-- The loop over a path ends, and `get` returns the names of the path in order: what stands between the
-- slashes, without the empty parts.
pub names_from-begin :
    (path : List ℕ) → names_from (suc (length path)) path (begin path) ≡ some (names_of path)
names_from-begin path = names_from-names_of (suc (length path)) path 0 (omega arith) (omega arith)
