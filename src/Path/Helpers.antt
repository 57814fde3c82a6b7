-- ===== src/Path/Helpers.antt =====
-- The directory and the file name of an absolute path.
use hscfs.Base.{
  ℕ, suc, ◌+◌, ◌≡◌, ◌≢◌, inl, inr, refl, ap, ◌∙◌, List, [], ◌∷◌, ◌++◌, true, none, some, ◌==◌,
  arith, Bool-cases, Option-cases, take, drop, take-append-drop,
}
use hscfs.Path.{slash, find_last_of, extract_dir_path, extract_file_name, extract_abs_path}
use hscfs.Path.Names.{emit, names_after, names_of}
use hscfs.Path.Request.{no_slash}

no_last : (path : List ℕ) → find_last_of path ≡ none → no_slash path ≡ true
no_last [] h = refl
no_last (x ∷ xs) h = elim (Option-cases (find_last_of xs)) [
  | inl gone ↦ ground (arith, no_last xs gone)
  | inr (i, found) ↦ absurd (ground arith)
]

after_last :
    (path : List ℕ) (i : ℕ) → find_last_of path ≡ some i → no_slash (drop (suc i) path) ≡ true
after_last [] i h = absurd (ground arith)
after_last (x ∷ xs) i h = elim (Option-cases (find_last_of xs)) [
  | inl gone ↦ let at : i ≡ 0 = ground arith in rw at (no_last xs gone)
  | inr (j, found) ↦ let at : i ≡ suc j = ground arith in rw at (after_last xs j found)
]

has_last : (user path : List ℕ) → extract_abs_path user ≡ some path → find_last_of path ≢ none
unfolding extract_abs_path
has_last [] path h = absurd (ground arith)
has_last (x ∷ xs) path h = λ gone. elim (Option-cases (find_last_of xs)) [
  | inl none_after ↦ ground arith
  | inr (i, found) ↦ ground arith
]

emit-append : (name : List ℕ) (xs ys : List (List ℕ)) → emit name (xs ++ ys) ≡ emit name xs ++ ys
emit-append [] xs ys = refl
emit-append (x ∷ name) xs ys = refl

names_after-last :
    (path name : List ℕ) (i : ℕ)
    → find_last_of path ≡ some i
    → names_after name path ≡ names_after name (take (suc i) path) ++ names_of (drop (suc i) path)
names_after-last [] name i h = absurd (ground arith)
names_after-last (x ∷ xs) name i h = elim (Option-cases (find_last_of xs)) [
  | inl gone ↦
      let at : i ≡ 0 = ground arith in
      let here : (x == slash) ≡ true = ground arith in
      rw (at, here) (emit-append name [] (names_of xs))
  | inr (j, found) ↦
      let at : i ≡ suc j = ground arith in
      elim (Bool-cases (x == slash)) [
        | inl here ↦
            rw (at, here)
              (ap (emit name) (names_after-last xs [] j found)
                ∙ emit-append name (names_after [] (take (suc j) xs)) (names_of (drop (suc j) xs)))
        | inr other ↦ rw (at, other) (names_after-last xs (name ++ (x ∷ [])) j found)
      ]
]

-- An absolute path is split, without a failed assertion, into a directory and a file name, which give the
-- path again when they are joined. The file name has no slash, and the names of the path are those of
-- the directory and then the file's.
pub extract_dir_path-extract_file_name :
    (user path : List ℕ)
    → extract_abs_path user ≡ some path
    → (dir : List ℕ) × (file_name : List ℕ) × (extract_dir_path path ≡ some dir)
      × (extract_file_name path ≡ some file_name)
      × (dir ++ file_name ≡ path)
      × (no_slash file_name ≡ true)
      × (names_of path ≡ names_of dir ++ names_of file_name)
unfolding extract_dir_path extract_file_name
extract_dir_path-extract_file_name user path h = elim (Option-cases (find_last_of path)) [
  | inl gone ↦ absurd (has_last user path h gone)
  | inr (i, found) ↦
      let next : i + 1 ≡ suc i = omega arith in
      (
        take (suc i) path,
        drop (suc i) path,
        rw (found, extract_dir_path) (rw next refl),
        rw (found, extract_file_name) (rw next refl),
        take-append-drop (suc i) path,
        after_last path i found,
        names_after-last path [] i found,
      )
]
