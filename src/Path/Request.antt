-- ===== src/Path/Request.antt =====
-- The request that asks the SSD to resolve a path: what it says, and how much of its memory is written.
use hscfs.Base.{
  ℕ, suc, ◌+◌, ◌-◌, ◌%◌, ◌<◌, ◌≤◌, ◌≡◌, ◌≢◌, ◌↔◌, inl, inr, refl, sym, ap, ◌∙◌, List, [], ◌∷◌, ◌++◌,
  Bool, true, false, not, ◌&&◌, some, ◌==◌, arith, Bool-cases, length, length-append,
}
use hscfs.Path.{
  slash, begin, construct_task, PathLookupTask, header_size, upper_align, total_dentry_len,
  path_string_of, starts_inside,
}
use hscfs.Path.Names.{append_nil, emit, names_after, names_of, names_from-begin}

abbrev pub no_slash : List ℕ → Bool
no_slash [] = true
no_slash (x ∷ xs) = not (x == slash) && no_slash xs

abbrev is_name : List ℕ → Bool
is_name [] = false
is_name (x ∷ xs) = no_slash (x ∷ xs)

abbrev all_names : List (List ℕ) → Bool
all_names [] = true
all_names (name ∷ names) = is_name name && all_names names

no_slash-append : (xs ys : List ℕ) → no_slash (xs ++ ys) ≡ (no_slash xs && no_slash ys)
no_slash-append [] ys = refl
no_slash-append (x ∷ xs) ys = ground (arith, no_slash-append xs ys)

emit-all_names :
    (name : List ℕ) (names : List (List ℕ))
    → no_slash name ≡ true
    → all_names names ≡ true
    → all_names (emit name names) ≡ true
emit-all_names [] names h rest = rest
emit-all_names (x ∷ xs) names h rest = ground arith

names_after-all_names :
    (name s : List ℕ) → no_slash name ≡ true → all_names (names_after name s) ≡ true
names_after-all_names name [] h = emit-all_names name [] h refl
names_after-all_names name (x ∷ xs) h = elim (Bool-cases (x == slash)) [
  | inl here ↦
      rw here (emit-all_names name (names_after [] xs) h (names_after-all_names [] xs refl))
  | inr other ↦
      rw other (
        names_after-all_names (name ++ (x ∷ [])) xs (ground (arith, no_slash-append name (x ∷ []))))
]

append_assoc : (xs ys zs : List ℕ) → (xs ++ ys) ++ zs ≡ xs ++ (ys ++ zs)
append_assoc [] ys zs = refl
append_assoc (x ∷ xs) ys zs = ap (λ l. x ∷ l) (append_assoc xs ys zs)

-- A name with a slash behind it is read back.
names_after-name :
    (start name rest : List ℕ)
    → no_slash name ≡ true
    → names_after start (name ++ slash ∷ rest) ≡ emit (start ++ name) (names_of rest)
names_after-name start [] rest h = rw (append_nil start) refl
names_after-name start (x ∷ xs) rest h =
    let other : (x == slash) ≡ false = ground arith in
    rw (other, sym (append_assoc start (x ∷ []) xs))
      (names_after-name (start ++ (x ∷ [])) xs rest (ground arith))

path_string_of-names_of :
    (names : List (List ℕ)) → all_names names ≡ true → names_of (path_string_of names) ≡ names
path_string_of-names_of [] h = refl
path_string_of-names_of ([] ∷ names) h = absurd (ground arith)
path_string_of-names_of ((x ∷ xs) ∷ names) h =
    names_after-name [] (x ∷ xs) (path_string_of names) (ground arith)
    ∙ ap (λ l. (x ∷ xs) ∷ l) (path_string_of-names_of names (ground arith))

length-path_string_of :
    (names : List (List ℕ)) → length (path_string_of names) ≡ total_dentry_len names + length names
length-path_string_of [] = omega arith
length-path_string_of (name ∷ names) =
    omega (arith, length-append name (slash ∷ path_string_of names), length-path_string_of names)

starts_inside-true :
    (task_size pos : ℕ) (names : List (List ℕ))
    → all_names names ≡ true
    → pos + total_dentry_len names + length names ≤ task_size + 1
    → starts_inside task_size pos names ≡ true
starts_inside-true task_size pos [] h fits = refl
starts_inside-true task_size pos ([] ∷ names) h fits = absurd (ground arith)
starts_inside-true task_size pos ((x ∷ xs) ∷ names) h fits =
    let ih =
      starts_inside-true task_size (pos + suc (length xs) + 1) names (ground arith)
        (omega (arith, fits)) in
    ground (arith, ih, fits)

some_characters :
    (names : List (List ℕ))
    → all_names names ≡ true
    → names ≢ []
    → (0 < length names) × (0 < total_dentry_len names)
some_characters [] h ne = absurd (ne refl)
some_characters ([] ∷ names) h ne = absurd (ground arith)
some_characters ((x ∷ xs) ∷ names) h ne = (omega arith, omega arith)

-- For a path with a name the request is built. It says how many names there are, and the string that is
-- written after its header has the names of the path, each with a slash behind it. That is one
-- character more than the length which the request says, so that the last one is written behind the
-- end of the request's memory exactly if that length is a multiple of four.
pub construct_task-Builds :
    (path : List ℕ) (start_ino : ℕ)
    → names_of path ≢ []
    → (t : PathLookupTask) × (construct_task path start_ino (begin path) ≡ some t)
      × (t.start_ino ≡ start_ino)
      × (t.depth ≡ length (names_of path))
      × (names_of t.path_string ≡ names_of path)
      × (length t.path_string ≡ t.pathlen + 1)
      × ((t.task_size < header_size + length t.path_string) ↔ (t.pathlen % 4 ≡ 0))
unfolding construct_task
construct_task-Builds path start_ino ne =
    let names = names_of path in
    let all : all_names names ≡ true = names_after-all_names [] path refl in
    let (count, chars) = some_characters names all ne in
    let path_len = total_dentry_len names + length names - 1 in
    let inside : starts_inside (upper_align (header_size + path_len)) header_size names ≡ true =
      starts_inside-true (upper_align (header_size + path_len)) header_size names all
        (omega (arith, count, chars)) in
    let test : not (length names == 0) && not (total_dentry_len names == 0) ≡ true =
      ground (arith, count, chars) in
    let size : length (path_string_of names) ≡ path_len + 1 =
      omega (arith, length-path_string_of names, count) in
    (
      record {
        start_ino = start_ino;
        depth = length names;
        pathlen = path_len;
        task_size = upper_align (header_size + path_len);
        path_string = path_string_of names;
      },
      rw (names_from-begin path, construct_task) (rw (test, inside) refl),
      refl,
      refl,
      path_string_of-names_of names all,
      size,
      (λ h. omega (arith, h, size), λ h. omega (arith, h, size)),
    )
