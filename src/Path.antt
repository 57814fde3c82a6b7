-- ===== src/Path.antt =====
-- Paths (src/fs/path_utils.cc, inc/fs/path_utils.hh): the iterator over the names in a path, the helpers
-- that split a path, and the request that asks the SSD to resolve one. A string is the list of its
-- characters; `npos` is `none`. The request's memory and its submission are left out.
pub mod Names
pub mod Helpers
pub mod Request
use hscfs.Base.{
  ℕ, zero, suc, ◌+◌, ◌-◌, ◌*◌, ◌/◌, ◌%◌, ◌^◌, List, [], ◌∷◌, ◌++◌, Bool, true, false, not, ◌&&◌,
  ◌||◌, Option, none, some, ltb, leb, ◌==◌, if◌then◌else◌, guard, ◌>>=◌, ◌>>◌, length, take, drop,
}
use hscfs.Base.Outcome.{Error}

abbrev pub slash : ℕ
slash = 47

-- `std::string`: `substr`, and the searches from a position on.
abbrev pub substr : List ℕ → ℕ → ℕ → List ℕ
substr path start n = take n (drop start path)

-- The first character that is, or is not, a slash.
abbrev pub first_at : Bool → List ℕ → Option ℕ
first_at is [] = none
first_at is (x ∷ xs) =
    if x == slash
    then (if is then some 0 else (do i ← first_at is xs; some (suc i)))
    else (if is then (do i ← first_at is xs; some (suc i)) else some 0)

abbrev pub find_first_not_of : List ℕ → ℕ → Option ℕ
find_first_not_of path pos = do i ← first_at false (drop pos path); some (pos + i)

abbrev pub find_first_of : List ℕ → ℕ → Option ℕ
find_first_of path pos = do i ← first_at true (drop pos path); some (pos + i)

abbrev pub value_or : Option ℕ → ℕ → ℕ
value_or none n = n
value_or (some i) n = i

abbrev pub same_pos : Option ℕ → Option ℕ → Bool
same_pos none none = true
same_pos none (some j) = false
same_pos (some i) none = false
same_pos (some i) (some j) = i == j

pub record PathDentryIterator : Type 0 where
  pub cur_pos : ℕ
  pub nxt_start_pos : Option ℕ

abbrev pub begin : List ℕ → PathDentryIterator
begin path = record { cur_pos = 0; nxt_start_pos = none }

abbrev pub end : List ℕ → PathDentryIterator
end path = record { cur_pos = length path; nxt_start_pos = none }

-- The name, and the iterator, which keeps where the next name is looked for.
unfoldable pub get : List ℕ → PathDentryIterator → List ℕ × PathDentryIterator
get path it =
    let start_pos = value_or (find_first_not_of path it.cur_pos) (length path) in
    let end_pos = value_or (find_first_of path start_pos) (length path) in
    (
      substr path start_pos (end_pos - start_pos),
      record it { nxt_start_pos = some (value_or it.nxt_start_pos end_pos) },
    )

-- `npos` as a position stands for one that is beyond every string; `get` never leaves it.
unfoldable pub next : List ℕ → PathDentryIterator → PathDentryIterator
next path it = elim (it.nxt_start_pos) [
  | some pos ↦ record { cur_pos = pos; nxt_start_pos = none }
  | none ↦ record {
    cur_pos = value_or ((get path it).1).nxt_start_pos (2 ^ 64 - 1);
    nxt_start_pos = none;
  }
]

abbrev pub is_pos_equal : List ℕ → ℕ → ℕ → Bool
is_pos_equal path pos1 pos2 =
    if pos1 == pos2
    then true
    else same_pos (find_first_not_of path pos1) (find_first_not_of path pos2)

unfoldable pub is_last_component : List ℕ → PathDentryIterator → Bool
is_last_component path it = is_pos_equal path (next path it).cur_pos (end path).cur_pos

-- The loop from an iterator to the end, with what `get` returns in each pass.
unfoldable pub names_from : ℕ → List ℕ → PathDentryIterator → Option (List (List ℕ))
names_from zero path it = none
names_from (suc fuel) path it =
    let rest = names_from fuel path (next path ((get path it).1)) in
    if is_pos_equal path it.cur_pos (end path).cur_pos
    then some []
    else (do names ← rest; some ((get path it).0 ∷ names))

-- `find_last_of` a slash.
abbrev pub find_last_of : List ℕ → Option ℕ
find_last_of [] = none
find_last_of (x ∷ xs) =
    let rest = find_last_of xs in
    elim rest [ some i ↦ some (suc i) | none ↦ if x == slash then some 0 else none ]

-- `none` is a failed assertion.
unfoldable pub extract_dir_path : List ℕ → Option (List ℕ)
extract_dir_path path = do pos ← find_last_of path; some (substr path 0 (pos + 1))

unfoldable pub extract_file_name : List ℕ → Option (List ℕ)
extract_file_name path = do pos ← find_last_of path; some (drop (pos + 1) path)

-- Without a prefix in the configuration; `none` is the exception.
unfoldable pub extract_abs_path : List ℕ → Option (List ℕ)
extract_abs_path [] = none
extract_abs_path (x ∷ xs) = if x == slash then some (x ∷ xs) else none

-- The request: the header, the size of its memory, and the characters that are written after the header.
pub record PathLookupTask : Type 0 where
  pub start_ino : ℕ
  pub depth : ℕ
  pub pathlen : ℕ
  pub task_size : ℕ
  pub path_string : List ℕ

abbrev pub header_size : ℕ
header_size = 12

abbrev pub upper_align : ℕ → ℕ
upper_align siz = (siz + 3) / 4 * 4

abbrev pub total_dentry_len : List (List ℕ) → ℕ
total_dentry_len [] = 0
total_dentry_len (name ∷ names) = length name + total_dentry_len names

abbrev pub path_string_of : List (List ℕ) → List ℕ
path_string_of [] = []
path_string_of (name ∷ names) = name ++ slash ∷ path_string_of names

-- The assertion of the loop that writes: a name starts inside the request.
abbrev pub starts_inside : ℕ → ℕ → List (List ℕ) → Bool
starts_inside task_size pos [] = true
starts_inside task_size pos (name ∷ names) =
    ltb pos task_size && starts_inside task_size (pos + length name + 1) names

unfoldable pub construct_task : List ℕ → ℕ → PathDentryIterator → Option PathLookupTask
construct_task path start_ino start_itr = do
  names ← names_from (suc (length path)) path start_itr
  guard (not (length names == 0) && not (total_dentry_len names == 0))
  let path_len = total_dentry_len names + length names - 1
  guard (starts_inside (upper_align (header_size + path_len)) header_size names)
  some (record {
    start_ino = start_ino;
    depth = length names;
    pathlen = path_len;
    task_size = upper_align (header_size + path_len);
    path_string = path_string_of names;
  })
