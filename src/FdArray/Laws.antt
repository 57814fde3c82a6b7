-- ===== src/FdArray/Laws.antt =====
-- What the descriptors promise: a descriptor that is handed out is the lowest free one from 3 on.
use hscfs.Base.{
  ℕ, ◌+◌, ◌*◌, ◌<◌, ◌≤◌, ◌≡◌, refl, ◌≢◌, ◌⊎◌, inl, inr, List, [], ◌∷◌, Option, none, some, ltb, leb,
  ◌==◌, ◌&&◌, if◌then◌else◌, put, nat_key, erase, arith, count, count-erase, suc, Option-cases,
  subst, =?_refl,
}
use hscfs.Base.Outcome.{done, thrown, invalid_fd}
use hscfs.FdArray.{
  FdArray, create, set_insert, unordered_insert, assign, alloc_next, alloc_from, alloc_fd, lookup,
  release, free_fd, opened, get_opened_file_of_fd,
}

-- The list is strictly increasing, with all elements above `b`.
abbrev pub Above : ℕ → List ℕ → Type 0
Above b [] = Unit {0}
Above b (x ∷ xs) = (b < x) × Above x xs

abbrev pub is_open : Option ℕ → ℕ
is_open none = 0
is_open (some file) = 1

abbrev pub is_closed : Option ℕ → ℕ
is_closed none = 1
is_closed (some file) = 0

pub record IsValid (a : FdArray) : Type 0 where
  pub sorted : Above 2 a.free_set
  pub bound : a.alloc_pos ≤ a.size
  pub low : 3 ≤ a.alloc_pos
  pub reserved : (k : ℕ) → k < 3 → a.fd_arr k ≡ none
  pub fresh : (k : ℕ) → a.alloc_pos ≤ k → a.fd_arr k ≡ none
  pub free :
      (k : ℕ)
      → count k a.free_set ≡ (if leb 3 k && ltb k a.alloc_pos then is_closed (a.fd_arr k) else 0)
  pub unclosed : (k : ℕ) → count k a.unclosed_fds ≡ is_open (a.fd_arr k)

-- The elements of a sorted list are above its bound.
Above-count : (b k : ℕ) (xs : List ℕ) → Above b xs → k ≤ b → count k xs ≡ 0
Above-count b k [] up le = refl
Above-count b k (x ∷ xs) (lt, up) le = ground (arith, Above-count x k xs up)

Above-weaken : (b x : ℕ) (xs : List ℕ) → Above x xs → b < x → Above b xs
Above-weaken b x [] up lt = tt
Above-weaken b x (y ∷ ys) (low, up) lt = (omega arith, up)

set_insert-Above : (b fd : ℕ) (xs : List ℕ) → Above b xs → b < fd → Above b (set_insert fd xs)
unfolding set_insert
set_insert-Above b fd [] up lt = (lt, tt)
set_insert-Above b fd (x ∷ xs) (low, up) lt = ground (arith, set_insert-Above x fd xs up)

set_insert-count :
    (fd j : ℕ) (xs : List ℕ)
    → count fd xs ≡ 0
    → count j (set_insert fd xs) ≡ (if fd == j then suc (count j xs) else count j xs)
unfolding set_insert
set_insert-count fd j [] absent = ground arith
set_insert-count fd j (x ∷ xs) absent = ground (arith, set_insert-count fd j xs)

pub create-IsValid : (size : ℕ) → IsValid (create size)
unfolding create
create-IsValid size = record {
  sorted = tt;
  bound = omega arith;
  low = omega arith;
  reserved = λ k lt. refl;
  fresh = λ k le. refl;
  free = λ k. ground arith;
  unclosed = λ k. refl;
}

-- `fd` is handed out for `file`: it was the lowest free descriptor from 3 on, and no other changes.
pub record Opens (a a' : FdArray) (fd file : ℕ) : Type 0 where
  pub valid : IsValid a'
  pub low : 3 ≤ fd
  pub free : lookup a fd ≡ none
  pub lowest : (k : ℕ) → 3 ≤ k → k < fd → lookup a k ≢ none
  pub table : (k : ℕ) → lookup a' k ≡ put (lookup a) fd (some file) k

pub alloc_next-Opens :
    (a : FdArray) (file : ℕ)
    → IsValid a
    → a.free_set ≡ []
    → (a' : FdArray) × (alloc_next a file ≡ done a.alloc_pos a') × Opens a a' a.alloc_pos file
unfolding alloc_next assign lookup unordered_insert
alloc_next-Opens a file v empty =
    let used : (k : ℕ) → 3 ≤ k → k < a.alloc_pos → a.fd_arr k ≢ none =
      λ k low lt e. ground (arith, v.free k) in
    let a' : FdArray = record a {
      size = if a.alloc_pos == a.size then a.size * 2 else a.size;
      alloc_pos = a.alloc_pos + 1;
      fd_arr = put a.fd_arr a.alloc_pos (some file);
      unclosed_fds = unordered_insert a.alloc_pos a.unclosed_fds;
    } in
    (
      a',
      ground (arith, v.bound),
      record {
        valid = record {
          sorted = rw empty tt;
          bound = ground (arith, v.bound, v.low);
          low = omega (arith, v.low);
          reserved = λ k lt. ground (arith, v.reserved k, v.low);
          fresh = λ k le. ground (arith, v.fresh k);
          free = λ k. ground (arith, v.free k, v.low, empty);
          unclosed = λ k. ground (arith, v.unclosed k, v.unclosed a.alloc_pos, v.fresh a.alloc_pos);
        };
        low = v.low;
        free = ground (arith, v.fresh a.alloc_pos);
        lowest = λ k low lt. ground (arith, used k, v.bound);
        table = λ k. ground (arith, v.fresh k, v.bound, v.low);
      },
    )

alloc_next-Opens' :
    (a : FdArray) (file : ℕ)
    → IsValid a
    → a.free_set ≡ []
    → (a' : FdArray) × (alloc_from [] a file ≡ done a.alloc_pos a') × Opens a a' a.alloc_pos file
unfolding alloc_from
alloc_next-Opens' a file v empty = alloc_next-Opens a file v empty

pub alloc_from-Opens :
    (a : FdArray) (file fd : ℕ) (rest : List ℕ)
    → IsValid a
    → a.free_set ≡ fd ∷ rest
    → (a' : FdArray) × (alloc_from (fd ∷ rest) a file ≡ done fd a') × Opens a a' fd file
unfolding alloc_from assign lookup unordered_insert
alloc_from-Opens a file fd rest v more =
    let (above, up) : Above 2 (fd ∷ rest) = subst (Above 2) more v.sorted in
    let head : (k : ℕ)
        → count k (fd ∷ rest)
          ≡ (if leb 3 k && ltb k a.alloc_pos then is_closed (a.fd_arr k) else 0) =
      λ k.
        subst
          (λ xs. count k xs ≡ (if leb 3 k && ltb k a.alloc_pos then is_closed (a.fd_arr k) else 0))
          more (v.free k) in
    let a' : FdArray = record a {
      free_set = rest;
      fd_arr = put a.fd_arr fd (some file);
      unclosed_fds = unordered_insert fd a.unclosed_fds;
    } in
    let inside : fd < a.alloc_pos = ground (arith, head fd, =?_refl fd) in
    let closed : a.fd_arr fd ≡ none = ground (arith, head fd, =?_refl fd) in
    let once : count fd rest ≡ 0 = Above-count fd fd rest up (omega arith) in
    (
      a',
      refl,
      record {
        valid = record {
          sorted = Above-weaken 2 fd rest up above;
          bound = v.bound;
          low = v.low;
          reserved = λ k lt. ground (arith, v.reserved k);
          fresh = λ k le. ground (arith, v.fresh k);
          free = λ k. ground (arith, head k);
          unclosed = λ k. ground (arith, v.unclosed k, v.unclosed fd);
        };
        low = above;
        free = ground arith;
        lowest = λ k low lt e. ground (arith, head k, Above-count fd k rest up, v.bound);
        table = λ k. ground (arith, v.bound);
      },
    )

alloc_of-Opens :
    (a : FdArray) (file : ℕ) (l : List ℕ)
    → IsValid a
    → a.free_set ≡ l
    → (fd : ℕ) × (a' : FdArray) × (alloc_from l a file ≡ done fd a') × Opens a a' fd file
alloc_of-Opens a file [] v e =
    let (a', r, o) = alloc_next-Opens' a file v e in (a.alloc_pos, a', r, o)
alloc_of-Opens a file (fd ∷ rest) v e =
    let (a', r, o) = alloc_from-Opens a file fd rest v e in (fd, a', r, o)

-- A valid table hands out the lowest free descriptor from 3 on and stays valid; only that descriptor
-- changes, which is open for the file.
pub alloc_fd-Opens :
    (a : FdArray) (file : ℕ)
    → IsValid a
    → (fd : ℕ) × (a' : FdArray) × (alloc_fd a file ≡ done fd a') × Opens a a' fd file
alloc_fd-Opens a file v = alloc_of-Opens a file a.free_set v refl

pub closed-IsValid :
    (a : FdArray) (fd file : ℕ)
    → IsValid a
    → lookup a fd ≡ some file
    → (a' : FdArray) × (release (some file) a fd ≡ done file a')
      × IsValid a'
      × ((k : ℕ) → lookup a' k ≡ put (lookup a) fd none k)
unfolding release lookup
closed-IsValid a fd file v e =
    let here : a.fd_arr fd ≡ some file = ground arith in
    let three : 3 ≤ fd = ground (arith, v.reserved fd) in
    let inside : fd < a.alloc_pos = ground (arith, v.fresh fd) in
    let absent : count fd a.free_set ≡ 0 = ground (arith, v.free fd) in
    let a' : FdArray = record a {
      fd_arr = put a.fd_arr fd none;
      free_set = set_insert fd a.free_set;
      unclosed_fds = erase fd a.unclosed_fds;
    } in
    (
      a',
      refl,
      record {
        sorted = set_insert-Above 2 fd a.free_set v.sorted three;
        bound = v.bound;
        low = v.low;
        reserved = λ k lt. ground (arith, v.reserved k);
        fresh = λ k le. ground (arith, v.fresh k);
        free = λ k. ground (arith, v.free k, set_insert-count fd k a.free_set absent);
        unclosed =
            λ k. ground (arith, v.unclosed k, v.unclosed fd, count-erase k fd a.unclosed_fds);
      },
      λ k. ground arith,
    )

-- What `free_fd` and `get_opened_file_of_fd` do with a descriptor, open or not.
abbrev pub Closes : FdArray → ℕ → Type 0
Closes a fd =
    ((file : ℕ) × (a' : FdArray) × (lookup a fd ≡ some file)
      × (get_opened_file_of_fd a fd ≡ done file a)
      × (free_fd a fd ≡ done file a')
      × IsValid a'
      × ((k : ℕ) → lookup a' k ≡ put (lookup a) fd none k))
    ⊎ ((lookup a fd ≡ none)
        × (get_opened_file_of_fd a fd ≡ thrown invalid_fd a)
        × (free_fd a fd ≡ thrown invalid_fd a))

-- An open descriptor is closed: its file is returned, and no other descriptor changes. Any other
-- descriptor is refused, by `get_opened_file_of_fd` also, and the table stays.
pub free_fd-Closes : (a : FdArray) (fd : ℕ) → IsValid a → Closes a fd
unfolding opened release
free_fd-Closes a fd v = elim (Option-cases (lookup a fd)) [
  | inl e ↦ inr (e, rw e refl, rw e refl)
  | inr (file, e) ↦
      let (a', r, v', t) = closed-IsValid a fd file v e in
      inl (file, a', e, rw e refl, rw e r, v', t)
]
