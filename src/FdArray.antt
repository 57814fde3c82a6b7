-- ===== src/FdArray.antt =====
-- The table of file descriptors (`fd_array` of src/fs/fd_array.cc, inc/fs/fd_array.hh). A file is the
-- number of its object; the vector is a function with its size, null entries being `none`.
pub mod Laws
use hscfs.Base.{
  ℕ, ◌+◌, ◌*◌, List, [], ◌∷◌, Bool, Option, none, some, max, ltb, ◌==◌, if◌then◌else◌, put, nat_key,
  erase, count,
}
use hscfs.Base.Outcome.{Outcome, done, thrown, aborted, invalid_fd}

pub record FdArray : Type 0 where
  pub fd_arr : ℕ → Option ℕ
  pub size : ℕ
  pub alloc_pos : ℕ
  pub free_set : List ℕ
  pub unclosed_fds : List ℕ

-- The descriptors 0, 1 and 2 are reserved.
unfoldable pub create : ℕ → FdArray
create size = record {
  fd_arr = λ _. none;
  size = max 3 size;
  alloc_pos = 3;
  free_set = [];
  unclosed_fds = [];
}

-- The insertion into a `std::set`, whose elements stand in increasing order, and into an unordered one.
unfoldable pub set_insert : ℕ → List ℕ → List ℕ
set_insert fd [] = fd ∷ []
set_insert fd (x ∷ xs) =
    let rest = set_insert fd xs in
    if ltb fd x then fd ∷ x ∷ xs else (if fd == x then x ∷ xs else x ∷ rest)

abbrev pub member : ℕ → List ℕ → Bool
member fd xs = ltb 0 (count fd xs)

unfoldable pub unordered_insert : ℕ → List ℕ → List ℕ
unordered_insert fd xs = if member fd xs then xs else fd ∷ xs

unfoldable pub assign : FdArray → ℕ → ℕ → ℕ × FdArray
assign a fd file = (
  fd,
  record a {
    fd_arr = put a.fd_arr fd (some file);
    unclosed_fds = unordered_insert fd a.unclosed_fds;
  },
)

-- The assertion guards the end of the vector, which is doubled when it is reached.
unfoldable pub alloc_next : FdArray → ℕ → Outcome FdArray ℕ
alloc_next a file =
    if ltb a.size a.alloc_pos
    then aborted
    else (let size = if a.alloc_pos == a.size then a.size * 2 else a.size in
        let (fd, a1) =
          assign (record a { size = size; alloc_pos = a.alloc_pos + 1 }) a.alloc_pos file in
        done fd a1)

unfoldable pub alloc_from : List ℕ → FdArray → ℕ → Outcome FdArray ℕ
alloc_from [] a file = alloc_next a file
alloc_from (fd ∷ rest) a file =
    let (fd, a1) = assign (record a { free_set = rest }) fd file in done fd a1

abbrev pub alloc_fd : FdArray → ℕ → Outcome FdArray ℕ
alloc_fd a file = alloc_from a.free_set a file

-- `static_cast<size_t>(fd) >= fd_arr.size() || fd_arr[fd] == nullptr`; a negative descriptor is a large one.
unfoldable pub lookup : FdArray → ℕ → Option ℕ
lookup a fd = if ltb fd a.size then a.fd_arr fd else none

unfoldable pub release : Option ℕ → FdArray → ℕ → Outcome FdArray ℕ
release none a fd = thrown invalid_fd a
release (some file) a fd = done file (record a {
  fd_arr = put a.fd_arr fd none;
  free_set = set_insert fd a.free_set;
  unclosed_fds = erase fd a.unclosed_fds;
})

abbrev pub free_fd : FdArray → ℕ → Outcome FdArray ℕ
free_fd a fd = release (lookup a fd) a fd

unfoldable pub opened : Option ℕ → FdArray → Outcome FdArray ℕ
opened none a = thrown invalid_fd a
opened (some file) a = done file a

abbrev pub get_opened_file_of_fd : FdArray → ℕ → Outcome FdArray ℕ
get_opened_file_of_fd a fd = opened (lookup a fd) a

unfoldable pub get_and_clear_unclosed_fds : FdArray → List ℕ × FdArray
get_and_clear_unclosed_fds a = (a.unclosed_fds, record a { unclosed_fds = [] })
