-- ===== src/PageCache.antt =====
-- The page cache of a file (inc/cache/page_cache.hh, src/cache/page_cache.cc): pages by their offset in
-- the file, with reference counts, and the map of the dirty pages, each element of which holds a
-- reference. A handle's pointer is the key of its entry. `none` is a failed assertion, or a use of a
-- page that is not cached. A lock that is taken for a whole function is left out; `sub_refcount`, which
-- takes its lock in between, is the sequence of the two functions that it consists of.
pub mod Counting
pub mod Misses
pub mod Truncation
pub mod Invariant
pub mod Accounting
pub mod Cleaning
pub mod Lookup
pub mod Release
use hscfs.Base.{
  ℕ, zero, suc, ◌+◌, ◌-◌, List, [], ◌∷◌, ◌++◌, Bool, true, false, not, ◌&&◌, Option, none, some,
  ltb, leb, ◌==◌, if◌then◌else◌, guard, put, nat_key, erase, ◌>>=◌, ◌>>◌, succ32, pred32, succ64,
  pred64,
}
use hscfs.Fs.{invalid_lpa}
use hscfs.Lru.Size.{size}
use hscfs.CacheManager
use hscfs.CacheManager.{CacheManager}

pub data PageState : Type 0 where
  invalid ready : PageState

-- The bytes of a page by their offset. A buffer is zeroed where it is allocated.
abbrev pub Page : Type 0
Page = ℕ → ℕ

abbrev pub zero_page : Page
zero_page off = 0

pub record PageEntry : Type 0 where
  pub blkoff : ℕ
  pub lpa : ℕ
  pub content_state : PageState
  pub page : Page
  pub ref_count : ℕ
  pub is_dirty : Bool

-- `dirty_pages` are the keys of the map, in order.
pub record PageCache : Type 0 where
  pub manager : CacheManager ℕ PageEntry
  pub dirty_pages : List ℕ
  pub expect_size : ℕ
  pub cur_size : ℕ

unfoldable pub create : ℕ → PageCache
create expect_size = record {
  manager = CacheManager.empty;
  dirty_pages = [];
  expect_size = expect_size;
  cur_size = 0;
}

abbrev pub new_entry : ℕ → PageEntry
new_entry blkoff = record {
  blkoff = blkoff;
  lpa = invalid_lpa;
  content_state = invalid;
  page = zero_page;
  ref_count = 0;
  is_dirty = false;
}

abbrev pub set_entry : PageCache → ℕ → PageEntry → PageCache
set_entry c key p = record c {
  manager = record (c.manager) { index = put c.manager.index key (some p) };
}

unfoldable pub add_refcount : PageCache → ℕ → Option PageCache
add_refcount c key = do
  p ← c.manager.index key
  let c1 = set_entry c key (record p { ref_count = succ32 p.ref_count })
  if p.ref_count == 0
      then (guard (not p.is_dirty)
          >> do m ← CacheManager.pin c1.manager p.blkoff; some (record c1 { manager = m }))
      else some c1

-- The two steps of `sub_refcount`: the atomic decrement, which tells the old count, and what is done
-- under the lock by a thread that saw the count fall to zero.
unfoldable pub fetch_sub : PageCache → ℕ → Option (ℕ × PageCache)
fetch_sub c key = do
  p ← c.manager.index key
  some (p.ref_count, set_entry c key (record p { ref_count = pred32 p.ref_count }))

unfoldable pub unpin_if_zero : PageCache → ℕ → Option PageCache
unpin_if_zero c key = do
  p ← c.manager.index key
  if p.ref_count == 0
      then (guard (not p.is_dirty)
          >> do m ← CacheManager.unpin c.manager p.blkoff; some (record c { manager = m }))
      else some c

unfoldable pub sub_refcount : PageCache → ℕ → Option PageCache
sub_refcount c key = do
  (origin, c1) ← fetch_sub c key
  if origin == 1 then unpin_if_zero c1 key else some c1

unfoldable pub replace_loop : ℕ → PageCache → Option PageCache
replace_loop zero c = none
replace_loop (suc fuel) c = elim (CacheManager.replace_one c.manager) [
  | none ↦ none
  | some (none, m) ↦ some (record c { manager = m })
  | some (some p, m) ↦
      let c' = record c { manager = m; cur_size = pred64 c.cur_size } in
      let rest = replace_loop fuel c' in
      guard (p.ref_count == 0 && not p.is_dirty)
      >> (if leb c'.cur_size c'.expect_size then some c' else rest)
]

unfoldable pub do_replace : PageCache → Option PageCache
do_replace c =
    if ltb c.expect_size c.cur_size then replace_loop (suc (size c.manager.replacer)) c else some c

-- A miss: the buffer of a replaced page is used again with what it holds, if a page can be replaced
-- and the cache is full.
unfoldable pub add_new : PageCache → ℕ → Option PageCache
add_new c blkoff = do
  m ← CacheManager.add c.manager blkoff (new_entry blkoff)
  c1 ← add_refcount (record c { manager = m }) blkoff
  some (record c1 { cur_size = succ64 c1.cur_size })

unfoldable pub reuse : PageCache → ℕ → PageEntry → Option PageCache
reuse c blkoff victim = do
  guard (victim.ref_count == 0 && not victim.is_dirty)
  m ← CacheManager.add c.manager blkoff (record victim { blkoff = blkoff; content_state = invalid })
  c1 ← add_refcount (record c { manager = m }) blkoff
  do_replace c1

unfoldable pub get_miss : PageCache → ℕ → Option PageCache
get_miss c blkoff =
    if leb c.expect_size c.cur_size
    then (elim (CacheManager.replace_one c.manager) [
      | none ↦ none
      | some (none, m) ↦ add_new (record c { manager = m }) blkoff
      | some (some victim, m) ↦ reuse (record c { manager = m }) blkoff victim
    ])
    else add_new c blkoff

-- The handle that is returned is the key.
unfoldable pub get : PageCache → ℕ → Option PageCache
get c blkoff = elim (CacheManager.get c.manager blkoff true) [
  | none ↦ none
  | some (none, m) ↦ get_miss (record c { manager = m }) blkoff
  | some (some p, m) ↦ add_refcount (record c { manager = m }) blkoff
]

-- `std::map::emplace` keeps an element that is there; the copied handle ends then.
unfoldable pub insert_sorted : ℕ → List ℕ → List ℕ
insert_sorted k [] = k ∷ []
insert_sorted k (x ∷ xs) = let rest = insert_sorted k xs in if ltb k x then k ∷ x ∷ xs else x ∷ rest

abbrev pub member : ℕ → List ℕ → Bool
member k [] = false
member k (x ∷ xs) = if x == k then true else member k xs

unfoldable pub add_to_dirty_pages : PageCache → ℕ → Option PageCache
add_to_dirty_pages c key = do
  p ← c.manager.index key
  guard (leb 1 p.ref_count)
  c1 ← add_refcount c key
  if member p.blkoff c.dirty_pages
      then sub_refcount c1 key
      else some (record c1 { dirty_pages = insert_sorted p.blkoff c1.dirty_pages })

-- The dirty mark is set by compare and exchange; who sets it adds the page to the map.
unfoldable pub mark_dirty : PageCache → ℕ → Option PageCache
mark_dirty c key = do
  p ← c.manager.index key
  if p.is_dirty
      then some c
      else add_to_dirty_pages (set_entry c key (record p { is_dirty = true })) key

-- The handles of the pages that leave the map end, one after the other.
unfoldable pub end_handles : List ℕ → PageCache → Option PageCache
end_handles [] c = some c
end_handles (k ∷ ks) c = do c1 ← sub_refcount c k; end_handles ks c1

unfoldable pub invalidate_pages : List ℕ → PageCache → Option PageCache
invalidate_pages [] c = some c
invalidate_pages (k ∷ ks) c = do
  p ← c.manager.index k
  invalidate_pages ks
      (record (set_entry c k (record p { is_dirty = false; content_state = invalid })) {
        cur_size = pred64 c.cur_size;
      })

-- The keys up to a bound, and those above it.
abbrev pub up_to : ℕ → List ℕ → List ℕ
up_to b [] = []
up_to b (x ∷ xs) = if leb x b then x ∷ up_to b xs else []

abbrev pub upper_bound : ℕ → List ℕ → List ℕ
upper_bound b [] = []
upper_bound b (x ∷ xs) = if leb x b then upper_bound b xs else x ∷ xs

unfoldable pub truncate : PageCache → ℕ → Option PageCache
truncate c max_blkoff = do
  let beyond = upper_bound max_blkoff c.dirty_pages
  c1 ← invalidate_pages beyond c
  end_handles beyond (record c1 { dirty_pages = up_to max_blkoff c.dirty_pages })

unfoldable pub clean_pages : List ℕ → PageCache → Option PageCache
clean_pages [] c = some c
clean_pages (k ∷ ks) c = do
  p ← c.manager.index k
  clean_pages ks (set_entry c k (record p { is_dirty = false }))

unfoldable pub clear_dirty_pages : PageCache → Option PageCache
clear_dirty_pages c = do
  c1 ← clean_pages c.dirty_pages c
  end_handles c.dirty_pages (record c1 { dirty_pages = [] })
