-- ===== src/NodeBlockCache.antt =====
-- The cache of node blocks (inc/cache/node_block_cache.hh, src/cache/node_block_cache.cc): entries with
-- reference counts, a reference of each entry to its parent in the file's index tree, and the list of
-- the dirty entries, each element of which holds a reference. `none` is a failed assertion, or a use
-- of an entry that is not cached. What deletes a node of the file system (`free_nid` and
-- `invalidate_lpa`) is a state of its own, which the parameters act on.
pub mod Dirty
use hscfs.Base.{
  ℕ, zero, suc, ◌+◌, List, [], ◌∷◌, ◌++◌, Bool, true, false, Option, none, some, ltb, leb, ◌==◌,
  if◌then◌else◌, guard, count, erase, put, nat_key, ◌>>=◌, ◌>>◌, succ32, pred32, succ64, pred64,
}
use hscfs.Fs.{invalid_nid, invalid_lpa}
use hscfs.CacheManager
use hscfs.CacheManager.{CacheManager}

pub data NodeBlockCacheEntryState : Type 0 where
  uptodate dirty deleted : NodeBlockCacheEntryState

pub record NodeBlockCacheEntry (Block : Type 0) : Type 0 where
  pub nid : ℕ
  pub parent_nid : ℕ
  pub lpa : ℕ
  pub node : Block
  pub ref_count : ℕ
  pub state : NodeBlockCacheEntryState

-- An element of the dirty list, which an iterator denotes: a handle, with a number that no other
-- element has had. `dirty_pos` maps an entry to an iterator.
pub record DirtyElement : Type 0 where
  pub entry : ℕ
  pub position : ℕ

pub record NodeBlockCache (Block Fs : Type 0) : Type 0 where
  pub expect_size : ℕ
  pub cur_size : ℕ
  pub manager : CacheManager ℕ (NodeBlockCacheEntry Block)
  pub dirty_list : List DirtyElement
  pub dirty_pos : ℕ → Option ℕ
  pub next_position : ℕ
  pub fs : Fs

abbrev pub is_dirty : NodeBlockCacheEntryState → Bool
is_dirty uptodate = false
is_dirty dirty = true
is_dirty deleted = false

abbrev pub is_uptodate : NodeBlockCacheEntryState → Bool
is_uptodate uptodate = true
is_uptodate dirty = false
is_uptodate deleted = false

abbrev pub is_deleted : NodeBlockCacheEntryState → Bool
is_deleted uptodate = false
is_deleted dirty = false
is_deleted deleted = true

abbrev emplace : (ℕ → Option ℕ) → ℕ → ℕ → ℕ → Option ℕ
emplace positions key position =
    put positions key (elim (positions key) [ none ↦ some position | some old ↦ some old ])

-- `erase` of an iterator that denotes no element of this list is undefined.
unfoldable pub erase_element : List DirtyElement → ℕ → Option (DirtyElement × List DirtyElement)
erase_element [] position = none
erase_element (d ∷ ds) position =
    let rest = erase_element ds position in
    if d.position == position then some (d, ds) else (do (e, others) ← rest; some (e, d ∷ others))

module _ {Block Fs : Type 0} (free_nid : ℕ → Fs → Option Fs)
    (invalidate_lpa : ℕ → Fs → Option Fs) where
  abbrev pub set_entry :
      NodeBlockCache Block Fs → ℕ → NodeBlockCacheEntry Block → NodeBlockCache Block Fs
  set_entry c key p = record c {
    manager = record (c.manager) { index = put c.manager.index key (some p) };
  }

  unfoldable pub add_refcount : NodeBlockCache Block Fs → ℕ → Option (NodeBlockCache Block Fs)
  add_refcount c key = do
    p ← c.manager.index key
    let n = succ32 p.ref_count
    let c1 = set_entry c key (record p { ref_count = n })
    m ← if n == 1 then CacheManager.pin c1.manager key else some c1.manager
    some (record c1 { manager = m })

  -- The resources of a deleted node are given back, and its entry leaves the cache.
  unfoldable pub release :
      NodeBlockCache Block Fs → NodeBlockCacheEntry Block → Option (NodeBlockCache Block Fs)
  release c p = do
    fs1 ← free_nid p.nid c.fs
    fs2 ← if p.lpa == invalid_lpa then some fs1 else invalidate_lpa p.lpa fs1
    m ← CacheManager.remove c.manager p.nid
    some (record c { manager = m; fs = fs2; cur_size = pred64 c.cur_size })

  -- The recursion goes up the index tree, so that the fuel is the height of an entry in it.
  unfoldable pub sub_refcount : ℕ → NodeBlockCache Block Fs → ℕ → Option (NodeBlockCache Block Fs)
  sub_refcount zero c key = none
  sub_refcount (suc fuel) c key = do
    p ← c.manager.index key
    let n = pred32 p.ref_count
    let c1 = set_entry c key (record p { ref_count = n })
    if n == 0
        then (do
          m ← CacheManager.unpin c1.manager key
          let c2 = record c1 { manager = m }
          if is_deleted p.state
              then (do
                c3 ← release c2 p
                if p.parent_nid == invalid_nid then some c3 else (do
                  parent ← c3.manager.index p.parent_nid
                  sub_refcount fuel c3 p.parent_nid))
              else some c2)
        else some c1

  unfoldable pub replace_loop : ℕ → ℕ → NodeBlockCache Block Fs → Option (NodeBlockCache Block Fs)
  replace_loop height zero c = none
  replace_loop height (suc fuel) c = do
    (replaced, m) ← CacheManager.replace_one c.manager
    elim replaced [
      | none ↦ some (record c { manager = m })
      | some p ↦ do
        let c1 = record c { manager = m; cur_size = pred64 c.cur_size }
        guard (p.ref_count == 0)
        c2 ← if p.parent_nid == invalid_nid then some c1 else sub_refcount height c1 p.parent_nid
        let rest = replace_loop height fuel c2
        if leb c2.cur_size c2.expect_size then some c2 else rest
    ]

  unfoldable pub do_replace : ℕ → ℕ → NodeBlockCache Block Fs → Option (NodeBlockCache Block Fs)
  do_replace height fuel c =
      if ltb c.expect_size c.cur_size then replace_loop height fuel c else some c

  -- The new entry starts with one reference, that of the handle, and refers to its parent.
  unfoldable pub add :
      ℕ → ℕ → NodeBlockCache Block Fs → Block → ℕ → ℕ → ℕ → Option (ℕ × NodeBlockCache Block Fs)
  add height fuel c buffer nid parent_nid lpa = do
    guard (elim (c.manager.index nid) [ none ↦ true | some p ↦ false ])
    c1 ← if parent_nid == invalid_nid then some c else add_refcount c parent_nid
    let entry : NodeBlockCacheEntry Block = record {
      nid = nid;
      parent_nid = parent_nid;
      lpa = lpa;
      node = buffer;
      ref_count = 0;
      state = uptodate;
    }
    m ← CacheManager.add c1.manager nid entry
    c2 ← add_refcount (record c1 { manager = m }) nid
    c3 ← do_replace height fuel (record c2 { cur_size = succ64 c2.cur_size })
    some (nid, c3)

  unfoldable pub get : NodeBlockCache Block Fs → ℕ → Option (Option ℕ × NodeBlockCache Block Fs)
  get c nid = do
    (p, m) ← CacheManager.get c.manager nid true
    let c1 = record c { manager = m }
    elim p [ none ↦ some (none, c1) | some _ ↦ do c2 ← add_refcount c1 nid; some (some nid, c2) ]

  -- An entry that becomes dirty gets a handle in the dirty list. `emplace` keeps a position that the
  -- map has already.
  unfoldable pub mark_dirty : NodeBlockCache Block Fs → ℕ → Option (NodeBlockCache Block Fs)
  mark_dirty c key = do
    p ← c.manager.index key
    if is_dirty p.state then some c else (do
      guard (is_uptodate p.state)
      c1 ← add_refcount (set_entry c key (record p { state = dirty })) key
      some (record c1 {
        dirty_list = c1.dirty_list ++ record { entry = key; position = c1.next_position } ∷ [];
        dirty_pos = emplace c1.dirty_pos key c1.next_position;
        next_position = c1.next_position + 1;
      }))

  -- The state of every entry of the dirty list is reset; its handles are returned. The map of the
  -- positions stays as it is.
  unfoldable pub clean_entries :
      List DirtyElement → NodeBlockCache Block Fs → Option (NodeBlockCache Block Fs)
  clean_entries [] c = some c
  clean_entries (d ∷ ds) c = do
    p ← c.manager.index d.entry
    guard (is_dirty p.state)
    guard (leb 1 p.ref_count)
    clean_entries ds (set_entry c d.entry (record p { state = uptodate }))

  unfoldable pub get_and_clear_dirty_list :
      NodeBlockCache Block Fs → Option (List DirtyElement × NodeBlockCache Block Fs)
  get_and_clear_dirty_list c = do
    c1 ← clean_entries c.dirty_list c
    some (c.dirty_list, record c1 { dirty_list = [] })

  -- A dirty entry leaves the dirty list, whose handle ends; the entry is deleted with its last reference.
  unfoldable pub remove_entry : ℕ → NodeBlockCache Block Fs → ℕ → Option (NodeBlockCache Block Fs)
  remove_entry height c key = do
    p ← c.manager.index key
    c1 ←
        if is_dirty p.state
        then (do
          position ← c.dirty_pos key
          (d, rest) ← erase_element c.dirty_list position
          guard (d.entry == key)
          c2 ← sub_refcount height (record c { dirty_list = rest }) key
          some (record c2 { dirty_pos = put c2.dirty_pos key none }))
        else some c
    q ← c1.manager.index key
    some (set_entry c1 key (record q { state = deleted }))
