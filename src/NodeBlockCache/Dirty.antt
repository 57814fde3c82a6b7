-- ===== src/NodeBlockCache/Dirty.antt =====
-- The dirty list of the node cache and the map of the positions in it.
use hscfs.Base.{
  ℕ, suc, ◌+◌, ◌^◌, ◌<◌, ◌≡◌, ◌≢◌, refl, List, [], ◌∷◌, ◌++◌, Option, none, some, ◌==◌,
  if◌then◌else◌, put, nat_key, pred32, arith,
}
use hscfs.NodeBlockCache
use hscfs.NodeBlockCache.{
  NodeBlockCache, NodeBlockCacheEntry, DirtyElement, uptodate, dirty, deleted, is_dirty,
  is_uptodate, is_deleted, erase_element, emplace,
}

abbrev pub positions : ℕ → List DirtyElement → ℕ
positions n [] = 0
positions n (d ∷ ds) = if d.position == n then suc (positions n ds) else positions n ds

erase_element-snoc :
    (ds : List DirtyElement) (d : DirtyElement)
    → positions d.position ds ≡ 0
    → erase_element (ds ++ d ∷ []) d.position ≡ some (d, ds)
unfolding erase_element
erase_element-snoc [] d absent = ground arith
erase_element-snoc (x ∷ ds) d absent = ground (arith, erase_element-snoc ds d)

module _ {Block Fs : Type 0} (free_nid invalidate_lpa : ℕ → Fs → Option Fs)
    (c : NodeBlockCache Block Fs) (key : ℕ) (p : NodeBlockCacheEntry Block)
    (cached : c.manager.index key ≡ some p) (clean : p.state ≡ uptodate)
    (referred : 0 < p.ref_count) (small : p.ref_count + 1 < 2 ^ 32) where
  -- The cache with the entry dirty and in the list.
  marked : NodeBlockCache Block Fs
  marked = record c {
    manager = record (c.manager) {
      index =
          put (put c.manager.index key (some (record p { state = dirty }))) key
            (some (record p { state = dirty; ref_count = p.ref_count + 1 }));
    };
    dirty_list = c.dirty_list ++ record { entry = key; position = c.next_position } ∷ [];
    dirty_pos = emplace c.dirty_pos key c.next_position;
    next_position = c.next_position + 1;
  }

  mark_dirty-marked : NodeBlockCache.mark_dirty free_nid invalidate_lpa c key ≡ some marked
  unfolding NodeBlockCache.mark_dirty NodeBlockCache.add_refcount marked
  mark_dirty-marked = rw (cached, clean) (ground (arith, referred, small))

  -- The marked cache once the entry has been removed.
  removed : NodeBlockCache Block Fs
  unfolding marked
  removed = record marked {
    manager = record (marked.manager) {
      index =
          put
            (put marked.manager.index key
              (some (record p { state = dirty; ref_count = pred32 (p.ref_count + 1) })))
            key (some (record p { state = deleted; ref_count = pred32 (p.ref_count + 1) }));
    };
    dirty_list = c.dirty_list;
    dirty_pos = put marked.dirty_pos key none;
  }

  -- A clean entry that is referred to and has no position becomes dirty and is then removed: both calls
  -- succeed, the dirty list is as before, the entry has no position and its old count and is deleted,
  -- and no other entry changes.
  pub mark_dirty-remove_entry :
      (height : ℕ)
      → c.dirty_pos key ≡ none
      → positions c.next_position c.dirty_list ≡ 0
      → (c1 : NodeBlockCache Block Fs) × (c2 : NodeBlockCache Block Fs) × (NodeBlockCache.mark_dirty
            free_nid invalidate_lpa c key
          ≡ some c1)
        × (NodeBlockCache.remove_entry free_nid invalidate_lpa (suc height) c1 key ≡ some c2)
        × (c2.dirty_list ≡ c.dirty_list)
        × (c2.dirty_pos key ≡ none)
        × (c2.manager.index key ≡ some (record p { state = deleted }))
        × ((j : ℕ) → j ≢ key → c2.manager.index j ≡ c.manager.index j)
  unfolding NodeBlockCache.remove_entry NodeBlockCache.sub_refcount marked removed
  mark_dirty-remove_entry height fresh unused = (
    marked,
    removed,
    mark_dirty-marked,
    ground (
      arith,
      fresh,
      referred,
      small,
      erase_element-snoc c.dirty_list (record { entry = key; position = c.next_position }) unused,
    ),
    refl,
    ground arith,
    ground (arith, referred, small),
    λ j ne. ground arith,
  )
