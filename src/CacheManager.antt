-- ===== src/CacheManager.antt =====
-- `generic_cache_manager` with `cache_hash_index` (inc/cache/cache_manager.hh): the index that owns
-- the entries, beside the replacer of Lru.antt. The index is a function from keys to entries; its
-- bucket order is not modelled, so `begin` and `end` are not. `none` is a failed assertion; a null
-- pointer is an inner `none`.
pub mod Invariant
use hscfs.Base.{
  Option, none, some, Bool, true, false, List, [], ◌∷◌, Eq, put, ◌>>=◌, ◌>>◌, guard, is_some, not,
  ◌&&◌, if◌then◌else◌, ◌==◌,
}
use hscfs.Lru
use hscfs.Lru.{Lru}

pub record CacheManager (K E : Type 0) : Type 0 where
  pub index : K → Option E
  pub replacer : Lru K

module _ {K E : Type 0} ⦃e : Eq K⦄ where
  -- `cache_hash_index`.
  unfoldable pub index_add : (K → Option E) → K → E → Option (K → Option E)
  index_add index key entry = elim (index key) [
    | none ↦ some (put index key (some entry))
    | some _ ↦ none
  ]

  unfoldable pub index_remove : (K → Option E) → K → Option (E × (K → Option E))
  index_remove index key = elim (index key) [
    | none ↦ none
    | some entry ↦ some (entry, put index key none)
  ]

  unfoldable pub empty : CacheManager K E
  empty = record { index = λ _. none; replacer = Lru.empty }

  unfoldable pub add : CacheManager K E → K → E → Option (CacheManager K E)
  unfolding index_add
  add m key entry = do
    index ← index_add m.index key entry
    replacer ← Lru.add m.replacer key
    some (record { index = index; replacer = replacer })

  unfoldable pub get : CacheManager K E → K → Bool → Option (Option E × CacheManager K E)
  get m key is_access =
      if is_some (m.index key) && is_access
      then (do
        replacer ← Lru.access m.replacer key
        some (m.index key, record m { replacer = replacer }))
      else some (m.index key, m)

  unfoldable pub pin : CacheManager K E → K → Option (CacheManager K E)
  pin m key = do replacer ← Lru.pin m.replacer key; some (record m { replacer = replacer })

  unfoldable pub unpin : CacheManager K E → K → Option (CacheManager K E)
  unpin m key = do replacer ← Lru.unpin m.replacer key; some (record m { replacer = replacer })

  unfoldable pub replace_one : CacheManager K E → Option (Option E × CacheManager K E)
  unfolding index_remove
  replace_one m = if Lru.get_num_can_replace m.replacer == 0 then some (none, m) else (do
    (key, replacer) ← Lru.pop_replaced m.replacer
    (entry, index) ← index_remove m.index key
    some (some entry, record { index = index; replacer = replacer }))

  unfoldable pub remove : CacheManager K E → K → Option (CacheManager K E)
  unfolding index_remove
  remove m key = do
    replacer ← Lru.remove m.replacer key
    (entry, index) ← index_remove m.index key
    some (record { index = index; replacer = replacer })

  -- `erase` at an iterator, which stands for its key.
  unfoldable pub erase_at : CacheManager K E → K → Option (CacheManager K E)
  erase_at m key = do
    replacer ← Lru.remove m.replacer key
    some (record { index = put m.index key none; replacer = replacer })
