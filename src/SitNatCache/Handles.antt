-- ===== src/SitNatCache/Handles.antt =====
-- `SIT_NAT_cache_entry_handle` (src/cache/SIT_NAT_cache.cc): a handle is a null pointer or a pointer
-- to an entry, of the one cache. An operation on two handles returns both, as it leaves them; the
-- two are different objects, as the guard `this != &o` demands for anything to happen.
use hscfs.Base.{ℕ, Option, none, some, ◌>>=◌}
use hscfs.SitNatCache
use hscfs.SitNatCache.{SitNatCache, Entry, set_entry}

abbrev pub Handle : Type 0
Handle = Option ℕ

-- The move constructor: the new handle, and the source, which gives its entry up.
unfoldable pub move : Handle → Handle × Handle
move o = (o, none)

module _ {Block : Type 0} where
  unfoldable pub do_addref : SitNatCache Block → Handle → Option (SitNatCache Block)
  do_addref c none = some c
  do_addref c (some entry) = SitNatCache.add_refcount c entry

  unfoldable pub do_subref : SitNatCache Block → Handle → Option (SitNatCache Block)
  do_subref c none = some c
  do_subref c (some entry) = SitNatCache.sub_refcount c entry

  -- The copy constructor: the new handle.
  unfoldable pub copy : SitNatCache Block → Handle → Option (Handle × SitNatCache Block)
  copy c o = do c' ← do_addref c o; some (o, c')

  -- The handle assigned to, the source, and the cache.
  unfoldable pub copy_assign :
      SitNatCache Block → Handle → Handle → Option (Handle × Handle × SitNatCache Block)
  copy_assign c this o = do c1 ← do_subref c this; c2 ← do_addref c1 o; some (o, o, c2)

  -- The source keeps its pointer.
  unfoldable pub move_assign :
      SitNatCache Block → Handle → Handle → Option (Handle × Handle × SitNatCache Block)
  move_assign c this o = do c1 ← do_subref c this; some (o, o, c1)

  unfoldable pub destroy : SitNatCache Block → Handle → Option (SitNatCache Block)
  unfolding do_subref
  destroy c none = some c
  destroy c (some entry) = SitNatCache.put_cache_entry c entry
