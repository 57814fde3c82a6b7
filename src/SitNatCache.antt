-- ===== src/SitNatCache.antt =====
-- The cache of SIT and NAT blocks (inc/cache/SIT_NAT_cache.hh, src/cache/SIT_NAT_cache.cc): entries
-- with reference counts over a cache manager. An entry pointer is the key of its entry, the block's
-- address; a pointer to an entry that is no longer cached dangles, and its use aborts. The device is
-- the parameter `read`, which gives the block at an address or fails. Logging is left out.
pub mod Invariant
pub mod Replacement
pub mod References
pub mod Lookup
pub mod Coherence
pub mod Update
pub mod Counters
pub mod Handles
use hscfs.Base.{
  ℕ, zero, suc, Option, none, some, Bool, true, false, ltb, leb, ◌==◌, if◌then◌else◌, guard, ◌>>=◌,
  ◌>>◌, nat_key, put, succ32, pred32, succ64, pred64,
}
use hscfs.Base.Outcome
use hscfs.Base.Outcome.{Outcome, done, thrown, aborted, io_error}
use hscfs.Lru.Size.{size}
use hscfs.CacheManager
use hscfs.CacheManager.{CacheManager}

pub record Entry (Block : Type 0) : Type 0 where
  pub lpa : ℕ
  pub ref_count : ℕ
  pub cache : Block

pub record SitNatCache (Block : Type 0) : Type 0 where
  pub manager : CacheManager ℕ (Entry Block)
  pub expect_size : ℕ
  pub cur_size : ℕ

module _ {Block : Type 0} where
  unfoldable pub init : ℕ → SitNatCache Block
  init expect_cache_size = record {
    manager = CacheManager.empty;
    expect_size = expect_cache_size;
    cur_size = 0;
  }

  -- The body of `do_replace`'s loop; `none` stands for a failed assertion, or for fuel that ran out.
  unfoldable pub replace_loop : ℕ → SitNatCache Block → Option (SitNatCache Block)
  replace_loop zero c = none
  replace_loop (suc fuel) c = elim (CacheManager.replace_one c.manager) [
    | none ↦ none
    | some (none, m) ↦ some (record c { manager = m })
    | some (some p, m) ↦
        let c' = record c { manager = m; cur_size = pred64 c.cur_size } in
        let rest = replace_loop fuel c' in
        guard (p.ref_count == 0) >> (if leb c'.cur_size c'.expect_size then some c' else rest)
  ]

  unfoldable pub do_replace : SitNatCache Block → Option (SitNatCache Block)
  do_replace c =
      if ltb c.expect_size c.cur_size
      then replace_loop (suc (size c.manager.replacer)) c
      else some c

  -- A write to the entry object that the index owns.
  abbrev pub set_entry : SitNatCache Block → ℕ → Entry Block → SitNatCache Block
  set_entry c key p = record c {
    manager = record (c.manager) { index = put c.manager.index key (some p) };
  }

  unfoldable pub add_refcount : SitNatCache Block → ℕ → Option (SitNatCache Block)
  add_refcount c entry = do
    p ← c.manager.index entry
    let p' = record p { ref_count = succ32 p.ref_count }
    let c' = set_entry c entry p'
    if p'.ref_count == 1
        then (do m ← CacheManager.pin c'.manager p.lpa; some (record c' { manager = m }))
        else some c'

  unfoldable pub sub_refcount : SitNatCache Block → ℕ → Option (SitNatCache Block)
  sub_refcount c entry = do
    p ← c.manager.index entry
    let p' = record p { ref_count = pred32 p.ref_count }
    let c' = set_entry c entry p'
    if p'.ref_count == 0
        then (do m ← CacheManager.unpin c'.manager p.lpa; do_replace (record c' { manager = m }))
        else some c'

  unfoldable pub put_cache_entry : SitNatCache Block → ℕ → Option (SitNatCache Block)
  put_cache_entry = sub_refcount

  unfoldable pub add_host_version : SitNatCache Block → ℕ → Option (SitNatCache Block)
  add_host_version = add_refcount

  module _ (read : ℕ → Option Block) where
    -- A miss: read the block, count the entry and add it.
    unfoldable pub load : SitNatCache Block → ℕ → Outcome (SitNatCache Block) ℕ
    load c lpa = elim (read lpa) [
      | none ↦ thrown io_error c
      | some block ↦
          let entry : Entry Block = record { lpa = lpa; ref_count = 0; cache = block } in
          Outcome.step (CacheManager.add c.manager lpa entry)
            λ m. done lpa (record c { manager = m; cur_size = succ64 c.cur_size })
    ]

    unfoldable pub get_cache_entry_inner :
        SitNatCache Block → ℕ → Bool → Outcome (SitNatCache Block) ℕ
    unfolding load
    get_cache_entry_inner c lpa is_access =
        Outcome.step (CacheManager.get c.manager lpa is_access) λ (p, m). elim p [
          | none ↦ load (record c { manager = m }) lpa
          | some _ ↦ done lpa (record c { manager = m })
        ]

    unfoldable pub get : SitNatCache Block → ℕ → Outcome (SitNatCache Block) ℕ
    get c lpa = Outcome.◌>>=◌ (get_cache_entry_inner c lpa true) λ (p, c1).
        Outcome.step (add_refcount c1 p) λ c2. Outcome.step (do_replace c2) λ c3. done p c3

    unfoldable pub add_ssd_version : SitNatCache Block → ℕ → Outcome (SitNatCache Block) (Unit {0})
    add_ssd_version c lpa =
        Outcome.◌>>=◌ (get_cache_entry_inner c lpa false)
          λ (p, c1). Outcome.step (sub_refcount c1 p) λ c2. done tt c2
