-- ===== src/Tests/Allocation.antt =====
-- The allocation of ids and the SIT, on one NAT and one SIT block.
use hscfs.Base.{ℕ, ◌≡◌, ◌≢◌, refl, true, false, some, put, nat_key, arith}
use hscfs.Base.Outcome.{Outcome, done, thrown, aborted}
use hscfs.Fs.{SitEntry, invalid_lpa}
use hscfs.CacheManager
use hscfs.Lru
use hscfs.SitNatCache
use hscfs.SitNatCache.{SitNatCache}
use hscfs.SitNatCache.Coherence.{commit_block, IsCoherent, HasRoom, view}
use hscfs.Journal.{JournalContainer, NatJournalEntry, SuperBlockJournalEntry}
use hscfs.Journal
use hscfs.Meta.{Meta}
use hscfs.Meta.FreeIds as FreeIds
use hscfs.Meta.FreeIds.{HasIds, in_use, alloc_nid-HasIds}
use hscfs.Meta.Nat.{get_nid_pos_in_nat, alloc_nid, free_nid, set_lpa_of_nid}
use hscfs.Meta.NatLaws as NatLaws
use hscfs.Meta.Sit.{change_lpa_state}
use hscfs.Meta.SitLaws as SitLaws
use hscfs.Tests.Data.{
  read_pool, pool, pool-HasIds, pool-is_ready, super_block, nat_block, sit_block, read_nat,
  read_sit, journal, state, init-IsCoherent, nat_ready,
}

alloc_nid-Changes_example :
    (s' : Meta) × (alloc_nid read_nat state 9 false ≡ done 5 s')
    × NatLaws.Changes read_nat state s' 5 nat_block (record { ino = 9; block_addr = 0 }) 6
alloc_nid-Changes_example =
    NatLaws.alloc_nid-Changes read_nat state 9 false nat_block nat_ready (λ e. ground arith) refl

sit_ready : SitLaws.IsReady read_sit state 105 sit_block
unfolding SitNatCache.init CacheManager.empty
sit_ready = record {
  coherent = init-IsCoherent read_sit;
  room = record { entries = omega arith; references = omega arith };
  here = refl;
  word = omega arith;
}

change_lpa_state-Changes_example :
    (s' : Meta) × (entry : SitEntry) × (change_lpa_state read_sit state 105 true ≡ done tt s')
    × SitLaws.Changes read_sit state s' 105 sit_block true entry
change_lpa_state-Changes_example =
    SitLaws.change_lpa_state-Changes read_sit state 105 true sit_block (λ e. ground arith) sit_ready
      refl

abbrev state_of : Outcome Meta (Unit {0}) → Meta
state_of (done x s) = s
state_of (thrown e s) = s
state_of aborted = state

freed : Meta
freed = state_of (free_nid read_nat state 5)

freed_run : free_nid read_nat state 5 ≡ done tt freed
unfolding freed
freed_run =
    let (s', ran, changes) = NatLaws.free_nid-Changes read_nat state 5 nat_block nat_ready in
    rw ran refl

freed_room : HasRoom read_nat freed.nat_cache (NatLaws.nat_lpa state 5)
unfolding freed free_nid get_nid_pos_in_nat SitNatCache.get SitNatCache.get_cache_entry_inner
    SitNatCache.load SitNatCache.init SitNatCache.add_refcount SitNatCache.do_replace
    SitNatCache.sub_refcount SitNatCache.put_cache_entry SitNatCache.add_host_version commit_block
    CacheManager.empty CacheManager.get CacheManager.add CacheManager.pin CacheManager.unpin
    CacheManager.index_add Lru.empty Lru.add Lru.pin Lru.access
freed_room = record { entries = omega arith; references = omega arith }

free_nid-alloc_nid_example :
    (s2 : Meta) × (alloc_nid read_nat freed 9 false ≡ done 5 s2)
    × (s2.super ≡ super_block)
    × ((j : ℕ)
        → view read_nat s2.nat_cache j
          ≡ put
              (view read_nat state.nat_cache)
              (NatLaws.nat_lpa state 5)
              (some (
                put
                  (put nat_block 5 (record { ino = 0; block_addr = 5 }))
                  5
                  (record { ino = 9; block_addr = invalid_lpa })))
              j)
free_nid-alloc_nid_example =
    NatLaws.free_nid-alloc_nid read_nat state 5 nat_block nat_ready freed 9 false
      (λ e. ground arith) freed_run freed_room

set_lpa_of_nid-stale_example :
    (s' : Meta) × (set_lpa_of_nid read_nat state 5 90 ≡ done tt s')
    × IsCoherent read_nat s'.nat_cache
    × ((j : ℕ)
        → view read_nat s'.nat_cache j
          ≡ put (view read_nat state.nat_cache) (NatLaws.nat_lpa state 5) (some nat_block) j)
    × (s'.journal
        ≡ Journal.append_nat_journal_entry journal
            (record { nid = 5; new_value = record { ino = 0; block_addr = 90 } }))
set_lpa_of_nid-stale_example = NatLaws.set_lpa_of_nid-stale read_nat state 5 nat_block nat_ready 90

-- The first id of a pool of four.
pool_taken :
    (nid : ℕ) × (s' : Meta) × (alloc_nid read_pool pool 7 false ≡ done nid s')
    × HasIds read_pool 3 7 s'
pool_taken = alloc_nid-HasIds read_pool 3 7 pool pool-HasIds

alloc_nid-in_use_example :
    (pool_taken.0 ≢ 0)
    × (in_use read_pool pool pool_taken.0 ≡ false)
    × (in_use read_pool pool_taken.1 pool_taken.0 ≡ true)
    × ((k : ℕ) → in_use read_pool pool k ≡ true → in_use read_pool pool_taken.1 k ≡ true)
    × HasIds read_pool 0 7 pool_taken.1
alloc_nid-in_use_example =
    FreeIds.alloc_nid-in_use read_pool 7 pool pool_taken.0 pool_taken.1 pool-is_ready pool_taken.2
