-- ===== src/Tests/Data.antt =====
-- Small data for the runs: one NAT and one SIT block, and a state with empty caches.
use hscfs.Base.{
  ℕ, ◌+◌, ◌==◌, ◌&&◌, ◌≡◌, ltb, if◌then◌else◌, refl, false, true, [], ◌∷◌, Option, some, nat_key,
  arith,
}
use hscfs.CacheManager
use hscfs.CacheManager.Invariant as CacheLaws
use hscfs.Lru
use hscfs.SitNatCache
use hscfs.SitNatCache.{SitNatCache}
use hscfs.SitNatCache.Coherence.{IsCoherent}
use hscfs.Journal.{JournalContainer}
use hscfs.Meta.{Meta, SuperBlock, NatBlock, SitBlock}
use hscfs.Meta.NatLaws as NatLaws
use hscfs.Meta.Nat.{alloc_nid}
use hscfs.Meta.FreeIds.{HasIds, in_use}
use hscfs.Base.Outcome.{Outcome}

abbrev pub super_block : SuperBlock
super_block = record {
  segment_count_sit = 1;
  segment_count_nat = 1;
  segment0_blkaddr = 100;
  sit_blkaddr = 10;
  nat_blkaddr = 20;
  first_free_segment_id = 3;
  first_data_segment_id = 0;
  first_node_segment_id = 0;
  current_data_segment_id = 1;
  current_data_segment_blkoff = 0;
  current_node_segment_id = 2;
  current_node_segment_blkoff = 0;
  free_segment_count = 4;
  next_free_nid = 5;
}

abbrev pub nat_block : NatBlock
nat_block nid = record { ino = 0; block_addr = nid + 1 }

abbrev pub sit_block : SitBlock
sit_block segid = record { vblocks = 3; valid_map = λ byte bit. false }

abbrev pub read_nat : ℕ → Option NatBlock
read_nat lpa = some nat_block

abbrev pub read_sit : ℕ → Option SitBlock
read_sit lpa = some sit_block

abbrev pub journal : JournalContainer
journal = record { super_block_journal = []; nat_journal = []; sit_journal = []; tx_id = 7 }

abbrev pub state : Meta
state = record {
  super = super_block;
  nat_cache = SitNatCache.init 2;
  sit_cache = SitNatCache.init 2;
  journal = journal;
  uncommit_node_segs = [];
  uncommit_data_segs = [];
}

pub init-IsCoherent :
    {Block : Type 0} (read : ℕ → Option Block) → IsCoherent read (SitNatCache.init 2)
unfolding SitNatCache.init CacheManager.empty Lru.empty
init-IsCoherent read = record {
  valid = record {
    manager = CacheLaws.empty-IsConsistent;
    keyed = λ k p e. ground arith;
    pinned = λ k p e. ground arith;
    counted = refl;
    word = omega arith;
  };
  clean = λ k p e z. ground arith;
}

pub nat_ready : NatLaws.IsReady read_nat state 5 nat_block
unfolding SitNatCache.init CacheManager.empty
nat_ready = record {
  in_table = omega arith;
  coherent = init-IsCoherent read_nat;
  room = record { entries = omega arith; references = omega arith };
  here = refl;
}

-- A block of the NAT in which the ids from 21 to 24 are free, in this order, and the file 7 has the others.
abbrev pub pool_block : NatBlock
pool_block idx =
    if ltb 20 idx && ltb idx 25
    then record { ino = 0; block_addr = if idx == 24 then 0 else idx + 1 }
    else record { ino = 7; block_addr = 900 }

abbrev pub read_pool : ℕ → Option NatBlock
read_pool lpa = some pool_block

abbrev pub pool : Meta
pool = record state { super = record super_block { next_free_nid = 21 } }

-- `alloc_nid` for a node of a file.
abbrev pub alloc_for : ℕ → Meta → Outcome Meta ℕ
alloc_for ino s = alloc_nid read_pool s ino false

pub pool-HasIds : HasIds read_pool 4 7 pool
unfolding SitNatCache.init CacheManager.empty
pool-HasIds = (
  λ e. omega (arith, e),
  21 ∷ 22 ∷ 23 ∷ 24 ∷ [],
  omega arith,
  record {
    chain = (
      refl,
      (λ e. omega (arith, e), (λ e. omega (arith, e), (λ e. omega (arith, e), tt))),
      pool_block,
      (λ e. omega (arith, e), omega arith, refl, refl),
      (
        refl,
        (λ e. omega (arith, e), (λ e. omega (arith, e), tt)),
        pool_block,
        (λ e. omega (arith, e), omega arith, refl, refl),
        (
          refl,
          (λ e. omega (arith, e), tt),
          pool_block,
          (λ e. omega (arith, e), omega arith, refl, refl),
          (refl, tt, pool_block, (λ e. omega (arith, e), omega arith, refl, refl), refl),
        ),
      ),
    );
    coherent = init-IsCoherent read_pool;
    whole = omega arith;
    blocks = omega arith;
    references = λ lpa. omega arith;
  },
)

pub pool-is_ready : HasIds read_pool 0 7 pool
pool-is_ready = let (real, nids, many, listed) = pool-HasIds in (real, nids, omega arith, listed)

pub pool-in_use : in_use read_pool pool 7 ≡ true
unfolding SitNatCache.init CacheManager.empty
pool-in_use = refl
