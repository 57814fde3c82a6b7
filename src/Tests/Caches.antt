-- ===== src/Tests/Caches.antt =====
-- The replacer, the caches of blocks and the reverse map.
use hscfs.Base.{
  ℕ, ◌<◌, ◌≡◌, ◌≢◌, refl, false, List, [], ◌∷◌, Option, none, some, put, nat_key, arith,
}
use hscfs.CacheManager
use hscfs.Lru
use hscfs.SitNatCache
use hscfs.SitNatCache.{SitNatCache}
use hscfs.SitNatCache.Coherence.{HasRoom}
use hscfs.SitNatCache.Update.{Updates, update-view}
use hscfs.SitNatCache.Replacement.{Trims, do_replace-Trims}
use hscfs.Srmap.{SrmapUtils, SummaryBlock}
use hscfs.Lru.Recency
use hscfs.Meta.{NatBlock}
use hscfs.Tests.Data.{nat_block, read_nat, init-IsCoherent, nat_ready}

-- The replacer.
abbrev history : List (Recency.Call ℕ)
history = Recency.adds 1 ∷ Recency.adds 2 ∷ Recency.accesses 1 ∷ []

clock_of : Option (Recency.Clocked ℕ) → Recency.Clocked ℕ
clock_of none = Recency.start
clock_of (some c) = c

clocked : Recency.Clocked ℕ
clocked = clock_of (Recency.run Recency.start history)

popped : Option (ℕ × Lru.Lru ℕ) → Lru.Lru ℕ
popped none = Lru.empty
popped (some (k, r)) = r

pop_replaced-least_recent_example :
    (clocked.replacer.key_states 2 ≡ some false)
    × ((j : ℕ)
        → j ≢ 2
        → clocked.replacer.key_states j ≡ some false
        → clocked.last_use 2 < clocked.last_use j)
unfolding clocked clock_of popped Recency.run Recency.step Recency.start Lru.empty Lru.add
    Lru.access Lru.pop_replaced
pop_replaced-least_recent_example =
    Recency.pop_replaced-least_recent history {c = clocked} {k = 2}
      {r = popped (Lru.pop_replaced clocked.replacer)} refl refl

-- The cache of the SIT or the NAT.
empty_room : HasRoom read_nat (SitNatCache.init 2) 20
unfolding SitNatCache.init CacheManager.empty
empty_room = record { entries = omega arith; references = omega arith }

update-view_example :
    Updates read_nat
      (SitNatCache.init 2)
      20
      nat_block
      (put nat_block 1 (record { ino = 1; block_addr = 9 }))
      (init-IsCoherent read_nat)
      empty_room
      nat_ready.here
update-view_example =
    update-view read_nat (SitNatCache.init 2) 20 nat_block
      (put nat_block 1 (record { ino = 1; block_addr = 9 })) (init-IsCoherent read_nat) empty_room
      nat_ready.here

do_replace-Trims_example :
    Trims (SitNatCache.init {Block = NatBlock} 2) (SitNatCache.do_replace (SitNatCache.init 2))
do_replace-Trims_example = do_replace-Trims (SitNatCache.init 2) (init-IsCoherent read_nat).valid

-- The reverse map.
abbrev summaries : SummaryBlock
summaries i = record { nid = i; ofs_in_node = 0 }

abbrev srmap : SrmapUtils
srmap = record { srmap_start_lpa = 40; srmap_cache = λ l. none; dirty_blks = [] }
