-- ===== src/Meta/NatLaws.antt =====
-- The allocation of node ids against the NAT as the cache and the device hold it together.
use hscfs.Base.{
  ℕ, ◌+◌, ◌*◌, ◌/◌, ◌%◌, ◌^◌, ◌<◌, ◌≤◌, ◌≡◌, ◌≢◌, refl, Bool, Option, some, if◌then◌else◌, put,
  nat_key, arith, ==_ne, subst, sym, ap, ◌∙◌, =?_refl,
}
use hscfs.Base.Outcome.{done}
use hscfs.Fs.{NatEntry, nat_entry_per_block, block_per_segment, invalid_nid, invalid_lpa}
use hscfs.Journal
use hscfs.Journal.{JournalContainer}
use hscfs.SitNatCache.{SitNatCache}
use hscfs.SitNatCache.Coherence.{IsCoherent, HasRoom, view, count_of, look-view}
use hscfs.SitNatCache.Update.{update-view, Updates}
use hscfs.SitNatCache.Counters.{update-counts}
use hscfs.Meta.{Meta, NatBlock, off_next_free_nid}
use hscfs.Meta.Nat.{get_nid_pos_in_nat, get_lpa_of_nid, set_lpa_of_nid, alloc_nid, free_nid}

abbrev pub nat_lpa : Meta → ℕ → ℕ
nat_lpa s nid = (nid / nat_entry_per_block + s.super.nat_blkaddr) % 2 ^ 32

abbrev pub nat_idx : ℕ → ℕ
nat_idx nid = nid % nat_entry_per_block

-- The id has a place in the table, its block can be had, and there is room in the counters.
pub record IsReady (read : ℕ → Option NatBlock) (s : Meta) (nid : ℕ) (block : NatBlock)
    : Type 0 where
  pub in_table :
      nid / nat_entry_per_block < (s.super.segment_count_nat * block_per_segment) % 2 ^ 32
  pub coherent : IsCoherent read s.nat_cache
  pub room : HasRoom read s.nat_cache (nat_lpa s nid)
  pub here : view read s.nat_cache (nat_lpa s nid) ≡ some block

-- The NAT entry of an id is `entry`, every other entry stays, the free list starts at `head`, both
-- changes are journalled, and the block has one reference more.
pub record Changes (read : ℕ → Option NatBlock) (s s' : Meta) (nid : ℕ) (block : NatBlock)
    (entry : NatEntry) (head : ℕ) : Type 0 where
  pub coherent : IsCoherent read s'.nat_cache
  pub table :
      (j : ℕ)
      → view read s'.nat_cache j
        ≡ put (view read s.nat_cache) (nat_lpa s nid) (some (put block (nat_idx nid) entry)) j
  pub counted :
      count_of read s'.nat_cache (nat_lpa s nid) ≡ count_of read s.nat_cache (nat_lpa s nid) + 1
  pub super : s'.super ≡ record (s.super) { next_free_nid = head }
  pub journal :
      s'.journal
      ≡ Journal.append_super_block_journal_entry
          (Journal.append_nat_journal_entry s.journal (record { nid = nid; new_value = entry }))
          (record { off = off_next_free_nid; new_val = head })

module _ (read : ℕ → Option NatBlock) (s : Meta) (nid : ℕ) (block : NatBlock)
    (ready : IsReady read s nid block) where
  pos_lem : get_nid_pos_in_nat s.super nid ≡ some (nat_lpa s nid, nat_idx nid)
  unfolding get_nid_pos_in_nat
  pos_lem = ground (arith, ready.in_table)

  abbrev changed : NatEntry → ℕ → SitNatCache NatBlock → Meta
  changed entry head c = record s {
    super = record (s.super) { next_free_nid = head };
    nat_cache = c;
    journal =
        Journal.append_super_block_journal_entry
          (Journal.append_nat_journal_entry s.journal (record { nid = nid; new_value = entry }))
          (record { off = off_next_free_nid; new_val = head });
  }

  updated :
      (entry : NatEntry)
      → Updates read s.nat_cache
          (nat_lpa s nid)
          block
          (put block (nat_idx nid) entry)
          ready.coherent
          ready.room
          ready.here
  updated entry =
      update-view read s.nat_cache (nat_lpa s nid) block (put block (nat_idx nid) entry)
        ready.coherent ready.room ready.here

  -- An id is freed, where its block of the NAT can be had and the counters have room: its entry names the
  -- old head of the free list, whose head the id becomes, no other entry changes, both changes are
  -- journalled, and the block has one reference more.
  pub free_nid-Changes :
      (s' : Meta) × (free_nid read s nid ≡ done tt s')
      × Changes read s s' nid block (record { ino = 0; block_addr = s.super.next_free_nid }) nid
  unfolding free_nid
  free_nid-Changes =
      let entry : NatEntry = record { ino = 0; block_addr = s.super.next_free_nid } in
      let (c1, c2, p, got, cached, content, committed, coherent, table, counted) = updated entry in
      (
        changed entry nid c2,
        rw pos_lem (rw got (rw cached (rw content (rw committed)))),
        record {
          coherent = coherent;
          table = table;
          counted = counted;
          super = refl;
          journal = refl;
        },
      )

-- The head of the free list is allocated, where it is a valid id whose entry is free, its block of the
-- NAT can be had and the counters have room: its entry is that of a node with no block yet, no other
-- entry changes, the list goes on with the id that the entry named, both changes are journalled, and
-- the block has one reference more.
pub alloc_nid-Changes :
    (read : ℕ → Option NatBlock) (s : Meta) (ino : ℕ) (is_inode : Bool) (block : NatBlock)
    → IsReady read s s.super.next_free_nid block
    → s.super.next_free_nid ≢ invalid_nid
    → (block (nat_idx s.super.next_free_nid)).ino ≡ 0
    → (s' : Meta) × (alloc_nid read s ino is_inode ≡ done s.super.next_free_nid s')
      × Changes read s s' s.super.next_free_nid block
          (record {
            ino = if is_inode then s.super.next_free_nid else ino;
            block_addr = invalid_lpa;
          })
          (block (nat_idx s.super.next_free_nid)).block_addr
unfolding alloc_nid
alloc_nid-Changes read s ino is_inode block ready valid free =
    let nid = s.super.next_free_nid in
    let entry : NatEntry = record {
      ino = if is_inode then nid else ino;
      block_addr = invalid_lpa;
    } in
    let head = (block (nat_idx nid)).block_addr in
    let (c1, c2, p, got, cached, content, committed, coherent, table, counted) =
      updated read s nid block ready entry in
    (
      changed read s nid block ready entry head c2,
      rw (==_ne nid 0 valid) (
          rw (pos_lem read s nid block ready)
            (rw got (rw cached (rw content (rw free (rw committed)))))),
      record {
        coherent = coherent;
        table = table;
        counted = counted;
        super = refl;
        journal = refl;
      },
    )

-- An allocation adds at most one reference to each block, and at most one block to the cache.
pub alloc_nid-counts :
    (read : ℕ → Option NatBlock) (s s' : Meta) (ino : ℕ) (is_inode : Bool) (block : NatBlock)
    → IsReady read s s.super.next_free_nid block
    → s.super.next_free_nid ≢ invalid_nid
    → (block (nat_idx s.super.next_free_nid)).ino ≡ 0
    → alloc_nid read s ino is_inode ≡ done s.super.next_free_nid s'
    → (s'.nat_cache.cur_size ≤ s.nat_cache.cur_size + 1)
      × ((j : ℕ) → count_of read s'.nat_cache j ≤ count_of read s.nat_cache j + 1)
unfolding alloc_nid
alloc_nid-counts read s s' ino is_inode block ready valid free ran =
    let nid = s.super.next_free_nid in
    let entry : NatEntry = record {
      ino = if is_inode then nid else ino;
      block_addr = invalid_lpa;
    } in
    let head = (block (nat_idx nid)).block_addr in
    let (c1, c2, p, got, cached, content, committed, coherent, table, counted) =
      updated read s nid block ready entry in
    let runs : alloc_nid read s ino is_inode
        ≡ done nid (changed read s nid block ready entry head c2) =
      rw (==_ne nid 0 valid) (
        rw (pos_lem read s nid block ready)
          (rw got (rw cached (rw content (rw free (rw committed)))))) in
    let same : changed read s nid block ready entry head c2 ≡ s' =
      (let e : done nid (changed read s nid block ready entry head c2) ≡ done nid s' =
          sym runs ∙ ran in
        cc) in
    subst
      (λ u.
        (u.nat_cache.cur_size ≤ s.nat_cache.cur_size + 1)
        × ((j : ℕ) → count_of read u.nat_cache j ≤ count_of read s.nat_cache j + 1))
      same
      (update-counts read s.nat_cache (nat_lpa s nid) block (put block (nat_idx nid) entry)
        ready.coherent ready.room ready.here c1 c2 got committed)

module _ (read : ℕ → Option NatBlock) (s : Meta) (nid : ℕ) (block : NatBlock)
    (ready : IsReady read s nid block) where
  -- Where the block of the NAT can be had and the counters have room, the address of a node is the one
  -- that its NAT entry holds, and the lookup changes no block.
  pub get_lpa_of_nid-reads :
      (s' : Meta) × (get_lpa_of_nid read s nid ≡ done (block (nat_idx nid)).block_addr s')
      × IsCoherent read s'.nat_cache
      × ((j : ℕ) → view read s'.nat_cache j ≡ view read s.nat_cache j)
  unfolding get_lpa_of_nid
  get_lpa_of_nid-reads =
      let (c1, c2, p, got, cached, content, dropped, coherent, same) =
        look-view read s.nat_cache (nat_lpa s nid) block ready.coherent ready.room ready.here in
      (
        record s { nat_cache = c2 },
        rw (pos_lem read s nid block ready) (rw got (rw cached (rw content (rw dropped)))),
        coherent,
        same,
      )

  -- Where the block of the NAT can be had and the counters have room, `set_lpa_of_nid` journals the
  -- new address, but leaves the table as it was.
  pub set_lpa_of_nid-stale :
      (new_lpa : ℕ)
      → (s' : Meta) × (set_lpa_of_nid read s nid new_lpa ≡ done tt s')
        × IsCoherent read s'.nat_cache
        × ((j : ℕ)
            → view read s'.nat_cache j ≡ put (view read s.nat_cache) (nat_lpa s nid) (some block) j)
        × (s'.journal
            ≡ Journal.append_nat_journal_entry s.journal (record {
              nid = nid;
              new_value = record (block (nat_idx nid)) { block_addr = new_lpa };
            }))
  unfolding set_lpa_of_nid
  set_lpa_of_nid-stale new_lpa =
      let (c1, c2, p, got, cached, content, committed, coherent, table, counted) =
        update-view read s.nat_cache (nat_lpa s nid) block block ready.coherent ready.room
          ready.here in
      (
        record s {
          nat_cache = c2;
          journal = Journal.append_nat_journal_entry s.journal (record {
            nid = nid;
            new_value = record (block (nat_idx nid)) { block_addr = new_lpa };
          });
        },
        rw (pos_lem read s nid block ready) (rw got (rw cached (rw content (rw committed)))),
        coherent,
        table,
        refl,
      )

  -- After `free_nid` of a valid id, where the counters have room, the next allocation returns the same
  -- id, leaves the super block as it was before both calls, and of the table changes the id's entry only.
  pub free_nid-alloc_nid :
      (s1 : Meta) (ino : ℕ) (is_inode : Bool)
      → nid ≢ invalid_nid
      → free_nid read s nid ≡ done tt s1
      → HasRoom read s1.nat_cache (nat_lpa s nid)
      → (s2 : Meta) × (alloc_nid read s1 ino is_inode ≡ done nid s2)
        × (s2.super ≡ s.super)
        × ((j : ℕ)
            → view read s2.nat_cache j
              ≡ put
                  (view read s.nat_cache)
                  (nat_lpa s nid)
                  (some (
                    put
                      (put block
                        (nat_idx nid)
                        (record { ino = 0; block_addr = s.super.next_free_nid }))
                      (nat_idx nid)
                      (record { ino = if is_inode then nid else ino; block_addr = invalid_lpa })))
                  j)
  free_nid-alloc_nid s1 ino is_inode valid freed room =
      let (t, ran, changes) = free_nid-Changes read s nid block ready in
      let same : t ≡ s1 = cc in
      let ch : Changes read s s1 nid block (record { ino = 0; block_addr = s.super.next_free_nid })
          nid =
        subst
          (λ u.
            Changes read s u nid block (record { ino = 0; block_addr = s.super.next_free_nid }) nid)
          same changes in
      let room1 : HasRoom read s1.nat_cache (nat_lpa s1 s1.super.next_free_nid) =
        rw ch.super room in
      let here1 : view read s1.nat_cache (nat_lpa s1 s1.super.next_free_nid)
          ≡ some
              (put block (nat_idx nid) (record { ino = 0; block_addr = s.super.next_free_nid })) =
        rw (ch.super, ch.table (nat_lpa s nid)) (ground arith) in
      let ready1 : IsReady read s1 s1.super.next_free_nid
          (put block (nat_idx nid) (record { ino = 0; block_addr = s.super.next_free_nid })) =
        record {
          in_table = rw ch.super ready.in_table;
          coherent = ch.coherent;
          room = room1;
          here = here1;
        } in
      let (s2, got, ch2) =
        alloc_nid-Changes read s1 ino is_inode
          (put block (nat_idx nid) (record { ino = 0; block_addr = s.super.next_free_nid })) ready1
          (rw ch.super valid) (rw ch.super (ground arith)) in
      (
        s2,
        subst (λ n. alloc_nid read s1 ino is_inode ≡ done n s2) (ap (λ x. x.next_free_nid) ch.super)
            got,
        rw (ch2.super, ch.super) (rw (=?_refl (nat_idx nid)) refl),
        λ j. ground (arith, ch2.table j, ch.table j, ch.super),
      )
