-- ===== src/Meta/Nat.antt =====
-- `nat_lpa_mapping` (src/fs/NAT_utils.cc) and the allocation of node ids
-- (`alloc_nid` and `free_nid` of src/fs/super_manager.cc).
use hscfs.Base.{
  ℕ, ◌+◌, ◌*◌, ◌/◌, ◌%◌, ◌^◌, Bool, Option, none, some, ltb, ◌==◌, if◌then◌else◌, put, nat_key,
  guard,
}
use hscfs.Base.Outcome
use hscfs.Base.Outcome.{Outcome, done, thrown, no_free_nid}
use hscfs.Fs.{NatEntry, nat_entry_per_block, block_per_segment, invalid_nid, invalid_lpa}
use hscfs.Journal
use hscfs.SitNatCache
use hscfs.SitNatCache.Coherence.{block_of, commit_block}
use hscfs.Meta.{Meta, SuperBlock, NatBlock, log_super, off_next_free_nid, on_nat}

-- The block of the NAT that holds a node id, and the entry in it; the assertion guards the table's end.
unfoldable pub get_nid_pos_in_nat : SuperBlock → ℕ → Option (ℕ × ℕ)
get_nid_pos_in_nat super nid =
    let nat_lpa_idx = nid / nat_entry_per_block in
    if ltb nat_lpa_idx ((super.segment_count_nat * block_per_segment) % 2 ^ 32)
    then some ((nat_lpa_idx + super.nat_blkaddr) % 2 ^ 32, nid % nat_entry_per_block)
    else none

abbrev log_nat : Meta → ℕ → NatEntry → Meta
log_nat s nid entry = record s {
  journal = Journal.append_nat_journal_entry s.journal (record { nid = nid; new_value = entry });
}

-- What an update of a NAT entry ends with: the block is written, the entry and the head of the free
-- list are journalled, and the reference of the host version is taken.
abbrev finish : {A : Type 0} → Meta → ℕ → NatBlock → ℕ → ℕ → NatEntry → ℕ → A → Outcome Meta A
finish s h block idx nid entry head result =
    let s' = log_super (log_nat s nid entry) off_next_free_nid head in
    Outcome.step (commit_block s.nat_cache h (put block idx entry)) λ c.
      done result (record s' { super = record (s.super) { next_free_nid = head }; nat_cache = c })

module _ (read : ℕ → Option NatBlock) where
  unfoldable pub get_lpa_of_nid : Meta → ℕ → Outcome Meta ℕ
  get_lpa_of_nid s nid = Outcome.step (get_nid_pos_in_nat s.super nid) λ (lpa, idx).
      on_nat s (SitNatCache.get read s.nat_cache lpa) λ (h, s1).
        Outcome.step (block_of s1.nat_cache h) λ block.
          Outcome.step (SitNatCache.put_cache_entry s1.nat_cache h)
            λ c. done (block idx).block_addr (record s1 { nat_cache = c })

  -- The entry is changed in a copy: what is journalled is the copy, and the cached block stays.
  unfoldable pub set_lpa_of_nid : Meta → ℕ → ℕ → Outcome Meta (Unit {0})
  set_lpa_of_nid s nid new_lpa = Outcome.step (get_nid_pos_in_nat s.super nid) λ (lpa, idx).
      on_nat s (SitNatCache.get read s.nat_cache lpa) λ (h, s1).
        Outcome.step (block_of s1.nat_cache h) λ block.
          let copy = record (block idx) { block_addr = new_lpa } in
          Outcome.step (commit_block s1.nat_cache h block)
            λ c. done tt (record (log_nat s1 nid copy) { nat_cache = c })

  unfoldable pub alloc_nid : Meta → ℕ → Bool → Outcome Meta ℕ
  alloc_nid s ino is_inode =
      let nid = s.super.next_free_nid in
      if nid == invalid_nid
      then thrown no_free_nid s
      else (Outcome.step (get_nid_pos_in_nat s.super nid) λ (lpa, idx).
          on_nat s (SitNatCache.get read s.nat_cache lpa) λ (h, s1).
            Outcome.step (block_of s1.nat_cache h) λ block.
              Outcome.step (guard ((block idx).ino == 0)) λ _.
                let entry : NatEntry = record {
                  ino = if is_inode then nid else ino;
                  block_addr = invalid_lpa;
                } in
                finish s1 h block idx nid entry (block idx).block_addr nid)

  unfoldable pub free_nid : Meta → ℕ → Outcome Meta (Unit {0})
  free_nid s nid = Outcome.step (get_nid_pos_in_nat s.super nid) λ (lpa, idx).
      on_nat s (SitNatCache.get read s.nat_cache lpa) λ (h, s1).
        Outcome.step (block_of s1.nat_cache h) λ block.
          let entry : NatEntry = record { ino = 0; block_addr = s.super.next_free_nid } in
          finish s1 h block idx nid entry nid tt
