-- ===== src/Srmap.antt =====
-- The reverse map from blocks to their owners (`srmap_utils`, src/fs/srmap_utils.cc): a cache of the
-- map's blocks with the set of the changed ones. `read` gives a block of the device, or fails.
pub mod Laws
use hscfs.Base.{
  ℕ, ◌+◌, ◌/◌, ◌%◌, ◌^◌, ◌≡◌, ◌≢◌, refl, List, [], ◌∷◌, Bool, Option, none, some, ltb, ◌==◌,
  if◌then◌else◌, put, nat_key, count, arith,
}
use hscfs.Base.Outcome
use hscfs.Base.Outcome.{Outcome, done, thrown, io_error, ◌>>=◌}

pub record Summary : Type 0 where
  pub nid : ℕ
  pub ofs_in_node : ℕ

abbrev pub SummaryBlock : Type 0
SummaryBlock = ℕ → Summary

abbrev pub entries_in_sum : ℕ
entries_in_sum = 512

pub record SrmapUtils : Type 0 where
  pub srmap_start_lpa : ℕ
  pub srmap_cache : ℕ → Option SummaryBlock
  pub dirty_blks : List ℕ

unfoldable pub get_srmap_pos_of_lpa : SrmapUtils → ℕ → ℕ × ℕ
get_srmap_pos_of_lpa s lpa =
    ((lpa / entries_in_sum + s.srmap_start_lpa) % 2 ^ 32, lpa % entries_in_sum)

abbrev insert_dirty : ℕ → List ℕ → List ℕ
insert_dirty lpa xs = if ltb 0 (count lpa xs) then xs else lpa ∷ xs

module _ (read : ℕ → Option SummaryBlock) (zeroed : SummaryBlock) where
  -- The buffer of a failed read is in the cache already, as it was allocated.
  unfoldable pub fetched : Option SummaryBlock → SrmapUtils → ℕ → Outcome SrmapUtils SummaryBlock
  fetched none s lpa =
      thrown io_error (record s { srmap_cache = put s.srmap_cache lpa (some zeroed) })
  fetched (some b) s lpa = done b (record s { srmap_cache = put s.srmap_cache lpa (some b) })

  unfoldable pub cached_or : Option SummaryBlock → SrmapUtils → ℕ → Outcome SrmapUtils SummaryBlock
  cached_or (some b) s lpa = done b s
  cached_or none s lpa = fetched (read lpa) s lpa

  abbrev pub get_srmap_blk : SrmapUtils → ℕ → Outcome SrmapUtils SummaryBlock
  get_srmap_blk s lpa = cached_or (s.srmap_cache lpa) s lpa

  abbrev stored : SrmapUtils → ℕ → SummaryBlock → SrmapUtils
  stored s lpa b = record s {
    srmap_cache = put s.srmap_cache lpa (some b);
    dirty_blks = insert_dirty lpa s.dirty_blks;
  }

  unfoldable pub write_srmap_of_data : SrmapUtils → ℕ → ℕ → ℕ → Outcome SrmapUtils (Unit {0})
  write_srmap_of_data s data_lpa ino blkoff =
      let (lpa, idx) = get_srmap_pos_of_lpa s data_lpa in
      get_srmap_blk s lpa >>= λ (b, s1).
      done tt (stored s1 lpa (put b idx (record { nid = ino; ofs_in_node = blkoff })))

  unfoldable pub write_srmap_of_node : SrmapUtils → ℕ → ℕ → Outcome SrmapUtils (Unit {0})
  write_srmap_of_node s node_lpa nid =
      let (lpa, idx) = get_srmap_pos_of_lpa s node_lpa in
      get_srmap_blk s lpa >>= λ (b, s1).
      done tt (stored s1 lpa (put b idx (record (b idx) { nid = nid })))

unfoldable pub clear_cache : SrmapUtils → SrmapUtils
clear_cache s = record s { dirty_blks = []; srmap_cache = λ _. none }

-- The entry of a block, cached or on the device.
abbrev pub entry_of : (ℕ → Option SummaryBlock) → SrmapUtils → ℕ → ℕ → Option Summary
entry_of read s lpa idx = elim (s.srmap_cache lpa) [
  | some b ↦ some (b idx)
  | none ↦ elim (read lpa) [ some b ↦ some (b idx) | none ↦ none ]
]
