-- ===== src/ReplaceProtect.antt =====
-- The protection of cache entries until the SSD has applied their transactions
-- (src/fs/replace_protect.cc, inc/fs/replace_protect.hh). `none` is a failed assertion. The waits on
-- condition variables are their predicates. The handles of nodes and directory entries that a record
-- keeps are left out: their release belongs to the caches of nodes and of directory entries.
pub mod Conservation
use hscfs.Base.{
  ℕ, List, [], ◌∷◌, ◌++◌, Bool, true, false, ◌&&◌, Option, none, some, ◌==◌, if◌then◌else◌, guard,
  count, erase, nat_key, ◌>>=◌, ◌>>◌,
}
use hscfs.Base.Outcome
use hscfs.Base.Outcome.{Outcome, done, ◌>>=◌ as ◌>>>◌}
use hscfs.Journal.{JournalContainer, NatJournalEntry, SitJournalEntry}
use hscfs.SitNatCache
use hscfs.Meta.{Meta, NatBlock, SitBlock, on_nat, on_sit}
use hscfs.Meta.Nat.{get_nid_pos_in_nat}
use hscfs.Meta.Sit.{get_segid_pos_in_sit}
use hscfs.Meta.Segments.{add_to_node_segment_list, add_to_data_segment_list}

pub record TransactionReplaceProtectRecord : Type 0 where
  pub tx_id : ℕ
  pub tx_journal : JournalContainer
  pub uncommit_node_segs : List ℕ
  pub uncommit_data_segs : List ℕ

-- `posted` are the tasks sent to the server thread.
pub record ReplaceProtectManager : Type 0 where
  pub trp_list : List TransactionReplaceProtectRecord
  pub protect_processing_tx : List ℕ
  pub posted : List TransactionReplaceProtectRecord

unfoldable pub add_tx :
    ReplaceProtectManager → TransactionReplaceProtectRecord → ReplaceProtectManager
add_tx m trp = record m { trp_list = m.trp_list ++ trp ∷ [] }

unfoldable pub notify_first :
    List TransactionReplaceProtectRecord → ReplaceProtectManager → ℕ → Option ReplaceProtectManager
notify_first [] m cplt_tx_id = none
notify_first (first ∷ rest) m cplt_tx_id =
    guard (count first.tx_id m.protect_processing_tx == 0)
    >> guard (first.tx_id == cplt_tx_id)
    >> some (record m {
      trp_list = rest;
      protect_processing_tx = first.tx_id ∷ m.protect_processing_tx;
      posted = m.posted ++ first ∷ [];
    })

abbrev pub notify_cplt_tx : ReplaceProtectManager → ℕ → Option ReplaceProtectManager
notify_cplt_tx m cplt_tx_id = notify_first m.trp_list m cplt_tx_id

unfoldable pub mark_protect_process_cplt : ReplaceProtectManager → ℕ → Option ReplaceProtectManager
mark_protect_process_cplt m tx_id =
    guard (count tx_id m.protect_processing_tx == 1)
    >> some (record m { protect_processing_tx = erase tx_id m.protect_processing_tx })

abbrev null : {A : Type 0} → List A → Bool
null [] = true
null (x ∷ xs) = false

unfoldable pub all_journal_applied_in_ssd : ReplaceProtectManager → Bool
all_journal_applied_in_ssd m = null m.trp_list

unfoldable pub all_protect_task_cplt : ReplaceProtectManager → Bool
all_protect_task_cplt m = null m.trp_list && null m.protect_processing_tx

-- The task of an applied transaction, on the metadata.
module _ (read_nat : ℕ → Option NatBlock) (read_sit : ℕ → Option SitBlock) where
  unfoldable pub nat_versions : List NatJournalEntry → Meta → Outcome Meta (Unit {0})
  nat_versions [] s = done tt s
  nat_versions (e ∷ es) s = Outcome.step (get_nid_pos_in_nat s.super e.nid) λ (lpa, idx).
      on_nat s (SitNatCache.add_ssd_version read_nat s.nat_cache lpa) λ (_, s1). nat_versions es s1

  unfoldable pub sit_versions : List SitJournalEntry → Meta → Outcome Meta (Unit {0})
  sit_versions [] s = done tt s
  sit_versions (e ∷ es) s = Outcome.step (get_segid_pos_in_sit s.super e.seg_id) λ (lpa, idx).
      on_sit s (SitNatCache.add_ssd_version read_sit s.sit_cache lpa) λ (_, s1). sit_versions es s1

  unfoldable pub add_node_segs : List ℕ → Meta → Outcome Meta (Unit {0})
  add_node_segs [] s = done tt s
  add_node_segs (segid ∷ segs) s =
      add_to_node_segment_list read_sit s segid >>> λ (_, s1). add_node_segs segs s1

  unfoldable pub add_data_segs : List ℕ → Meta → Outcome Meta (Unit {0})
  add_data_segs [] s = done tt s
  add_data_segs (segid ∷ segs) s =
      add_to_data_segment_list read_sit s segid >>> λ (_, s1). add_data_segs segs s1

  unfoldable pub run_task : TransactionReplaceProtectRecord → Meta → Outcome Meta (Unit {0})
  run_task r s = nat_versions r.tx_journal.nat_journal s >>> λ (_, s1).
      sit_versions r.tx_journal.sit_journal s1 >>> λ (_, s2).
      add_node_segs r.uncommit_node_segs s2 >>> λ (_, s3). add_data_segs r.uncommit_data_segs s3
