-- ===== src/Journal/Output.antt =====
-- The output of a journal vector to a buffer (src/journal/journal_writer.cc,
-- `general_journal_output_vector`). A block of the write buffer is the list of the journal items in
-- it, each with the fields of its header. `none` is an access past the end of the journal.
use hscfs.Base.{
  ℕ, zero, suc, ◌+◌, ◌-◌, ◌*◌, ◌%◌, ◌^◌, List, [], ◌∷◌, Option, none, some, length, get_elem?, ◌==◌,
  if◌then◌else◌, ◌>>=◌,
}
use hscfs.Journal.{
  NatJournalEntry, SitJournalEntry, SuperBlockJournalEntry, journal_type_nats, journal_type_sits,
  journal_type_super_block,
}
use hscfs.Journal.Writable.{entry_header_len, generic_calculate_writable_entry_num}
use hscfs.Journal.Merge.{Places}

-- What follows the header of an item.
pub data Payload : Type 0 where
  nats : List NatJournalEntry → Payload
  sits : List SitJournalEntry → Payload
  supers : List SuperBlockJournalEntry → Payload
  nothing : Payload

-- `meta_journal_entry`; `len` is a 16-bit word.
pub record Item : Type 0 where
  pub len : ℕ
  pub type : ℕ
  pub payload : Payload

-- The parameters of the class template: the size of an entry, the type code of its items, and the
-- entries as the payload.
pub record Kind (E : Type 0) : Type 0 where
  pub entry_size : ℕ
  pub journal_type : ℕ
  pub wrap : List E → Payload

-- sizeof(NAT_journal_entry), sizeof(SIT_journal_entry) and sizeof(super_block_journal_entry) are 12,
-- 72 and 8.
abbrev pub nat_kind : Kind NatJournalEntry
nat_kind = record { entry_size = 12; journal_type = journal_type_nats; wrap = nats }

abbrev pub sit_kind : Kind SitJournalEntry
sit_kind = record { entry_size = 72; journal_type = journal_type_sits; wrap = sits }

abbrev pub super_kind : Kind SuperBlockJournalEntry
super_kind = record { entry_size = 8; journal_type = journal_type_super_block; wrap = supers }

-- `output_it` is the part of the map that is not yet written.
pub record OutputVector (E : Type 0) : Type 0 where
  pub journal : List E
  pub output_it : Places
  pub rest_output_num : ℕ

unfoldable pub prepare_output : {E : Type 0} → List E → Places → OutputVector E
prepare_output journal j_map = record {
  journal = journal;
  output_it = j_map;
  rest_output_num = length j_map;
}

-- `journal_output_state`, with the item that the call has written, its size in bytes, and the
-- vector that it leaves.
pub data OutputResult (E : Type 0) : Type 0 where
  output_ok : Item → ℕ → OutputVector E → OutputResult E
  no_enough_buffer reach_end : OutputResult E

-- The loop that copies `n` entries.
unfoldable pub copy_entries : {E : Type 0} → List E → ℕ → Places → Option (List E × Places)
copy_entries journal zero it = some ([], it)
copy_entries journal (suc n) [] = none
copy_entries journal (suc n) ((k, i) ∷ it) = do
  entry ← get_elem? journal i
  (entries, rest) ← copy_entries journal n it
  some (entry ∷ entries, rest)

-- `room` is `end_addr - *p_start_addr`.
unfoldable pub output_to_buffer :
    {E : Type 0} → Kind E → OutputVector E → ℕ → Option (OutputResult E)
output_to_buffer kind v room = if v.rest_output_num == 0 then some reach_end else (do
  output_num ← generic_calculate_writable_entry_num room kind.entry_size v.rest_output_num
  if output_num == 0 then some no_enough_buffer else (do
    (entries, it) ← copy_entries v.journal output_num v.output_it
    let written = entry_header_len + output_num * kind.entry_size
    let item : Item = record {
      len = written % 2 ^ 16;
      type = kind.journal_type;
      payload = kind.wrap entries;
    }
    let rest = record v { output_it = it; rest_output_num = v.rest_output_num - output_num }
    some (output_ok item written rest)))
