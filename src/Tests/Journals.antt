-- ===== src/Tests/Journals.antt =====
-- Short journals, their layout, and the ring of the processor.
use hscfs.Base.{
  ℕ, ◌+◌, ◌<◌, ◌≤◌, ◌≡◌, ◌⊎◌, refl, true, false, List, [], ◌∷◌, ◌++◌, some, nat_key, arith, length,
  leb,
}
use mathlib.Core.List.{Permᴰ}
use mathlib.Core.List.Permᴰ
use hscfs.Base.Outcome.{done}
use hscfs.Journal.{JournalContainer, NatJournalEntry, SuperBlockJournalEntry}
use hscfs.Journal.Merge
use hscfs.Journal.Output.{Item}
use hscfs.Journal.Writer.{Writer, collect_pending_journal_to_write_buffer}
use hscfs.Journal.Layout.{AllFull, AllFramed, total_len, read_back}
use hscfs.Journal.Transaction.{
  end_item, read_nats, read_sits, read_supers, collect_pending_journal-reads,
}
use hscfs.JournalProcessor
use hscfs.JournalProcessor.{JournalProcessor}
use hscfs.JournalProcessor.Ring
use hscfs.JournalProcessor.Order
use hscfs.Journal.Writable.{generic_calculate_writable_entry_num, Largest, writable-Largest}
use hscfs.Tests.Data.{journal}

writable-Largest_example :
    (r : ℕ) × (generic_calculate_writable_entry_num 100 12 8 ≡ some r) × Largest 100 12 8 r
writable-Largest_example = writable-Largest 100 12 (omega arith) 8 (omega arith) (omega arith)

-- A journal with two values for a NAT entry.
abbrev entries : List NatJournalEntry
entries =
    record { nid = 8; new_value = record { ino = 1; block_addr = 50 } }
    ∷ record { nid = 4; new_value = record { ino = 1; block_addr = 51 } }
    ∷ record { nid = 8; new_value = record { ino = 1; block_addr = 52 } }
    ∷ []

abbrev nat_changes : JournalContainer
nat_changes = record journal { nat_journal = entries }

generate_output_vector-last_example :
    (out : List NatJournalEntry) × Merge.Resolves
      (λ e. e.nid)
      entries
      (Merge.generate_output_vector (λ e. e.nid) entries)
      out
    × Merge.Ascending (λ e. e.nid) out
    × ((k : ℕ) → Merge.find_first (λ e. e.nid) k out ≡ Merge.find_last (λ e. e.nid) k entries)
generate_output_vector-last_example = Merge.generate_output_vector-last (λ e. e.nid) entries

collect_pending_journal-reads_example :
    (w : Writer) × (items : List Item) × (ys : List SuperBlockJournalEntry)
    × (collect_pending_journal_to_write_buffer (λ m. m) nat_changes ≡ some (length w.full + 1, w))
    × AllFull w.full
    × (w.current ≡ items ++ end_item ∷ [])
    × AllFramed items
    × (total_len items + 4 ≤ 4096)
    × (read_back read_sits w ≡ [])
    × (read_back read_nats w ≡ Merge.merge_into (λ e. e.nid) [] entries)
    × (read_back read_supers w ≡ ys)
    × Permᴰ [] ys
collect_pending_journal-reads_example =
    collect_pending_journal-reads (λ m. m) nat_changes (λ m. Permᴰ.refl m) (omega arith)
      (omega arith) (omega arith)

-- The ring of the journal area.
abbrev ring : JournalProcessor
ring = record (JournalProcessor.create 10 20 15) { cur_journal_block_num = 7 }

ring-IsValid : Ring.IsValid ring
unfolding JournalProcessor.create
ring-IsValid =
    let v = Ring.create-IsValid 10 20 15 (omega arith) (omega arith) in
    record {
      head_low = v.head_low;
      head_high = v.head_high;
      tail_low = v.tail_low;
      tail_high = v.tail_high;
      total = v.total;
      room = v.room;
    }

write_journal_to_ssd-IsValid_example :
    ((7 ≤ ring.cur_avail_lpa)
      × (JournalProcessor.write_journal_to_ssd true ring
          ≡ done true (JournalProcessor.advance_tail ring))
      × Ring.Written ring)
    ⊎ ((ring.cur_avail_lpa < 7)
        × (JournalProcessor.write_journal_to_ssd true ring ≡ done false ring))
write_journal_to_ssd-IsValid_example = Ring.write_journal_to_ssd-IsValid true ring ring-IsValid

abbrev used_ring : JournalProcessor
used_ring = record ring { head_lpa = 15; tail_lpa = 12; cur_avail_lpa = 2 }

used_ring-IsValid : Ring.IsValid used_ring
unfolding JournalProcessor.create
used_ring-IsValid = record {
  head_low = omega arith;
  head_high = omega arith;
  tail_low = omega arith;
  tail_high = omega arith;
  total = refl;
  room = refl;
}

within_ring :
    6 ≤ Ring.distance used_ring.start_lpa used_ring.end_lpa used_ring.head_lpa used_ring.tail_lpa
unfolding JournalProcessor.create
within_ring = omega arith

is_applied-leb_example :
    JournalProcessor.is_applied (record { tx_id = 1; start_lpa = 15; end_lpa = 12 }) 11 13 ≡ leb 7 6
is_applied-leb_example =
    Ring.is_applied-leb 10 20 1 15 7 6 8 (omega arith) (omega arith) (omega arith) (omega arith)
      (omega arith) (omega arith)

abbrev busy_ring : JournalProcessor
busy_ring = record used_ring {
  head_lpa = 19;
  cur_avail_lpa = 6;
  pending_journal_list =
      record { tx_id = 3; block_num = 2 } ∷ record { tx_id = 4; block_num = 9 } ∷ [];
  tx_record =
      record { tx_id = 1; start_lpa = 15; end_lpa = 18 }
      ∷ record { tx_id = 2; start_lpa = 18; end_lpa = 12 }
      ∷ [];
}

process_pending_journal-Preserves_example :
    Order.Preserves
      (Order.sequence busy_ring)
      (JournalProcessor.process_pending_journal true busy_ring)
process_pending_journal-Preserves_example = Order.process_pending_journal-Preserves true busy_ring

process_tx_record-Completes_example :
    Order.Completes busy_ring.tx_record busy_ring (JournalProcessor.process_tx_record busy_ring)
process_tx_record-Completes_example = Order.process_tx_record-Completes busy_ring
