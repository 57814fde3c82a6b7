-- ===== src/Journal/Writer.antt =====
-- The collection of a transaction's journal into 4 KiB blocks (src/journal/journal_writer.cc,
-- `journal_writer`). The writer starts each collection at the head of its first block; what an
-- earlier collection left behind the `END` item is not modelled, since it is not read.
use hscfs.Base.{
  ℕ, zero, suc, ◌+◌, ◌-◌, ◌*◌, ◌%◌, ◌^◌, List, [], ◌∷◌, ◌++◌, Option, none, some, length, ◌==◌, ltb,
  if◌then◌else◌, ◌>>=◌,
}
use hscfs.Journal.{JournalContainer, journal_type_nop, journal_type_end}
use hscfs.Journal.Writable.{entry_header_len}
use hscfs.Journal.Merge.{Places, generate_output_vector}
use hscfs.Journal.Output.{
  Item, nothing, Kind, nat_kind, sit_kind, super_kind, OutputVector, prepare_output, output_ok,
  no_enough_buffer, reach_end, output_to_buffer,
}

-- `buffer_tail_idx` is the number of the blocks that are full, and `buffer_tail_off` the offset in
-- the block at hand.
pub record Writer : Type 0 where
  pub full : List (List Item)
  pub current : List Item
  pub buffer_tail_off : ℕ

abbrev pub buffer_tail_idx : Writer → ℕ
buffer_tail_idx w = length w.full

abbrev pub buffer_start : Writer
buffer_start = record { full = []; current = []; buffer_tail_off = 0 }

-- The item written at the tail, with the offset behind it.
abbrev write_item : Writer → Item → ℕ → Writer
write_item w item off = record w { current = w.current ++ item ∷ []; buffer_tail_off = off }

-- The item that fills `length` bytes; `none` is the exception.
unfoldable pub fill_buffer_with_nop : ℕ → Option Item
fill_buffer_with_nop bytes =
    let len = bytes % 2 ^ 16 in
    if ltb len entry_header_len
    then none
    else some (record { len = len; type = journal_type_nop; payload = nothing })

-- A block that is full is left for the next one.
unfoldable pub next_block : Writer → Writer
next_block w =
    if w.buffer_tail_off == 4096
    then record { full = w.full ++ w.current ∷ []; current = []; buffer_tail_off = 0 }
    else w

-- The loop over one vector; `none` is the exception, a bad access, or fuel that ran out.
unfoldable pub collect_vector : {E : Type 0} → ℕ → Kind E → OutputVector E → Writer → Option Writer
unfolding next_block
collect_vector zero kind v w = none
collect_vector (suc fuel) kind v w = do
  result ← output_to_buffer kind v (4096 - w.buffer_tail_off)
  elim result [
    | output_ok item written v' ↦
        collect_vector fuel kind v' (next_block (write_item w item (w.buffer_tail_off + written)))
    | no_enough_buffer ↦ (do
      item ← fill_buffer_with_nop (4096 - w.buffer_tail_off)
      collect_vector fuel kind v (next_block (write_item w item 4096)))
    | reach_end ↦ some (next_block w)
  ]

-- Each round writes an entry, or leaves the block, or is the last one.
unfoldable pub collect : {E : Type 0} → Kind E → List E → Places → Writer → Option Writer
collect kind journal j_map w =
    collect_vector (2 * length j_map + 2) kind (prepare_output journal j_map) w

unfoldable pub append_end_entry : Writer → Writer
append_end_entry w = record w {
  current =
      w.current
      ++ record { len = entry_header_len; type = journal_type_end; payload = nothing } ∷ [];
}

-- `journal_output_vec_generate` leaves out the vectors of empty journals. `arrange` is the order in
-- which the map is gone through.
abbrev pub collect_unless_empty :
    {E : Type 0} → Kind E → (Places → Places) → (E → ℕ) → List E → Writer → Option Writer
collect_unless_empty kind arrange key [] w = some w
collect_unless_empty kind arrange key (x ∷ xs) w =
    collect kind (x ∷ xs) (arrange (generate_output_vector key (x ∷ xs))) w

-- The number of blocks, and the blocks. The iteration order of the `std::unordered_map` of the super
-- block's entries is the parameter `order`.
unfoldable pub collect_pending_journal_to_write_buffer :
    (Places → Places) → JournalContainer → Option (ℕ × Writer)
collect_pending_journal_to_write_buffer order j = do
  w1 ← collect_unless_empty sit_kind (λ m. m) (λ e. e.seg_id) j.sit_journal buffer_start
  w2 ← collect_unless_empty nat_kind (λ m. m) (λ e. e.nid) j.nat_journal w1
  w3 ← collect_unless_empty super_kind order (λ e. e.off) j.super_block_journal w2
  some (buffer_tail_idx w3 + 1, append_end_entry w3)
