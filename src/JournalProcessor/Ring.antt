-- ===== src/JournalProcessor/Ring.antt =====
-- The ring of the journal area: its head and tail, the room that is left, and when a record's area is
-- applied.
use hscfs.Base.{
  ℕ, ◌+◌, ◌-◌, ◌<◌, ◌≤◌, ◌≡◌, refl, ◌⊎◌, inl, inr, Bool, true, false, some, ltb, leb, if◌then◌else◌,
  arith,
}
use hscfs.Base.Outcome.{done, thrown, io_error}
use hscfs.JournalProcessor.{
  is_applied, JournalProcessor, create, advance_tail, write_journal_to_ssd, applied_blocks,
  sync_with_ssd_journal_pos,
}

-- The blocks from `head` to `tail`, around the end of the area [first, last).
abbrev pub distance : ℕ → ℕ → ℕ → ℕ → ℕ
distance first last head tail = if leb head tail then tail - head else tail + (last - first) - head

-- The block `d` blocks after `x`, for `d` below the size of the area.
abbrev pub after : ℕ → ℕ → ℕ → ℕ → ℕ
after first last x d = if ltb (x + d) last then x + d else x + d - last + first

pub record IsValid (p : JournalProcessor) : Type 0 where
  pub head_low : p.start_lpa ≤ p.head_lpa
  pub head_high : p.head_lpa < p.end_lpa
  pub tail_low : p.start_lpa ≤ p.tail_lpa
  pub tail_high : p.tail_lpa < p.end_lpa
  pub total : p.total_avail_lpa + 1 + p.start_lpa ≡ p.end_lpa
  pub room :
      p.cur_avail_lpa + distance p.start_lpa p.end_lpa p.head_lpa p.tail_lpa ≡ p.total_avail_lpa

pub create-IsValid :
    (first last pos : ℕ) → first ≤ pos → pos < last → IsValid (create first last pos)
unfolding create
create-IsValid first last pos low high = record {
  head_low = low;
  head_high = high;
  tail_low = low;
  tail_high = high;
  total = omega arith;
  room = ground arith;
}

abbrev pub Written : JournalProcessor → Type 0
Written p =
    IsValid (advance_tail p)
    × ((advance_tail p).tail_lpa ≡ after p.start_lpa p.end_lpa p.tail_lpa p.cur_journal_block_num)
    × ((advance_tail p).cur_avail_lpa + p.cur_journal_block_num ≡ p.cur_avail_lpa)
    × ((advance_tail p).cur_journal_start_lpa ≡ p.tail_lpa)
    × ((advance_tail p).cur_journal_end_lpa ≡ (advance_tail p).tail_lpa)

advance_tail-Written :
    (p : JournalProcessor) → IsValid p → p.cur_journal_block_num ≤ p.cur_avail_lpa → Written p
unfolding advance_tail
advance_tail-Written p v fits = (
  record {
    head_low = v.head_low;
    head_high = v.head_high;
    tail_low = ground (arith, v.head_low, v.head_high, v.tail_low, v.tail_high, v.total, v.room);
    tail_high = ground (arith, v.head_low, v.head_high, v.tail_low, v.tail_high, v.total, v.room);
    total = v.total;
    room = ground (arith, v.head_low, v.head_high, v.tail_low, v.tail_high, v.total, v.room);
  },
  ground (arith, v.head_low, v.head_high, v.tail_low, v.tail_high, v.total, v.room),
  omega arith,
  refl,
  refl,
)

fits_or_not : (a b : ℕ) → (a ≤ b) ⊎ (b < a)
fits_or_not a b = ground arith

-- A journal is written exactly when it fits in the room that is left and the SSD takes it. Then its
-- area starts at the old tail and ends at the new one, the tail moves around the ring by its blocks,
-- and the room shrinks by them; otherwise nothing changes, with `false` for a lack of room and an
-- exception for a failed command.
pub write_journal_to_ssd-IsValid :
    (ok : Bool) (p : JournalProcessor)
    → IsValid p
    → ((p.cur_journal_block_num ≤ p.cur_avail_lpa)
        × (write_journal_to_ssd ok p
            ≡ (if ok then done true (advance_tail p) else thrown io_error p))
        × Written p)
      ⊎ ((p.cur_avail_lpa < p.cur_journal_block_num) × (write_journal_to_ssd ok p ≡ done false p))
unfolding write_journal_to_ssd
write_journal_to_ssd-IsValid ok p v = elim (fits_or_not p.cur_journal_block_num p.cur_avail_lpa) [
  | inl fits ↦ inl (fits, ground arith, advance_tail-Written p v fits)
  | inr full ↦ inr (full, ground arith)
]

-- The head that the SSD reports lies between the old head and the tail: the room grows by the blocks
-- that were applied, and the answer tells whether there were any.
pub sync_with_ssd_journal_pos-IsValid :
    (p : JournalProcessor) (n : ℕ)
    → IsValid p
    → n ≤ distance p.start_lpa p.end_lpa p.head_lpa p.tail_lpa
    → (q : JournalProcessor) × (sync_with_ssd_journal_pos
          (some (after p.start_lpa p.end_lpa p.head_lpa n))
          p
        ≡ done (ltb 0 n) q)
      × IsValid q
      × (q.head_lpa ≡ after p.start_lpa p.end_lpa p.head_lpa n)
      × (q.tail_lpa ≡ p.tail_lpa)
      × (q.cur_avail_lpa ≡ p.cur_avail_lpa + n)
unfolding sync_with_ssd_journal_pos applied_blocks
sync_with_ssd_journal_pos-IsValid p n v within =
    let head = after p.start_lpa p.end_lpa p.head_lpa n in
    (
      record p { head_lpa = head; cur_avail_lpa = p.cur_avail_lpa + n },
      ground (arith, v.head_low, v.head_high, v.tail_low, v.tail_high, v.total, v.room),
      record {
        head_low =
            ground (arith, v.head_low, v.head_high, v.tail_low, v.tail_high, v.total, v.room);
        head_high =
            ground (arith, v.head_low, v.head_high, v.tail_low, v.tail_high, v.total, v.room);
        tail_low = v.tail_low;
        tail_high = v.tail_high;
        total = v.total;
        room = ground (arith, v.head_low, v.head_high, v.tail_low, v.tail_high, v.total, v.room);
      },
      refl,
      refl,
      refl,
    )

-- While the tail has not come around to the record's area again, `is_applied` tells exactly whether
-- the head has passed the whole area: the head is `h` blocks after the area's start, the tail `t`, and
-- the area has `n` blocks.
pub is_applied-leb :
    (first last tx x n h t : ℕ)
    → first ≤ x
    → x < last
    → 0 < n
    → n ≤ t
    → h ≤ t
    → t + first < last
    → is_applied
        (record { tx_id = tx; start_lpa = x; end_lpa = after first last x n })
        (after first last x h)
        (after first last x t)
      ≡ leb n h
unfolding is_applied
is_applied-leb first last tx x n h t low high some_ written applied once = ground arith
