-- ===== src/JournalProcessor.antt =====
-- The thread that writes the journals to the ring of the SSD and follows their application
-- (src/journal/journal_processor.cc, inc/journal/journal_processor.hh). The blocks of the area
-- [start_lpa, end_lpa) that hold journals are [head_lpa, tail_lpa) in circular order. What the SSD
-- answers is an argument: `ok` whether a command succeeds, and the head that a query returns.
pub mod Ring
pub mod Order
use hscfs.Base.{
  ℕ, ◌+◌, ◌-◌, ◌*◌, List, [], ◌∷◌, ◌++◌, Bool, true, false, not, ◌&&◌, ◌||◌, Option, none, some,
  ltb, leb, ◌==◌, if◌then◌else◌,
}
use hscfs.Base.Outcome.{Outcome, done, thrown, io_error, ◌>>=◌}

-- `transaction_journal_record`: the area [start_lpa, end_lpa) of a transaction's journal.
pub record TransactionJournalRecord : Type 0 where
  pub tx_id : ℕ
  pub start_lpa : ℕ
  pub end_lpa : ℕ

unfoldable pub is_applied : TransactionJournalRecord → ℕ → ℕ → Bool
is_applied r cur_head cur_tail =
    if ltb r.start_lpa r.end_lpa
    then (if leb cur_head cur_tail
        then leb r.end_lpa cur_head || ltb cur_tail r.start_lpa
        else leb r.end_lpa cur_head)
    else leb cur_head cur_tail && leb r.end_lpa cur_head

pub data JournalProcessState : Type 0 where
  newly_fetched written_in_buffer : JournalProcessState

-- A journal is its transaction and the number of blocks that the writer collects it into; `notified`
-- are the transactions whose application the replace protection has been told, oldest first.
pub record PendingJournal : Type 0 where
  pub tx_id : ℕ
  pub block_num : ℕ

pub record JournalProcessor : Type 0 where
  pub head_lpa : ℕ
  pub tail_lpa : ℕ
  pub start_lpa : ℕ
  pub end_lpa : ℕ
  pub cur_avail_lpa : ℕ
  pub total_avail_lpa : ℕ
  pub pending_journal_list : List PendingJournal
  pub tx_record : List TransactionJournalRecord
  pub cur_journal_block_num : ℕ
  pub cur_journal : Option PendingJournal
  pub cur_proc_state : JournalProcessState
  pub cur_journal_start_lpa : ℕ
  pub cur_journal_end_lpa : ℕ
  pub notified : List ℕ

-- One block of the ring stays unused: a full ring would look like an empty one.
unfoldable pub create : ℕ → ℕ → ℕ → JournalProcessor
create journal_start_lpa journal_end_lpa journal_fifo_pos = record {
  head_lpa = journal_fifo_pos;
  tail_lpa = journal_fifo_pos;
  start_lpa = journal_start_lpa;
  end_lpa = journal_end_lpa;
  cur_avail_lpa = journal_end_lpa - journal_start_lpa - 1;
  total_avail_lpa = journal_end_lpa - journal_start_lpa - 1;
  pending_journal_list = [];
  tx_record = [];
  cur_journal_block_num = 0;
  cur_journal = none;
  cur_proc_state = newly_fetched;
  cur_journal_start_lpa = 0;
  cur_journal_end_lpa = 0;
  notified = [];
}

abbrev null : {A : Type 0} → List A → Bool
null [] = true
null (x ∷ xs) = false

abbrev is_none : {A : Type 0} → Option A → Bool
is_none none = true
is_none (some x) = false

unfoldable pub is_working : JournalProcessor → Bool
is_working p =
    not
      (p.cur_avail_lpa == p.total_avail_lpa && null p.pending_journal_list && is_none p.cur_journal)

-- `fetch_new_journal` with the commit queue that it finds: `none` is a thread that waits.
unfoldable pub fetch_new_journal : JournalProcessor → List PendingJournal → Option JournalProcessor
fetch_new_journal p commit_queue =
    if not (is_working p) && null commit_queue
    then none
    else some (record p { pending_journal_list = p.pending_journal_list ++ commit_queue })

unfoldable pub write_journal_to_buffer : JournalProcessor → PendingJournal → JournalProcessor
write_journal_to_buffer p j = record p {
  cur_journal_block_num = j.block_num;
  cur_proc_state = written_in_buffer;
}

unfoldable pub advance_tail : JournalProcessor → JournalProcessor
advance_tail p =
    let moved = p.tail_lpa + p.cur_journal_block_num in
    let tail = if leb p.end_lpa moved then moved - p.end_lpa + p.start_lpa else moved in
    record p {
      cur_journal_start_lpa = p.tail_lpa;
      tail_lpa = tail;
      cur_journal_end_lpa = tail;
      cur_avail_lpa = p.cur_avail_lpa - p.cur_journal_block_num;
    }

unfoldable pub write_journal_to_ssd : Bool → JournalProcessor → Outcome JournalProcessor Bool
write_journal_to_ssd ok p =
    if leb p.cur_journal_block_num p.cur_avail_lpa
    then (if ok then done true (advance_tail p) else thrown io_error p)
    else done false p

unfoldable pub generate_tx_record : JournalProcessor → PendingJournal → JournalProcessor
generate_tx_record p j = record p {
  tx_record =
      p.tx_record
      ++ record {
        tx_id = j.tx_id;
        start_lpa = p.cur_journal_start_lpa;
        end_lpa = p.cur_journal_end_lpa;
      }
        ∷ [];
}

-- The two states of the current journal; a journal that was written to the buffer goes on to the SSD.
unfoldable pub try_write :
    Bool → JournalProcessor → PendingJournal → Outcome JournalProcessor (Unit {0})
try_write ok p j = write_journal_to_ssd ok p >>= λ (written, q).
    if written then done tt (record (generate_tx_record q j) { cur_journal = none }) else done tt q

unfoldable pub process_state :
    JournalProcessState
    → Bool
    → JournalProcessor
    → PendingJournal
    → Outcome JournalProcessor (Unit {0})
process_state newly_fetched ok p j = try_write ok (write_journal_to_buffer p j) j
process_state written_in_buffer ok p j = try_write ok p j

unfoldable pub take_pending :
    Bool → JournalProcessor → List PendingJournal → Outcome JournalProcessor (Unit {0})
take_pending ok p [] = done tt p
take_pending ok p (j ∷ rest) =
    process_state newly_fetched ok
      (record p {
        cur_journal = some j;
        pending_journal_list = rest;
        cur_proc_state = newly_fetched;
      })
      j

unfoldable pub process_current :
    Option PendingJournal → Bool → JournalProcessor → Outcome JournalProcessor (Unit {0})
process_current none ok p = take_pending ok p p.pending_journal_list
process_current (some j) ok p = process_state p.cur_proc_state ok p j

abbrev pub process_pending_journal : Bool → JournalProcessor → Outcome JournalProcessor (Unit {0})
process_pending_journal ok p = process_current p.cur_journal ok p

-- How many blocks the SSD has applied since the last query.
unfoldable pub applied_blocks : JournalProcessor → ℕ → ℕ
applied_blocks p new_head_lpa =
    if leb p.head_lpa new_head_lpa
    then new_head_lpa - p.head_lpa
    else new_head_lpa + p.end_lpa - p.start_lpa - p.head_lpa

unfoldable pub sync_with_ssd_journal_pos :
    Option ℕ → JournalProcessor → Outcome JournalProcessor Bool
sync_with_ssd_journal_pos none p = thrown io_error p
sync_with_ssd_journal_pos (some new_head_lpa) p =
    let n = applied_blocks p new_head_lpa in
    done (not (n == 0)) (record p { head_lpa = new_head_lpa; cur_avail_lpa = p.cur_avail_lpa + n })

-- The records whose areas are applied leave from the front, and their transactions are notified.
unfoldable pub process_records : List TransactionJournalRecord → JournalProcessor → JournalProcessor
process_records [] p = record p { tx_record = [] }
process_records (r ∷ rest) p =
    let next = process_records rest (record p { notified = p.notified ++ r.tx_id ∷ [] }) in
    if is_applied r p.head_lpa p.tail_lpa then next else record p { tx_record = r ∷ rest }

abbrev pub process_tx_record : JournalProcessor → JournalProcessor
process_tx_record p = process_records p.tx_record p

unfoldable pub process_cplt_journal :
    Option ℕ → JournalProcessor → Outcome JournalProcessor (Unit {0})
process_cplt_journal head p =
    if p.cur_avail_lpa == p.total_avail_lpa
    then done tt p
    else (sync_with_ssd_journal_pos head p >>= λ (moved, q).
        done tt (if moved then process_tx_record q else q))
