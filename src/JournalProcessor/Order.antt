-- ===== src/JournalProcessor/Order.antt =====
-- The transactions on their way through the thread: committed, collected, written, applied, notified.
use hscfs.Base.{
  ℕ, ◌≡◌, refl, subst, Bool-cases, Option-cases, sym, ap, ◌∙◌, inl, inr, Bool, true, false, List,
  [], ◌∷◌, ◌++◌, map, Option, none, some, leb,
}
use mathlib.Core.List.{append_assoc, append-nil}
use hscfs.Base.Outcome.{Outcome, done, thrown, aborted}
use hscfs.JournalProcessor.{
  TransactionJournalRecord, is_applied, JournalProcessor, PendingJournal, JournalProcessState,
  newly_fetched, written_in_buffer, write_journal_to_buffer, advance_tail, write_journal_to_ssd,
  generate_tx_record, try_write, process_state, take_pending, process_current,
  process_pending_journal, process_records, process_tx_record,
}

abbrev pub current : Option PendingJournal → List ℕ
current none = []
current (some j) = j.tx_id ∷ []

abbrev pub ids : List PendingJournal → List ℕ
ids js = map (λ j. j.tx_id) js

abbrev pub written : List TransactionJournalRecord → List ℕ
written rs = map (λ r. r.tx_id) rs

-- All transactions that the thread has had, in order: those notified, written, in work and pending.
abbrev pub sequence : JournalProcessor → List ℕ
sequence p =
    p.notified ++ written p.tx_record ++ current p.cur_journal ++ ids p.pending_journal_list

-- The outcome of a step that moves no transaction past another and loses none.
abbrev pub Preserves : List ℕ → Outcome JournalProcessor (Unit {0}) → Type 0
Preserves xs (done x q) = sequence q ≡ xs
Preserves xs (thrown e q) = sequence q ≡ xs
Preserves xs aborted = ⊥

written-snoc :
    (rs : List TransactionJournalRecord) (r : TransactionJournalRecord)
    → written (rs ++ r ∷ []) ≡ written rs ++ r.tx_id ∷ []
written-snoc [] r = refl
written-snoc (x ∷ rs) r = ap (λ xs. x.tx_id ∷ xs) (written-snoc rs r)

recorded-sequence :
    (p : JournalProcessor) (j : PendingJournal)
    → p.cur_journal ≡ some j
    → sequence (record (generate_tx_record p j) { cur_journal = none }) ≡ sequence p
unfolding generate_tx_record
recorded-sequence p j e = rw e (simp (written-snoc, append_assoc))

try_write-Preserves :
    (ok : Bool) (p : JournalProcessor) (j : PendingJournal)
    → p.cur_journal ≡ some j
    → Preserves (sequence p) (try_write ok p j)
unfolding try_write write_journal_to_ssd advance_tail
try_write-Preserves ok p j e = elim (Bool-cases (leb p.cur_journal_block_num p.cur_avail_lpa)) [
  | inr full ↦ rw full refl
  | inl fits ↦ rw fits (elim (Bool-cases ok) [
    | inl y ↦ rw y (recorded-sequence (advance_tail p) j e)
    | inr n ↦ rw n refl
  ])
]

process_state-Preserves :
    (st : JournalProcessState) (ok : Bool) (p : JournalProcessor) (j : PendingJournal)
    → p.cur_journal ≡ some j
    → Preserves (sequence p) (process_state st ok p j)
unfolding process_state write_journal_to_buffer
process_state-Preserves newly_fetched ok p j e =
    try_write-Preserves ok (write_journal_to_buffer p j) j e
process_state-Preserves written_in_buffer ok p j e = try_write-Preserves ok p j e

taken : JournalProcessor → PendingJournal → List PendingJournal → JournalProcessor
taken p j rest = record p {
  cur_journal = some j;
  pending_journal_list = rest;
  cur_proc_state = newly_fetched;
}

take_pending-Preserves :
    (ok : Bool) (p : JournalProcessor) (js : List PendingJournal)
    → p.cur_journal ≡ none
    → p.pending_journal_list ≡ js
    → Preserves (sequence p) (take_pending ok p js)
unfolding take_pending taken
take_pending-Preserves ok p [] e f = refl
take_pending-Preserves ok p (j ∷ rest) e f =
    let same : sequence (taken p j rest) ≡ sequence p = rw (e, f) (simp append_assoc) in
    subst (λ xs. Preserves xs (process_state newly_fetched ok (taken p j rest) j)) same
      (process_state-Preserves newly_fetched ok (taken p j rest) j refl)

-- `process_pending_journal` neither loses nor repeats nor reorders a transaction, in any outcome.
pub process_pending_journal-Preserves :
    (ok : Bool) (p : JournalProcessor) → Preserves (sequence p) (process_pending_journal ok p)
unfolding process_current
process_pending_journal-Preserves ok p = elim (Option-cases p.cur_journal) [
  | inl e ↦
      subst (λ c. Preserves (sequence p) (process_current c ok p)) (sym e)
        (take_pending-Preserves ok p p.pending_journal_list e refl)
  | inr (j, e) ↦
      subst (λ c. Preserves (sequence p) (process_current c ok p)) (sym e)
        (process_state-Preserves p.cur_proc_state ok p j e)
]

abbrev pub All : (TransactionJournalRecord → Bool) → List TransactionJournalRecord → Type 0
All test [] = Unit {0}
All test (r ∷ rs) = (test r ≡ true) × All test rs

abbrev pub Stops : (TransactionJournalRecord → Bool) → List TransactionJournalRecord → Type 0
Stops test [] = Unit {0}
Stops test (r ∷ rs) = test r ≡ false

-- `rs` are the records before the call.
pub record Completes (rs : List TransactionJournalRecord) (p q : JournalProcessor) : Type 0 where
  pub front : List TransactionJournalRecord
  pub records : rs ≡ front ++ q.tx_record
  pub notified : q.notified ≡ p.notified ++ written front
  pub applied : All (λ r. is_applied r p.head_lpa p.tail_lpa) front
  pub rest : Stops (λ r. is_applied r p.head_lpa p.tail_lpa) q.tx_record
  pub others : q ≡ record p { tx_record = q.tx_record; notified = q.notified }

process_records-Completes :
    (rs : List TransactionJournalRecord) (p : JournalProcessor)
    → Completes rs p (process_records rs p)
unfolding process_records
process_records-Completes [] p = record {
  front = [];
  records = refl;
  notified = sym (append-nil p.notified);
  applied = tt;
  rest = tt;
  others = refl;
}
process_records-Completes (r ∷ rs) p =
    let told : JournalProcessor = record p { notified = p.notified ++ r.tx_id ∷ [] } in
    let c = process_records-Completes rs told in
    elim (Bool-cases (is_applied r p.head_lpa p.tail_lpa)) [
      | inl past ↦ rw past (record {
        front = r ∷ c.front;
        records = ap (λ xs. r ∷ xs) c.records;
        notified = c.notified ∙ append_assoc p.notified (r.tx_id ∷ []) (written c.front);
        applied = (past, c.applied);
        rest = c.rest;
        others = c.others ∙ refl;
      })
      | inr live ↦ rw live (record {
        front = [];
        records = refl;
        notified = sym (append-nil p.notified);
        applied = tt;
        rest = live;
        others = refl;
      })
    ]

-- `process_tx_record` notifies the longest front of the records whose areas are applied, in order,
-- removes exactly these, and changes nothing else.
pub process_tx_record-Completes :
    (p : JournalProcessor) → Completes p.tx_record p (process_tx_record p)
process_tx_record-Completes p = process_records-Completes p.tx_record p
