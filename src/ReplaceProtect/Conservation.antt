-- ===== src/ReplaceProtect/Conservation.antt =====
-- The transactions that the protection has been given, at every moment of any history.
use hscfs.Base.{
  ℕ, suc, ◌+◌, ◌≡◌, List, [], ◌∷◌, ◌++◌, true, Option, some, ◌==◌, if◌then◌else◌, count,
  count-erase, nat_key, ◌>>=◌, arith, Option-cases, inl, inr,
}
use hscfs.ReplaceProtect.{
  TransactionReplaceProtectRecord, ReplaceProtectManager, add_tx, notify_first, notify_cplt_tx,
  mark_protect_process_cplt, all_protect_task_cplt,
}

pub data Event : Type 0 where
  added : TransactionReplaceProtectRecord → Event
  notified marked : ℕ → Event

unfoldable pub step : ReplaceProtectManager → Event → Option ReplaceProtectManager
step m (added r) = some (add_tx m r)
step m (notified tx) = notify_cplt_tx m tx
step m (marked tx) = mark_protect_process_cplt m tx

unfoldable pub run : ReplaceProtectManager → List Event → Option ReplaceProtectManager
run m [] = some m
run m (e ∷ es) = do m' ← step m e; run m' es

-- How often a transaction was added, and how often marked as complete.
abbrev pub adds : ℕ → List Event → ℕ
adds tx [] = 0
adds tx (added r ∷ es) = if r.tx_id == tx then suc (adds tx es) else adds tx es
adds tx (notified k ∷ es) = adds tx es
adds tx (marked k ∷ es) = adds tx es

abbrev pub marks : ℕ → List Event → ℕ
marks tx [] = 0
marks tx (added r ∷ es) = marks tx es
marks tx (notified k ∷ es) = marks tx es
marks tx (marked k ∷ es) = if k == tx then suc (marks tx es) else marks tx es

abbrev waiting : ℕ → List TransactionReplaceProtectRecord → ℕ
waiting tx [] = 0
waiting tx (r ∷ rs) = if r.tx_id == tx then suc (waiting tx rs) else waiting tx rs

abbrev pub held : ℕ → ReplaceProtectManager → ℕ
held tx m = waiting tx m.trp_list + count tx m.protect_processing_tx

waiting-snoc :
    (tx : ℕ) (rs : List TransactionReplaceProtectRecord) (r : TransactionReplaceProtectRecord)
    → waiting tx (rs ++ r ∷ []) ≡ waiting tx rs + (if r.tx_id == tx then 1 else 0)
waiting-snoc tx [] r = ground arith
waiting-snoc tx (x ∷ rs) r = ground (arith, waiting-snoc tx rs r)

notify_first-held :
    (tx : ℕ) (rs : List TransactionReplaceProtectRecord) (m : ReplaceProtectManager)
    {m' : ReplaceProtectManager} (k : ℕ)
    → notify_first rs m k ≡ some m'
    → held tx m' ≡ waiting tx rs + count tx m.protect_processing_tx
unfolding notify_first
notify_first-held tx [] m k h = absurd (ground arith)
notify_first-held tx (r ∷ rs) m k h = ground arith

mark-held :
    (tx : ℕ) (m : ReplaceProtectManager) {m' : ReplaceProtectManager} (k : ℕ)
    → mark_protect_process_cplt m k ≡ some m'
    → held tx m' + (if k == tx then 1 else 0) ≡ held tx m
unfolding mark_protect_process_cplt
mark-held tx m k h = ground (arith, count-erase tx k m.protect_processing_tx)

-- In every history that meets no failed assertion, each transaction that was added is waiting, in
-- processing, or marked as complete, as often as it was added.
pub run-Conserves :
    (tx : ℕ) (es : List Event) (m : ReplaceProtectManager) {m' : ReplaceProtectManager}
    → run m es ≡ some m'
    → held tx m + adds tx es ≡ held tx m' + marks tx es
unfolding run step add_tx
run-Conserves tx [] m h = ground arith
run-Conserves tx (added r ∷ es) m h =
    ground (arith, run-Conserves tx es (add_tx m r) h, waiting-snoc tx m.trp_list r)
run-Conserves tx (notified k ∷ es) m {m'} h = elim (Option-cases (notify_cplt_tx m k)) [
  | inl failed ↦ absurd (ground (arith, failed))
  | inr (m1, notes) ↦ ground (
    arith,
    notify_first-held tx m.trp_list m k notes,
    run-Conserves tx es m1 {m' = m'} (ground (arith, notes)),
  )
]
run-Conserves tx (marked k ∷ es) m {m'} h = elim (Option-cases (mark_protect_process_cplt m k)) [
  | inl failed ↦ absurd (ground (arith, failed))
  | inr (m1, marks1) ↦
      ground
        (arith, mark-held tx m k marks1, run-Conserves tx es m1 {m' = m'} (ground (arith, marks1)))
]

-- When `wait_all_protect_task_cplt` returns, every transaction that was added to the empty manager has
-- been marked as complete, as often as it was added.
pub all_protect_task_cplt-marked :
    (tx : ℕ) (es : List Event) {m' : ReplaceProtectManager}
    → run (record { trp_list = []; protect_processing_tx = []; posted = [] }) es ≡ some m'
    → all_protect_task_cplt m' ≡ true
    → adds tx es ≡ marks tx es
unfolding all_protect_task_cplt
all_protect_task_cplt-marked tx es {m'} h done_ = ground (
  arith,
  run-Conserves tx es (record { trp_list = []; protect_processing_tx = []; posted = [] }) h,
)
