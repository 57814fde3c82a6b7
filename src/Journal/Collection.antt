-- ===== src/Journal/Collection.antt =====
-- The loop of `collect_pending_journal_to_write_buffer` over one vector: it ends, and a reader gets
-- exactly the entries of the vector back.
use mathlib.Core.List.{append_assoc, append-nil}
use native.Mathlib.Nat.{mul-le-mul_right}
use hscfs.Base.{
  ℕ, zero, suc, ◌+◌, ◌-◌, ◌*◌, ◌^◌, ◌≤◌, ◌<◌, ◌≡◌, ◌⊎◌, inl, inr, refl, List, [], ◌∷◌, ◌++◌, Option,
  some, arith, length, length-drop, length-take, take, drop, take-append-drop, ◌==◌, if◌then◌else◌,
  sym, ◌∙◌, ap,
}
use hscfs.Journal.{journal_type_nop}
use hscfs.Journal.Output.{
  Item, Kind, Payload, nothing, OutputVector, output_ok, no_enough_buffer, reach_end,
  output_to_buffer,
}
use hscfs.Journal.Copying.{Pends, Outputs, ended, full, wrote, output_to_buffer-Outputs}
use hscfs.Journal.Writer.{Writer, fill_buffer_with_nop, collect_vector}
use hscfs.Journal.Layout.{
  IsLaid, IsFramed, payload_bytes, payload_type, read_back, write_next, write_next-IsLaid,
  write_next-read_back, write_next-off,
}

-- What is used of a kind of entries: a block holds at least one, and the payload tells the size and the
-- type.
pub record IsLawful {E : Type 0} (kind : Kind E) : Type 0 where
  pub pos : 0 < kind.entry_size
  pub small : kind.entry_size + 8 ≤ 4096
  pub bytes : (xs : List E) → payload_bytes (kind.wrap xs) ≡ length xs * kind.entry_size
  pub typed : (xs : List E) → payload_type (kind.wrap xs) ≡ kind.journal_type

-- A way to read payloads that goes through them in order.
pub record Reads {E F : Type 0} (kind : Kind E) (pick : Payload → List F) : Type 0 where
  pub skips : pick nothing ≡ []
  pub starts : pick (kind.wrap []) ≡ []
  pub appends :
      (xs ys : List E) → pick (kind.wrap (xs ++ ys)) ≡ pick (kind.wrap xs) ++ pick (kind.wrap ys)

-- The result is laid out well, and holds the entries behind what was there before.
abbrev pub Collects : {E : Type 0} → Kind E → List E → Writer → Option Writer → Type 1
Collects kind xs w result =
    (w' : Writer) × (result ≡ some w')
    × IsLaid w'
    × ((F : Type 0) (pick : Payload → List F)
        → Reads kind pick
        → read_back pick w' ≡ read_back pick w ++ pick (kind.wrap xs))

-- Whether the loop may still have to leave a block that is begun.
abbrev pub begun : Writer → ℕ
begun w = if w.buffer_tail_off == 0 then 0 else 1

module _ {E : Type 0} (kind : Kind E) (lawful : IsLawful kind) where
  step_ends :
      (fuel : ℕ) (v : OutputVector E) (w : Writer)
      → output_to_buffer kind v (4096 - w.buffer_tail_off) ≡ some reach_end
      → IsLaid w
      → collect_vector (suc fuel) kind v w ≡ some w
  unfolding collect_vector
  step_ends fuel v w h laid = ground arith

  step_wrote :
      (fuel : ℕ) (v v' : OutputVector E) (w : Writer) (item : Item) (n : ℕ)
      → output_to_buffer kind v (4096 - w.buffer_tail_off) ≡ some (output_ok item n v')
      → collect_vector (suc fuel) kind v w
        ≡ collect_vector fuel kind v' (write_next w item (w.buffer_tail_off + n))
  unfolding collect_vector write_next
  step_wrote fuel v v' w item n h = ground arith

  abbrev nop_item : ℕ → Item
  nop_item n = record { len = n; type = journal_type_nop; payload = nothing }

  step_full :
      (fuel : ℕ) (v : OutputVector E) (w : Writer)
      → output_to_buffer kind v (4096 - w.buffer_tail_off) ≡ some no_enough_buffer
      → IsLaid w
      → collect_vector (suc fuel) kind v w
        ≡ collect_vector fuel kind v (write_next w (nop_item (4096 - w.buffer_tail_off)) 4096)
  unfolding collect_vector write_next fill_buffer_with_nop
  step_full fuel v w h laid = ground (arith, laid.room)

  Collects-wrote :
      (w w1 : Writer) (r : ℕ) (xs : List E) (result : Option Writer)
      → ((F : Type 0) (pick : Payload → List F)
          → read_back pick w1 ≡ read_back pick w ++ pick (kind.wrap (take r xs)))
      → Collects kind (drop r xs) w1 result
      → Collects kind xs w result
  Collects-wrote w w1 r xs result written (w', done, laid, reads) = (
    w',
    done,
    laid,
    λ F pick laws.
        reads F pick laws
        ∙ ap (λ l. l ++ pick (kind.wrap (drop r xs))) (written F pick)
        ∙ append_assoc (read_back pick w) _ _
        ∙ ap (◌++◌ (read_back pick w)) (
            sym (laws.appends (take r xs) (drop r xs))
            ∙ ap (λ l. pick (kind.wrap l)) (take-append-drop r xs)),
  )

  Collects-full :
      (w w1 : Writer) (xs : List E) (result : Option Writer)
      → ((F : Type 0) (pick : Payload → List F)
          → read_back pick w1 ≡ read_back pick w ++ pick nothing)
      → Collects kind xs w1 result
      → Collects kind xs w result
  Collects-full w w1 xs result written (w', done, laid, reads) = (
    w',
    done,
    laid,
    λ F pick laws.
        reads F pick laws
        ∙ ap (λ l. l ++ pick (kind.wrap xs))
            (written F pick
              ∙ ap (◌++◌ (read_back pick w)) laws.skips
              ∙ append-nil (read_back pick w)),
  )

  pub Collects-end :
      (w : Writer) (xs : List E) → length xs ≡ 0 → IsLaid w → Collects kind xs w (some w)
  Collects-end w [] h laid = (
    w,
    refl,
    laid,
    λ F pick laws. sym (ap (◌++◌ (read_back pick w)) laws.starts ∙ append-nil (read_back pick w)),
  )
  Collects-end w (x ∷ xs) h laid = absurd (omega arith)

  module _ (key : E → ℕ) where
    pub collect_vector-Collects :
        (fuel : ℕ) (v : OutputVector E) (w : Writer) (xs : List E)
        → Pends key v xs
        → IsLaid w
        → 4 + length xs * kind.entry_size < 2 ^ 64
        → 2 * length xs + begun w < fuel
        → Collects kind xs w (collect_vector fuel kind v w)
    collect_vector-Collects zero v w xs p laid word h = absurd (omega arith)
    collect_vector-Collects (suc fuel) v w xs p laid word h =
        go
          (output_to_buffer-Outputs key kind lawful.pos v (4096 - w.buffer_tail_off) xs p
            (omega arith) word)
          (collect_vector-Collects fuel)
      where
        go :
            Outputs key kind v (4096 - w.buffer_tail_off) xs
            → ((v' : OutputVector E) (w1 : Writer) (ys : List E)
                → Pends key v' ys
                → IsLaid w1
                → 4 + length ys * kind.entry_size < 2 ^ 64
                → 2 * length ys + begun w1 < fuel
                → Collects kind ys w1 (collect_vector fuel kind v' w1))
            → Collects kind xs w (collect_vector (suc fuel) kind v w)
        go (ended none_left result) rec =
            rw (step_ends fuel v w result laid) (Collects-end w xs none_left laid)
        go (full some_left tight result) rec = rw (step_full fuel v w result laid) (
            Collects-full w (write_next w nop 4096) xs _
              (λ F pick. write_next-read_back w laid nop 4096 framed end pick (inl refl))
              (rec v (write_next w nop 4096) xs p
                (write_next-IsLaid w laid nop 4096 framed end (inl refl)) word
                (ground (
                  arith,
                  laid.room,
                  lawful.small,
                  write_next-off w laid nop 4096 framed end refl,
                ))))
          where
            nop : Item
            nop = nop_item (4096 - w.buffer_tail_off)

            framed : IsFramed nop
            framed = inr (omega arith, refl, refl)

            end : w.buffer_tail_off + nop.len ≡ 4096
            end = omega arith
        go (wrote r item v' some_fit bound fits len type payload rest result) rec =
            rw (step_wrote fuel v v' w item _ result) (
              Collects-wrote w w1 r xs _
                (λ F pick.
                  write_next-read_back w laid item m framed end pick placed
                  ∙ ap (λ q. read_back pick w ++ pick q) payload)
                (rec v' w1 (drop r xs) rest (write_next-IsLaid w laid item m framed end placed)
                  (omega (
                    arith,
                    mul-le-mul_right {m = length (drop r xs)} {n = length xs} kind.entry_size
                        (omega (arith, length-drop r xs)),
                  ))
                  (ground (arith, length-drop r xs))))
          where
            m : ℕ
            m = w.buffer_tail_off + (4 + r * kind.entry_size)

            w1 : Writer
            w1 = write_next w item m

            len' : item.len ≡ 4 + r * kind.entry_size
            len' = ground (arith, len, fits, laid.room)

            framed : IsFramed item
            framed = inl (
              ground (arith, len', payload, lawful.bytes (take r xs), length-take r xs bound),
              ground (arith, type, payload, lawful.typed (take r xs)),
            )

            end : w.buffer_tail_off + item.len ≡ m
            end = omega (arith, len')

            placed : (m ≡ 4096) ⊎ (m + 4 ≤ 4096)
            placed = ground (arith, fits, laid.room)
