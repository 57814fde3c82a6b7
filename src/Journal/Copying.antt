-- ===== src/Journal/Copying.antt =====
-- What `output_to_buffer` does on each branch, for a vector whose places are in the journal.
use hscfs.Base.{
  ℕ, zero, suc, ◌+◌, ◌-◌, ◌*◌, ◌%◌, ◌^◌, ◌≤◌, ◌<◌, ◌≡◌, ◌≢◌, inl, inr, refl, List, [], ◌∷◌, some,
  arith, length, length-drop, take, drop, ◌==◌, ltb, Bool-cases,
}
use hscfs.Journal.Writable.{writable-Largest, Largest, Fits, generic_calculate_writable_entry_num}
use hscfs.Journal.Merge.{Places, Resolves}
use hscfs.Journal.Output.{
  Item, Kind, OutputVector, output_ok, no_enough_buffer, reach_end, copy_entries, output_to_buffer,
}

module _ {E : Type 0} (key : E → ℕ) where
  copied-Resolves :
      (journal : List E) (n : ℕ) (it : Places) (xs : List E)
      → Resolves key journal it xs
      → n ≤ length xs
      → (copy_entries journal n it ≡ some (take n xs, drop n it))
        × Resolves key journal (drop n it) (drop n xs)
  unfolding copy_entries
  copied-Resolves journal zero it xs r h = (refl, r)
  copied-Resolves journal (suc n) [] [] r h = absurd (omega arith)
  copied-Resolves journal (suc n) [] (x ∷ xs) r h = absurd r
  copied-Resolves journal (suc n) ((k, i) ∷ it) [] r h = absurd r
  copied-Resolves journal (suc n) ((k, i) ∷ it) (x ∷ xs) r h =
      let (copied, rest) = copied-Resolves journal n it xs r.2 (omega arith) in (ground arith, rest)

  -- The vector still has the entries `xs` to write.
  pub record Pends (v : OutputVector E) (xs : List E) : Type 0 where
    pub resolves : Resolves key v.journal v.output_it xs
    pub counted : v.rest_output_num ≡ length xs

  -- The result of a call: the end, a buffer with no room, or the item of the first entries.
  pub data Outputs (kind : Kind E) (v : OutputVector E) (room : ℕ) (xs : List E) : Type 0 where
    ended : length xs ≡ 0 → output_to_buffer kind v room ≡ some reach_end → Outputs kind v room xs
    full :
        0 < length xs
        → room < 8 + kind.entry_size
        → output_to_buffer kind v room ≡ some no_enough_buffer
        → Outputs kind v room xs
    wrote :
        (r : ℕ) (item : Item) (v' : OutputVector E)
        → 0 < r
        → r ≤ length xs
        → Fits room kind.entry_size r
        → item.len ≡ (4 + r * kind.entry_size) % 2 ^ 16
        → item.type ≡ kind.journal_type
        → item.payload ≡ kind.wrap (take r xs)
        → Pends v' (drop r xs)
        → output_to_buffer kind v room ≡ some (output_ok item (4 + r * kind.entry_size) v')
        → Outputs kind v room xs

  module _ (kind : Kind E) (pos : 0 < kind.entry_size) (v : OutputVector E) (room : ℕ) (xs : List E)
      (p : Pends v xs) (small : room < 2 ^ 64)
      (word : 4 + length xs * kind.entry_size < 2 ^ 64) where
    ends : length xs ≡ 0 → output_to_buffer kind v room ≡ some reach_end
    unfolding output_to_buffer
    ends h = ground (arith, p.counted)

    no_room :
        length xs ≢ 0
        → generic_calculate_writable_entry_num room kind.entry_size v.rest_output_num ≡ some 0
        → output_to_buffer kind v room ≡ some no_enough_buffer
    unfolding output_to_buffer
    no_room h calculated = ground (arith, p.counted)

    writes :
        (r : ℕ)
        → 0 < r
        → r ≤ length xs
        → Fits room kind.entry_size r
        → generic_calculate_writable_entry_num room kind.entry_size v.rest_output_num ≡ some r
        → Outputs kind v room xs
    unfolding output_to_buffer
    writes r some_fit bound fits calculated =
        let (copied, rest) = copied-Resolves v.journal r v.output_it xs p.resolves bound in
        wrote r
          (record {
            len = (4 + r * kind.entry_size) % 2 ^ 16;
            type = kind.journal_type;
            payload = kind.wrap (take r xs);
          })
          (record v { output_it = drop r v.output_it; rest_output_num = v.rest_output_num - r })
          some_fit bound fits refl refl refl
          (record { resolves = rest; counted = omega (arith, p.counted, length-drop r xs) })
          (ground (arith, p.counted))

    tight :
        (r : ℕ)
        → Largest room kind.entry_size v.rest_output_num r
        → 0 < length xs
        → r ≡ 0
        → room < 8 + kind.entry_size
    tight r l more z = elim (Bool-cases (ltb room (8 + kind.entry_size))) [
      | inl less ↦ ground arith
      | inr roomy ↦
          absurd (omega (arith, l.largest 1 (omega (arith, p.counted)) (inr (ground arith))))
    ]

    pub output_to_buffer-Outputs : Outputs kind v room xs
    output_to_buffer-Outputs =
        let (r, calculated, l) =
          writable-Largest room kind.entry_size pos v.rest_output_num small
            (ground (arith, p.counted)) in
        elim (Bool-cases (length xs == 0)) [
          | inl done ↦ ended (ground arith) (ends (ground arith))
          | inr more ↦ elim (Bool-cases (r == 0)) [
            | inl none_fits ↦
                full (ground arith) (tight r l (ground arith) (ground arith))
                  (no_room (ground arith) (ground arith))
            | inr some_fit ↦ elim l.fits [
              | inl z ↦ absurd (ground arith)
              | inr fits ↦
                  writes r (ground arith) (ground (arith, p.counted, l.expected_bound)) fits
                    calculated
            ]
          ]
        ]
