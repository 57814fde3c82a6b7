-- ===== src/Directory/Runs.antt =====
-- The runs of free slots that the search in a block keeps track of.
use hscfs.Base.{
  ℕ, zero, suc, ◌+◌, ◌-◌, ◌<◌, ◌≤◌, ◌≡◌, inl, inr, refl, subst, max, Bool, true, false, Option,
  none, some, ltb, leb, arith, Bool-cases, ℕ-cases,
}
use hscfs.Directory.{end_run}

abbrev pub AllFree : (ℕ → Bool) → ℕ → ℕ → Type 0
AllFree bitmap q n = (i : ℕ) → i < n → bitmap (q + i) ≡ false

-- A slot of a run, by its number.
pub AllFree-at :
    (bitmap : ℕ → Bool) (q n j : ℕ) → AllFree bitmap q n → q ≤ j → j < q + n → bitmap j ≡ false
AllFree-at bitmap q n j free after before =
    subst (λ k. bitmap k ≡ false) (omega (arith, after))
      (free (j - q) (omega (arith, after, before)))

-- A run is where it is said to be, and is free.
pub data Place (bitmap : ℕ → Bool) (p : ℕ) : ℕ → Option ℕ → Type 0 where
  no_run : {empty : Option ℕ} → Place bitmap p 0 empty
  run_at : {n q : ℕ} → q + n ≤ p → AllFree bitmap q n → Place bitmap p n (some q)

-- Before slot `p`: the free run that ends there has `len` slots, and the longest one before has `best`
-- slots and starts at `empty`.
pub record Runs (bitmap : ℕ → Bool) (p len best : ℕ) (empty : Option ℕ) : Type 0 where
  pub inside : len ≤ p
  pub last : AllFree bitmap (p - len) len
  pub last_longest : (q n : ℕ) → q + n ≡ p → AllFree bitmap q n → n ≤ len
  pub place : Place bitmap p best empty
  pub longest : (q n : ℕ) → q + n ≤ p → AllFree bitmap q n → n ≤ max best len

pub start-Runs : (bitmap : ℕ → Bool) → Runs bitmap 0 0 0 none
start-Runs bitmap = record {
  inside = omega arith;
  last = λ i h. absurd (omega (arith, h));
  last_longest = λ q n e free. omega (arith, e);
  place = no_run;
  longest = λ q n e free. omega (arith, e);
}

Place-later :
    {bitmap : ℕ → Bool} {p p' n : ℕ} {empty : Option ℕ}
    → p ≤ p'
    → Place bitmap p n empty
    → Place bitmap p' n empty
Place-later later no_run = no_run
Place-later later (run_at inside free) = run_at (omega (arith, later, inside)) free

pub unused-Runs :
    (bitmap : ℕ → Bool) (p len best : ℕ) (empty : Option ℕ)
    → Runs bitmap p len best empty
    → bitmap p ≡ false
    → Runs bitmap (p + 1) (len + 1) best empty
unused-Runs bitmap p len best empty r free = record {
  inside = omega (arith, r.inside);
  last = λ i h. elim (ℕ-cases i len) [
    | inl here ↦ subst (λ k. bitmap k ≡ false) (omega (arith, here, r.inside)) free
    | inr other ↦
        subst (λ k. bitmap k ≡ false) (omega (arith, r.inside)) (r.last i (omega (arith, h, other)))
  ];
  last_longest = λ q n e run. ends q n e run;
  place = Place-later (omega arith) r.place;
  longest = λ q n e run. elim (ℕ-cases (q + n) (p + 1)) [
    | inl at_end ↦ omega (arith, ends q n at_end run)
    | inr before ↦ omega (arith, r.longest q n (omega (arith, e, before)) run)
  ];
}
  where
    ends : (q n : ℕ) → q + n ≡ p + 1 → AllFree bitmap q n → n ≤ len + 1
    ends q zero e run = omega arith
    ends q (suc n) e run =
        omega (arith, r.last_longest q n (omega (arith, e)) (λ i h. run i (omega (arith, h))))

-- What the end of a run makes of the longest one.
pub end_run-Place :
    (bitmap : ℕ → Bool) (p len best : ℕ) (empty target : Option ℕ)
    → Runs bitmap p len best empty
    → Place bitmap p
        (end_run p len best empty target).max_slots
        (end_run p len best empty target).empty_bit_pos
end_run-Place bitmap p len best empty target r = elim (Bool-cases (ltb best len)) [
  | inl longer ↦ rw longer (run_at (omega (arith, r.inside)) r.last)
  | inr shorter ↦ rw shorter r.place
]

pub end_run-longest :
    (bitmap : ℕ → Bool) (p len best : ℕ) (empty target : Option ℕ)
    → Runs bitmap p len best empty
    → (q n : ℕ) → q + n ≤ p
    → AllFree bitmap q n
    → n ≤ (end_run p len best empty target).max_slots
end_run-longest bitmap p len best empty target r q n e free = elim (Bool-cases (ltb best len)) [
  | inl longer ↦ rw longer (ground (arith, longer, r.longest q n e free))
  | inr shorter ↦ rw shorter (ground (arith, shorter, r.longest q n e free))
]

pub entry-Runs :
    (bitmap : ℕ → Bool) (p len best slots : ℕ) (empty : Option ℕ)
    → Runs bitmap p len best empty
    → 0 < slots
    → ((i : ℕ) → i < slots → bitmap (p + i) ≡ true)
    → Runs bitmap
        (p + slots)
        0
        (end_run p len best empty none).max_slots
        (end_run p len best empty none).empty_bit_pos
entry-Runs bitmap p len best slots empty r some_slot used = record {
  inside = omega arith;
  last = λ i h. absurd (omega (arith, h));
  last_longest = λ q n e run. ends q n e run;
  place = Place-later (omega arith) (end_run-Place bitmap p len best empty none r);
  longest = λ q n e run. elim (Bool-cases (leb (q + n) p)) [
    | inl before ↦
        omega
          (arith, end_run-longest bitmap p len best empty none r q n (ground (arith, before)) run)
    | inr across ↦ omega (arith, meets q n (ground (arith, across)) e run)
  ];
}
  where
    -- A free run that reaches beyond `p` is empty.
    meets : (q n : ℕ) → p < q + n → q + n ≤ p + slots → AllFree bitmap q n → n ≡ 0
    meets q zero across e run = refl
    meets q (suc n) across e run =
        let last_free : bitmap (q + n) ≡ false = run n (omega arith) in
        let last_used : bitmap (q + n) ≡ true =
          subst (λ k. bitmap k ≡ true) (omega (arith, across))
            (used (q + n - p) (omega (arith, e, across))) in
        absurd (ground (arith, last_free, last_used))

    ends : (q n : ℕ) → q + n ≡ p + slots → AllFree bitmap q n → n ≤ 0
    ends q n e run = omega (arith, meets q n (omega (arith, e, some_slot)) (omega (arith, e)) run)
