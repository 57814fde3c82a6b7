-- ===== src/Journal/Merge.antt =====
-- The merging of journal entries with the same target (src/journal/journal_writer.cc,
-- `generate_output_vector`): `j_map` takes a key to the place of its last entry. A `std::map` is the
-- list of its pairs in the order of the keys.
use hscfs.Base.{
  ℕ, suc, ◌+◌, ◌<◌, ◌≤◌, ◌≡◌, refl, List, [], ◌∷◌, ◌++◌, Option, none, some, arith, ltb, ◌==◌,
  if◌then◌else◌, length, get_elem?,
}

abbrev pub Places : Type 0
Places = List (ℕ × ℕ)

-- `j_map[key] = i`
unfoldable pub insert : ℕ → ℕ → Places → Places
insert key i [] = (key, i) ∷ []
insert key i ((k, p) ∷ m) =
    if key == k
    then (key, i) ∷ m
    else if ltb key k
    then (key, i) ∷ (k, p) ∷ m
    else (k, p) ∷ insert key i m

module _ {E : Type 0} (key : E → ℕ) where
  -- The loop of `generate_output_vector`, from the place `i` of the rest of the journal on.
  unfoldable pub generate_from : ℕ → List E → Places → Places
  generate_from i [] m = m
  generate_from i (x ∷ xs) m = generate_from (suc i) xs (insert (key x) i m)

  unfoldable pub generate_output_vector : List E → Places
  unfolding generate_from insert
  generate_output_vector journal = generate_from 0 journal []

  -- The specification: the entries themselves, sorted and merged.
  abbrev pub insert_entry : E → List E → List E
  insert_entry e [] = e ∷ []
  insert_entry e (x ∷ xs) =
      if key e == key x
      then e ∷ xs
      else if ltb (key e) (key x)
      then e ∷ x ∷ xs
      else x ∷ insert_entry e xs

  abbrev pub merge_into : List E → List E → List E
  merge_into xs [] = xs
  merge_into xs (e ∷ es) = merge_into (insert_entry e xs) es

  -- The map's pairs name the entries `xs` of the journal.
  abbrev pub Resolves : List E → Places → List E → Type 0
  Resolves journal [] [] = Unit {0}
  Resolves journal [] (x ∷ xs) = ⊥
  Resolves journal ((k, i) ∷ m) [] = ⊥
  Resolves journal ((k, i) ∷ m) (x ∷ xs) =
      (get_elem? journal i ≡ some x) × (key x ≡ k) × Resolves journal m xs

  insert-Resolves :
      (journal : List E) (e : E) (i : ℕ) (m : Places) (xs : List E)
      → get_elem? journal i ≡ some e
      → Resolves journal m xs
      → Resolves journal (insert (key e) i m) (insert_entry e xs)
  unfolding insert
  insert-Resolves journal e i [] [] h r = (h, refl, tt)
  insert-Resolves journal e i [] (x ∷ xs) h r = absurd r
  insert-Resolves journal e i ((k, p) ∷ m) [] h r = absurd r
  insert-Resolves journal e i ((k, p) ∷ m) (x ∷ xs) h r =
      ground (arith, insert-Resolves journal e i m xs h r.2)

  get_elem?-middle :
      (pre : List E) (e : E) (post : List E) → get_elem? (pre ++ e ∷ post) (length pre) ≡ some e
  get_elem?-middle [] e post = refl
  get_elem?-middle (x ∷ pre) e post = get_elem?-middle pre e post

  generate_from-Resolves :
      (journal : List E) (i : ℕ) (rest : List E) (m : Places) (xs : List E)
      → ((n : ℕ) (x : E) → get_elem? rest n ≡ some x → get_elem? journal (i + n) ≡ some x)
      → Resolves journal m xs
      → Resolves journal (generate_from i rest m) (merge_into xs rest)
  unfolding generate_from
  generate_from-Resolves journal i [] m xs h r = r
  generate_from-Resolves journal i (e ∷ rest) m xs h r =
      generate_from-Resolves journal (suc i) rest (insert (key e) i m) (insert_entry e xs)
        (λ n x found. ground (arith, h (suc n) x))
        (insert-Resolves journal e i m xs (ground (arith, h 0 e)) r)

  pub generate_output_vector-Resolves :
      (journal : List E) → Resolves journal (generate_output_vector journal) (merge_into [] journal)
  unfolding generate_output_vector
  generate_output_vector-Resolves journal =
      generate_from-Resolves journal 0 journal [] [] (λ n x found. ground arith) tt

  -- What a reader of the merged entries finds for a key, and what the journal says last.
  abbrev pub find_first : ℕ → List E → Option E
  find_first k [] = none
  find_first k (x ∷ xs) = if key x == k then some x else find_first k xs

  abbrev pub find_last : ℕ → List E → Option E
  find_last k [] = none
  find_last k (x ∷ xs) = elim (find_last k xs) [
    | some y ↦ some y
    | none ↦ if key x == k then some x else none
  ]

  abbrev pub Above : ℕ → List E → Type 0
  Above n [] = Unit {0}
  Above n (x ∷ xs) = (n < key x) × Above n xs

  abbrev pub Ascending : List E → Type 0
  Ascending [] = Unit {0}
  Ascending (x ∷ xs) = Above (key x) xs × Ascending xs

  find_first-insert_entry :
      (k : ℕ) (e : E) (xs : List E)
      → find_first k (insert_entry e xs) ≡ (if key e == k then some e else find_first k xs)
  find_first-insert_entry k e [] = refl
  find_first-insert_entry k e (x ∷ xs) = ground (arith, find_first-insert_entry k e xs)

  Above-insert_entry :
      (n : ℕ) (e : E) (xs : List E) → n < key e → Above n xs → Above n (insert_entry e xs)
  Above-insert_entry n e [] h a = (h, tt)
  Above-insert_entry n e (x ∷ xs) h a = ground (arith, Above-insert_entry n e xs h a.1)

  Above-mono : (n m : ℕ) (xs : List E) → n ≤ m → Above m xs → Above n xs
  Above-mono n m [] h a = tt
  Above-mono n m (x ∷ xs) h a = (omega arith, Above-mono n m xs h a.1)

  Ascending-insert_entry : (e : E) (xs : List E) → Ascending xs → Ascending (insert_entry e xs)
  Ascending-insert_entry e [] a = (tt, tt)
  Ascending-insert_entry e (x ∷ xs) a = ground (
    arith,
    Ascending-insert_entry e xs a.1,
    Above-insert_entry (key x) e xs,
    Above-mono (key e) (key x) xs,
  )

  find_first-merge_into :
      (k : ℕ) (xs es : List E)
      → find_first k (merge_into xs es)
        ≡ elim (find_last k es) [ some y ↦ some y | none ↦ find_first k xs ]
  find_first-merge_into k xs [] = refl
  find_first-merge_into k xs (e ∷ es) =
      ground (arith, find_first-merge_into k (insert_entry e xs) es, find_first-insert_entry k e xs)

  Ascending-merge_into : (xs es : List E) → Ascending xs → Ascending (merge_into xs es)
  Ascending-merge_into xs [] a = a
  Ascending-merge_into xs (e ∷ es) a =
      Ascending-merge_into (insert_entry e xs) es (Ascending-insert_entry e xs a)

  -- The output vector names, for every target, the last entry of the journal for it, each target
  -- once and in ascending order.
  pub generate_output_vector-last :
      (journal : List E)
      → (out : List E) × Resolves journal (generate_output_vector journal) out
        × Ascending out
        × ((k : ℕ) → find_first k out ≡ find_last k journal)
  generate_output_vector-last journal = (
    merge_into [] journal,
    generate_output_vector-Resolves journal,
    Ascending-merge_into [] journal tt,
    λ k. ground (arith, find_first-merge_into k [] journal),
  )
