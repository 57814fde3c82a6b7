-- ===== src/Directory/Search.antt =====
-- The search in a block that is laid out finds the entry with the name, or the longest run of free slots.
use hscfs.Base.{
  ℕ, zero, suc, ◌+◌, ◌<◌, ◌≤◌, ◌≡◌, inl, inr, refl, sym, subst, List, [], ◌∷◌, true, false, Option,
  none, some, ◌==◌, if◌then◌else◌, length, arith, Bool-cases,
}
use hscfs.Directory.{
  nr_dentry_in_block, get_dentry_slots, DentryBlock, Found, end_run, find_loop,
  hscfs_find_target_dentry,
}
use hscfs.Directory.Layout.{
  Segment, unused, entry, Named, total_width, IsStored, IsLaidOut, is_named, slot_of,
  match-is_named,
}
use hscfs.Directory.Runs.{
  AllFree, Place, Runs, start-Runs, unused-Runs, entry-Runs, end_run-Place, end_run-longest,
}

pub IsLaidOut-total :
    (b : DentryBlock) (p : ℕ) (ss : List Segment)
    → IsLaidOut b p ss
    → p + total_width ss ≡ nr_dentry_in_block
IsLaidOut-total b p [] h = omega (arith, h)
IsLaidOut-total b p (unused ∷ ss) (free, rest) = omega (arith, IsLaidOut-total b (p + 1) ss rest)
IsLaidOut-total b p (entry e ∷ ss) (stored, rest) =
    omega (arith, IsLaidOut-total b (p + get_dentry_slots (length e.name)) ss rest)

-- What a search may answer.
pub record Finds (b : DentryBlock) (found : Option (ℕ × Named)) (s : Found) : Type 0 where
  pub target : s.target ≡ (elim found [ none ↦ none | some e ↦ some (e.0) ])
  pub place : found ≡ none → Place b.dentry_bitmap nr_dentry_in_block s.max_slots s.empty_bit_pos
  pub longest :
      found ≡ none
      → (q n : ℕ) → q + n ≤ nr_dentry_in_block
      → AllFree b.dentry_bitmap q n
      → n ≤ s.max_slots

module _ (name : List ℕ) (namehash : ℕ) (b : DentryBlock) where
  abbrev loop : ℕ → ℕ → ℕ → ℕ → Option ℕ → Option Found
  loop fuel = find_loop fuel name namehash b

  loop_ends :
      (fuel len best : ℕ) (empty : Option ℕ)
      → loop (suc fuel) nr_dentry_in_block len best empty
        ≡ some (end_run nr_dentry_in_block len best empty none)
  unfolding find_loop
  loop_ends fuel len best empty = refl

  loop-unused :
      (fuel p len best : ℕ) (empty : Option ℕ)
      → p < nr_dentry_in_block
      → b.dentry_bitmap p ≡ false
      → loop (suc fuel) p len best empty ≡ loop fuel (p + 1) (len + 1) best empty
  unfolding find_loop
  loop-unused fuel p len best empty inside free = rw free (ground (arith, inside))

  loop-entry :
      (fuel p len best : ℕ) (empty : Option ℕ) (e : Named)
      → p < nr_dentry_in_block
      → IsStored b p e
      → loop (suc fuel) p len best empty ≡ (
          if is_named name namehash e
          then some (end_run p len best empty (some p))
          else loop fuel
              (p + get_dentry_slots (length e.name))
              0
              (end_run p len best empty none).max_slots
              (end_run p len best empty none).empty_bit_pos)
  unfolding find_loop
  loop-entry fuel p len best empty e inside st =
      let (some_name, used, de, bytes) = st in
      let here : b.dentry_bitmap p ≡ true =
        subst (λ k. b.dentry_bitmap k ≡ true) (omega arith) (used 0 (omega (arith, some_name))) in
      let size : (b.dentry p).name_len ≡ length e.name = rw de refl in
      let matched = match-is_named b p e name namehash st in
      let long : (length e.name == 0) ≡ false = ground (arith, some_name) in
      rw (here, matched, size, long) (ground (arith, inside))

  loop-Finds :
      (ss : List Segment) (fuel p len best : ℕ) (empty : Option ℕ)
      → IsLaidOut b p ss
      → Runs b.dentry_bitmap p len best empty
      → total_width ss < fuel
      → (s : Found) × (loop fuel p len best empty ≡ some s) × Finds b (slot_of name namehash p ss) s
  loop-Finds ss zero p len best empty laid r h = absurd (omega (arith, h))
  loop-Finds [] (suc fuel) p len best empty laid r h = (
    end_run p len best empty none,
    subst (λ k. loop (suc fuel) k len best empty ≡ some (end_run k len best empty none)) (sym laid)
        (loop_ends fuel len best empty),
    record {
      target = ground arith;
      place = λ e.
          subst
            (λ k.
              Place b.dentry_bitmap k (end_run p len best empty none).max_slots
                (end_run p len best empty none).empty_bit_pos)
            laid (end_run-Place b.dentry_bitmap p len best empty none r);
      longest = λ e q n inside free.
          end_run-longest b.dentry_bitmap p len best empty none r q n (omega (arith, inside, laid))
            free;
    },
  )
  loop-Finds (unused ∷ ss) (suc fuel) p len best empty (free, rest) r h =
      let total = IsLaidOut-total b (p + 1) ss rest in
      let (s, ran, finds) =
        loop-Finds ss fuel (p + 1) (len + 1) best empty rest
          (unused-Runs b.dentry_bitmap p len best empty r free) (omega (arith, h)) in
      (s, rw (loop-unused fuel p len best empty (omega (arith, total)) free) ran, finds)
  loop-Finds (entry e ∷ ss) (suc fuel) p len best empty (st, rest) r h =
      let slots = get_dentry_slots (length e.name) in
      let total = IsLaidOut-total b (p + slots) ss rest in
      let wide : 0 < slots = omega (arith, st.0) in
      let step = loop-entry fuel p len best empty e (omega (arith, total, wide)) st in
      elim (Bool-cases (is_named name namehash e)) [
        | inl hit ↦ (
          end_run p len best empty (some p),
          rw step (rw hit refl),
          record {
            target = rw hit (ground arith);
            place = λ none_found. absurd (ground (arith, hit, none_found));
            longest = λ none_found. absurd (ground (arith, hit, none_found));
          },
        )
        | inr miss ↦
            let (s, ran, finds) =
              loop-Finds ss fuel (p + slots) 0 (end_run p len best empty none).max_slots
                (end_run p len best empty none).empty_bit_pos rest
                (entry-Runs b.dentry_bitmap p len best slots empty r wide st.1)
                (omega (arith, h, wide)) in
            (s, rw step (rw miss ran), rw miss finds)
      ]

-- In a block that is laid out the search ends. It finds the slot at which the first entry with the name
-- and the hash starts, if there is one; otherwise it gives a free run that no free run exceeds.
pub hscfs_find_target_dentry-Finds :
    (name : List ℕ) (namehash : ℕ) (b : DentryBlock) (ss : List Segment)
    → IsLaidOut b 0 ss
    → (s : Found) × (hscfs_find_target_dentry name namehash b ≡ some s)
      × Finds b (slot_of name namehash 0 ss) s
unfolding hscfs_find_target_dentry
hscfs_find_target_dentry-Finds name namehash b ss laid =
    loop-Finds name namehash b ss (suc nr_dentry_in_block) 0 0 0 none laid
      (start-Runs b.dentry_bitmap) (omega (arith, IsLaidOut-total b 0 ss laid))
