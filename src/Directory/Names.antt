-- ===== src/Directory/Names.antt =====
-- The names that a search finds in a block after a creation or a removal.
use hscfs.Base.{
  ℕ, zero, suc, ◌+◌, ◌-◌, ◌*◌, ◌/◌, ◌%◌, ◌^◌, ◌<◌, ◌≤◌, ◌≡◌, ◌≢◌, inl, inr, refl, sym, ap, ◌∙◌,
  subst, List, [], ◌∷◌, ◌++◌, true, false, not, Option, none, some, ◌==◌, nat_key, length, arith,
  Bool-cases, Option-cases, ℕ-cases, ◌>>=◌, >>=-eq-some, guard, leb,
}
use hscfs.Directory.{
  nr_dentry_in_block, get_dentry_slots, DentryBlock, create_dentry_in_blk, remove_dentry_in_blk,
  reset_bits, hscfs_find_target_dentry, hscfs_match_name, reset_overlap,
}
use hscfs.Directory.Layout.{
  Segment, unused, entry, Named, total_width, IsLaidOut, same_name, slot_of, is_named,
}
use hscfs.Directory.Bits.{AllLow, set_bits-eq_none, reset_bits-clears_upper, reset_overlap-hash}
use hscfs.Directory.Search.{hscfs_find_target_dentry-Finds}
use hscfs.Directory.Changes.{
  unused_slots, create_dentry_in_blk-IsLaidOut, remove_dentry_in_blk-IsLaidOut,
}

same_name_self : (name : List ℕ) → same_name name name ≡ true
same_name_self [] = refl
same_name_self (x ∷ xs) = ground (arith, same_name_self xs)

is_named_self : (e : Named) → is_named e.name e.hash_code e ≡ true
is_named_self e = ground (arith, same_name_self e.name)

-- The search for a name in a row of segments, as a slot.
abbrev pub slot_found : List ℕ → ℕ → List Segment → Option ℕ
slot_found name namehash ss = elim (slot_of name namehash 0 ss) [
  | none ↦ none
  | some at ↦ some (at.0)
]

module _ (name : List ℕ) (namehash : ℕ) where
  slot_of-unused_slots :
      (n p : ℕ) (post : List Segment)
      → slot_of name namehash p (unused_slots n ++ post) ≡ slot_of name namehash (p + n) post
  slot_of-unused_slots zero p post = ap (λ k. slot_of name namehash k post) (omega arith)
  slot_of-unused_slots (suc n) p post =
      slot_of-unused_slots n (p + 1) post ∙ ap (λ k. slot_of name namehash k post) (omega arith)

  -- Segments with the same answer after a prefix have the same answer.
  slot_of-after :
      (pre old new : List Segment) (p : ℕ)
      → slot_of name namehash (p + total_width pre) old
        ≡ slot_of name namehash (p + total_width pre) new
      → slot_of name namehash p (pre ++ old) ≡ slot_of name namehash p (pre ++ new)
  slot_of-after [] old new p h =
      subst (λ k. slot_of name namehash k old ≡ slot_of name namehash k new) (omega arith) h
  slot_of-after (unused ∷ pre) old new p h =
      slot_of-after pre old new (p + 1)
        (subst (λ k. slot_of name namehash k old ≡ slot_of name namehash k new) (omega arith) h)
  slot_of-after (entry e ∷ pre) old new p h =
      let ih =
        slot_of-after pre old new (p + get_dentry_slots (length e.name)) (
          subst (λ k. slot_of name namehash k old ≡ slot_of name namehash k new) (omega arith) h) in
      rw ih refl

  -- A name that is nowhere in a row is not in its first part, nor in the rest.
  slot_of-eq_none :
      (pre post : List Segment) (p : ℕ)
      → slot_of name namehash p (pre ++ post) ≡ none
      → slot_of name namehash (p + total_width pre) post ≡ none
        × ((new : List Segment)
            → slot_of name namehash p (pre ++ new)
              ≡ slot_of name namehash (p + total_width pre) new)
  slot_of-eq_none [] post p h = (
    subst (λ k. slot_of name namehash k post ≡ none) (omega arith) h,
    λ new. ap (λ k. slot_of name namehash k new) (omega arith),
  )
  slot_of-eq_none (unused ∷ pre) post p h =
      let (rest, moved) = slot_of-eq_none pre post (p + 1) h in
      (
        subst (λ k. slot_of name namehash k post ≡ none) (omega arith) rest,
        λ new. moved new ∙ ap (λ k. slot_of name namehash k new) (omega arith),
      )
  slot_of-eq_none (entry e ∷ pre) post p h = elim (Bool-cases (is_named name namehash e)) [
    | inl hit ↦ absurd (ground (arith, h, hit))
    | inr miss ↦
        let (rest, moved) =
          slot_of-eq_none pre post (p + get_dentry_slots (length e.name))
            (ground (arith, h, miss)) in
        (
          subst (λ k. slot_of name namehash k post ≡ none) (omega arith) rest,
          λ new. rw miss (moved new ∙ ap (λ k. slot_of name namehash k new) (omega arith)),
        )
  ]

  -- An entry with another name and the free slots in its place have the same answer.
  slot_of-exchange :
      (pre post : List Segment) (e : Named)
      → is_named name namehash e ≡ false
      → slot_of name namehash 0 (pre ++ (entry e ∷ post))
        ≡ slot_of name namehash 0 (pre ++ (unused_slots (get_dentry_slots (length e.name)) ++ post))
  slot_of-exchange pre post e other =
      slot_of-after pre (entry e ∷ post) (unused_slots (get_dentry_slots (length e.name)) ++ post) 0
        (rw other (
          ap (λ k. slot_of name namehash (k + get_dentry_slots (length e.name)) post) (omega arith)
          ∙ sym
              (slot_of-unused_slots (get_dentry_slots (length e.name)) (0 + total_width pre) post)))

-- The slot that a search gives.
abbrev pub target_in : DentryBlock → List ℕ → ℕ → Option (Option ℕ)
target_in d name namehash = do s ← hscfs_find_target_dentry name namehash d; some s.target

target_in-IsLaidOut :
    (d : DentryBlock) (ss : List Segment) (name : List ℕ) (namehash : ℕ)
    → IsLaidOut d 0 ss
    → target_in d name namehash ≡ some (slot_found name namehash ss)
target_in-IsLaidOut d ss name namehash laid =
    let (s, ran, finds) = hscfs_find_target_dentry-Finds name namehash d ss laid in
    rw ran (ap some finds.target)

target_in-exchange :
    (d d' : DentryBlock) (ss ss' : List Segment) (name : List ℕ) (namehash : ℕ)
    → IsLaidOut d 0 ss
    → IsLaidOut d' 0 ss'
    → slot_of name namehash 0 ss' ≡ slot_of name namehash 0 ss
    → target_in d' name namehash ≡ target_in d name namehash
target_in-exchange d d' ss ss' name namehash laid laid' same =
    target_in-IsLaidOut d' ss' name namehash laid'
    ∙ rw (slot_found, same) (sym (target_in-IsLaidOut d ss name namehash laid))

module _ (b : DentryBlock) (pre post : List Segment) (e : Named) (some_name : 0 < length e.name)
    (short : length e.name < 2 ^ 16)
    (low : AllLow (total_width pre) (get_dentry_slots (length e.name))) where
  abbrev start : ℕ
  start = total_width pre

  abbrev free : List Segment
  free = unused_slots (get_dentry_slots (length e.name))

  -- An entry that is created in a block that has no entry with its name and hash, over free slots that all
  -- lie in the lower halves of the words of the bitmap, is what a search for the name then finds, at its
  -- slot. The searches for all other names answer as before.
  pub create_dentry_in_blk-found :
      IsLaidOut b 0 (pre ++ (free ++ post))
      → slot_of e.name e.hash_code 0 (pre ++ (free ++ post)) ≡ none
      → (b' : DentryBlock) × (create_dentry_in_blk e.name e.hash_code e.file_type e.ino b start
          ≡ some b')
        × (target_in b' e.name e.hash_code ≡ some (some start))
        × ((name : List ℕ) (namehash : ℕ)
            → is_named name namehash e ≡ false
            → target_in b' name namehash ≡ target_in b name namehash)
  create_dentry_in_blk-found laid absent =
      let (b', ran, laid') = create_dentry_in_blk-IsLaidOut b pre post e some_name short low laid in
      let (rest, moved) = slot_of-eq_none e.name e.hash_code pre (free ++ post) 0 absent in
      let at : slot_of e.name e.hash_code 0 (pre ++ (entry e ∷ post)) ≡ some (start, e) =
        moved (entry e ∷ post) ∙ rw (is_named_self e) (ap (λ k. some (k, e)) (omega arith)) in
      (
        b',
        ran,
        target_in-IsLaidOut b' (pre ++ (entry e ∷ post)) e.name e.hash_code laid'
            ∙ rw (slot_found, at) refl,
        λ name namehash other.
            target_in-exchange b b' (pre ++ (free ++ post)) (pre ++ (entry e ∷ post)) name namehash
              laid laid' (slot_of-exchange name namehash pre post e other),
      )

  -- An entry whose slots end before slot 192, where the fourth word of the bitmap begins, is removed from a
  -- block without bits in the upper halves of its words. If it is the only one with its name and hash, it is
  -- not found any more, and the searches for all other names answer as before.
  pub remove_dentry_in_blk-not_found :
      IsLaidOut b 0 (pre ++ (entry e ∷ post))
      → slot_of e.name e.hash_code 0 (pre ++ (free ++ post)) ≡ none
      → ((j : ℕ) → 32 ≤ j % 64 → b.dentry_bitmap j ≡ false)
      → start + get_dentry_slots (length e.name) ≤ 192
      → (b' : DentryBlock) × (remove_dentry_in_blk e.name b start ≡ some b')
        × (target_in b' e.name e.hash_code ≡ some none)
        × ((name : List ℕ) (namehash : ℕ)
            → is_named name namehash e ≡ false
            → target_in b' name namehash ≡ target_in b name namehash)
  remove_dentry_in_blk-not_found laid only upper early =
      let (b', ran, laid') =
        remove_dentry_in_blk-IsLaidOut b pre post e some_name short low laid upper early in
      (
        b',
        ran,
        target_in-IsLaidOut b' (pre ++ (free ++ post)) e.name e.hash_code laid'
            ∙ rw (slot_found, only) refl,
        λ name namehash other.
            target_in-exchange b b' (pre ++ (entry e ∷ post)) (pre ++ (free ++ post)) name namehash
              laid laid' (sym (slot_of-exchange name namehash pre post e other)),
      )

-- An entry cannot be created when one of its slots is in the upper half of a word of the bitmap.
pub create_dentry_in_blk-eq_none :
    (name : List ℕ) (hash_code file_type new_ino : ℕ) (blk : DentryBlock) (start_slot i : ℕ)
    → i < get_dentry_slots (length name)
    → 32 ≤ (start_slot + i) % 64
    → create_dentry_in_blk name hash_code file_type new_ino blk start_slot ≡ none
unfolding create_dentry_in_blk
create_dentry_in_blk-eq_none name hash_code file_type new_ino blk start_slot i inside high =
    let some_name : (not (length name == 0)) ≡ true = ground (arith, inside) in
    rw
      (
        some_name,
        set_bits-eq_none blk.dentry_bitmap start_slot (get_dentry_slots (length name)) i inside
            high,
      )
      refl

-- A removal clears the bits of all slots in the upper half of the word in which the entry starts, whoever
-- they belong to.
pub remove_dentry_in_blk-clears_upper :
    (name : List ℕ) (blk : DentryBlock) {blk' : DentryBlock} (start_slot j : ℕ)
    → remove_dentry_in_blk name blk start_slot ≡ some blk'
    → j / 64 ≡ start_slot / 64
    → 32 ≤ j % 64
    → blk'.dentry_bitmap j ≡ false
unfolding remove_dentry_in_blk
remove_dentry_in_blk-clears_upper name blk {blk'} start_slot j ran word upper =
    elim (ℕ-cases (get_dentry_slots (length name)) 0) [
      | inl nothing ↦ absurd (ground (arith, ran, nothing))
      | inr some_slots ↦
          elim (Option-cases
            (reset_bits blk.dentry_bitmap start_slot (get_dentry_slots (length name)))) [
              | inl failed ↦ absurd (ground (arith, ran, failed))
              | inr (bits, h) ↦
                  let some_name : (not (length name == 0)) ≡ true = ground (arith, some_slots) in
                  let clear =
                    reset_bits-clears_upper blk.dentry_bitmap {b = bits} start_slot
                      (get_dentry_slots (length name) - 1) j
                      (subst (λ k. reset_bits blk.dentry_bitmap start_slot k ≡ some bits)
                        (omega (arith, some_slots)) h)
                      word upper in
                  ground (arith, ran, h, some_name, clear)
            ]
    ]

-- A removal that succeeds at a slot of the fourth word of the bitmap, from 192 on, also clears the low 16 bits of the hash of the
-- block's first entry, whose other bits stay: the first entry is not found any more under a hash that has
-- one of those bits.
pub remove_dentry_in_blk-clears_hash :
    (name : List ℕ) (blk : DentryBlock) {blk' : DentryBlock} (start_slot : ℕ)
    → 192 ≤ start_slot
    → remove_dentry_in_blk name blk start_slot ≡ some blk'
    → ((blk'.dentry 0).hash_code ≡ (blk.dentry 0).hash_code / 2 ^ 16 * 2 ^ 16)
      × ((other : List ℕ) (namehash : ℕ)
          → namehash % 2 ^ 16 ≢ 0
          → hscfs_match_name blk' (blk'.dentry 0) other 0 namehash ≡ false)
unfolding remove_dentry_in_blk hscfs_match_name
remove_dentry_in_blk-clears_hash name blk {blk'} start_slot lo ran =
    elim (ℕ-cases (get_dentry_slots (length name)) 0) [
      | inl nothing ↦ absurd (ground (arith, ran, nothing))
      | inr some_slots ↦
          let k = get_dentry_slots (length name) in
          let (u, named, h1) = >>=-eq-some (guard (not (length name == 0))) _ ran in
          let (b, reset, h2) = >>=-eq-some (reset_bits blk.dentry_bitmap start_slot k) _ h1 in
          let (w, inside, h3) =
            >>=-eq-some (guard (leb (start_slot + k) nr_dentry_in_block)) _ h2 in
          let fits : start_slot + k ≤ 214 = ground (arith, inside) in
          let hash =
            subst
              (λ m.
                (reset_overlap blk.dentry start_slot m 0).hash_code
                ≡ (blk.dentry 0).hash_code / 2 ^ 16 * 2 ^ 16)
              {x = suc (k - 1)} (let e : suc (k - 1) ≡ k = omega (arith, some_slots) in e)
              (reset_overlap-hash blk.dentry start_slot (k - 1) lo
                (omega (arith, some_slots, fits))) in
          let first : (blk'.dentry 0).hash_code ≡ (blk.dentry 0).hash_code / 2 ^ 16 * 2 ^ 16 =
            ground (arith, h3, hash, lo) in
          (
            first,
            λ other namehash low.
                let differs : ((blk'.dentry 0).hash_code == namehash) ≡ false =
                  ground (arith, first, low) in
                rw differs refl,
          )
    ]
