-- ===== src/Directory/Bits.antt =====
-- The loops over the bits of a block, and the bytes of a name.
use hscfs.Base.{
  ℕ, zero, suc, ◌+◌, ◌*◌, ◌^◌, ◌/◌, ◌%◌, ◌<◌, ◌≤◌, ◌≡◌, ◌⊎◌, inl, inr, refl, sym, ap, ◌∙◌, subst,
  List, [], ◌∷◌, Bool, true, false, not, ◌&&◌, none, some, ltb, leb, ◌==◌, if◌then◌else◌, put,
  nat_key, length, arith, Bool-cases,
}
use hscfs.Directory.{
  set_bitmap_pos, reset_bitmap_pos, set_bits, reset_bits, compare_name, stored, cleared, DirEntry,
  reset_overlap,
}
use hscfs.Directory.Runs.{AllFree}
use hscfs.Directory.Layout.{AllUsed}

abbrev pub AllLow : ℕ → ℕ → Type 0
AllLow slot n = (i : ℕ) → i < n → (slot + i) % 64 < 32

-- Whether a slot is one of the `n` slots from `slot` on.
abbrev pub is_among : ℕ → ℕ → ℕ → Bool
is_among slot n j = leb slot j && ltb j (slot + n)

module _ (P : ℕ → Type 0) where
  -- A statement about the slots of a range, one slot later.
  later : (slot n : ℕ) → ((i : ℕ) → i < suc n → P (slot + i)) → (i : ℕ) → i < n → P (slot + 1 + i)
  later slot n h i lt = subst P (omega arith) (h (i + 1) (omega (arith, lt)))

  first : (slot n : ℕ) → ((i : ℕ) → i < suc n → P (slot + i)) → P slot
  first slot n h = subst P (omega arith) (h 0 (omega arith))

pub set_bits-Sets :
    (bitmap : ℕ → Bool) (slot n : ℕ)
    → AllFree bitmap slot n
    → AllLow slot n
    → (b : ℕ → Bool) × (set_bits bitmap slot n ≡ some b)
      × ((j : ℕ) → b j ≡ (if is_among slot n j then true else bitmap j))
unfolding set_bits set_bitmap_pos
set_bits-Sets bitmap slot zero free low = (bitmap, refl, λ j. ground arith)
set_bits-Sets bitmap slot (suc n) free low =
    let here = first (λ k. bitmap k ≡ false) slot n free in
    let small = first (λ k. k % 64 < 32) slot n low in
    let (b, ran, bits) =
      set_bits-Sets (put bitmap slot true) (slot + 1) n
        (λ i h. ground (arith, later (λ k. bitmap k ≡ false) slot n free i h))
        (later (λ k. k % 64 < 32) slot n low) in
    (b, ground (arith, here, small, ran), λ j. ground (arith, bits j))

-- A slot in the upper half of a word cannot be set.
pub set_bits-eq_none :
    (bitmap : ℕ → Bool) (slot n i : ℕ)
    → i < n
    → 32 ≤ (slot + i) % 64
    → set_bits bitmap slot n ≡ none
unfolding set_bits set_bitmap_pos
set_bits-eq_none bitmap slot zero i h high = absurd (omega (arith, h))
set_bits-eq_none bitmap slot (suc n) zero h high =
    let big : ltb (slot % 64) 32 ≡ false = ground (arith, high) in ground (arith, big)
set_bits-eq_none bitmap slot (suc n) (suc i) h high =
    let ih =
      set_bits-eq_none (put bitmap slot true) (slot + 1) n i (omega (arith, h))
        (omega (arith, high)) in
    ground (arith, ih)

-- One reset bit.
cut : (ℕ → Bool) → ℕ → ℕ → Bool
cut bitmap slot j =
    if j / 64 == slot / 64 then bitmap j && ltb (j % 64) 32 && not (j == slot) else bitmap j

cut-eq :
    (bitmap : ℕ → Bool) (slot j : ℕ)
    → (32 ≤ j % 64 → bitmap j ≡ false)
    → cut bitmap slot j ≡ (if slot == j then false else bitmap j)
unfolding cut
cut-eq bitmap slot j upper = elim (Bool-cases (ltb (j % 64) 32)) [
  | inl low ↦ ground (arith, low)
  | inr high ↦ let off = upper (ground (arith, high)) in ground (arith, off)
]

reset_step :
    (bitmap : ℕ → Bool) (slot n : ℕ)
    → bitmap slot ≡ true
    → slot % 64 < 32
    → reset_bits bitmap slot (suc n) ≡ reset_bits (cut bitmap slot) (slot + 1) n
unfolding reset_bits reset_bitmap_pos cut
reset_step bitmap slot n on low =
    let test : ltb (slot % 64) 32 ≡ true = ground (arith, low) in
    let gone : (if slot / 64 == slot / 64
          then bitmap slot && ltb (slot % 64) 32 && not (slot == slot)
          else bitmap slot)
        ≡ false =
      ground arith in
    rw (on, test, reset_bits) (rw gone refl)

pub reset_bits-Resets :
    (bitmap : ℕ → Bool) (slot n : ℕ)
    → AllUsed bitmap slot n
    → AllLow slot n
    → ((j : ℕ) → 32 ≤ j % 64 → bitmap j ≡ false)
    → (b : ℕ → Bool) × (reset_bits bitmap slot n ≡ some b)
      × ((j : ℕ) → b j ≡ (if is_among slot n j then false else bitmap j))
unfolding reset_bits reset_bitmap_pos
reset_bits-Resets bitmap slot zero used low upper = (bitmap, refl, λ j. ground arith)
reset_bits-Resets bitmap slot (suc n) used low upper =
    let here = first (λ k. bitmap k ≡ true) slot n used in
    let small = first (λ k. k % 64 < 32) slot n low in
    let effect : (j : ℕ) → cut bitmap slot j ≡ (if slot == j then false else bitmap j) =
      λ j. cut-eq bitmap slot j (upper j) in
    let (b, ran, bits) =
      reset_bits-Resets (cut bitmap slot) (slot + 1) n
        (λ i h.
          let on = later (λ k. bitmap k ≡ true) slot n used i h in
          let other : (slot == slot + 1 + i) ≡ false = ground arith in
          effect (slot + 1 + i) ∙ rw (other, on) refl)
        (later (λ k. k % 64 < 32) slot n low)
        (λ j h. let off = upper j h in effect j ∙ rw off (ground arith)) in
    (
      b,
      reset_step bitmap slot n here small ∙ ran,
      λ j. elim (Bool-cases (slot == j)) [
        | inl at ↦ ground (arith, bits j, effect j, at)
        | inr off ↦ ground (arith, bits j, effect j, off)
      ],
    )

-- What a loop that succeeds has met.
reset_inv :
    (bitmap : ℕ → Bool) {b : ℕ → Bool} (slot n : ℕ)
    → reset_bits bitmap slot (suc n) ≡ some b
    → (bitmap slot ≡ true) × (slot % 64 < 32)
unfolding reset_bits reset_bitmap_pos
reset_inv bitmap slot n h = elim (Bool-cases (bitmap slot)) [
  | inr off ↦ absurd (ground (arith, h, off))
  | inl on ↦ elim (Bool-cases (ltb (slot % 64) 32)) [
    | inr high ↦ absurd (ground (arith, h, on, high))
    | inl low ↦ (on, ground (arith, low))
  ]
]

-- One removal in a word clears the upper half of the word.
reset_bits-keeps_clear :
    (bitmap : ℕ → Bool) {b : ℕ → Bool} (slot n j : ℕ)
    → reset_bits bitmap slot n ≡ some b
    → bitmap j ≡ false
    → b j ≡ false
unfolding reset_bits cut
reset_bits-keeps_clear bitmap slot zero j h clear = ground (arith, h)
reset_bits-keeps_clear bitmap {b} slot (suc n) j h clear =
    let (on, low) = reset_inv bitmap {b = b} slot n h in
    reset_bits-keeps_clear (cut bitmap slot) {b = b} (slot + 1) n j
      (sym (reset_step bitmap slot n on low) ∙ h) (ground (arith, clear))

pub reset_bits-clears_upper :
    (bitmap : ℕ → Bool) {b : ℕ → Bool} (slot n j : ℕ)
    → reset_bits bitmap slot (suc n) ≡ some b
    → j / 64 ≡ slot / 64
    → 32 ≤ j % 64
    → b j ≡ false
unfolding cut
reset_bits-clears_upper bitmap {b} slot n j h word upper =
    let (on, low) = reset_inv bitmap {b = b} slot n h in
    let same : (j / 64 == slot / 64) ≡ true = ground (arith, word) in
    let high : ltb (j % 64) 32 ≡ false = ground (arith, upper) in
    reset_bits-keeps_clear (cut bitmap slot) {b = b} (slot + 1) n j
      (sym (reset_step bitmap slot n on low) ∙ h) (rw (same, high) (ground arith))

pub stored-outside :
    (filename : ℕ → ℕ) (at : ℕ) (name : List ℕ) (i : ℕ)
    → (i < at) ⊎ (at + length name ≤ i)
    → stored filename at name i ≡ filename i
stored-outside filename at [] i h = refl
stored-outside filename at (x ∷ xs) i h =
    let ih = stored-outside (put filename at x) (at + 1) xs i (ground (arith, h)) in
    ground (arith, ih, h)

pub cleared-outside :
    (filename : ℕ → ℕ) (at n i : ℕ) → (i < at) ⊎ (at + n ≤ i) → cleared filename at n i ≡ filename i
cleared-outside filename at zero i h = refl
cleared-outside filename at (suc n) i h =
    let ih = cleared-outside (put filename at 0) (at + 1) n i (ground (arith, h)) in
    ground (arith, ih, h)

pub compare_name-stored :
    (filename : ℕ → ℕ) (at : ℕ) (name : List ℕ)
    → compare_name name (stored filename at name) at ≡ true
unfolding compare_name
compare_name-stored filename at [] = refl
compare_name-stored filename at (x ∷ xs) =
    let byte = stored-outside (put filename at x) (at + 1) xs at (inl (omega arith)) in
    ground (arith, byte, compare_name-stored (put filename at x) (at + 1) xs)

pub compare_name-cong :
    (name : List ℕ) (f g : ℕ → ℕ) (at : ℕ)
    → ((i : ℕ) → at ≤ i → i < at + length name → g i ≡ f i)
    → compare_name name g at ≡ compare_name name f at
unfolding compare_name
compare_name-cong [] f g at same = refl
compare_name-cong (x ∷ xs) f g at same =
    let here = same at (omega arith) (omega arith) in
    let ih =
      compare_name-cong xs f g (at + 1)
        (λ i lo hi. same i (omega (arith, lo)) (omega (arith, hi))) in
    rw (here, ih) refl

-- Removals before the fourth word leave the entries.
pub reset_overlap-before :
    (dentry : ℕ → DirEntry) (slot n : ℕ) → slot + n ≤ 192 → reset_overlap dentry slot n ≡ dentry
unfolding reset_overlap
reset_overlap-before dentry slot zero h = refl
reset_overlap-before dentry slot (suc n) h =
    let word : (slot / 64 == 3) ≡ false = ground (arith, h) in
    rw word (reset_overlap-before dentry (slot + 1) n (omega (arith, h)))

-- In the fourth word they clear the low half of the first hash.
overlapped : (ℕ → DirEntry) → ℕ → DirEntry
overlapped dentry =
    put dentry 0 (record (dentry 0) { hash_code = (dentry 0).hash_code / 2 ^ 16 * 2 ^ 16 })

reset_overlap_step :
    (dentry : ℕ → DirEntry) (slot n : ℕ)
    → slot / 64 ≡ 3
    → reset_overlap dentry slot (suc n) ≡ reset_overlap (overlapped dentry) (slot + 1) n
unfolding reset_overlap overlapped
reset_overlap_step dentry slot n at =
    let word : (slot / 64 == 3) ≡ true = ground (arith, at) in rw word refl

pub reset_overlap-hash :
    (dentry : ℕ → DirEntry) (slot n : ℕ)
    → 192 ≤ slot
    → slot + suc n ≤ 214
    → (reset_overlap dentry slot (suc n) 0).hash_code ≡ (dentry 0).hash_code / 2 ^ 16 * 2 ^ 16
unfolding reset_overlap overlapped
reset_overlap-hash dentry slot zero lo hi =
    ap (λ d. (d 0).hash_code) (reset_overlap_step dentry slot 0 (omega (arith, lo, hi)))
reset_overlap-hash dentry slot (suc n) lo hi =
    ap (λ d. (d 0).hash_code) (reset_overlap_step dentry slot (suc n) (omega (arith, lo, hi)))
    ∙ reset_overlap-hash (overlapped dentry) (slot + 1) n (omega (arith, lo)) (omega (arith, hi))
    ∙ omega arith
