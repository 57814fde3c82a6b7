-- ===== src/Directory/Changes.antt =====
-- Entries that are created in a block and removed from it.
use hscfs.Base.{
  ℕ, zero, suc, ◌+◌, ◌-◌, ◌*◌, ◌%◌, ◌^◌, ◌<◌, ◌≤◌, ◌≡◌, ◌≢◌, ◌⊎◌, inl, inr, refl, ◌∙◌, subst, List,
  [], ◌∷◌, ◌++◌, true, false, not, some, leb, ◌==◌, put, nat_key, length, replicate, arith,
  Bool-cases,
}
use hscfs.Directory.{
  nr_dentry_in_block, get_dentry_slots, DentryBlock, no_entry, stored, cleared,
  create_dentry_in_blk, remove_dentry_in_blk,
}
use hscfs.Directory.Layout.{Segment, unused, entry, Named, total_width, IsStored, IsLaidOut}
use hscfs.Directory.Runs.{AllFree}
use hscfs.Directory.Bits.{
  AllLow, is_among, set_bits-Sets, reset_bits-Resets, stored-outside, cleared-outside,
  compare_name-stored, compare_name-cong, reset_overlap-before,
}
use hscfs.Directory.Search.{IsLaidOut-total}

-- Two blocks that are the same on the slots from `lo` up to `hi`.
record Agrees (b b' : DentryBlock) (lo hi : ℕ) : Type 0 where
  bits : (j : ℕ) → lo ≤ j → j < hi → b'.dentry_bitmap j ≡ b.dentry_bitmap j
  entries : (j : ℕ) → lo ≤ j → j < hi → b'.dentry j ≡ b.dentry j
  bytes : (i : ℕ) → lo * 8 ≤ i → i < hi * 8 → b'.filename i ≡ b.filename i

Agrees-within :
    {b b' : DentryBlock} {lo hi lo' hi' : ℕ}
    → lo ≤ lo'
    → hi' ≤ hi
    → Agrees b b' lo hi
    → Agrees b b' lo' hi'
Agrees-within up down a = record {
  bits = λ j l h. a.bits j (omega (arith, up, l)) (omega (arith, down, h));
  entries = λ j l h. a.entries j (omega (arith, up, l)) (omega (arith, down, h));
  bytes = λ i l h. a.bytes i (omega (arith, up, l)) (omega (arith, down, h));
}

IsStored-cong :
    (b b' : DentryBlock) (p : ℕ) (e : Named)
    → Agrees b b' p (p + get_dentry_slots (length e.name))
    → IsStored b p e
    → IsStored b' p e
IsStored-cong b b' p e a (some_name, used, de, bytes) = (
  some_name,
  λ i h. a.bits (p + i) (omega arith) (omega (arith, h)) ∙ used i h,
  a.entries p (omega arith) (omega (arith, some_name)) ∙ de,
  compare_name-cong e.name b.filename b'.filename (p * 8) (λ i l h. a.bytes i l (omega (arith, h)))
      ∙ bytes,
)

IsLaidOut-cong :
    (b b' : DentryBlock) (ss : List Segment) (p : ℕ)
    → Agrees b b' p nr_dentry_in_block
    → IsLaidOut b p ss
    → IsLaidOut b' p ss
IsLaidOut-cong b b' [] p a h = h
IsLaidOut-cong b b' (unused ∷ ss) p a (free, rest) =
    let total = IsLaidOut-total b (p + 1) ss rest in
    (
      a.bits p (omega arith) (omega (arith, total)) ∙ free,
      IsLaidOut-cong b b' ss (p + 1) (Agrees-within (omega arith) (omega arith) a) rest,
    )
IsLaidOut-cong b b' (entry e ∷ ss) p a (st, rest) =
    let slots = get_dentry_slots (length e.name) in
    let total = IsLaidOut-total b (p + slots) ss rest in
    (
      IsStored-cong b b' p e (Agrees-within (omega arith) (omega (arith, total)) a) st,
      IsLaidOut-cong b b' ss (p + slots) (Agrees-within (omega arith) (omega arith) a) rest,
    )

-- The segments after a prefix, and their exchange.
IsLaidOut-after :
    (b : DentryBlock) (pre post : List Segment) (p : ℕ)
    → IsLaidOut b p (pre ++ post)
    → IsLaidOut b (p + total_width pre) post
IsLaidOut-after b [] post p h = subst (λ k. IsLaidOut b k post) (omega arith) h
IsLaidOut-after b (unused ∷ pre) post p (free, rest) =
    subst (λ k. IsLaidOut b k post) (omega arith) (IsLaidOut-after b pre post (p + 1) rest)
IsLaidOut-after b (entry e ∷ pre) post p (st, rest) =
    subst (λ k. IsLaidOut b k post) (omega arith)
      (IsLaidOut-after b pre post (p + get_dentry_slots (length e.name)) rest)

IsLaidOut-exchange :
    (b b' : DentryBlock) (pre old post : List Segment) (p : ℕ)
    → Agrees b b' p (p + total_width pre)
    → IsLaidOut b p (pre ++ old)
    → IsLaidOut b' (p + total_width pre) post
    → IsLaidOut b' p (pre ++ post)
IsLaidOut-exchange b b' [] old post p a h tail = subst (λ k. IsLaidOut b' k post) (omega arith) tail
IsLaidOut-exchange b b' (unused ∷ pre) old post p a (free, rest) tail = (
  a.bits p (omega arith) (omega arith) ∙ free,
  IsLaidOut-exchange b b' pre old post (p + 1) (Agrees-within (omega arith) (omega arith) a) rest
      (subst (λ k. IsLaidOut b' k post) (omega arith) tail),
)
IsLaidOut-exchange b b' (entry e ∷ pre) old post p a (st, rest) tail =
    let slots = get_dentry_slots (length e.name) in
    (
      IsStored-cong b b' p e (Agrees-within (omega arith) (omega arith) a) st,
      IsLaidOut-exchange b b' pre old post (p + slots) (Agrees-within (omega arith) (omega arith) a)
          rest (subst (λ k. IsLaidOut b' k post) (omega arith) tail),
    )

abbrev pub unused_slots : ℕ → List Segment
unused_slots n = replicate n unused

IsLaidOut-unused_slots :
    (b : DentryBlock) (n : ℕ) (post : List Segment) (p : ℕ)
    → IsLaidOut b p (unused_slots n ++ post)
    → AllFree b.dentry_bitmap p n × IsLaidOut b (p + n) post
IsLaidOut-unused_slots b zero post p h =
    (λ i lt. absurd (omega (arith, lt)), subst (λ k. IsLaidOut b k post) (omega arith) h)
IsLaidOut-unused_slots b (suc n) post p (free, rest) =
    let (more, tail) = IsLaidOut-unused_slots b n post (p + 1) rest in
    (
      λ i lt. elim (Bool-cases (i == 0)) [
        | inl here ↦ subst (λ k. b.dentry_bitmap k ≡ false) (ground (arith, here)) free
        | inr other ↦
            subst (λ k. b.dentry_bitmap k ≡ false) (ground (arith, other))
              (more (i - 1) (ground (arith, other, lt)))
      ],
      subst (λ k. IsLaidOut b k post) (omega arith) tail,
    )

pub unused_slots-IsLaidOut :
    (b : DentryBlock) (n : ℕ) (post : List Segment) (p : ℕ)
    → AllFree b.dentry_bitmap p n
    → IsLaidOut b (p + n) post
    → IsLaidOut b p (unused_slots n ++ post)
unused_slots-IsLaidOut b zero post p free h = subst (λ k. IsLaidOut b k post) (omega arith) h
unused_slots-IsLaidOut b (suc n) post p free h = (
  subst (λ k. b.dentry_bitmap k ≡ false) (omega arith) (free 0 (omega arith)),
  unused_slots-IsLaidOut b n post (p + 1)
      (λ i lt.
        subst (λ k. b.dentry_bitmap k ≡ false) (omega arith) (free (i + 1) (omega (arith, lt))))
      (subst (λ k. IsLaidOut b k post) (omega arith) h),
)

-- A change that touches the slots from `start` to `start + k` only leaves the other ones.
module _ (b b' : DentryBlock) (start k : ℕ)
    (bits : (j : ℕ) → is_among start k j ≡ false → b'.dentry_bitmap j ≡ b.dentry_bitmap j)
    (entries : (j : ℕ) → j ≢ start → b'.dentry j ≡ b.dentry j)
    (bytes : (i : ℕ) → (i < start * 8) ⊎ ((start + k) * 8 ≤ i) → b'.filename i ≡ b.filename i) where
  before : Agrees b b' 0 start
  before = record {
    bits = λ j l h. bits j (ground (arith, h));
    entries = λ j l h. entries j (λ e. omega (arith, e, h));
    bytes = λ i l h. bytes i (inl h);
  }

  behind : 0 < k → Agrees b b' (start + k) nr_dentry_in_block
  behind some_slot = record {
    bits = λ j l h. bits j (ground (arith, l));
    entries = λ j l h. entries j (λ e. omega (arith, e, l, some_slot));
    bytes = λ i l h. bytes i (inr l);
  }

module _ (b : DentryBlock) (pre post : List Segment) (e : Named) (some_name : 0 < length e.name)
    (short : length e.name < 2 ^ 16)
    (low : AllLow (total_width pre) (get_dentry_slots (length e.name))) where
  abbrev start : ℕ
  start = total_width pre

  abbrev slots : ℕ
  slots = get_dentry_slots (length e.name)

  -- An entry is created where enough slots are free, if all of them lie in the lower halves of the words
  -- of the bitmap: the block is laid out as before, with the entry in place of the free slots.
  pub create_dentry_in_blk-IsLaidOut :
      IsLaidOut b 0 (pre ++ (unused_slots slots ++ post))
      → (b' : DentryBlock) × (create_dentry_in_blk e.name e.hash_code e.file_type e.ino b start
          ≡ some b')
        × IsLaidOut b' 0 (pre ++ (entry e ∷ post))
  unfolding create_dentry_in_blk
  create_dentry_in_blk-IsLaidOut laid =
      let at = IsLaidOut-after b pre (unused_slots slots ++ post) 0 laid in
      let (free, tail) =
        IsLaidOut-unused_slots b slots post start
          (subst (λ k. IsLaidOut b k (unused_slots slots ++ post)) (omega arith) at) in
      let (bitmap, ran, bits) = set_bits-Sets b.dentry_bitmap start slots free low in
      let b' : DentryBlock = record {
        dentry_bitmap = bitmap;
        dentry = put b.dentry start (record {
          hash_code = e.hash_code;
          ino = e.ino;
          name_len = length e.name % 2 ^ 16;
          file_type = e.file_type;
        });
        filename = stored b.filename (start * 8) e.name;
      } in
      let whole : (not (length e.name == 0)) ≡ true = ground (arith, some_name) in
      let len : length e.name % 2 ^ 16 ≡ length e.name = omega (arith, short) in
      let bits' : (j : ℕ) → is_among start slots j ≡ false → bitmap j ≡ b.dentry_bitmap j =
        λ j out. bits j ∙ rw out refl in
      let entries' : (j : ℕ) → j ≢ start → b'.dentry j ≡ b.dentry j = λ j ne. ground (arith, ne) in
      let bytes' : (i : ℕ)
          → (i < start * 8) ⊎ ((start + slots) * 8 ≤ i)
          → b'.filename i ≡ b.filename i =
        λ i out.
          stored-outside b.filename (start * 8) e.name i
            (elim out [ inl l ↦ inl l | inr r ↦ inr (omega (arith, r)) ]) in
      let st : IsStored b' start e = (
        some_name,
        λ i h.
            bits (start + i)
            ∙ (let among : is_among start slots (start + i) ≡ true = ground (arith, h) in
                rw among refl),
        ground (arith, len),
        compare_name-stored b.filename (start * 8) e.name,
      ) in
      let rest : IsLaidOut b' (start + slots) post =
        IsLaidOut-cong b b' post (start + slots)
          (behind b b' start slots bits' entries' bytes' (omega (arith, some_name))) tail in
      let total = IsLaidOut-total b (start + slots) post tail in
      let inside : leb (start + slots) nr_dentry_in_block ≡ true = ground (arith, total) in
      (
        b',
        rw (whole, create_dentry_in_blk) (rw (ran, inside) refl),
        IsLaidOut-exchange b b' pre (unused_slots slots ++ post) (entry e ∷ post) 0
            (Agrees-within (omega arith) (omega arith)
              (before b b' start slots bits' entries' bytes'))
            laid (subst (λ k. IsLaidOut b' k (entry e ∷ post)) (omega arith) (st, rest)),
      )

  -- An entry before the fourth word is removed from a block whose words have no bit in the upper half: its slots are free then,
  -- and the rest of the block is as before.
  pub remove_dentry_in_blk-IsLaidOut :
      IsLaidOut b 0 (pre ++ (entry e ∷ post))
      → ((j : ℕ) → 32 ≤ j % 64 → b.dentry_bitmap j ≡ false)
      → start + slots ≤ 192
      → (b' : DentryBlock) × (remove_dentry_in_blk e.name b start ≡ some b')
        × IsLaidOut b' 0 (pre ++ (unused_slots slots ++ post))
  unfolding remove_dentry_in_blk
  remove_dentry_in_blk-IsLaidOut laid upper early =
      let (st, tail) : IsLaidOut b start (entry e ∷ post) =
        subst (λ k. IsLaidOut b k (entry e ∷ post)) (omega arith)
          (IsLaidOut-after b pre (entry e ∷ post) 0 laid) in
      let (bitmap, ran, bits) = reset_bits-Resets b.dentry_bitmap start slots st.1 low upper in
      let b' : DentryBlock = record {
        dentry_bitmap = bitmap;
        dentry = put b.dentry start no_entry;
        filename = cleared b.filename (start * 8) (length e.name);
      } in
      let whole : (not (length e.name == 0)) ≡ true = ground (arith, some_name) in
      let bits' : (j : ℕ) → is_among start slots j ≡ false → bitmap j ≡ b.dentry_bitmap j =
        λ j out. bits j ∙ rw out refl in
      let entries' : (j : ℕ) → j ≢ start → b'.dentry j ≡ b.dentry j = λ j ne. ground (arith, ne) in
      let bytes' : (i : ℕ)
          → (i < start * 8) ⊎ ((start + slots) * 8 ≤ i)
          → b'.filename i ≡ b.filename i =
        λ i out.
          cleared-outside b.filename (start * 8) (length e.name) i
            (elim out [ inl l ↦ inl l | inr r ↦ inr (omega (arith, r)) ]) in
      let rest : IsLaidOut b' (start + slots) post =
        IsLaidOut-cong b b' post (start + slots)
          (behind b b' start slots bits' entries' bytes' (omega (arith, some_name))) tail in
      let free : AllFree bitmap start slots = λ i h.
        bits (start + i)
        ∙ (let among : is_among start slots (start + i) ≡ true = ground (arith, h) in
            rw among refl) in
      let total = IsLaidOut-total b (start + slots) post tail in
      let inside : leb (start + slots) nr_dentry_in_block ≡ true = ground (arith, total) in
      (
        b',
        rw (whole, remove_dentry_in_blk)
            (rw (ran, inside) (rw (reset_overlap-before b.dentry start slots early) refl)),
        IsLaidOut-exchange b b' pre (entry e ∷ post) (unused_slots slots ++ post) 0
            (Agrees-within (omega arith) (omega arith)
              (before b b' start slots bits' entries' bytes'))
            laid
            (subst (λ k. IsLaidOut b' k (unused_slots slots ++ post)) (omega arith)
              (unused_slots-IsLaidOut b' slots post start free rest)),
      )
