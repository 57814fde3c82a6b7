-- ===== src/Directory/Layout.antt =====
-- A block as a row of free slots and entries, and what a search in it finds.
use hscfs.Base.{
  ℕ, ◌+◌, ◌*◌, ◌<◌, ◌≡◌, refl, List, [], ◌∷◌, Bool, true, false, ◌&&◌, Option, none, some, ◌==◌,
  if◌then◌else◌, nat_key, length, arith,
}
use hscfs.Directory.{
  nr_dentry_in_block, get_dentry_slots, DirEntry, DentryBlock, compare_name, hscfs_match_name,
}

pub record Named : Type 0 where
  pub name : List ℕ
  pub hash_code : ℕ
  pub ino : ℕ
  pub file_type : ℕ

pub data Segment : Type 0 where
  unused : Segment
  entry : Named → Segment

abbrev pub entry_of : Named → DirEntry
entry_of e = record {
  hash_code = e.hash_code;
  ino = e.ino;
  name_len = length e.name;
  file_type = e.file_type;
}

abbrev pub width : Segment → ℕ
width unused = 1
width (entry e) = get_dentry_slots (length e.name)

abbrev pub total_width : List Segment → ℕ
total_width [] = 0
total_width (s ∷ ss) = width s + total_width ss

-- The bits of the slots from `p` on.
abbrev pub AllUsed : (ℕ → Bool) → ℕ → ℕ → Type 0
AllUsed bitmap p n = (i : ℕ) → i < n → bitmap (p + i) ≡ true

abbrev pub IsStored : DentryBlock → ℕ → Named → Type 0
IsStored b p e =
    (0 < length e.name)
    × AllUsed b.dentry_bitmap p (get_dentry_slots (length e.name))
    × (b.dentry p ≡ entry_of e)
    × (compare_name e.name b.filename (p * 8) ≡ true)

-- The slots from `p` up to the end of the block are the segments, in order.
abbrev pub IsLaidOut : DentryBlock → ℕ → List Segment → Type 0
IsLaidOut b p [] = p ≡ nr_dentry_in_block
IsLaidOut b p (unused ∷ ss) = (b.dentry_bitmap p ≡ false) × IsLaidOut b (p + 1) ss
IsLaidOut b p (entry e ∷ ss) =
    IsStored b p e × IsLaidOut b (p + get_dentry_slots (length e.name)) ss

abbrev pub same_name : List ℕ → List ℕ → Bool
same_name [] [] = true
same_name [] (y ∷ ys) = false
same_name (x ∷ xs) [] = false
same_name (x ∷ xs) (y ∷ ys) = (x == y) && same_name xs ys

abbrev pub is_named : List ℕ → ℕ → Named → Bool
is_named name namehash e = (e.hash_code == namehash) && same_name name e.name

-- Where the entry with a name starts, and the entry.
abbrev pub slot_of : List ℕ → ℕ → ℕ → List Segment → Option (ℕ × Named)
slot_of name namehash p [] = none
slot_of name namehash p (unused ∷ ss) = slot_of name namehash (p + 1) ss
slot_of name namehash p (entry e ∷ ss) =
    let rest = slot_of name namehash (p + get_dentry_slots (length e.name)) ss in
    if is_named name namehash e then some (p, e) else rest

-- The comparison with what is stored is the comparison with the stored name.
compare_name-same_name :
    (name stored : List ℕ) (filename : ℕ → ℕ) (at : ℕ)
    → compare_name stored filename at ≡ true
    → ((length name == length stored) && compare_name name filename at) ≡ same_name name stored
unfolding compare_name
compare_name-same_name [] [] filename at h = refl
compare_name-same_name [] (y ∷ ys) filename at h = ground arith
compare_name-same_name (x ∷ xs) [] filename at h = ground arith
compare_name-same_name (x ∷ xs) (y ∷ ys) filename at h =
    ground (arith, compare_name-same_name xs ys filename (at + 1) (ground arith))

pub match-is_named :
    (b : DentryBlock) (p : ℕ) (e : Named) (name : List ℕ) (namehash : ℕ)
    → IsStored b p e
    → hscfs_match_name b (b.dentry p) name p namehash ≡ is_named name namehash e
unfolding hscfs_match_name
match-is_named b p e name namehash (some_name, used, de, bytes) =
    rw de (ground (arith, compare_name-same_name name e.name b.filename (p * 8) bytes))
