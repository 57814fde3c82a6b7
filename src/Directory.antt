-- ===== src/Directory.antt =====
-- The entries of a directory in its blocks (src/fs/directory.cc, inc/fs/directory.hh, inc/fs/fs.h). A
-- bitmap is the function of its bits, read as words of 64 bits; the bytes of the names are one array, with
-- eight for a slot. The fourth word overlaps the first entry: in the packed block the bitmap takes 27 bytes
-- and is followed by three reserved ones, so that the word's last two bytes are the low half of
-- `dentry[0].hash_code`. `none` is a failed assertion or undefined behaviour.
pub mod Hash
pub mod Layout
pub mod Runs
pub mod Changes
pub mod Bits
pub mod Search
pub mod Names
pub mod Buckets
pub mod Lookup
use hscfs.Base.{
  ℕ, zero, suc, ◌+◌, ◌-◌, ◌*◌, ◌/◌, ◌%◌, ◌^◌, List, [], ◌∷◌, Bool, true, false, not, ◌&&◌, ◌||◌,
  Option, none, some, ltb, leb, ◌==◌, if◌then◌else◌, put, nat_key, length, get_elem?, ◌>>=◌, ◌>>◌,
  guard,
}

abbrev pub nr_dentry_in_block : ℕ
nr_dentry_in_block = 214

abbrev pub hscfs_ft_unknown : ℕ
hscfs_ft_unknown = 0

-- `GET_DENTRY_SLOTS`.
abbrev pub get_dentry_slots : ℕ → ℕ
get_dentry_slots x = (x + 7) / 8

pub record DirEntry : Type 0 where
  pub hash_code : ℕ
  pub ino : ℕ
  pub name_len : ℕ
  pub file_type : ℕ

pub record DentryBlock : Type 0 where
  pub dentry_bitmap : ℕ → Bool
  pub dentry : ℕ → DirEntry
  pub filename : ℕ → ℕ

abbrev pub no_entry : DirEntry
no_entry = record { hash_code = 0; ino = 0; name_len = 0; file_type = hscfs_ft_unknown }

-- `create_formatted_data_block_buffer`: a zeroed block.
abbrev pub formatted : DentryBlock
formatted = record { dentry_bitmap = λ slot. false; dentry = λ slot. no_entry; filename = λ i. 0 }

-- `1U << off` is undefined from 32 on. The complement of the 32-bit mask clears the upper half of the
-- word too when it is extended to 64 bits.
unfoldable pub set_bitmap_pos : (ℕ → Bool) → ℕ → Option (ℕ → Bool)
set_bitmap_pos bitmap slot = if ltb (slot % 64) 32 then some (put bitmap slot true) else none

unfoldable pub reset_bitmap_pos : (ℕ → Bool) → ℕ → Option (ℕ → Bool)
reset_bitmap_pos bitmap slot =
    if ltb (slot % 64) 32
    then some (λ j.
      if j / 64 == slot / 64 then bitmap j && ltb (j % 64) 32 && not (j == slot) else bitmap j)
    else none

-- `compare_name`: the bytes of a name, and those that are stored from `at` on.
unfoldable pub compare_name : List ℕ → (ℕ → ℕ) → ℕ → Bool
compare_name [] filename at = true
compare_name (x ∷ xs) filename at = (x == filename at) && compare_name xs filename (at + 1)

unfoldable pub hscfs_match_name : DentryBlock → DirEntry → List ℕ → ℕ → ℕ → Bool
hscfs_match_name d de name bit_pos namehash =
    (de.hash_code == namehash)
    && (length name == de.name_len)
    && compare_name name d.filename (bit_pos * 8)

-- The slot of the entry, if there is one; the length of the longest run of free slots that was seen, and
-- where it starts, which is not set before a run has been seen.
pub record Found : Type 0 where
  pub target : Option ℕ
  pub max_slots : ℕ
  pub empty_bit_pos : Option ℕ

-- What is done at the end of a run of `max_len` free slots.
abbrev pub end_run : ℕ → ℕ → ℕ → Option ℕ → Option ℕ → Found
end_run bit_pos max_len max_slots empty_bit_pos target =
    if ltb max_slots max_len
    then record { target = target; max_slots = max_len; empty_bit_pos = some (bit_pos - max_len) }
    else record { target = target; max_slots = max_slots; empty_bit_pos = empty_bit_pos }

-- The loop of `hscfs_find_target_dentry`.
unfoldable pub find_loop : ℕ → List ℕ → ℕ → DentryBlock → ℕ → ℕ → ℕ → Option ℕ → Option Found
find_loop zero name namehash d bit_pos max_len max_slots empty_bit_pos = none
find_loop (suc fuel) name namehash d bit_pos max_len max_slots empty_bit_pos =
    let de = d.dentry bit_pos in
    let used = d.dentry_bitmap bit_pos in
    let run = end_run bit_pos max_len max_slots empty_bit_pos none in
    let entry = used && not (de.name_len == 0) in
    let rest =
      find_loop fuel name namehash d
        (if entry then bit_pos + get_dentry_slots de.name_len else bit_pos + 1)
        (if entry then 0 else (if used then max_len else max_len + 1))
        (if entry then run.max_slots else max_slots)
        (if entry then run.empty_bit_pos else empty_bit_pos) in
    if not (ltb bit_pos nr_dentry_in_block)
    then some run
    else if entry && hscfs_match_name d de name bit_pos namehash
    then some (end_run bit_pos max_len max_slots empty_bit_pos (some bit_pos))
    else rest

unfoldable pub hscfs_find_target_dentry : List ℕ → ℕ → DentryBlock → Option Found
hscfs_find_target_dentry name namehash d =
    find_loop (suc nr_dentry_in_block) name namehash d 0 0 0 none

-- Names are copied to the slots and cleared there.
abbrev pub stored : (ℕ → ℕ) → ℕ → List ℕ → ℕ → ℕ
stored filename at [] = filename
stored filename at (x ∷ xs) = stored (put filename at x) (at + 1) xs

abbrev pub cleared : (ℕ → ℕ) → ℕ → ℕ → ℕ → ℕ
cleared filename at zero = filename
cleared filename at (suc n) = cleared (put filename at 0) (at + 1) n

-- The loops over the bits, with their assertions.
unfoldable pub set_bits : (ℕ → Bool) → ℕ → ℕ → Option (ℕ → Bool)
set_bits bitmap slot zero = some bitmap
set_bits bitmap slot (suc n) = do
  guard (not (bitmap slot))
  b ← set_bitmap_pos bitmap slot
  guard (b slot)
  set_bits b (slot + 1) n

unfoldable pub reset_bits : (ℕ → Bool) → ℕ → ℕ → Option (ℕ → Bool)
reset_bits bitmap slot zero = some bitmap
reset_bits bitmap slot (suc n) = do
  guard (bitmap slot)
  b ← reset_bitmap_pos bitmap slot
  guard (not (b slot))
  reset_bits b (slot + 1) n

-- What the loop does to the entries: a reset in the fourth word clears the low half of the first hash.
unfoldable pub reset_overlap : (ℕ → DirEntry) → ℕ → ℕ → ℕ → DirEntry
reset_overlap dentry slot zero = dentry
reset_overlap dentry slot (suc n) =
    reset_overlap
      (if slot / 64 == 3
        then put dentry 0 (record (dentry 0) { hash_code = (dentry 0).hash_code / 2 ^ 16 * 2 ^ 16 })
        else dentry)
      (slot + 1) n

-- `hash_code` is the hash of the name. An entry that ends after the last slot is written outside the block.
unfoldable pub create_dentry_in_blk : List ℕ → ℕ → ℕ → ℕ → DentryBlock → ℕ → Option DentryBlock
create_dentry_in_blk name hash_code file_type new_ino blk start_slot = do
  guard (not (length name == 0))
  b ← set_bits blk.dentry_bitmap start_slot (get_dentry_slots (length name))
  guard (leb (start_slot + get_dentry_slots (length name)) nr_dentry_in_block)
  some (record {
    dentry_bitmap = b;
    dentry = put blk.dentry start_slot (record {
      hash_code = hash_code;
      ino = new_ino;
      name_len = length name % 2 ^ 16;
      file_type = file_type;
    });
    filename = stored blk.filename (start_slot * 8) name;
  })

unfoldable pub remove_dentry_in_blk : List ℕ → DentryBlock → ℕ → Option DentryBlock
remove_dentry_in_blk name blk start_slot = do
  guard (not (length name == 0))
  b ← reset_bits blk.dentry_bitmap start_slot (get_dentry_slots (length name))
  guard (leb (start_slot + get_dentry_slots (length name)) nr_dentry_in_block)
  some (record {
    dentry_bitmap = b;
    dentry =
        put (reset_overlap blk.dentry start_slot (get_dentry_slots (length name))) start_slot
          no_entry;
    filename = cleared blk.filename (start_slot * 8) (length name);
  })
