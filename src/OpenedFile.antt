-- ===== src/OpenedFile.antt =====
-- An opened file (src/fs/opened_file.cc, inc/fs/opened_file.hh, inc/fs/open_flags.hh): the flags and the
-- position, over the file that it shares. A signed argument is its word of 64 bits. Locks, and the
-- mark of the file as dirty in the cache of the file objects, are left out.
pub mod Laws
use hscfs.Base.{
  ℕ, ◌+◌, ◌/◌, ◌%◌, ◌^◌, List, Bool, true, false, Option, leb, ◌==◌, if◌then◌else◌, length,
}
use hscfs.Base.Outcome.{Outcome, Error, done, thrown, aborted, rw_conflict_with_open_flag}
use hscfs.PageCache.{Page}
use hscfs.File
use hscfs.File.{File}

pub record OpenedFile : Type 0 where
  pub flags : ℕ
  pub pos : ℕ

abbrev pub o_rdonly : ℕ
o_rdonly = 0

abbrev pub o_wronly : ℕ
o_wronly = 1

abbrev pub o_append : ℕ
o_append = 1024

-- `SEEK_SET`, `SEEK_CUR` and `SEEK_END`, and any other number.
pub data Whence : Type 0 where
  seek_set seek_cur seek_end seek_other : Whence

pub data RwOperation : Type 0 where
  read_operation write_operation : RwOperation

unfoldable pub create : ℕ → OpenedFile
create flags = record { flags = flags; pos = 0 }

-- Whether the flags allow the operation.
abbrev pub rw_check_flags : OpenedFile → RwOperation → Bool
rw_check_flags o read_operation = if o.flags % 4 == o_wronly then false else true
rw_check_flags o write_operation = if o.flags % 4 == o_rdonly then false else true

-- A negative count is taken as zero.
abbrev pub clamped : ℕ → ℕ
clamped count = if leb (2 ^ 63) count then 0 else count

abbrev pub is_append : ℕ → Bool
is_append flags = flags / o_append % 2 == 1

module _ (size_in_inode : ℕ) (addr : ℕ → ℕ) (device : ℕ → Option Page) where
  unfoldable pub read : OpenedFile × File → ℕ → Outcome (OpenedFile × File) (List ℕ)
  read (o, f) count =
      if rw_check_flags o read_operation
      then (elim (File.read size_in_inode addr device f (clamped count) o.pos) [
        | done bytes f' ↦ done bytes (record o { pos = (o.pos + length bytes) % 2 ^ 64 }, f')
        | thrown e f' ↦ thrown e (o, f')
        | aborted ↦ aborted
      ])
      else thrown rw_conflict_with_open_flag (o, f)

  -- Where the write begins.
  abbrev pub write_pos : OpenedFile → File → ℕ
  write_pos o f = if is_append o.flags then f.size else o.pos

  unfoldable pub write : OpenedFile × File → (ℕ → ℕ) → ℕ → Outcome (OpenedFile × File) ℕ
  write (o, f) buffer count =
      if rw_check_flags o write_operation
      then (elim (File.write size_in_inode addr device f buffer (clamped count) (write_pos o f)) [
        | done n f' ↦ done n (record o { pos = (write_pos o f + n) % 2 ^ 64 }, f')
        | thrown e f' ↦ thrown e (record o { pos = write_pos o f }, f')
        | aborted ↦ aborted
      ])
      else thrown rw_conflict_with_open_flag (o, f)

-- The new position is what the function returns.
unfoldable pub set_rw_pos : OpenedFile × File → ℕ → Whence → OpenedFile × File
set_rw_pos (o, f) offset seek_set = (record o { pos = offset }, f)
set_rw_pos (o, f) offset seek_cur = (record o { pos = (o.pos + offset) % 2 ^ 64 }, f)
set_rw_pos (o, f) offset seek_end = (record o { pos = (f.size + offset) % 2 ^ 64 }, f)
set_rw_pos (o, f) offset seek_other = (o, f)
