-- ===== src/File.antt =====
-- Reading and writing a file through its page cache (src/fs/file.cc, inc/fs/file.hh). For reads
-- and writes the index of the file (`get_addr_of_block`, the size in the inode) and the device are
-- parameters: `addr` gives the
-- block of the device for a block of the file, `invalid_lpa` for a hole, and `device` reads a block or
-- fails. A handle is the key of its page; the handle of the page before the current one is kept until
-- the current page has been used. A truncation resizes the inode with the model of `file_resizer`. Times,
-- locks and the mark that the file is modified are left out.
pub mod Passes
pub mod Patches
pub mod Coherence
pub mod Steps
pub mod Truncation
pub mod Reading
pub mod Writing
use hscfs.Base.{
  ℕ, zero, suc, ◌+◌, ◌-◌, ◌*◌, ◌/◌, ◌%◌, ◌^◌, min, List, [], ◌∷◌, ◌++◌, Bool, true, false, not,
  ◌&&◌, Option, none, some, ltb, leb, ◌==◌, if◌then◌else◌, nat_key,
}
use hscfs.Base.Outcome.{Outcome, Error, done, thrown, aborted, io_error, step, ◌>>=◌}
use hscfs.Fs.{invalid_lpa, invalid_nid}
use hscfs.FileMapping.Resizer.{FileNodes, get_node_entry}
use hscfs.FileMapping.Resizer.Expand.{expand}
use hscfs.FileMapping.Resizer.Reduce.{reduce}
use hscfs.PageCache
use hscfs.PageCache.{PageCache, PageState, Page, invalid, ready, set_entry, sub_refcount}

pub record File : Type 0 where
  pub page_cache : PageCache
  pub size : ℕ

-- `SIZE_TO_BLOCK`.
abbrev pub size_to_block : ℕ → ℕ
size_to_block n = (n + 4095) / 4096

abbrev pub idx_of_blk : ℕ → ℕ
idx_of_blk pos = pos / 4096 % 2 ^ 32

abbrev pub off_in_blk : ℕ → ℕ
off_in_blk pos = pos % 4096

abbrev pub end_pos_of_cur_blk : ℕ → ℕ
end_pos_of_cur_blk cur_pos = cur_pos + 4096 - off_in_blk cur_pos

-- `memcpy` from a page, and to one.
abbrev pub copied : Page → ℕ → ℕ → List ℕ
copied page start zero = []
copied page start (suc n) = page start ∷ copied page (start + 1) n

abbrev pub overwritten : Page → ℕ → ℕ → (ℕ → ℕ) → Page
overwritten page start n bytes off =
    if leb start off && ltb off (start + n) then bytes (off - start) else page off

abbrev pub is_ready : PageState → Bool
is_ready ready = true
is_ready invalid = false

-- A handle that is assigned to, or that ends; an empty one holds no page.
abbrev pub end_handle : Option ℕ → PageCache → Option PageCache
end_handle none c = some c
end_handle (some key) c = sub_refcount c key

-- An exception ends the handles of the current and of the previous page.
abbrev pub unwind : {A : Type 0} → ℕ → Option ℕ → Outcome PageCache A → Outcome PageCache A
unwind key pre (done a c) = done a c
unwind key pre (thrown e c) =
    step (sub_refcount c key) (λ c1. step (end_handle pre c1) (λ c2. thrown e c2))
unwind key pre aborted = aborted

module _ (size_in_inode : ℕ) (addr : ℕ → ℕ) (device : ℕ → Option Page) where
  -- The largest block of the file in the inode; the subtraction wraps around for an empty file.
  abbrev pub max_blkoff_in_inode : ℕ
  max_blkoff_in_inode = (size_to_block size_in_inode + 2 ^ 64 - 1) % 2 ^ 64

  abbrev pub lpa_of : ℕ → ℕ
  lpa_of blkoff = if ltb max_blkoff_in_inode blkoff then invalid_lpa else addr blkoff

  -- The page is marked as ready before it is read.
  unfoldable pub prepare_page_content : PageCache → ℕ → Outcome PageCache Unit
  prepare_page_content c key = step (c.manager.index key) (λ p.
      if is_ready p.content_state
      then done tt c
      else let lpa = lpa_of p.blkoff in
        let c1 = set_entry c key (record p { content_state = ready; lpa = lpa }) in
        if lpa == invalid_lpa then done tt c1 else elim (device lpa) [
          | none ↦ thrown io_error c1
          | some data_read ↦
              done tt
                (set_entry c key (record p { content_state = ready; lpa = lpa; page = data_read }))
        ])

  unfoldable pub read_loop : ℕ → PageCache → Option ℕ → ℕ → ℕ → Outcome PageCache (List ℕ)
  read_loop zero c pre pos read_end_pos = aborted
  read_loop (suc fuel) c pre pos read_end_pos =
      if ltb pos read_end_pos
      then (let cur_blkno = idx_of_blk pos in
          let end_pos = min (end_pos_of_cur_blk pos) read_end_pos in
          let cp_cnt = end_pos - pos in
          step (PageCache.get c cur_blkno) (λ c1.
            unwind cur_blkno pre (prepare_page_content c1 cur_blkno) >>= λ (_, c2).
            step (c2.manager.index cur_blkno) (λ p. step (end_handle pre c2) (λ c3.
              read_loop fuel c3 (some cur_blkno) (pos + cp_cnt) read_end_pos >>= λ (rest, c4).
              done (copied p.page (off_in_blk pos) cp_cnt ++ rest) c4))))
      else step (end_handle pre c) (λ c1. done [] c1)

  -- The bytes that are read; their number is what the function returns.
  unfoldable pub read : File → ℕ → ℕ → Outcome File (List ℕ)
  read f count pos =
      let read_end_pos = min f.size ((pos + count) % 2 ^ 64) in
      elim (read_loop (suc (count / 4096 + 2)) f.page_cache none pos read_end_pos) [
        | done bytes c ↦ done bytes (record f { page_cache = c })
        | thrown e c ↦ thrown e (record f { page_cache = c })
        | aborted ↦ aborted
      ]

  unfoldable pub write_loop :
      ℕ → PageCache → Option ℕ → ℕ → ℕ → (ℕ → ℕ) → ℕ → ℕ → Outcome PageCache Unit
  write_loop zero c pre pos write_end_pos buffer write_count count = aborted
  write_loop (suc fuel) c pre pos write_end_pos buffer write_count count =
      if not (ltb write_count count)
      then step (end_handle pre c) (λ c1. done tt c1)
      else if not (ltb pos write_end_pos)
      then aborted
      else (let cur_blkno = idx_of_blk pos in
          let end_pos = min (end_pos_of_cur_blk pos) write_end_pos in
          let cp_cnt = end_pos - pos in
          step (PageCache.get c cur_blkno) (λ c1.
            unwind cur_blkno pre (prepare_page_content c1 cur_blkno) >>= λ (_, c2).
            step (c2.manager.index cur_blkno) (λ p.
              let page =
                overwritten p.page (off_in_blk pos) cp_cnt (λ i. buffer (write_count + i)) in
              step
                (PageCache.mark_dirty (set_entry c2 cur_blkno (record p { page = page })) cur_blkno)
                (λ c3. step (end_handle pre c3) (λ c4.
                  write_loop fuel c4 (some cur_blkno) (pos + cp_cnt) write_end_pos buffer
                    (write_count + cp_cnt) count)))))

  abbrev pub set_cur_size_if_larger : File → ℕ → File
  set_cur_size_if_larger f size_after_write =
      if ltb f.size size_after_write then record f { size = size_after_write } else f

  -- What is written is the whole buffer; the function returns `count` then.
  unfoldable pub write : File → (ℕ → ℕ) → ℕ → ℕ → Outcome File ℕ
  write f buffer count pos =
      elim (write_loop (suc (count / 4096 + 2)) f.page_cache none pos ((pos + count) % 2 ^ 64)
        buffer 0 count) [
          | done _ c ↦
              done count
                (set_cur_size_if_larger (record f { page_cache = c }) ((pos + count) % 2 ^ 64))
          | thrown e c ↦ thrown e (record f { page_cache = c })
          | aborted ↦ aborted
        ]

-- `truncate`, with the node blocks of the file, whose inode holds the size that the resizer compares.
module _ {Fs : Type 0} (alloc_nid : ℕ → Fs → Outcome Fs ℕ)
    (invalidate_lpa free_nid : ℕ → Fs → Option Fs) where
  -- The resizing of the inode, and whether there was something to do.
  unfoldable pub resize : FileNodes Fs → ℕ → ℕ → Outcome (FileNodes Fs) Bool
  resize s ino tar_size = step (get_node_entry s ino invalid_nid) (λ inode_handle.
      if ltb s.i_size tar_size
      then expand alloc_nid s ino tar_size >>= (λ (u, s1). done true s1)
      else if ltb tar_size s.i_size
      then step (reduce invalidate_lpa free_nid s ino tar_size) (λ s1. done true s1)
      else done false s)

  -- The Boolean is what the function returns. An exception of the resizer leaves the file as it is; the
  -- page's number is cut to 32 bits.
  unfoldable pub truncate : File → FileNodes Fs → ℕ → ℕ → Outcome (File × FileNodes Fs) Bool
  truncate f s ino tar_size = elim (resize s ino tar_size) [
    | aborted ↦ aborted
    | thrown e s1 ↦ thrown e (f, s1)
    | done false s1 ↦ done false (f, s1)
    | done true s1 ↦
        step
          (PageCache.truncate f.page_cache
            ((size_to_block tar_size + 2 ^ 64 - 1) % 2 ^ 64 % 2 ^ 32))
          (λ c. done true (record f { page_cache = c; size = tar_size }, s1))
  ]
