-- ===== src/Tests/Files.antt =====
-- Runs of the theorems on the page cache and on a small file: one block on the device, and a hole.
use hscfs.Base.{
  ℕ, ◌+◌, ◌<◌, ◌≤◌, ◌≡◌, inr, refl, true, not, ◌&&◌, List, [], ◌∷◌, Option, none, some, put,
  nat_key, arith, length, ltb, ◌==◌, ◌>>=◌, ◌^◌, sym, ap, ◌∙◌, if◌then◌else◌,
}
use hscfs.Base.Outcome.{Outcome, done}
use hscfs.CacheManager
use hscfs.Lru
use hscfs.PageCache
use hscfs.PageCache.{PageCache, PageEntry, Page, member, upper_bound, truncate, mark_dirty}
use hscfs.PageCache.Misses.{Gets}
use hscfs.PageCache.Accounting.{Accounted, create-Accounted, get-Accounted, mark_dirty-Accounted}
use hscfs.PageCache.Cleaning.{on_keys, released, invalidated}
use hscfs.PageCache.Truncation.{truncate-Accounted}
use hscfs.File
use hscfs.File.{File, read, write}
use hscfs.File.Coherence.{Coherent, create-Coherent, view}
use hscfs.File.Reading.{Readable, read-bytes}
use hscfs.File.Writing.{write-bytes}
use hscfs.File.Patches.{patched}

abbrev addr : ℕ → ℕ
addr b = if b == 0 then 30 else 0

abbrev device : ℕ → Option Page
device lpa = some (λ off. 7)

abbrev small : File
small = record { page_cache = PageCache.create 10; size = 8192 }

small-Readable : Readable 8192 addr device small.page_cache 2
unfolding PageCache.create
small-Readable = record {
  there = λ b h e. ground arith;
  room = inr (omega arith);
  word = omega arith;
}

read-bytes_example :
    (f' : File) × (read 8192 addr device small 6 4093 ≡ done (7 ∷ 7 ∷ 7 ∷ 0 ∷ 0 ∷ 0 ∷ []) f')
    × Coherent 8192 addr device f'.page_cache (λ j. 0)
    × ((b : ℕ) → view 8192 addr device f'.page_cache b ≡ view 8192 addr device small.page_cache b)
    × (f'.size ≡ 8192)
unfolding PageCache.create CacheManager.empty
read-bytes_example =
    read-bytes 8192 addr device small (λ j. 0) 6 4093 (create-Coherent 8192 addr device 10)
      (λ j. omega arith) small-Readable (omega arith)

write-bytes_example :
    (f' : File) × (write 8192 addr device small (λ i. i + 1) 6 4093 ≡ done 6 f')
    × Coherent 8192 addr device f'.page_cache (λ j. 0)
    × ((b off : ℕ)
        → off < 4096
        → view 8192 addr device f'.page_cache b off
          ≡ patched (view 8192 addr device small.page_cache) 4093 4099 (λ i. i + 1) b off)
    × (f'.size ≡ 8192)
    × (f'.page_cache.cur_size ≤ small.page_cache.cur_size + 2)
    × (f'.page_cache.expect_size ≡ small.page_cache.expect_size)
write-bytes_example =
    write-bytes 8192 addr device small (λ j. 0) (λ i. i + 1) 6 4093
      (create-Coherent 8192 addr device 10) (λ j. omega arith) small-Readable (omega arith)

get-Accounted_example :
    (c' : PageCache) × (p : PageEntry) × (PageCache.get small.page_cache 3 ≡ some c')
    × Gets small.page_cache c' 3 p
    × Accounted c' (put (λ j. 0) 3 (0 + 1))
unfolding PageCache.create
get-Accounted_example =
    get-Accounted small.page_cache (λ j. 0) (create-Accounted 10) 3 (omega arith) (omega arith)

-- A page that is looked up, marked dirty, and cut off.
abbrev used : ℕ → ℕ
used = put (λ j. 0) 3 (0 + 1)

small_size : (PageCache.create 10).cur_size + 1 < 2 ^ 64
unfolding PageCache.create
small_size = omega arith

abbrev looked_up :
    (c' : PageCache) × (p : PageEntry) × (PageCache.get (PageCache.create 10) 3 ≡ some c')
    × Gets (PageCache.create 10) c' 3 p
    × Accounted c' used
looked_up =
    get-Accounted (PageCache.create 10) (λ j. 0) (create-Accounted 10) 3 (omega arith) small_size

abbrev soiled :
    (c' : PageCache) × (mark_dirty looked_up.0 3 ≡ some c')
    × Accounted c' used
    × ((j : ℕ)
        → c'.manager.index j
          ≡ put looked_up.0.manager.index 3
              (some (record (looked_up.1) { is_dirty = true; ref_count = 2 }))
              j)
    × (c'.cur_size ≡ looked_up.0.cur_size)
    × (c'.expect_size ≡ looked_up.0.expect_size)
soiled =
    mark_dirty-Accounted looked_up.0 used looked_up.4 3 looked_up.1 looked_up.3.cached (omega arith)
      (omega arith)

abbrev sizes : Option PageCache → List ℕ × ℕ
sizes none = ([], 0)
sizes (some c) = (c.dirty_pages, c.cur_size)

soiled_sizes : sizes (PageCache.get (PageCache.create 10) 3 >>= λ c. mark_dirty c 3) ≡ (3 ∷ [], 1)
unfolding PageCache.create CacheManager.empty Lru.empty PageCache.get CacheManager.get
    PageCache.get_miss PageCache.add_new CacheManager.add Lru.add PageCache.add_refcount
    CacheManager.pin Lru.pin mark_dirty PageCache.add_to_dirty_pages PageCache.insert_sorted
soiled_sizes = refl

soiled_counts : sizes (some soiled.0) ≡ (3 ∷ [], 1)
soiled_counts =
    sym (ap (λ o. sizes (o >>= λ c. mark_dirty c 3)) looked_up.2 ∙ ap sizes soiled.1) ∙ soiled_sizes

one_dirty : (soiled.0.dirty_pages ≡ 3 ∷ []) × (soiled.0.cur_size ≡ 1)
one_dirty = (ap (λ p. p.0) soiled_counts, ap (λ p. p.1) soiled_counts)

one_word : soiled.0.cur_size < 2 ^ 64
one_word = rw one_dirty.1 (omega arith)

one_fits : length soiled.0.dirty_pages ≤ soiled.0.cur_size
one_fits = rw (one_dirty.0, one_dirty.1) (omega arith)

truncate-Accounted_example :
    (c' : PageCache) × (truncate soiled.0 2 ≡ some c')
    × Accounted c' used
    × ((j : ℕ)
        → c'.manager.index j
          ≡ on_keys
              (upper_bound 2 soiled.0.dirty_pages)
              (λ p. released (invalidated p))
              soiled.0.manager.index
              j)
    × ((j : ℕ) → member j c'.dirty_pages ≡ (member j soiled.0.dirty_pages && not (ltb 2 j)))
    × (c'.cur_size + length (upper_bound 2 soiled.0.dirty_pages) ≡ soiled.0.cur_size)
truncate-Accounted_example =
    truncate-Accounted soiled.0 used soiled.2 (λ j. ground arith) 2 one_fits one_word

abbrev next_nid : ℕ → List ℕ → Outcome (List ℕ) ℕ
next_nid ino fs = done 21 fs

abbrev written : File
written = record { page_cache = soiled.0; size = 16384 }
