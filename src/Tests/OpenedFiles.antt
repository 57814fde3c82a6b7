-- ===== src/Tests/OpenedFiles.antt =====
-- A run of the theorem on descriptors: six bytes over the border of two blocks.
use hscfs.Base.{ℕ, ◌+◌, ◌≡◌, inr, refl, [], ◌∷◌, Option, some, arith, ◌==◌, if◌then◌else◌}
use hscfs.Base.Outcome.{done}
use hscfs.PageCache
use hscfs.PageCache.{Page}
use hscfs.File.{File}
use hscfs.File.Coherence.{Coherent, create-Coherent}
use hscfs.File.Reading.{Readable}
use hscfs.OpenedFile.{OpenedFile, read, write, set_rw_pos, seek_set}
use hscfs.OpenedFile.Laws.{write-read}

abbrev addr : ℕ → ℕ
addr b = if b == 0 then 30 else 0

abbrev device : ℕ → Option Page
device lpa = some (λ off. 7)

abbrev file : File
file = record { page_cache = PageCache.create 10; size = 8192 }

abbrev descriptor : OpenedFile
descriptor = record { flags = 2; pos = 4093 }

file-Readable : Readable 8192 addr device file.page_cache 4
unfolding PageCache.create
file-Readable = record {
  there = λ b h e. ground (arith, e);
  room = inr (omega arith);
  word = omega arith;
}

write-read_example :
    (o' : OpenedFile) × (f' : File) × (f'' : File) × (write 8192 addr device
        (descriptor, file)
        (λ i. i + 1)
        6
      ≡ done 6 (o', f'))
    × (o'.pos ≡ 4099)
    × (f'.size ≡ 8192)
    × (read 8192 addr device (set_rw_pos (o', f') 4093 seek_set) 6
        ≡ done (1 ∷ 2 ∷ 3 ∷ 4 ∷ 5 ∷ 6 ∷ []) (o', f''))
    × Coherent 8192 addr device f''.page_cache (λ j. 0)
write-read_example =
    write-read 8192 addr device descriptor file (λ j. 0) (λ i. i + 1) 6 refl refl
      (create-Coherent 8192 addr device 10) (λ j. omega arith) file-Readable (omega arith)
