-- ===== src/File/Passes.antt =====
-- The passes of the loops over the pages of a file: how far each goes, and what is copied.
use hscfs.Base.{
  ℕ, zero, suc, ◌+◌, ◌-◌, ◌*◌, ◌/◌, ◌^◌, ◌<◌, ◌≤◌, ◌≡◌, refl, sym, min, List, [], ◌∷◌, ◌++◌, Option,
  none, some, nat_key, arith,
}
use hscfs.PageCache.{Page}
use hscfs.File.{copied, idx_of_blk, off_in_blk, end_pos_of_cur_blk}
use hscfs.File.Steps.{held_by}

-- A pass of a loop up to `end_pos`: it stays in one block, and `n` passes are enough for the rest.
pub record Advances (pos end_pos cnt n : ℕ) : Type 0 where
  pub place : pos ≡ idx_of_blk pos * 4096 + off_in_blk pos
  pub fits : off_in_blk pos + cnt ≤ 4096
  pub word : idx_of_blk pos < 2 ^ 32
  pub total : cnt + (end_pos - (pos + cnt)) ≡ end_pos - pos
  pub progress : 0 < cnt
  pub within : pos + cnt ≤ end_pos
  pub enough : pos + cnt < end_pos → (end_pos + 4095) / 4096 ≤ (pos + cnt) / 4096 + n

pub advance :
    (pos end_pos n : ℕ)
    → pos < end_pos
    → end_pos ≤ 2 ^ 44
    → (end_pos + 4095) / 4096 ≤ pos / 4096 + suc n
    → Advances pos end_pos (min (end_pos_of_cur_blk pos) end_pos - pos) n
advance pos end_pos n before limit enough = record {
  place = omega (arith, before, limit);
  fits = omega (arith, before);
  word = omega arith;
  total = omega (arith, before);
  progress = omega (arith, before);
  within = omega (arith, before);
  enough = λ more. omega (arith, more, enough);
}

pub at_most_one :
    (held : ℕ → ℕ) (pre : Option ℕ) (j : ℕ)
    → held j + 4 < 2 ^ 32
    → held j + held_by pre j + 3 < 2 ^ 32
at_most_one held none j room = omega (arith, room)
at_most_one held (some k) j room = ground (arith, room)

-- The bytes from a position on, of a file that is given by its blocks.
abbrev pub bytes_of : (ℕ → Page) → ℕ → ℕ → List ℕ
bytes_of content pos zero = []
bytes_of content pos (suc n) =
    content (idx_of_blk pos) (off_in_blk pos) ∷ bytes_of content (pos + 1) n

pub bytes_of-cong :
    (f g : ℕ → Page) (pos n : ℕ) → ((b : ℕ) → f b ≡ g b) → bytes_of f pos n ≡ bytes_of g pos n
bytes_of-cong f g pos zero same = refl
bytes_of-cong f g pos (suc n) same =
    rw (same (idx_of_blk pos), bytes_of-cong f g (pos + 1) n same) refl

-- What is copied out of one block continues the bytes before it.
pub copied-bytes_of :
    (content : ℕ → Page) (page : Page) (b start pos n rest : ℕ)
    → page ≡ content b
    → pos ≡ b * 4096 + start
    → start + n ≤ 4096
    → b < 2 ^ 32
    → copied page start n ++ bytes_of content (pos + n) rest ≡ bytes_of content pos (n + rest)
copied-bytes_of content page b start pos zero rest same at fits word =
    let here : pos + 0 ≡ pos = omega arith in
    let all : 0 + rest ≡ rest = omega arith in rw (here, all) refl
copied-bytes_of content page b start pos (suc n) rest same at fits word =
    let ih =
      copied-bytes_of content page b (start + 1) (pos + 1) n rest same (omega (arith, at))
        (omega (arith, fits)) word in
    let block : idx_of_blk pos ≡ b = omega (arith, at, fits, word) in
    let off : off_in_blk pos ≡ start = omega (arith, at, fits) in
    let next : pos + 1 + n ≡ pos + suc n = omega arith in
    let shape : suc n + rest ≡ suc (n + rest) = omega arith in
    rw (sym next, shape) (rw (block, off, sym ih, sym same) refl)
