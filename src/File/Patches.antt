-- ===== src/File/Patches.antt =====
-- A file with other bytes in a range.
use hscfs.Base.{
  ℕ, ◌+◌, ◌-◌, ◌*◌, ◌<◌, ◌≤◌, ◌≡◌, ◌≢◌, inl, inr, ap, ◌∙◌, false, ◌&&◌, ltb, leb, ◌==◌,
  if◌then◌else◌, nat_key, arith, Bool-cases,
}
use hscfs.PageCache.{Page}
use hscfs.File.{overwritten}

-- The file with `bytes` in place of what stood from `pos` up to `end_pos`.
abbrev pub patched : (ℕ → Page) → ℕ → ℕ → (ℕ → ℕ) → ℕ → Page
patched content pos end_pos bytes b off =
    if leb pos (b * 4096 + off) && ltb (b * 4096 + off) end_pos
    then bytes (b * 4096 + off - pos)
    else content b off

-- Two ranges, one after the other.
pub patched-patched :
    (f g : ℕ → Page) (pos cnt end_pos : ℕ) (bytes rest : ℕ → ℕ) (b off : ℕ)
    → pos + cnt ≤ end_pos
    → ((i : ℕ) → rest i ≡ bytes (cnt + i))
    → g b off ≡ patched f pos (pos + cnt) bytes b off
    → patched g (pos + cnt) end_pos rest b off ≡ patched f pos end_pos bytes b off
patched-patched f g pos cnt end_pos bytes rest b off within same h =
    elim (Bool-cases (leb pos (b * 4096 + off))) [
      | inr before ↦ ground (arith, h)
      | inl after ↦ elim (Bool-cases (leb (pos + cnt) (b * 4096 + off))) [
        | inr first ↦ ground (arith, h)
        | inl second ↦
            let shift : cnt + (b * 4096 + off - (pos + cnt)) ≡ b * 4096 + off - pos =
              ground arith in
            let at : rest (b * 4096 + off - (pos + cnt)) ≡ bytes (b * 4096 + off - pos) =
              same (b * 4096 + off - (pos + cnt)) ∙ ap bytes shift in
            ground (arith, h, at)
      ]
    ]

-- Bytes that are stored in one block.
pub overwritten-patched :
    (f g : ℕ → Page) (page : Page) (k start pos cnt : ℕ) (bytes : ℕ → ℕ) (b off : ℕ)
    → pos ≡ k * 4096 + start
    → start + cnt ≤ 4096
    → off < 4096
    → page ≡ f k
    → g b ≡ (if k == b then overwritten page start cnt bytes else f b)
    → g b off ≡ patched f pos (pos + cnt) bytes b off
overwritten-patched f g page k start pos cnt bytes b off place fits inside same h =
    let at : g b off ≡ (if k == b then overwritten page start cnt bytes else f b) off =
      ap (λ q. q off) h in
    let below : page off ≡ f k off = ap (λ q. q off) same in
    elim (Bool-cases (k == b)) [
      | inl here ↦
          let block : k ≡ b = ground (arith, here) in
          let shift : b * 4096 + off - pos ≡ off - start = omega (arith, block, place) in
          let value : bytes (b * 4096 + off - pos) ≡ bytes (off - start) = ap bytes shift in
          let lower : leb pos (b * 4096 + off) ≡ leb start off = ground (arith, block, place) in
          let upper : ltb (b * 4096 + off) (pos + cnt) ≡ ltb off (start + cnt) =
            ground (arith, block, place) in
          rw (value, lower, upper) (ground (arith, at, below, here, block))
      | inr elsewhere ↦
          let apart : k ≢ b = λ e. ground (arith, elsewhere) in
          let outside : (leb pos (b * 4096 + off) && ltb (b * 4096 + off) (pos + cnt)) ≡ false =
            ground (arith, apart, place, fits, inside) in
          rw outside (ground (arith, at, elsewhere))
    ]
