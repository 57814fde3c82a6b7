-- ===== src/Directory/Hash.antt =====
-- The hash of a name, `hscfs_dentry_hash` (src/fs/directory.cc).
use Prim.Native.Nat.{bit_or, bit_xor}
use hscfs.Base.{
  ℕ, zero, suc, ◌+◌, ◌-◌, ◌*◌, ◌/◌, ◌%◌, ◌^◌, ◌<◌, ◌≡◌, refl, List, [], ◌∷◌, Bool, false, ◌&&◌,
  Option, none, some, leb, ◌==◌, if◌then◌else◌, length, take, drop, replicate, min, arith,
  Bool-cases, inl, inr,
}

-- `str2hashbuf`: the bytes in words of 32 bits, filled up with a pad that is made of the length.
abbrev pub pad_of : ℕ → ℕ
pad_of len = let pad = bit_or len (len * 2 ^ 8 % 2 ^ 32) in bit_or pad (pad * 2 ^ 16 % 2 ^ 32)

unfoldable pub hashbuf : ℕ → ℕ → List ℕ → ℕ → ℕ → List ℕ
hashbuf pad i [] val num = if num == 0 then [] else val ∷ replicate (num - 1) pad
hashbuf pad i (x ∷ xs) val num =
    let val1 = (x + (if i % 4 == 0 then pad else val) * 2 ^ 8) % 2 ^ 32 in
    let full = i % 4 == 3 in
    let rest =
      hashbuf pad (i + 1) xs (if full then pad else val1) (if full then num - 1 else num) in
    if full then val1 ∷ rest else rest

unfoldable pub str2hashbuf : List ℕ → ℕ → ℕ → List ℕ
str2hashbuf msg len num = hashbuf (pad_of len) 0 (take (min len (num * 4)) msg) (pad_of len) num

-- `TEA_transform`: sixteen rounds on two words, with four words of key.
abbrev pub mixed : ℕ → ℕ → ℕ → ℕ → ℕ
mixed b sum k l =
    bit_xor (bit_xor ((b * 2 ^ 4 + k) % 2 ^ 32) ((b + sum) % 2 ^ 32)) ((b / 2 ^ 5 + l) % 2 ^ 32)

unfoldable pub tea_rounds : ℕ → ℕ → ℕ × ℕ → ℕ → ℕ → ℕ → ℕ → ℕ × ℕ
tea_rounds zero sum (b0, b1) a b c d = (b0, b1)
tea_rounds (suc n) sum (b0, b1) a b c d =
    let sum1 = (sum + 0x9E3779B9) % 2 ^ 32 in
    let c0 = (b0 + mixed b1 sum1 a b) % 2 ^ 32 in
    let c1 = (b1 + mixed c0 sum1 c d) % 2 ^ 32 in tea_rounds n sum1 (c0, c1) a b c d

unfoldable pub tea_transform : ℕ × ℕ → List ℕ → ℕ × ℕ
tea_transform (b0, b1) (a ∷ b ∷ c ∷ d ∷ rest) =
    let (c0, c1) = tea_rounds 16 0 (b0, b1) a b c d in ((b0 + c0) % 2 ^ 32, (b1 + c1) % 2 ^ 32)
tea_transform buf other = buf

unfoldable pub hash_loop : ℕ → ℕ × ℕ → List ℕ → ℕ → Option (ℕ × ℕ)
hash_loop zero buf p len = none
hash_loop (suc fuel) buf p len =
    let next = tea_transform buf (str2hashbuf p len 4) in
    let rest = hash_loop fuel next (drop 16 p) (len - 16) in if leb len 16 then some next else rest

abbrev pub is_dot : List ℕ → Bool
is_dot [] = false
is_dot (a ∷ []) = a == 46
is_dot (a ∷ b ∷ []) = (a == 46) && (b == 46)
is_dot (a ∷ b ∷ c ∷ name) = false

-- The bit that is cleared in the end lies beyond the word.
unfoldable pub hscfs_dentry_hash : List ℕ → Option ℕ
hscfs_dentry_hash name =
    if is_dot name
    then some 0
    else (elim (hash_loop (suc (length name)) (0x67452301, 0xefcdab89) name (length name)) [
      | none ↦ none
      | some (hash, other) ↦ some hash
    ])

tea_transform-lt :
    (buf : ℕ × ℕ) (key : List ℕ) → buf.0 < 2 ^ 32 → (tea_transform buf key).0 < 2 ^ 32
unfolding tea_transform
tea_transform-lt (b0, b1) (a ∷ b ∷ c ∷ d ∷ rest) h = omega arith
tea_transform-lt (b0, b1) [] h = h
tea_transform-lt (b0, b1) (a ∷ []) h = h
tea_transform-lt (b0, b1) (a ∷ b ∷ []) h = h
tea_transform-lt (b0, b1) (a ∷ b ∷ c ∷ []) h = h

hash_loop-ends :
    (fuel : ℕ) (buf : ℕ × ℕ) (p : List ℕ) (len : ℕ)
    → len < fuel
    → buf.0 < 2 ^ 32
    → (h : ℕ × ℕ) × (hash_loop fuel buf p len ≡ some h) × (h.0 < 2 ^ 32)
unfolding hash_loop
hash_loop-ends zero buf p len h word = absurd (omega arith)
hash_loop-ends (suc fuel) buf p len h word =
    let next = tea_transform buf (str2hashbuf p len 4) in
    let word' = tea_transform-lt buf (str2hashbuf p len 4) word in
    elim (Bool-cases (leb len 16)) [
      | inl short ↦ (next, rw short refl, word')
      | inr long ↦
          let (r, ran, small) =
            hash_loop-ends fuel next (drop 16 p) (len - 16) (ground (arith, h, long)) word' in
          (r, rw long ran, small)
    ]

-- Every name has a hash, which fits into 32 bits.
pub hscfs_dentry_hash-lt :
    (name : List ℕ) → (h : ℕ) × (hscfs_dentry_hash name ≡ some h) × (h < 2 ^ 32)
unfolding hscfs_dentry_hash
hscfs_dentry_hash-lt name = elim (Bool-cases (is_dot name)) [
  | inl dot ↦ (0, rw dot refl, omega arith)
  | inr other ↦
      let (h, ran, small) =
        hash_loop-ends (suc (length name)) (0x67452301, 0xefcdab89) name (length name) (omega arith)
          (omega arith) in
      (h.0, rw (other, ran) refl, small)
]
