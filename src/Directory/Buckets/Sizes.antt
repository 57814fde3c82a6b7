-- ===== src/Directory/Buckets/Sizes.antt =====
-- The size of a directory and the places of its buckets.
use hscfs.Base.{
  ℕ, zero, suc, ◌+◌, ◌-◌, ◌*◌, ◌%◌, ◌^◌, ◌≡◌, ◌≤◌, ◌<◌, refl, subst, true, false, ltb, arith,
  Bool-cases, ℕ-cases, inl, inr,
}
use hscfs.FileMapping.{max_blkno_limit}
use hscfs.FileMapping.Resizer.{size_to_block}
use hscfs.Directory.Buckets.{
  half_depth, bucket_num, bucket_block_num, blocks_before, bucket_start_block_index, DirInode,
}

-- The blocks of a level, and of the levels before one, without the wrap-around.
abbrev pub level_blocks : ℕ → ℕ → ℕ
level_blocks dir_level level = bucket_num level dir_level * bucket_block_num level

abbrev pub all_blocks : ℕ → ℕ → ℕ
all_blocks dir_level zero = 0
all_blocks dir_level (suc level) = all_blocks dir_level level + level_blocks dir_level level

-- The file has the blocks of all levels up to the depth, and can address them.
pub record IsSized {Fs : Type 0} (s : DirInode Fs) : Type 0 where
  pub size : s.file.i_size ≡ all_blocks s.i_dir_level (suc s.i_current_depth) * 4096
  pub limit : all_blocks s.i_dir_level (suc s.i_current_depth) ≤ max_blkno_limit

all_blocks-add : (dir_level n k : ℕ) → all_blocks dir_level n ≤ all_blocks dir_level (k + n)
all_blocks-add dir_level n zero =
    let e : n ≡ zero + n = omega arith in
    subst (λ m. all_blocks dir_level n ≤ all_blocks dir_level m) e (omega arith)
all_blocks-add dir_level n (suc k) =
    let ih = all_blocks-add dir_level n k in
    let next : all_blocks dir_level n ≤ all_blocks dir_level (suc (k + n)) = omega (arith, ih) in
    let e : suc (k + n) ≡ suc k + n = omega arith in
    subst (λ m. all_blocks dir_level n ≤ all_blocks dir_level m) e next

all_blocks_mono : (dir_level n m : ℕ) → n ≤ m → all_blocks dir_level n ≤ all_blocks dir_level m
all_blocks_mono dir_level n m h =
    let e : m - n + n ≡ m = omega (arith, h) in
    subst (λ m. all_blocks dir_level n ≤ all_blocks dir_level m) e
      (all_blocks-add dir_level n (m - n))

bucket-within :
    (level idx num : ℕ)
    → idx < num
    → (idx + 1) * bucket_block_num level ≤ num * bucket_block_num level
unfolding bucket_block_num
bucket-within level idx num h = elim (Bool-cases (ltb level half_depth)) [
  | inl small ↦ rw small (omega (arith, h))
  | inr large ↦ rw large (omega (arith, h))
]

blocks_before-all_blocks :
    (dir_level level : ℕ)
    → all_blocks dir_level level < 2 ^ 32
    → blocks_before dir_level level ≡ all_blocks dir_level level
unfolding blocks_before
blocks_before-all_blocks dir_level zero small = refl
blocks_before-all_blocks dir_level (suc level) small =
    let ih = blocks_before-all_blocks dir_level level (omega (arith, small)) in
    rw ih (omega (arith, small))

-- The blocks of a bucket of a level that the directory has lie within the file, after the blocks of all
-- levels before: the assertion in `lookup` holds. The buckets of one level follow one another.
pub bucket_start_block_index-within :
    {Fs : Type 0} (s : DirInode Fs) (level bucket_idx : ℕ)
    → IsSized s
    → level ≤ s.i_current_depth
    → bucket_idx < bucket_num level s.i_dir_level
    → (all_blocks s.i_dir_level level ≤ bucket_start_block_index level s.i_dir_level bucket_idx)
      × (bucket_start_block_index level s.i_dir_level bucket_idx + bucket_block_num level
          ≤ all_blocks s.i_dir_level (suc level))
      × (bucket_start_block_index level s.i_dir_level bucket_idx + bucket_block_num level
          ≤ size_to_block s.file.i_size)
unfolding bucket_start_block_index
bucket_start_block_index-within s level bucket_idx sized inside idx =
    let d = s.i_dir_level in
    let fits = bucket-within level bucket_idx (bucket_num level d) idx in
    let up = all_blocks_mono d (suc level) (suc s.i_current_depth) (omega (arith, inside)) in
    let size = sized.size in
    let limit = sized.limit in
    let here = blocks_before-all_blocks d level (omega (arith, up, limit)) in
    let size_eq : size_to_block s.file.i_size ≡ all_blocks d (suc s.i_current_depth) =
      omega (arith, size) in
    let start : bucket_start_block_index level d bucket_idx
        ≡ all_blocks d level + bucket_idx * bucket_block_num level =
      rw here (omega (arith, up, limit, fits)) in
    (omega (arith, start), omega (arith, start, fits), omega (arith, start, fits, up, size_eq))

-- The levels that a file can hold are below the 31st.
bucket_num-last : (d : ℕ) → d < 256 → bucket_num 30 d ≡ 2 ^ 30
unfolding bucket_num
bucket_num-last d byte = elim (ℕ-cases d 0) [
  | inl nothing ↦ rw nothing refl
  | inr some_levels ↦
      let wrap : (30 + d) % 2 ^ 32 ≡ 30 + d = omega (arith, byte) in
      let test : ltb (30 + d) half_depth ≡ false = ground (arith, some_levels) in
      rw (wrap, test) refl
]

pow-le : (n k : ℕ) → 2 ^ n ≤ 2 ^ (k + n)
pow-le n zero = ground arith
pow-le n (suc k) =
    let ih = pow-le n k in let e : suc k + n ≡ suc (k + n) = omega arith in rw e (omega (arith, ih))

bucket_num-le : (level d : ℕ) → bucket_num level d ≤ 2 ^ 30
unfolding bucket_num
bucket_num-le level d = elim (Bool-cases (ltb ((level + d) % 2 ^ 32) half_depth)) [
  | inl small ↦
      let e : 30 - (level + d) % 2 ^ 32 + (level + d) % 2 ^ 32 ≡ 30 = ground (arith, small) in
      rw small (
        subst (λ m. 2 ^ ((level + d) % 2 ^ 32) ≤ 2 ^ m) e
          (pow-le ((level + d) % 2 ^ 32) (30 - (level + d) % 2 ^ 32)))
  | inr large ↦ rw large (omega arith)
]

pub depth-lt :
    {Fs : Type 0} (s : DirInode Fs) → IsSized s → s.i_dir_level < 256 → s.i_current_depth < 30
unfolding bucket_block_num
depth-lt s sized byte = elim (Bool-cases (ltb s.i_current_depth 30)) [
  | inl small ↦ ground (arith, small)
  | inr large ↦
      let up = all_blocks_mono s.i_dir_level 31 (suc s.i_current_depth) (ground (arith, large)) in
      let last = bucket_num-last s.i_dir_level byte in
      let limit = sized.limit in absurd (omega (arith, up, last, limit))
]

pub new_level-lt :
    {Fs : Type 0} (s : DirInode Fs)
    → IsSized s
    → s.i_dir_level < 256
    → level_blocks s.i_dir_level (suc s.i_current_depth) < 2 ^ 32
unfolding bucket_block_num
new_level-lt s sized byte =
    let small : ltb (suc s.i_current_depth) half_depth ≡ true =
      (let h = depth-lt s sized byte in ground (arith, h)) in
    let most = bucket_num-le (suc s.i_current_depth) s.i_dir_level in rw small (omega (arith, most))

pub bucket_num-pos : (level d : ℕ) → 0 < bucket_num level d
unfolding bucket_num
bucket_num-pos level d =
    let some_power : 2 ^ 0 ≤ 2 ^ ((level + d) % 2 ^ 32) =
      (let e : (level + d) % 2 ^ 32 + 0 ≡ (level + d) % 2 ^ 32 = omega arith in
        subst (λ m. 2 ^ 0 ≤ 2 ^ m) e (pow-le 0 ((level + d) % 2 ^ 32))) in
    elim (Bool-cases (ltb ((level + d) % 2 ^ 32) half_depth)) [
      | inl small ↦ rw small (omega (arith, some_power))
      | inr large ↦ rw large (omega arith)
    ]

pub level_blocks-pos : (d level : ℕ) → 0 < level_blocks d level
unfolding bucket_block_num
level_blocks-pos d level =
    let h = bucket_num-pos level d in
    elim (Bool-cases (ltb level half_depth)) [
      | inl small ↦ rw small (omega (arith, h))
      | inr large ↦ rw large (omega (arith, h))
    ]
