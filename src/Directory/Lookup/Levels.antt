-- ===== src/Directory/Lookup/Levels.antt =====
-- The blocks of the last level of a directory, among those that are searched.
use hscfs.Base.{
  ℕ, zero, suc, ◌+◌, ◌%◌, ◌≤◌, ◌⊎◌, refl, subst, List, [], ◌∷◌, ◌++◌, ltb, arith, Bool-cases, inl,
  inr,
}
use hscfs.Directory.Buckets.{bucket_num, bucket_block_num, bucket_start_block_index}
use hscfs.Directory.Lookup.Scan.{range, bucket, candidates}
use hscfs.Directory.Lookup.Block.{Among}

Among-++ : (x : ℕ) (xs ys : List ℕ) → Among x (xs ++ ys) → Among x xs ⊎ Among x ys
Among-++ x [] ys h = inr h
Among-++ x (z ∷ xs) ys (inl e) = inl (inl e)
Among-++ x (z ∷ xs) ys (inr h) = elim (Among-++ x xs ys h) [ inl a ↦ inl (inr a) | inr b ↦ inr b ]

Among-left : (x : ℕ) (xs ys : List ℕ) → Among x xs → Among x (xs ++ ys)
Among-left x [] ys h = absurd h
Among-left x (z ∷ xs) ys (inl e) = inl e
Among-left x (z ∷ xs) ys (inr h) = inr (Among-left x xs ys h)

Among-right : (x : ℕ) (xs ys : List ℕ) → Among x ys → Among x (xs ++ ys)
Among-right x [] ys h = h
Among-right x (z ∷ xs) ys h = inr (Among-right x xs ys h)

pub Among-range : (x blk n : ℕ) → Among x (range blk n) → blk ≤ x
Among-range x blk zero h = absurd h
Among-range x blk (suc n) (inl e) = omega (arith, e)
Among-range x blk (suc n) (inr h) = omega (arith, Among-range x (blk + 1) n h)

module _ (d name_hash : ℕ) where
  -- The last level of some more.
  pub Among-candidates :
      (x n level : ℕ)
      → Among x (candidates d (suc n) level name_hash)
      → Among x (candidates d n level name_hash) ⊎ Among x (bucket d (level + n) name_hash)
  Among-candidates x zero level h = elim (Among-++ x (bucket d level name_hash) [] h) [
    | inl a ↦ inr (subst (λ k. Among x (bucket d k name_hash)) (omega arith) a)
    | inr out ↦ absurd out
  ]
  Among-candidates x (suc n) level h =
      elim (Among-++ x (bucket d level name_hash) (candidates d (suc n) (level + 1) name_hash) h) [
        | inl a ↦
            inl (Among-left x (bucket d level name_hash) (candidates d n (level + 1) name_hash) a)
        | inr b ↦ elim (Among-candidates x n (level + 1) b) [
          | inl c ↦
              inl
                (Among-right x (bucket d level name_hash) (candidates d n (level + 1) name_hash) c)
          | inr last ↦ inr (subst (λ k. Among x (bucket d k name_hash)) (omega arith) last)
        ]
      ]

  abbrev pub start : ℕ → ℕ
  start level = bucket_start_block_index level d (name_hash % bucket_num level d)

  -- The first block of a bucket, and of that of the last level.
  Among-bucket : (level : ℕ) → Among (start level) (bucket d level name_hash)
  unfolding bucket_block_num
  Among-bucket level = elim (Bool-cases (ltb level 31)) [
    | inl low ↦ rw low (inl refl)
    | inr high ↦ rw high (inl refl)
  ]

  pub first_of_last :
      (n level : ℕ) → Among (start (level + n)) (candidates d (suc n) level name_hash)
  first_of_last zero level =
      Among-left (start (level + 0)) (bucket d level name_hash) []
        (subst (λ k. Among (start k) (bucket d level name_hash)) (omega arith) (Among-bucket level))
  first_of_last (suc n) level =
      Among-right (start (level + suc n)) (bucket d level name_hash)
        (candidates d (suc n) (level + 1) name_hash)
        (subst (λ k. Among (start k) (candidates d (suc n) (level + 1) name_hash)) (omega arith)
          (first_of_last n (level + 1)))
