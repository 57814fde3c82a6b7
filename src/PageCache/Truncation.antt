-- ===== src/PageCache/Truncation.antt =====
-- Which pages leave the map of the dirty pages in `truncate` and `clear_dirty_pages`, and what remains.
use hscfs.Base.{
  ℕ, ◌+◌, ◌^◌, ◌<◌, ◌≤◌, ◌≡◌, ◌≢◌, refl, true, not, ◌&&◌, List, [], ◌∷◌, none, some, ltb, nat_key,
  arith, length,
}
use hscfs.PageCache.{PageCache, member, truncate, clear_dirty_pages, up_to, upper_bound}
use hscfs.PageCache.Accounting.{Accounted, ascends}
use hscfs.PageCache.Cleaning.{
  on_keys, released, invalidated, cleaned, not-member-ascends, end_handles-Accounted,
  invalidate_pages-Gives, clean_pages-Gives, unlisted-Accounted,
}

member-upper_bound :
    (b m : ℕ) (xs : List ℕ) (j : ℕ)
    → ascends b xs ≡ true
    → member j (upper_bound m xs) ≡ (member j xs && ltb m j)
member-upper_bound b m [] j h = refl
member-upper_bound b m (x ∷ xs) j h = ground (
  arith,
  member-upper_bound (x + 1) m xs j (ground arith),
  not-member-ascends j (x + 1) xs (ground arith),
)

member-up_to :
    (b m : ℕ) (xs : List ℕ) (j : ℕ)
    → ascends b xs ≡ true
    → member j (up_to m xs) ≡ (member j xs && not (ltb m j))
member-up_to b m [] j h = refl
member-up_to b m (x ∷ xs) j h = ground (
  arith,
  member-up_to (x + 1) m xs j (ground arith),
  not-member-ascends j (x + 1) xs (ground arith),
)

up_to-ascends : (b m : ℕ) (xs : List ℕ) → ascends b xs ≡ true → ascends b (up_to m xs) ≡ true
up_to-ascends b m [] h = refl
up_to-ascends b m (x ∷ xs) h = ground (arith, up_to-ascends (x + 1) m xs (ground arith))

ascends-weaken : (b b' : ℕ) (xs : List ℕ) → ascends b' xs ≡ true → b ≤ b' → ascends b xs ≡ true
ascends-weaken b b' [] h le = refl
ascends-weaken b b' (x ∷ xs) h le = ground arith

upper_bound-ascends :
    (b m : ℕ) (xs : List ℕ) → ascends b xs ≡ true → ascends b (upper_bound m xs) ≡ true
upper_bound-ascends b m [] h = refl
upper_bound-ascends b m (x ∷ xs) h = ground (
  arith,
  upper_bound-ascends (x + 1) m xs (ground arith),
  ascends-weaken b (x + 1) (upper_bound m xs),
)

length-upper_bound : (m : ℕ) (xs : List ℕ) → length (upper_bound m xs) ≤ length xs
length-upper_bound m [] = omega arith
length-upper_bound m (x ∷ xs) = ground (arith, length-upper_bound m xs)

module _ (c : PageCache) (held : ℕ → ℕ) (a : Accounted c held)
    (room : (j : ℕ) → held j + 2 < 2 ^ 32) where
  there : (j : ℕ) → member j c.dirty_pages ≡ true → c.manager.index j ≢ none
  there j listed gone = ground (arith, a.absent j gone)

  -- Truncation of a cache that counts its dirty pages at least: the dirty pages beyond the bound become
  -- clean and invalid, leave the map and lose its reference, and no other page changes. All of them
  -- stay in the cache, but the size that the cache counts is less by their number.
  pub truncate-Accounted :
      (bound : ℕ)
      → length c.dirty_pages ≤ c.cur_size
      → c.cur_size < 2 ^ 64
      → (c' : PageCache) × (truncate c bound ≡ some c')
        × Accounted c' held
        × ((j : ℕ)
            → c'.manager.index j
              ≡ on_keys
                  (upper_bound bound c.dirty_pages)
                  (λ p. released (invalidated p))
                  c.manager.index
                  j)
        × ((j : ℕ) → member j c'.dirty_pages ≡ (member j c.dirty_pages && not (ltb bound j)))
        × (c'.cur_size + length (upper_bound bound c.dirty_pages) ≡ c.cur_size)
  unfolding truncate
  truncate-Accounted bound enough word =
      let ks = upper_bound bound c.dirty_pages in
      let low = up_to bound c.dirty_pages in
      let above : (j : ℕ) → member j ks ≡ (member j c.dirty_pages && ltb bound j) =
        λ j. member-upper_bound 0 bound c.dirty_pages j a.sorted in
      let below : (j : ℕ) → member j low ≡ (member j c.dirty_pages && not (ltb bound j)) =
        λ j. member-up_to 0 bound c.dirty_pages j a.sorted in
      let (c1, ran, index, lists, size1, expect) =
        invalidate_pages-Gives ks c (λ j m. there j (ground (arith, above j)))
          (omega (arith, length-upper_bound bound c.dirty_pages, enough)) word in
      let a1 =
        unlisted-Accounted c c1 held a ks low invalidated (λ p. refl) (λ p. refl) (λ p. refl) index
          lists (λ j m. ground (arith, above j)) (λ j. ground (arith, above j, below j))
          (up_to-ascends 0 bound c.dirty_pages a.sorted) in
      let (c2, ended, a2, index2, size2, expect2, dirties) =
        end_handles-Accounted 0 ks (record c1 { dirty_pages = low }) held
          (upper_bound-ascends 0 bound c.dirty_pages a.sorted) room a1 in
      (
        c2,
        rw ran ended,
        a2,
        λ j. ground (arith, index2 j, index j),
        λ j. rw dirties (below j),
        omega (arith, size1, size2),
      )

  -- After a write back the pages of the map are clean, keep content and state, and lose the map's
  -- reference; the map is empty.
  pub clear_dirty_pages-Accounted :
      (c' : PageCache) × (clear_dirty_pages c ≡ some c')
      × Accounted c' held
      × ((j : ℕ)
          → c'.manager.index j
            ≡ on_keys c.dirty_pages (λ p. released (cleaned p)) c.manager.index j)
      × (c'.dirty_pages ≡ [])
      × (c'.cur_size ≡ c.cur_size)
  unfolding clear_dirty_pages
  clear_dirty_pages-Accounted =
      let ks = c.dirty_pages in
      let (c1, ran, index, lists, size1, expect) = clean_pages-Gives ks c there in
      let a1 =
        unlisted-Accounted c c1 held a ks [] cleaned (λ p. refl) (λ p. refl) (λ p. refl) index lists
          (λ j m. m) (λ j. ground arith) refl in
      let (c2, ended, a2, index2, size2, expect2, dirties) =
        end_handles-Accounted 0 ks (record c1 { dirty_pages = [] }) held a.sorted room a1 in
      (
        c2,
        rw ran ended,
        a2,
        λ j. ground (arith, index2 j, index j),
        dirties,
        ground (arith, size1, size2),
      )
