-- ===== src/PageCache/Invariant.antt =====
-- The invariant of the page cache: a page is pinned exactly while it is referred to, and a dirty page is
-- referred to.
use hscfs.Base.{
  ℕ, zero, suc, ◌<◌, ◌≤◌, ◌≡◌, ◌≢◌, ◌⊎◌, inl, inr, refl, true, false, not, none, some, ltb, leb,
  ◌==◌, if◌then◌else◌, put, nat_key, arith, Bool-cases, pred64,
}
use hscfs.Lru.Size.{size}
use hscfs.CacheManager
use hscfs.CacheManager.{CacheManager}
use hscfs.CacheManager.Invariant
use hscfs.PageCache.{PageCache, PageEntry, replace_loop, do_replace}

pub record IsValid (c : PageCache) : Type 0 where
  pub manager : Invariant.IsConsistent c.manager
  pub keyed : (k : ℕ) (p : PageEntry) → c.manager.index k ≡ some p → p.blkoff ≡ k
  pub pinned :
      (k : ℕ) (p : PageEntry)
      → c.manager.index k ≡ some p
      → c.manager.replacer.key_states k ≡ some (not (p.ref_count == 0))
  pub dirty :
      (k : ℕ) (p : PageEntry) → c.manager.index k ≡ some p → p.is_dirty ≡ true → 0 < p.ref_count

-- No page is new, and none that is referred to is lost.
pub record Keeps (c c' : PageCache) : Type 0 where
  pub valid : IsValid c'
  pub old : (j : ℕ) → (c'.manager.index j ≡ c.manager.index j) ⊎ (c'.manager.index j ≡ none)
  pub referred :
      (j : ℕ) (p : PageEntry)
      → c.manager.index j ≡ some p
      → p.ref_count ≢ 0
      → c'.manager.index j ≡ some p
  pub dirty_pages : c'.dirty_pages ≡ c.dirty_pages
  pub expect : c'.expect_size ≡ c.expect_size
  pub fewer : c'.cur_size ≤ c.cur_size

module _ (c : PageCache) (v : IsValid c) (key : ℕ) (m : CacheManager ℕ PageEntry)
    (victim : PageEntry) (cached : c.manager.index key ≡ some victim)
    (free : c.manager.replacer.key_states key ≡ some false)
    (index : (j : ℕ) → m.index j ≡ put c.manager.index key none j)
    (states : (j : ℕ) → m.replacer.key_states j ≡ put c.manager.replacer.key_states key none j)
    (consistent : Invariant.IsConsistent m) where
  pub victim_unused : (victim.ref_count ≡ 0) × (victim.is_dirty ≡ false)
  victim_unused =
      (ground (arith, v.pinned key victim), ground (arith, v.pinned key victim, v.dirty key victim))

  pub evicted-Keeps : (n : ℕ) → n ≤ c.cur_size → Keeps c (record c { manager = m; cur_size = n })
  evicted-Keeps n h = record {
    valid = record {
      manager = consistent;
      keyed = λ k p h. v.keyed k p (ground (arith, index k));
      pinned = λ k p h. ground (arith, states k, index k, v.pinned k p);
      dirty = λ k p h. v.dirty k p (ground (arith, index k));
    };
    old = λ j. ground (arith, index j);
    referred = λ j p h ne. ground (arith, index j, victim_unused.0);
    dirty_pages = refl;
    expect = refl;
    fewer = h;
  }

Keeps-refl : (c : PageCache) → IsValid c → Keeps c c
Keeps-refl c v = record {
  valid = v;
  old = λ j. inl refl;
  referred = λ j p h ne. h;
  dirty_pages = refl;
  expect = refl;
  fewer = omega arith;
}

Keeps-trans : {a b c : PageCache} → Keeps a b → Keeps b c → Keeps a c
Keeps-trans f g = record {
  valid = g.valid;
  old = λ j. ground (arith, f.old j, g.old j);
  referred = λ j p h ne. g.referred j p (f.referred j p h ne) ne;
  dirty_pages = ground (arith, f.dirty_pages, g.dirty_pages);
  expect = ground (arith, f.expect, g.expect);
  fewer = omega (arith, f.fewer, g.fewer);
}

loop_ends :
    (fuel : ℕ) (c : PageCache)
    → CacheManager.replace_one c.manager ≡ some (none, c.manager)
    → replace_loop (suc fuel) c ≡ some c
unfolding replace_loop
loop_ends fuel c h = ground arith

loop_goes_on :
    (fuel : ℕ) (c : PageCache) (p : PageEntry) (m : CacheManager ℕ PageEntry)
    → CacheManager.replace_one c.manager ≡ some (some p, m)
    → p.ref_count ≡ 0
    → p.is_dirty ≡ false
    → replace_loop (suc fuel) c ≡ (
        if leb (pred64 c.cur_size) c.expect_size
        then some (record c { manager = m; cur_size = pred64 c.cur_size })
        else replace_loop fuel (record c { manager = m; cur_size = pred64 c.cur_size }))
unfolding replace_loop
loop_goes_on fuel c p m h z d = rw (h, replace_loop) (ground arith)

replace_loop-Keeps :
    (fuel : ℕ) (c : PageCache)
    → IsValid c
    → c.expect_size < c.cur_size
    → size c.manager.replacer < fuel
    → (c' : PageCache) × (replace_loop fuel c ≡ some c') × Keeps c c'
replace_loop-Keeps zero c v over h = absurd (omega arith)
replace_loop-Keeps (suc fuel) c v over h = elim (Invariant.replace_one-cases c.manager v.manager) [
  | inl (replaced, pinned) ↦ (c, loop_ends fuel c replaced, Keeps-refl c v)
  | inr (key, p, m, replaced, cached, free, index, states, consistent, sized) ↦
      let c1 : PageCache = record c { manager = m; cur_size = pred64 c.cur_size } in
      let k1 =
        evicted-Keeps c v key m p cached free index states consistent (pred64 c.cur_size)
          (omega (arith, over)) in
      let (z, d) = victim_unused c v key m p cached free index states consistent in
      let next = loop_goes_on fuel c p m replaced z d in
      elim (Bool-cases (leb (pred64 c.cur_size) c.expect_size)) [
        | inl enough ↦ (c1, ground arith, k1)
        | inr more ↦
            let (c2, ran, k2) =
              replace_loop-Keeps fuel c1 k1.valid (ground (arith, more)) (omega arith) in
            (c2, ground arith, Keeps-trans k1 k2)
      ]
]

pub do_replace-Keeps :
    (c : PageCache) → IsValid c → (c' : PageCache) × (do_replace c ≡ some c') × Keeps c c'
unfolding do_replace
do_replace-Keeps c v = elim (Bool-cases (ltb c.expect_size c.cur_size)) [
  | inl over ↦
      let (c', ran, keeps) =
        replace_loop-Keeps (suc (size c.manager.replacer)) c v (ground (arith, over))
          (omega arith) in
      (c', ground arith, keeps)
  | inr within ↦ (c, ground arith, Keeps-refl c v)
]
