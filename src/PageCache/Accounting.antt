-- ===== src/PageCache/Accounting.antt =====
-- Who holds the references of a page: the handles that are outside the cache and, for a dirty page, the
-- map of the dirty pages. `held` is the number of the handles by key.

use hscfs.Base.{
  ℕ, ◌+◌, ◌-◌, ◌^◌, ◌<◌, ◌≤◌, ◌≡◌, inl, inr, refl, subst, Bool, true, false, ◌&&◌, List, [], ◌∷◌,
  none, some, ltb, leb, ◌==◌, if◌then◌else◌, put, nat_key, arith, Bool-cases, Option-cases,
}
use hscfs.CacheManager
use hscfs.CacheManager.Invariant as Manager
use hscfs.PageCache
use hscfs.PageCache.{
  PageCache, PageEntry, PageState, get, set_entry, sub_refcount, add_refcount, add_to_dirty_pages,
  mark_dirty, member, insert_sorted,
}
use hscfs.PageCache.Invariant.{IsValid}
use hscfs.PageCache.Counting.{with_count, add_refcount-Adds}
use hscfs.PageCache.Misses.{Gets}
use hscfs.PageCache.Lookup.{get-Gets}
use hscfs.PageCache.Release.{sub_refcount-Drops, set_entry-IsValid}

abbrev pub bit : Bool → ℕ
bit b = if b then 1 else 0

-- The keys of the map ascend from `b` on.
abbrev pub ascends : ℕ → List ℕ → Bool
ascends b [] = true
ascends b (x ∷ xs) = leb b x && ascends (x + 1) xs

pub record Accounted (c : PageCache) (held : ℕ → ℕ) : Type 0 where
  pub valid : IsValid c
  pub counts :
      (k : ℕ) (p : PageEntry) → c.manager.index k ≡ some p → p.ref_count ≡ held k + bit p.is_dirty
  pub listed :
      (k : ℕ) (p : PageEntry) → c.manager.index k ≡ some p → member k c.dirty_pages ≡ p.is_dirty
  pub absent : (k : ℕ) → c.manager.index k ≡ none → (held k ≡ 0) × (member k c.dirty_pages ≡ false)
  pub sorted : ascends 0 c.dirty_pages ≡ true

member-insert_sorted :
    (j k : ℕ) (xs : List ℕ) → member j (insert_sorted k xs) ≡ (if k == j then true else member j xs)
unfolding insert_sorted
member-insert_sorted j k [] = refl
member-insert_sorted j k (x ∷ xs) = ground (arith, member-insert_sorted j k xs)

insert_sorted-ascends :
    (b k : ℕ) (xs : List ℕ)
    → ascends b xs ≡ true
    → b ≤ k
    → member k xs ≡ false
    → ascends b (insert_sorted k xs) ≡ true
unfolding insert_sorted
insert_sorted-ascends b k [] h below new = ground arith
insert_sorted-ascends b k (x ∷ xs) h below new = elim (Bool-cases (ltb k x)) [
  | inl before ↦ ground arith
  | inr after ↦
      let ih = insert_sorted-ascends (x + 1) k xs (ground arith) (ground arith) (ground arith) in
      ground (arith, ih)
]

module _ (c : PageCache) (held : ℕ → ℕ) (a : Accounted c held) (k : ℕ) where
  -- A lookup adds a handle of the page; it needs room for the handle and for a dirty mark in the page's
  -- count, and room in the size.
  pub get-Accounted :
      held k + 2 < 2 ^ 32
      → c.cur_size + 1 < 2 ^ 64
      → (c' : PageCache) × (p : PageEntry) × (get c k ≡ some c')
        × Gets c c' k p
        × Accounted c' (put held k (held k + 1))
  get-Accounted room small =
      let (c', p, ran, g) = get-Gets c k a.valid (λ p e. ground (arith, a.counts k p e)) small in
      (
        c',
        p,
        ran,
        g,
        record {
          valid = g.valid;
          counts = λ j q e. elim (Bool-cases (k == j)) [
            | inl same ↦ elim (Option-cases (c.manager.index k)) [
              | inl new ↦ ground (arith, g.cached, g.miss new, a.absent k new)
              | inr (old, hit) ↦ ground (arith, g.cached, g.hit old hit, a.counts k old hit)
            ]
            | inr other ↦ ground (arith, g.old j (λ e. ground arith), a.counts j q)
          ];
          listed = λ j q e. rw g.dirty_pages (elim (Bool-cases (k == j)) [
            | inl same ↦ elim (Option-cases (c.manager.index k)) [
              | inl new ↦ ground (arith, g.cached, g.miss new, a.absent k new)
              | inr (old, hit) ↦ ground (arith, g.cached, g.hit old hit, a.listed k old hit)
            ]
            | inr other ↦ ground (arith, g.old j (λ e. ground arith), a.listed j q)
          ]);
          absent = λ j gone. elim (Bool-cases (k == j)) [
            | inl same ↦ absurd (ground (arith, g.cached))
            | inr other ↦ elim (Option-cases (c.manager.index j)) [
              | inl none_before ↦ ground (arith, a.absent j none_before, g.dirty_pages)
              | inr (old, hit) ↦ ground (
                arith,
                g.referred j old (λ e. ground arith) hit,
                a.counts j old hit,
                a.listed j old hit,
                g.dirty_pages,
              )
            ]
          ];
          sorted = rw g.dirty_pages a.sorted;
        },
      )

  module _ (p : PageEntry) (cached : c.manager.index k ≡ some p) where
    -- A handle that ends.
    pub sub_refcount-Accounted :
        0 < held k
        → held k + 1 < 2 ^ 32
        → (c' : PageCache) × (sub_refcount c k ≡ some c')
          × Accounted c' (put held k (held k - 1))
          × ((j : ℕ)
              → c'.manager.index j
                ≡ put c.manager.index k (some (with_count p (p.ref_count - 1))) j)
          × (c'.cur_size ≡ c.cur_size)
          × (c'.expect_size ≡ c.expect_size)
          × (c'.dirty_pages ≡ c.dirty_pages)
    sub_refcount-Accounted h room =
        let count = a.counts k p cached in
        let (c', ran, valid, index, size', expect, dirties) =
          sub_refcount-Drops c k p a.valid cached (ground (arith, count)) (ground (arith, count))
            (λ e. ground (arith, count)) in
        (
          c',
          ran,
          record {
            valid = valid;
            counts = λ j q e. ground (arith, index j, a.counts j q, count);
            listed =
                λ j q e. rw dirties (ground (arith, index j, a.listed j q, a.listed k p cached));
            absent = λ j gone. rw dirties (ground (arith, index j, a.absent j));
            sorted = rw dirties a.sorted;
          },
          index,
          size',
          expect,
          dirties,
        )

    -- Another content, state or address.
    pub set_entry-Accounted :
        (q : PageEntry)
        → q.blkoff ≡ p.blkoff
        → q.ref_count ≡ p.ref_count
        → q.is_dirty ≡ p.is_dirty
        → Accounted (set_entry c k q) held
    set_entry-Accounted q key count mark = record {
      valid =
          set_entry-IsValid c k p a.valid cached q key count
            (λ e. a.valid.dirty k p cached (ground arith));
      counts = λ j r e. ground (arith, a.counts j r, a.counts k p cached);
      listed = λ j r e. ground (arith, a.listed j r, a.listed k p cached);
      absent = λ j gone. ground (arith, a.absent j);
      sorted = a.sorted;
    }

    abbrev pub marked : PageEntry
    marked = record p { is_dirty = true; ref_count = held k + 1 }

    -- The first dirty mark: the map takes a reference.
    first_mark :
        p.is_dirty ≡ false
        → 0 < held k
        → held k + 2 < 2 ^ 32
        → (c' : PageCache) × (mark_dirty c k ≡ some c')
          × Accounted c' held
          × ((j : ℕ) → c'.manager.index j ≡ put c.manager.index k (some marked) j)
          × (c'.cur_size ≡ c.cur_size)
          × (c'.expect_size ≡ c.expect_size)
    unfolding mark_dirty add_to_dirty_pages
    first_mark clean h room =
        let count = a.counts k p cached in
        let sum : p.ref_count ≡ held k = ground (arith, count, clean) in
        let q : PageEntry = record p { is_dirty = true } in
        let c1 : PageCache = set_entry c k q in
        let v1 : IsValid c1 =
          set_entry-IsValid c k p a.valid cached q refl refl (λ e. ground (arith, count)) in
        let (c2, ran, valid, index, size', expect, dirties) =
          add_refcount-Adds c1 k q v1 (ground arith) (ground (arith, count, clean)) in
        let key = a.valid.keyed k p cached in
        let fresh : member k c.dirty_pages ≡ false = ground (arith, a.listed k p cached) in
        (
          record c2 { dirty_pages = insert_sorted k c2.dirty_pages },
          rw (cached, mark_dirty, add_to_dirty_pages)
              (ground (arith, clean, ran, key, fresh, count)),
          record {
            valid = record {
              manager = valid.manager;
              keyed = valid.keyed;
              pinned = valid.pinned;
              dirty = valid.dirty;
            };
            counts = λ j r e. ground (arith, index j, a.counts j r, count, clean);
            listed = λ j r e.
                rw dirties
                  (ground (arith, index j, member-insert_sorted j k c.dirty_pages, a.listed j r));
            absent = λ j gone.
                rw dirties
                  (ground (arith, index j, member-insert_sorted j k c.dirty_pages, a.absent j));
            sorted =
                rw dirties (insert_sorted-ascends 0 k c.dirty_pages a.sorted (omega arith) fresh);
          },
          λ j.
              subst
                (λ n. c2.manager.index j ≡ put c.manager.index k (some (with_count q (n + 1))) j)
                sum (ground (arith, index j)),
          size',
          expect,
        )

    -- Who has a handle can mark the page dirty: it is in the map of the dirty pages then, once, with one
    -- reference for the map.
    pub mark_dirty-Accounted :
        0 < held k
        → held k + 2 < 2 ^ 32
        → (c' : PageCache) × (mark_dirty c k ≡ some c')
          × Accounted c' held
          × ((j : ℕ) → c'.manager.index j ≡ put c.manager.index k (some marked) j)
          × (c'.cur_size ≡ c.cur_size)
          × (c'.expect_size ≡ c.expect_size)
    unfolding mark_dirty
    mark_dirty-Accounted h room = elim (Bool-cases p.is_dirty) [
      | inr clean ↦ first_mark clean h room
      | inl dirty ↦ (
        c,
        rw (cached, mark_dirty) (ground arith),
        a,
        λ j. ground (arith, a.counts k p cached),
        refl,
        refl,
      )
    ]

pub create-Accounted : (expect_size : ℕ) → Accounted (PageCache.create expect_size) (λ j. 0)
unfolding PageCache.create CacheManager.empty
create-Accounted expect_size = record {
  valid = record {
    manager = Manager.empty-IsConsistent;
    keyed = λ k p e. absurd (ground arith);
    pinned = λ k p e. absurd (ground arith);
    dirty = λ k p e. absurd (ground arith);
  };
  counts = λ k p e. absurd (ground arith);
  listed = λ k p e. absurd (ground arith);
  absent = λ k e. (refl, refl);
  sorted = refl;
}
