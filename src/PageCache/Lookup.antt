-- ===== src/PageCache/Lookup.antt =====
-- The lookup of a page: on a valid cache it always gives a page, by a hit, a new entry or the reuse of a
-- page that is not referred to.
use hscfs.Base.{
  ℕ, ◌+◌, ◌^◌, ◌<◌, ◌≡◌, inl, inr, refl, true, none, some, leb, nat_key, arith, Bool-cases,
  Option-cases,
}
use hscfs.CacheManager.{CacheManager}
use hscfs.CacheManager.Invariant as Manager
use hscfs.PageCache.{PageCache, PageEntry, invalid, new_entry, get_miss, get, add_refcount}
use hscfs.PageCache.Invariant.{IsValid, victim_unused, evicted-Keeps}
use hscfs.PageCache.Counting.{with_count, add_refcount-Adds}
use hscfs.PageCache.Misses.{Gets, add_new-Gets, reuse-Gets}

module _ (c : PageCache) (m : CacheManager ℕ PageEntry)
    (index : (j : ℕ) → m.index j ≡ c.manager.index j)
    (states : (j : ℕ) → m.replacer.key_states j ≡ c.manager.replacer.key_states j)
    (consistent : Manager.IsConsistent m) where
  touched-IsValid : IsValid c → IsValid (record c { manager = m })
  touched-IsValid v = record {
    manager = consistent;
    keyed = λ k p h. v.keyed k p (ground (arith, index k));
    pinned = λ k p h. ground (arith, states k, index k, v.pinned k p);
    dirty = λ k p h. v.dirty k p (ground (arith, index k));
  }

  touched-Gets :
      {c' : PageCache} {k : ℕ} {p : PageEntry}
      → Gets (record c { manager = m }) c' k p
      → Gets c c' k p
  touched-Gets {c'} {k} {p} g = record {
    valid = g.valid;
    cached = g.cached;
    hit = λ q e. g.hit q (ground (arith, index k));
    miss = λ e. g.miss (ground (arith, index k));
    old = λ j ne. ground (arith, g.old j ne, index j);
    referred = λ j q ne e r. g.referred j q ne (ground (arith, index j)) r;
    dirty_pages = g.dirty_pages;
    expect = g.expect;
    grown = g.grown;
    roomy = λ room. (
      λ j ne. ground (arith, (g.roomy room).0 j ne, index j),
      λ e. (g.roomy room).1 (ground (arith, index k)),
    );
  }

hit-Gets :
    (c : PageCache) (k : ℕ) (p : PageEntry)
    → IsValid c
    → c.manager.index k ≡ some p
    → p.ref_count + 1 < 2 ^ 32
    → (c' : PageCache) × (add_refcount c k ≡ some c') × Gets c c' k (with_count p (p.ref_count + 1))
hit-Gets c k p v cached room =
    let (c', ran, valid, index, size', expect, dirties) = add_refcount-Adds c k p v cached room in
    (
      c',
      ran,
      record {
        valid = valid;
        cached = ground (arith, index k);
        hit = λ q e. ground arith;
        miss = λ e. absurd (ground arith);
        old = λ j ne. ground (arith, index j);
        referred = λ j q ne e r. ground (arith, index j);
        dirty_pages = dirties;
        expect = expect;
        roomy = λ h. (λ j ne. ground (arith, index j), λ e. absurd (ground arith));
        grown = omega (arith, size');
      },
    )

get_miss-Gets :
    (c : PageCache) (k : ℕ)
    → IsValid c
    → c.manager.index k ≡ none
    → c.cur_size + 1 < 2 ^ 64
    → (c' : PageCache) × (p : PageEntry) × (get_miss c k ≡ some c') × Gets c c' k p
unfolding get_miss
get_miss-Gets c k v absent small = elim (Bool-cases (leb c.expect_size c.cur_size)) [
  | inr below ↦
      let (c', ran, gets) = add_new-Gets c k v absent small in
      (c', with_count (new_entry k) 1, ground (arith, ran), gets)
  | inl full ↦ elim (Manager.replace_one-cases c.manager v.manager) [
    | inl (replaced, pinned) ↦
        let (c', ran, gets) = add_new-Gets c k v absent small in
        (c', with_count (new_entry k) 1, ground (arith, replaced, ran), gets)
    | inr (key, victim, m, replaced, cached, free, index, states, consistent, sized) ↦
        let unused = victim_unused c v key m victim cached free index states consistent in
        let keeps =
          evicted-Keeps c v key m victim cached free index states consistent c.cur_size
            (omega arith) in
        let (c', ran, valid, cached', old, referred, dirties, expect, grown) =
          reuse-Gets (record c { manager = m }) k keeps.valid (ground (arith, index k)) victim
            unused.0 unused.1 in
        (
          c',
          record victim { blkoff = k; content_state = invalid; ref_count = 1 },
          ground (arith, replaced, ran),
          record {
            valid = valid;
            cached = cached';
            hit = λ q e. absurd (ground arith);
            miss = λ e. (refl, unused.1, refl);
            old = λ j ne. ground (arith, old j ne, index j);
            referred = λ j q ne e r. referred j q ne (keeps.referred j q e r) r;
            dirty_pages = dirties;
            expect = expect;
            grown = grown;
            roomy = λ room. absurd (ground (arith, room, full));
          },
        )
  ]
]

-- On a valid cache a lookup succeeds: page `k` is cached and referred to once more, a page that was
-- cached keeps its content and state, a new one is invalid and clean, no page that is referred to is
-- lost, and below the expected size no page leaves the cache and a new one is zeroed. The counts must
-- have room in their words.
pub get-Gets :
    (c : PageCache) (k : ℕ)
    → IsValid c
    → ((p : PageEntry) → c.manager.index k ≡ some p → p.ref_count + 1 < 2 ^ 32)
    → c.cur_size + 1 < 2 ^ 64
    → (c' : PageCache) × (p : PageEntry) × (get c k ≡ some c') × Gets c c' k p
unfolding get
get-Gets c k v counts small =
    let (m, ran, index, states, consistent, sized) = Manager.get-Gives c.manager v.manager k true in
    let v1 = touched-IsValid c m index states consistent v in
    elim (Option-cases (c.manager.index k)) [
      | inl absent ↦
          let (c', p, missed, gets) =
            get_miss-Gets (record c { manager = m }) k v1 (ground (arith, index k)) small in
          (c', p, ground (arith, ran, missed), touched-Gets c m index states consistent gets)
      | inr (p, cached) ↦
          let (c', added, gets) =
            hit-Gets (record c { manager = m }) k p v1 (ground (arith, index k))
              (counts p cached) in
          (
            c',
            with_count p (p.ref_count + 1),
            ground (arith, ran, added),
            touched-Gets c m index states consistent gets,
          )
    ]
