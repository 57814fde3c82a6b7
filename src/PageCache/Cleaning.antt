-- ===== src/PageCache/Cleaning.antt =====
-- The pages that leave the map of the dirty pages: `truncate` and `clear_dirty_pages`.
use hscfs.Base.{
  ℕ, ◌+◌, ◌-◌, ◌^◌, ◌<◌, ◌≤◌, ◌≡◌, ◌≢◌, inl, inr, refl, true, false, not, ◌&&◌, List, [], ◌∷◌,
  Option, none, some, if◌then◌else◌, put, nat_key, arith, Option-cases, pred64, length,
}
use hscfs.PageCache.{
  PageCache, PageEntry, invalid, set_entry, member, end_handles, invalidate_pages, clean_pages,
}
use hscfs.PageCache.Invariant.{IsValid}
use hscfs.PageCache.Counting.{with_count}
use hscfs.PageCache.Accounting.{Accounted, bit, ascends, sub_refcount-Accounted}

-- Which entries change, and how.
abbrev pub on_keys :
    List ℕ → (PageEntry → PageEntry) → (ℕ → Option PageEntry) → ℕ → Option PageEntry
on_keys ks edit index j =
    if member j ks then (elim (index j) [ none ↦ none | some p ↦ some (edit p) ]) else index j

abbrev pub released : PageEntry → PageEntry
released p = with_count p (p.ref_count - 1)

abbrev pub invalidated : PageEntry → PageEntry
invalidated p = record p { is_dirty = false; content_state = invalid }

abbrev pub cleaned : PageEntry → PageEntry
cleaned p = record p { is_dirty = false }

pub not-member-ascends : (k b : ℕ) (ks : List ℕ) → ascends b ks ≡ true → k < b → member k ks ≡ false
not-member-ascends k b [] h below = refl
not-member-ascends k b (x ∷ xs) h below =
    ground (arith, not-member-ascends k (x + 1) xs (ground arith) (ground arith))

pub Accounted-cong :
    (c : PageCache) (f g : ℕ → ℕ) → ((j : ℕ) → f j ≡ g j) → Accounted c f → Accounted c g
Accounted-cong c f g same a = record {
  valid = a.valid;
  counts = λ k p e. ground (arith, same k, a.counts k p e);
  listed = a.listed;
  absent = λ k e. ground (arith, same k, a.absent k e);
  sorted = a.sorted;
}

pub end_handles-Accounted :
    (b : ℕ) (ks : List ℕ) (c : PageCache) (held : ℕ → ℕ)
    → ascends b ks ≡ true
    → ((j : ℕ) → held j + 2 < 2 ^ 32)
    → Accounted c (λ j. held j + bit (member j ks))
    → (c' : PageCache) × (end_handles ks c ≡ some c')
      × Accounted c' held
      × ((j : ℕ) → c'.manager.index j ≡ on_keys ks released c.manager.index j)
      × (c'.cur_size ≡ c.cur_size)
      × (c'.expect_size ≡ c.expect_size)
      × (c'.dirty_pages ≡ c.dirty_pages)
unfolding end_handles
end_handles-Accounted b [] c held h room a = (
  c,
  refl,
  Accounted-cong c (λ j. held j + 0) held (λ j. omega arith) a,
  λ j. refl,
  refl,
  refl,
  refl,
)
end_handles-Accounted b (k ∷ ks) c held h room a =
    let owed : ℕ → ℕ = λ j. held j + bit (member j (k ∷ ks)) in
    let once : member k ks ≡ false = not-member-ascends k (k + 1) ks (ground arith) (omega arith) in
    elim (Option-cases (c.manager.index k)) [
      | inl gone ↦ absurd (ground (arith, a.absent k gone))
      | inr (p, cached) ↦
          let (c1, ran, a1, index1, size1, expect1, dirties1) =
            sub_refcount-Accounted c owed a k p cached (ground arith) (ground (arith, room k)) in
          let (c2, rest, a2, index2, size2, expect2, dirties2) =
            end_handles-Accounted (k + 1) ks c1 held (ground arith) room (
              Accounted-cong c1 (put owed k (owed k - 1)) (λ j. held j + bit (member j ks))
                (λ j. ground (arith, once)) a1) in
          (
            c2,
            ground (arith, ran, rest),
            a2,
            λ j. ground (arith, index2 j, index1 j, once),
            ground (arith, size1, size2),
            ground (arith, expect1, expect2),
            ground (arith, dirties1, dirties2),
          )
    ]

-- What the two loops over the pages do.
pub invalidate_pages-Gives :
    (ks : List ℕ) (c : PageCache)
    → ((j : ℕ) → member j ks ≡ true → c.manager.index j ≢ none)
    → length ks ≤ c.cur_size
    → c.cur_size < 2 ^ 64
    → (c' : PageCache) × (invalidate_pages ks c ≡ some c')
      × ((j : ℕ) → c'.manager.index j ≡ on_keys ks invalidated c.manager.index j)
      × (c'.manager.replacer ≡ c.manager.replacer)
      × (c'.cur_size + length ks ≡ c.cur_size)
      × (c'.expect_size ≡ c.expect_size)
unfolding invalidate_pages
invalidate_pages-Gives [] c there sum word = (c, refl, λ j. refl, refl, omega arith, refl)
invalidate_pages-Gives (k ∷ ks) c there sum word = elim (Option-cases (c.manager.index k)) [
  | inl gone ↦ absurd (there k (ground arith) gone)
  | inr (p, cached) ↦
      let less : pred64 c.cur_size ≡ c.cur_size - 1 = omega (arith, sum, word) in
      let c1 : PageCache = record (set_entry c k (invalidated p)) {
        cur_size = pred64 c.cur_size;
      } in
      let (c2, ran, index, lists, size2, expect) =
        invalidate_pages-Gives ks c1 (λ j m. ground (arith, there j)) (omega (arith, sum, less))
          (omega (arith, less)) in
      (
        c2,
        rw cached ran,
        λ j. ground (arith, index j, cached),
        lists,
        omega (arith, size2, less, sum),
        expect,
      )
]

pub clean_pages-Gives :
    (ks : List ℕ) (c : PageCache)
    → ((j : ℕ) → member j ks ≡ true → c.manager.index j ≢ none)
    → (c' : PageCache) × (clean_pages ks c ≡ some c')
      × ((j : ℕ) → c'.manager.index j ≡ on_keys ks cleaned c.manager.index j)
      × (c'.manager.replacer ≡ c.manager.replacer)
      × (c'.cur_size ≡ c.cur_size)
      × (c'.expect_size ≡ c.expect_size)
unfolding clean_pages
clean_pages-Gives [] c there = (c, refl, λ j. refl, refl, refl, refl)
clean_pages-Gives (k ∷ ks) c there = elim (Option-cases (c.manager.index k)) [
  | inl gone ↦ absurd (there k (ground arith) gone)
  | inr (p, cached) ↦
      let (c2, ran, index, lists, size2, expect) =
        clean_pages-Gives ks (set_entry c k (cleaned p)) (λ j m. ground (arith, there j)) in
      (c2, rw cached ran, λ j. ground (arith, index j, cached), lists, size2, expect)
]

-- The marks of `ks` are gone and the map keeps the rest: the map's references of `ks` are owed.
module _ (c c1 : PageCache) (held : ℕ → ℕ) (a : Accounted c held) (ks rest : List ℕ)
    (edit : PageEntry → PageEntry) (key : (p : PageEntry) → (edit p).blkoff ≡ p.blkoff)
    (count : (p : PageEntry) → (edit p).ref_count ≡ p.ref_count)
    (clean : (p : PageEntry) → (edit p).is_dirty ≡ false)
    (index : (j : ℕ) → c1.manager.index j ≡ on_keys ks edit c.manager.index j)
    (lists : c1.manager.replacer ≡ c.manager.replacer)
    (listed : (j : ℕ) → member j ks ≡ true → member j c.dirty_pages ≡ true)
    (kept : (j : ℕ) → member j rest ≡ (member j c.dirty_pages && not (member j ks)))
    (sorted : ascends 0 rest ≡ true) where
  was :
      (k : ℕ) (q : PageEntry)
      → c1.manager.index k ≡ some q
      → (p : PageEntry) × (c.manager.index k ≡ some p) × (q ≡ (if member k ks then edit p else p))
  was k q e = elim (Option-cases (c.manager.index k)) [
    | inl gone ↦ absurd (ground (arith, index k))
    | inr (p, cached) ↦ (p, cached, ground (arith, index k))
  ]

  unlisted-IsValid : IsValid (record c1 { dirty_pages = rest })
  unlisted-IsValid = record {
    manager = record {
      lists = rw lists a.valid.manager.lists;
      domain = λ j. rw lists (elim (Option-cases (c.manager.index j)) [
        | inl gone ↦ ground (arith, index j, a.valid.manager.domain j)
        | inr (p, cached) ↦ ground (arith, index j, a.valid.manager.domain j)
      ]);
    };
    keyed = λ k q e.
        let (p, cached, from) = was k q e in ground (arith, from, a.valid.keyed k p cached, key p);
    pinned = λ k q e.
        let (p, cached, from) = was k q e in
        rw lists (ground (arith, from, a.valid.pinned k p cached, count p));
    dirty = λ k q e.
        let (p, cached, from) = was k q e in
        ground (arith, from, a.valid.dirty k p cached, clean p);
  }

  pub unlisted-Accounted :
      Accounted (record c1 { dirty_pages = rest }) (λ j. held j + bit (member j ks))
  unlisted-Accounted = record {
    valid = unlisted-IsValid;
    counts = λ k q e.
        let (p, cached, from) = was k q e in
        ground (arith, from, a.counts k p cached, a.listed k p cached, listed k, count p, clean p);
    listed = λ k q e.
        let (p, cached, from) = was k q e in
        ground (arith, from, a.listed k p cached, kept k, listed k, clean p);
    absent = λ k e. elim (Option-cases (c.manager.index k)) [
      | inl gone ↦ ground (arith, a.absent k gone, kept k, listed k)
      | inr (p, cached) ↦ absurd (ground (arith, index k))
    ];
    sorted = sorted;
  }
