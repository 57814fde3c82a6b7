-- ===== src/File/Coherence.antt =====
-- The bytes of a file as the page cache and the device hold them together, and the invariant under
-- which the cache may load and drop pages.
use hscfs.Base.{
  ℕ, ◌+◌, ◌-◌, ◌^◌, ◌<◌, ◌≤◌, ◌≡◌, ◌≢◌, ◌⊎◌, inl, inr, refl, true, false, Option, none, some, ◌==◌,
  if◌then◌else◌, put, nat_key, arith, Bool-cases, Option-cases,
}
use hscfs.Base.Outcome.{done}
use hscfs.Fs.{invalid_lpa}
use hscfs.CacheManager
use hscfs.PageCache
use hscfs.PageCache.{
  PageCache, PageEntry, PageState, Page, zero_page, invalid, ready, set_entry, sub_refcount,
}
use hscfs.PageCache.Counting.{with_count}
use hscfs.PageCache.Accounting.{
  Accounted, create-Accounted, get-Accounted, sub_refcount-Accounted, set_entry-Accounted,
}
use hscfs.File.{is_ready, lpa_of, prepare_page_content}

module _ (size_in_inode : ℕ) (addr : ℕ → ℕ) (device : ℕ → Option Page) where
  -- A block without an address is zero.
  abbrev pub base : ℕ → Page
  base b =
      if lpa_of size_in_inode addr device b == invalid_lpa
      then zero_page
      else (elim (device (lpa_of size_in_inode addr device b)) [
        | none ↦ zero_page
        | some data_read ↦ data_read
      ])

  abbrev pub seen : Option PageEntry → Page → Page
  seen none below = below
  seen (some p) below = if is_ready p.content_state then p.page else below

  -- The content of a block of the file.
  abbrev pub view : PageCache → ℕ → Page
  view c b = seen (c.manager.index b) (base b)

  pub record Coherent (c : PageCache) (held : ℕ → ℕ) : Type 0 where
    pub accounted : Accounted c held
    -- What is not dirty is as on the device.
    pub clean :
        (k : ℕ) (p : PageEntry)
        → c.manager.index k ≡ some p
        → is_ready p.content_state ≡ true
        → p.is_dirty ≡ false
        → p.page ≡ base k
    -- An invalid page of a hole has a zeroed buffer.
    pub blank :
        (k : ℕ) (p : PageEntry)
        → c.manager.index k ≡ some p
        → is_ready p.content_state ≡ false
        → lpa_of size_in_inode addr device k ≡ invalid_lpa
        → p.page ≡ zero_page

  -- Two caches with the same pages but for counts.
  recounted-Coherent :
      (c c' : PageCache) (held held' : ℕ → ℕ) (k : ℕ) (p : PageEntry) (n : ℕ)
      → Coherent c held
      → c.manager.index k ≡ some p
      → Accounted c' held'
      → ((j : ℕ) → c'.manager.index j ≡ put c.manager.index k (some (with_count p n)) j)
      → Coherent c' held' × ((b : ℕ) → view c' b ≡ view c b)
  recounted-Coherent c c' held held' k p n h cached a index = (
    record {
      accounted = a;
      clean = λ j q e r d. ground (arith, index j, h.clean j q, h.clean k p cached);
      blank = λ j q e r z. ground (arith, index j, h.blank j q, h.blank k p cached);
    },
    λ b. ground (arith, index b, cached),
  )

  -- A handle that ends changes no byte of the file.
  pub sub_refcount-Coherent :
      (c : PageCache) (held : ℕ → ℕ) (k : ℕ)
      → Coherent c held
      → 0 < held k
      → held k + 1 < 2 ^ 32
      → (c' : PageCache) × (sub_refcount c k ≡ some c')
        × Coherent c' (put held k (held k - 1))
        × ((b : ℕ) → view c' b ≡ view c b)
        × (c'.cur_size ≡ c.cur_size)
        × (c'.expect_size ≡ c.expect_size)
  sub_refcount-Coherent c held k h some_left room = elim (Option-cases (c.manager.index k)) [
    | inl gone ↦ absurd (omega (arith, (h.accounted.absent k gone).0))
    | inr (p, cached) ↦
        let (c', ran, a, index, size', expect, dirties) =
          sub_refcount-Accounted c held h.accounted k p cached some_left room in
        let (h', same) =
          recounted-Coherent c c' held (put held k (held k - 1)) k p (p.ref_count - 1) h cached a
            index in
        (c', ran, h', same, size', expect)
  ]

  -- Loading block `k` is possible: the device has it, and either it is not a hole or the cache has room
  -- for a new page.
  pub record Loadable (c : PageCache) (k : ℕ) : Type 0 where
    pub readable :
        lpa_of size_in_inode addr device k ≢ invalid_lpa
        → device (lpa_of size_in_inode addr device k) ≢ none
    pub zeroed : (lpa_of size_in_inode addr device k ≢ invalid_lpa) ⊎ (c.cur_size < c.expect_size)

  module _ (c : PageCache) (held : ℕ → ℕ) (k : ℕ) (h : Coherent c held) where
    -- A lookup keeps the bytes of the file; the page is not prepared yet.
    pub get-Coherent :
        held k + 2 < 2 ^ 32
        → c.cur_size + 1 < 2 ^ 64
        → Loadable c k
        → (c1 : PageCache) × (p : PageEntry) × (PageCache.get c k ≡ some c1)
          × (c1.manager.index k ≡ some p)
          × Coherent c1 (put held k (held k + 1))
          × ((b : ℕ) → view c1 b ≡ view c b)
          × (c1.cur_size ≤ c.cur_size + 1)
          × (c1.expect_size ≡ c.expect_size)
    get-Coherent room small l =
        let (c1, p, ran, g, a) = get-Accounted c held h.accounted k room small in
        (
          c1,
          p,
          ran,
          g.cached,
          record {
            accounted = a;
            clean = λ j q e r d. elim (Bool-cases (k == j)) [
              | inl same ↦ elim (Option-cases (c.manager.index k)) [
                | inl new ↦ absurd (ground (arith, g.cached, g.miss new))
                | inr (old, hit) ↦ ground (arith, g.cached, g.hit old hit, h.clean k old hit)
              ]
              | inr other ↦ ground (arith, g.old j (λ e. ground arith), h.clean j q)
            ];
            blank = λ j q e r z. elim (Bool-cases (k == j)) [
              | inl same ↦ elim (Option-cases (c.manager.index k)) [
                | inl new ↦ elim l.zeroed [
                  | inl backed ↦ absurd (ground (arith, backed))
                  | inr roomy ↦ ground (arith, g.cached, (g.roomy roomy).1 new)
                ]
                | inr (old, hit) ↦ ground (arith, g.cached, g.hit old hit, h.blank k old hit)
              ]
              | inr other ↦ ground (arith, g.old j (λ e. ground arith), h.blank j q)
            ];
          },
          λ b. elim (Bool-cases (k == b)) [
            | inl same ↦ elim (Option-cases (c.manager.index k)) [
              | inl new ↦ ground (arith, g.cached, g.miss new)
              | inr (old, hit) ↦ ground (arith, g.cached, g.hit old hit)
            ]
            | inr other ↦ elim (Option-cases (c.manager.index b)) [
              | inl new ↦ ground (arith, g.old b (λ e. ground arith))
              | inr (old, hit) ↦ ground (
                arith,
                g.old b (λ e. ground arith),
                g.referred b old (λ e. ground arith) hit,
                h.clean b old hit,
                h.accounted.valid.dirty b old hit,
              )
            ]
          ],
          g.grown,
          g.expect,
        )

    -- An invalid page becomes ready with the bytes of its block.
    filled-Coherent :
        (p : PageEntry) (lpa : ℕ) (bytes : Page)
        → c.manager.index k ≡ some p
        → is_ready p.content_state ≡ false
        → bytes ≡ base k
        → Coherent
            (set_entry c k (record p { content_state = ready; lpa = lpa; page = bytes }))
            held
          × ((b : ℕ)
              → view (set_entry c k (record p { content_state = ready; lpa = lpa; page = bytes })) b
                ≡ view c b)
    filled-Coherent p lpa bytes cached not_ready same = (
      record {
        accounted =
            set_entry-Accounted c held h.accounted k p cached
              (record p { content_state = ready; lpa = lpa; page = bytes }) refl refl refl;
        clean = λ j q e r d. ground (arith, h.clean j q, same);
        blank = λ j q e r z. ground (arith, h.blank j q);
      },
      λ b. ground (arith, cached, same),
    )

    prepare_hole :
        (p : PageEntry)
        → c.manager.index k ≡ some p
        → is_ready p.content_state ≡ false
        → lpa_of size_in_inode addr device p.blkoff ≡ invalid_lpa
        → prepare_page_content size_in_inode addr device c k
          ≡ done tt (
              set_entry c k (record p {
                content_state = ready;
                lpa = lpa_of size_in_inode addr device p.blkoff;
              }))
    unfolding prepare_page_content
    prepare_hole p cached state hole =
        rw (cached, prepare_page_content) (ground (arith, state, hole))

    prepare_block :
        (p : PageEntry) (bytes : Page)
        → c.manager.index k ≡ some p
        → is_ready p.content_state ≡ false
        → lpa_of size_in_inode addr device p.blkoff ≢ invalid_lpa
        → device (lpa_of size_in_inode addr device p.blkoff) ≡ some bytes
        → prepare_page_content size_in_inode addr device c k
          ≡ done tt (
              set_entry c k (record p {
                content_state = ready;
                lpa = lpa_of size_in_inode addr device p.blkoff;
                page = bytes;
              }))
    unfolding prepare_page_content
    prepare_block p bytes cached state backed found =
        rw (cached, prepare_page_content) (ground (arith, state, backed, found))

    -- A page that is referred to is prepared: it is ready, with the bytes of its block.
    pub prepare_page_content-Coherent :
        (p : PageEntry)
        → c.manager.index k ≡ some p
        → (lpa_of size_in_inode addr device k ≢ invalid_lpa
            → device (lpa_of size_in_inode addr device k) ≢ none)
        → (c1 : PageCache) × (q : PageEntry) × (prepare_page_content size_in_inode addr device c k
            ≡ done tt c1)
          × (c1.manager.index k ≡ some q)
          × (q.page ≡ view c k)
          × (is_ready q.content_state ≡ true)
          × Coherent c1 held
          × ((b : ℕ) → view c1 b ≡ view c b)
          × (c1.cur_size ≡ c.cur_size)
          × (c1.expect_size ≡ c.expect_size)
    unfolding prepare_page_content
    prepare_page_content-Coherent p cached readable =
        let key : p.blkoff ≡ k = h.accounted.valid.keyed k p cached in
        let place = lpa_of size_in_inode addr device in
        elim (Bool-cases (is_ready p.content_state)) [
          | inl is ↦ (
            c,
            p,
            rw (cached, prepare_page_content) (ground (arith, is)),
            cached,
            ground (arith, cached, is),
            is,
            h,
            λ b. refl,
            refl,
            refl,
          )
          | inr not_yet ↦ elim (Bool-cases (place k == invalid_lpa)) [
            | inl hole ↦
                let zeroed : p.page ≡ base k = ground (arith, h.blank k p cached not_yet, hole) in
                let (h', same) = filled-Coherent p (place p.blkoff) p.page cached not_yet zeroed in
                (
                  set_entry c k (record p { content_state = ready; lpa = place p.blkoff }),
                  record p { content_state = ready; lpa = place p.blkoff },
                  prepare_hole p cached not_yet (rw key (ground (arith, hole))),
                  ground arith,
                  ground (arith, cached, not_yet, zeroed),
                  refl,
                  h',
                  same,
                  refl,
                  refl,
                )
            | inr backed ↦ elim (Option-cases (device (place k))) [
              | inl unread ↦ absurd (readable (ground (arith, backed)) unread)
              | inr (bytes, found) ↦
                  let loaded : bytes ≡ base k = ground (arith, backed, found) in
                  let (h', same) = filled-Coherent p (place p.blkoff) bytes cached not_yet loaded in
                  (
                    set_entry c k
                        (record p { content_state = ready; lpa = place p.blkoff; page = bytes }),
                    record p { content_state = ready; lpa = place p.blkoff; page = bytes },
                    prepare_block p bytes cached not_yet (rw key (ground (arith, backed)))
                        (rw key found),
                    ground arith,
                    ground (arith, cached, not_yet, loaded),
                    refl,
                    h',
                    same,
                    refl,
                    refl,
                  )
            ]
          ]
        ]

  -- A new cache holds nothing.
  pub create-Coherent : (expect_size : ℕ) → Coherent (PageCache.create expect_size) (λ j. 0)
  unfolding PageCache.create CacheManager.empty
  create-Coherent expect_size = record {
    accounted = create-Accounted expect_size;
    clean = λ k p e r d. absurd (ground arith);
    blank = λ k p e r z. absurd (ground arith);
  }
