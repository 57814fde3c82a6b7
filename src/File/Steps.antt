-- ===== src/File/Steps.antt =====
-- The steps of the loops over the pages of a file: load a page, store bytes in it, end a handle.
use hscfs.Base.{
  ℕ, ◌+◌, ◌-◌, ◌^◌, ◌<◌, ◌≤◌, ◌≡◌, refl, ◌∙◌, true, Option, none, some, ◌==◌, if◌then◌else◌, put,
  nat_key, arith,
}
use hscfs.Base.Outcome.{done}
use hscfs.PageCache
use hscfs.PageCache.{PageCache, PageEntry, PageState, Page, ready, set_entry, sub_refcount}
use hscfs.PageCache.Accounting.{set_entry-Accounted, mark_dirty-Accounted}
use hscfs.PageCache.Cleaning.{Accounted-cong}
use hscfs.File.{is_ready, prepare_page_content, end_handle}
use hscfs.File.Coherence.{
  Coherent, Loadable, view, sub_refcount-Coherent, get-Coherent, prepare_page_content-Coherent,
}

abbrev pub held_by : Option ℕ → ℕ → ℕ
held_by none j = 0
held_by (some k) j = if k == j then 1 else 0

module _ (size_in_inode : ℕ) (addr : ℕ → ℕ) (device : ℕ → Option Page) where
  abbrev Fits : PageCache → (ℕ → ℕ) → Type 0
  Fits = Coherent size_in_inode addr device

  abbrev content : PageCache → ℕ → Page
  content = view size_in_inode addr device

  pub Coherent-cong : (c : PageCache) (f g : ℕ → ℕ) → ((j : ℕ) → f j ≡ g j) → Fits c f → Fits c g
  Coherent-cong c f g same h = record {
    accounted = Accounted-cong c f g same h.accounted;
    clean = h.clean;
    blank = h.blank;
  }

  -- The handle of the previous page ends.
  pub end_handle-Coherent :
      (pre : Option ℕ) (c : PageCache) (held target : ℕ → ℕ)
      → Fits c held
      → ((j : ℕ) → held j ≡ target j + held_by pre j)
      → ((j : ℕ) → target j + 2 < 2 ^ 32)
      → (c' : PageCache) × (end_handle pre c ≡ some c')
        × Fits c' target
        × ((b : ℕ) → content c' b ≡ content c b)
        × (c'.cur_size ≡ c.cur_size)
        × (c'.expect_size ≡ c.expect_size)
  end_handle-Coherent none c held target h owns room =
      (c, refl, Coherent-cong c held target (λ j. omega (arith, owns j)) h, λ b. refl, refl, refl)
  end_handle-Coherent (some k) c held target h owns room =
      let here : held k ≡ target k + 1 = ground (arith, owns k) in
      let (c', ran, h', same, size', expect) =
        sub_refcount-Coherent size_in_inode addr device c held k h (omega (arith, here))
          (omega (arith, here, room k)) in
      (
        c',
        ran,
        Coherent-cong c' (put held k (held k - 1)) target (λ j. ground (arith, owns j, here)) h',
        same,
        size',
        expect,
      )

  -- A page is looked up and prepared: the handle's page is ready and has the bytes of its block.
  pub load-Coherent :
      (c : PageCache) (held : ℕ → ℕ) (k : ℕ)
      → Fits c held
      → held k + 2 < 2 ^ 32
      → c.cur_size + 1 < 2 ^ 64
      → Loadable size_in_inode addr device c k
      → (c1 : PageCache) × (c2 : PageCache) × (q : PageEntry) × (PageCache.get c k ≡ some c1)
        × (prepare_page_content size_in_inode addr device c1 k ≡ done tt c2)
        × (c2.manager.index k ≡ some q)
        × (is_ready q.content_state ≡ true)
        × (q.page ≡ content c k)
        × Fits c2 (put held k (held k + 1))
        × ((b : ℕ) → content c2 b ≡ content c b)
        × (c2.cur_size ≤ c.cur_size + 1)
        × (c2.expect_size ≡ c.expect_size)
  load-Coherent c held k h room small l =
      let (c1, p, got, cached, h1, same1, size1, expect1) =
        get-Coherent size_in_inode addr device c held k h room small l in
      let (c2, q, prepared, cached2, bytes, is, h2, same2, size2, expect2) =
        prepare_page_content-Coherent size_in_inode addr device c1 (put held k (held k + 1)) k h1 p
          cached l.readable in
      (
        c1,
        c2,
        q,
        got,
        prepared,
        cached2,
        is,
        bytes ∙ same1 k,
        h2,
        λ b. same2 b ∙ same1 b,
        omega (arith, size1, size2),
        expect2 ∙ expect1,
      )

  -- Bytes are stored in a page that is ready, and the page is marked dirty.
  pub store-Coherent :
      (c : PageCache) (held : ℕ → ℕ) (k : ℕ) (q : PageEntry) (page : Page)
      → Fits c held
      → c.manager.index k ≡ some q
      → is_ready q.content_state ≡ true
      → 0 < held k
      → held k + 2 < 2 ^ 32
      → (c' : PageCache) × (PageCache.mark_dirty (set_entry c k (record q { page = page })) k
          ≡ some c')
        × Fits c' held
        × ((b : ℕ) → content c' b ≡ (if k == b then page else content c b))
        × (c'.cur_size ≡ c.cur_size)
        × (c'.expect_size ≡ c.expect_size)
  store-Coherent c held k q page h cached is some_held room =
      let p : PageEntry = record q { page = page } in
      let a1 = set_entry-Accounted c held h.accounted k q cached p refl refl refl in
      let (c', ran, a2, index, size', expect) =
        mark_dirty-Accounted (set_entry c k p) held a1 k p (ground arith) some_held room in
      (
        c',
        ran,
        record {
          accounted = a2;
          clean = λ j r e st d. ground (arith, index j, h.clean j r);
          blank = λ j r e st z. ground (arith, index j, h.blank j r);
        },
        λ b. ground (arith, index b, is),
        size',
        expect,
      )
