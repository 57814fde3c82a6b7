-- ===== src/SitNatCache/Coherence.antt =====
-- What the cache and the device together hold of a block. While the SSD applies no journal the
-- device is constant; an unreferred entry agrees with it, so that its eviction loses nothing.
use hscfs.Base.{
  ◌≢◌, put, ℕ, ◌+◌, ◌-◌, ◌^◌, ◌<◌, ◌≡◌, inl, inr, Option, none, some, arith, ◌==◌, Bool-cases,
  Option-cases, nat_key, ◌>>=◌,
}
use hscfs.Base.Outcome.{done}
use hscfs.SitNatCache
use hscfs.SitNatCache.{SitNatCache, Entry, set_entry}
use hscfs.SitNatCache.Invariant.{IsValid, Keeps}
use hscfs.SitNatCache.References.{with_count, sub_refcount-Trims}
use hscfs.SitNatCache.Lookup.{entry_for, get-Keeps}

module _ {Block : Type 0} where
  -- The block that a handle's pointer leads to.
  abbrev pub block_of : SitNatCache Block → ℕ → Option Block
  block_of c h = do p ← c.manager.index h; some p.cache

  -- A write through the pointer.
  abbrev pub write_block : SitNatCache Block → ℕ → Block → Option (SitNatCache Block)
  write_block c h b = do p ← c.manager.index h; some (set_entry c h (record p { cache = b }))

  -- How the users end an update: the write, `add_host_version`, and the handle's destructor.
  unfoldable pub commit_block : SitNatCache Block → ℕ → Block → Option (SitNatCache Block)
  commit_block c h b = do
    c1 ← write_block c h b
    c2 ← SitNatCache.add_host_version c1 h
    SitNatCache.put_cache_entry c2 h

module _ {Block : Type 0} (read : ℕ → Option Block) where
  pub record IsCoherent (c : SitNatCache Block) : Type 0 where
    pub valid : IsValid c
    pub clean :
        (k : ℕ) (p : Entry Block)
        → c.manager.index k ≡ some p
        → p.ref_count ≡ 0
        → read k ≡ some p.cache

  -- The block at an address, cached or on the device.
  abbrev pub view : SitNatCache Block → ℕ → Option Block
  view c lpa = elim (c.manager.index lpa) [ some p ↦ some p.cache | none ↦ read lpa ]

  abbrev pub count_of : SitNatCache Block → ℕ → ℕ
  count_of c lpa = elim (c.manager.index lpa) [ some p ↦ p.ref_count | none ↦ 0 ]

  -- The counters of the cache have room for two more references to a block.
  pub record HasRoom (c : SitNatCache Block) (lpa : ℕ) : Type 0 where
    pub entries : c.cur_size + 1 < 2 ^ 64
    pub references : count_of c lpa + 2 < 2 ^ 32

module _ {Block : Type 0} (read : ℕ → Option Block) (c : SitNatCache Block) (lpa : ℕ) (b : Block)
    (coherent : IsCoherent read c) (room : HasRoom read c lpa)
    (here : view read c lpa ≡ some b) where
  pub found :
      (p : Entry Block) × (entry_for read c lpa ≡ some p)
      × (p.cache ≡ b)
      × (p.ref_count ≡ count_of read c lpa)
  found = elim (Option-cases (c.manager.index lpa)) [
    | inr (p, hit) ↦ (p, ground arith, ground arith, ground arith)
    | inl miss ↦
        (record { lpa = lpa; ref_count = 0; cache = b }, ground arith, ground arith, ground arith)
  ]

  -- A lookup returns a pointer to the block that cache and device hold, with one more reference, and
  -- changes no block.
  pub get-view :
      (c' : SitNatCache Block) × (p : Entry Block) × (SitNatCache.get read c lpa ≡ done lpa c')
      × IsCoherent read c'
      × (c'.manager.index lpa ≡ some p)
      × (p.cache ≡ b)
      × (p.ref_count ≡ count_of read c lpa + 1)
      × ((j : ℕ) → view read c' j ≡ view read c j)
  get-view =
      let (p, entry, content, count) = found in
      let (c', got, v, cached, keeps, trim) =
        get-Keeps read c lpa p coherent.valid room.entries entry
          (ground (arith, room.references)) in
      (
        c',
        with_count p (p.ref_count + 1),
        got,
        record {
          valid = v;
          clean = λ k q e z. ground (arith, keeps.old k q e, coherent.clean k q);
        },
        cached,
        content,
        ground arith,
        λ j. same c' p entry content cached keeps.old keeps.referred j,
      )
    where
      same :
          (c' : SitNatCache Block) (p : Entry Block)
          → entry_for read c lpa ≡ some p
          → p.cache ≡ b
          → c'.manager.index lpa ≡ some (with_count p (p.ref_count + 1))
          → ((k : ℕ) (q : Entry Block)
              → c'.manager.index k ≡ some q
              → put c.manager.index lpa (some (with_count p (p.ref_count + 1))) k ≡ some q)
          → ((k : ℕ) (q : Entry Block)
              → put c.manager.index lpa (some (with_count p (p.ref_count + 1))) k ≡ some q
              → q.ref_count ≢ 0
              → c'.manager.index k ≡ some q)
          → (j : ℕ) → view read c' j ≡ view read c j
      same c' p entry content cached old referred j = elim (Bool-cases (lpa == j)) [
        | inl this ↦ ground arith
        | inr other ↦ elim (Option-cases (c'.manager.index j)) [
          | inr (q, kept) ↦ ground (arith, old j q kept)
          | inl gone ↦ elim (Option-cases (c.manager.index j)) [
            | inl miss ↦ ground arith
            | inr (q, lost) ↦ elim (Bool-cases (q.ref_count == 0)) [
              | inl unreferred ↦ ground (arith, coherent.clean j q)
              | inr used ↦ absurd (ground (arith, referred j q))
            ]
          ]
        ]
      ]

-- An eviction of unreferred entries loses no block.
module _ {Block : Type 0} (read : ℕ → Option Block) (c c' : SitNatCache Block)
    (clean : (k : ℕ) (p : Entry Block)
      → c.manager.index k ≡ some p
      → p.ref_count ≡ 0
      → read k ≡ some p.cache)
    (keeps : Keeps c c') where
  Keeps-clean :
      (k : ℕ) (p : Entry Block)
      → c'.manager.index k ≡ some p
      → p.ref_count ≡ 0
      → read k ≡ some p.cache
  Keeps-clean k p h z = clean k p (keeps.old k p h) z

  Keeps-view : (j : ℕ) → view read c' j ≡ view read c j
  Keeps-view j = elim (Option-cases (c'.manager.index j)) [
    | inr (q, kept) ↦ ground (arith, keeps.old j q kept)
    | inl gone ↦ elim (Option-cases (c.manager.index j)) [
      | inl miss ↦ ground arith
      | inr (q, lost) ↦ elim (Bool-cases (q.ref_count == 0)) [
        | inl unreferred ↦ ground (arith, clean j q)
        | inr referred ↦ absurd (ground (arith, keeps.referred j q))
      ]
    ]
  ]

module _ {Block : Type 0} (read : ℕ → Option Block) (c : SitNatCache Block) (lpa : ℕ) (b : Block)
    (coherent : IsCoherent read c) (room : HasRoom read c lpa)
    (here : view read c lpa ≡ some b) where
  on_device : count_of read c lpa ≡ 0 → read lpa ≡ some b
  on_device z = elim (Option-cases (c.manager.index lpa)) [
    | inl miss ↦ ground arith
    | inr (q, hit) ↦ ground (arith, coherent.clean lpa q)
  ]

  -- A lookup whose handle ends again changes no block.
  pub look-view :
      (c1 : SitNatCache Block) × (c2 : SitNatCache Block) × (p : Entry Block) × (SitNatCache.get
          read c lpa
        ≡ done lpa c1)
      × (c1.manager.index lpa ≡ some p)
      × (p.cache ≡ b)
      × (SitNatCache.put_cache_entry c1 lpa ≡ some c2)
      × IsCoherent read c2
      × ((j : ℕ) → view read c2 j ≡ view read c j)
  unfolding SitNatCache.put_cache_entry
  look-view =
      let (c1, p, got, coherent1, cached, content, count, view1) =
        get-view read c lpa b coherent room here in
      let d = set_entry c1 lpa (with_count p (p.ref_count - 1)) in
      let (c2, dropped, v2, keeps, trim) =
        sub_refcount-Trims c1 lpa p coherent1.valid cached (omega arith)
          (omega (arith, room.references)) in
      let clean : (k : ℕ) (q : Entry Block)
          → d.manager.index k ≡ some q
          → q.ref_count ≡ 0
          → read k ≡ some q.cache =
        λ k q h z. ground (arith, coherent1.clean k q, on_device) in
      (
        c1,
        c2,
        p,
        got,
        cached,
        content,
        dropped,
        record { valid = v2; clean = Keeps-clean read d c2 clean keeps },
        λ j. ground (arith, Keeps-view read d c2 clean keeps j, view1 j),
      )
