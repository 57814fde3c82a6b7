-- ===== src/SitNatCache/Lookup.antt =====
-- `get` and `add_ssd_version`: a block is found in the cache or read from the device, and the
-- reference is counted.
use hscfs.Base.{
  ◌≤◌, subst, ◌∙◌, ℕ, ◌+◌, ◌-◌, ◌^◌, ◌<◌, ◌≡◌, inl, inr, refl, Bool, true, false, Option, none,
  some, arith, Option-cases, put, nat_key, succ64,
}
use hscfs.Base.Outcome.{done, thrown, io_error}
use hscfs.Lru.Size.{size}
use hscfs.CacheManager.{CacheManager}
use hscfs.CacheManager.Invariant
use hscfs.SitNatCache
use hscfs.SitNatCache.{SitNatCache, Entry, set_entry}
use hscfs.SitNatCache.Invariant.{IsValid, Keeps, IsTrimmed}
use hscfs.SitNatCache.Replacement.{do_replace-Trims}
use hscfs.SitNatCache.References.{with_count, add_refcount-Recounts, sub_refcount-Trims}

module _ {Block : Type 0} (read : ℕ → Option Block) (c : SitNatCache Block) (lpa : ℕ) where
  -- The entry that a lookup comes to: the cached one, or a new one of the block on the device.
  abbrev pub entry_for : Option (Entry Block)
  entry_for = elim (c.manager.index lpa) [
    | some p ↦ some p
    | none ↦ elim (read lpa) [
      | none ↦ none
      | some block ↦ some (record { lpa = lpa; ref_count = 0; cache = block })
    ]
  ]

module _ {Block : Type 0} (read : ℕ → Option Block) (c : SitNatCache Block) (lpa : ℕ)
    (v : IsValid c) (room : c.cur_size + 1 < 2 ^ 64) (is_access : Bool) where
  abbrev Finds : Entry Block → Type 0
  Finds p =
      (c1 : SitNatCache Block) × (SitNatCache.get_cache_entry_inner read c lpa is_access
        ≡ done lpa c1)
      × IsValid c1
      × ((j : ℕ) → c1.manager.index j ≡ put c.manager.index lpa (some p) j)
      × (c1.expect_size ≡ c.expect_size)
      × (c1.cur_size ≤ c.cur_size + 1)

  -- The state with the manager that the cache manager's `get` returns.
  looked_up-IsValid :
      (m : CacheManager ℕ (Entry Block))
      → ((j : ℕ) → m.index j ≡ c.manager.index j)
      → ((j : ℕ) → m.replacer.key_states j ≡ c.manager.replacer.key_states j)
      → Invariant.IsConsistent m
      → size m.replacer ≡ size c.manager.replacer
      → IsValid (record c { manager = m })
  looked_up-IsValid m index states consistent sized = record {
    manager = consistent;
    keyed = λ j q h. v.keyed j q (ground (arith, index j));
    pinned = λ j q h. ground (arith, index j, states j, v.pinned j q);
    counted = omega (arith, v.counted);
    word = v.word;
  }

  hit-Finds : (p : Entry Block) → c.manager.index lpa ≡ some p → Finds p
  unfolding SitNatCache.get_cache_entry_inner
  hit-Finds p hit =
      let (m, got, index, states, consistent, sized) =
        Invariant.get-Gives c.manager v.manager lpa is_access in
      (
        record c { manager = m },
        ground arith,
        looked_up-IsValid m index states consistent sized,
        λ j. ground (arith, index j),
        refl,
        omega arith,
      )

  miss-Finds :
      (block : Block)
      → c.manager.index lpa ≡ none
      → read lpa ≡ some block
      → Finds (record { lpa = lpa; ref_count = 0; cache = block })
  unfolding SitNatCache.get_cache_entry_inner
  miss-Finds block miss fetched =
      let (m, got, index, states, consistent, sized) =
        Invariant.get-Gives c.manager v.manager lpa is_access in
      let entry : Entry Block = record { lpa = lpa; ref_count = 0; cache = block } in
      let (m', added, index', states', consistent', sized') =
        Invariant.add-Gives m consistent lpa entry (index lpa ∙ miss) in
      let w = looked_up-IsValid m index states consistent sized in
      (
        record { manager = m'; expect_size = c.expect_size; cur_size = succ64 c.cur_size },
        ground arith,
        record {
          manager = consistent';
          keyed = λ j q h. ground (arith, index' j, w.keyed j q);
          pinned = λ j q h. ground (arith, index' j, states' j, w.pinned j q);
          counted = omega (arith, v.counted);
          word = omega arith;
        },
        λ j. ground (arith, index' j, index j),
        refl,
        omega (arith, room),
      )

  -- The lookup of a block that cannot be read throws, and caches nothing.
  pub inner-throws :
      entry_for read c lpa ≡ none
      → (c1 : SitNatCache Block) × (SitNatCache.get_cache_entry_inner read c lpa is_access
          ≡ thrown io_error c1)
        × IsValid c1
        × ((j : ℕ) → c1.manager.index j ≡ c.manager.index j)
  unfolding SitNatCache.get_cache_entry_inner
  inner-throws h =
      let (m, got, index, states, consistent, sized) =
        Invariant.get-Gives c.manager v.manager lpa is_access in
      (
        record c { manager = m },
        ground arith,
        looked_up-IsValid m index states consistent sized,
        index,
      )

  pub inner-Finds : (p : Entry Block) → entry_for read c lpa ≡ some p → Finds p
  inner-Finds p h = elim (Option-cases (c.manager.index lpa)) [
    | inr (q, hit) ↦ subst Finds (ground arith) (hit-Finds q hit)
    | inl miss ↦ elim (Option-cases (read lpa)) [
      | inr (block, fetched) ↦ subst Finds (ground arith) (miss-Finds block miss fetched)
      | inl failed ↦ absurd (ground arith)
    ]
  ]

module _ {Block : Type 0} (read : ℕ → Option Block) (c : SitNatCache Block) (lpa : ℕ)
    (p : Entry Block) (v : IsValid c) (room : c.cur_size + 1 < 2 ^ 64)
    (found : entry_for read c lpa ≡ some p) where
  -- With room in the counters, `get` returns a handle on the block, cached or read. Its entry has
  -- one more reference; every other entry that is referred to stays, nothing else is cached, and the
  -- cache is within its expected size unless every entry is referred to.
  pub get-Keeps :
      p.ref_count + 1 < 2 ^ 32
      → (c' : SitNatCache Block) × (SitNatCache.get read c lpa ≡ done lpa c')
        × IsValid c'
        × (c'.manager.index lpa ≡ some (with_count p (p.ref_count + 1)))
        × Keeps
            (record (set_entry c lpa (with_count p (p.ref_count + 1))) {
              cur_size = c.cur_size + 1;
            })
            c'
        × IsTrimmed c'
  unfolding SitNatCache.get
  get-Keeps h =
      let (c1, looked, v1, index1, expect1, more1) = inner-Finds read c lpa v room true p found in
      let (c2, counted, v2, index2, size2, expect2) =
        add_refcount-Recounts c1 lpa p v1 (ground (arith, index1 lpa)) h in
      let (c3, trimmed, v3, keeps, trim) = do_replace-Trims c2 v2 in
      (
        c3,
        ground arith,
        v3,
        keeps.referred lpa _ (ground (arith, index2 lpa)) (λ z. omega arith),
        record {
          old = λ j q e. ground (arith, keeps.old j q e, index2 j, index1 j);
          referred = λ j q e ne. keeps.referred j q (ground (arith, index2 j, index1 j)) ne;
          expect = keeps.expect ∙ expect2 ∙ expect1;
          no_more = (let n = keeps.no_more in omega (arith, n, size2, more1));
        },
        trim,
      )

  -- The SSD has applied a journal entry of the block: one reference goes.
  pub add_ssd_version-Keeps :
      0 < p.ref_count
      → p.ref_count < 2 ^ 32
      → (c' : SitNatCache Block) × (SitNatCache.add_ssd_version read c lpa ≡ done tt c')
        × IsValid c'
        × Keeps
            (record (set_entry c lpa (with_count p (p.ref_count - 1))) {
              cur_size = c.cur_size + 1;
            })
            c'
        × (p.ref_count ≡ 1 → IsTrimmed c')
  unfolding SitNatCache.add_ssd_version
  add_ssd_version-Keeps pos h =
      let (c1, looked, v1, index1, expect1, more1) = inner-Finds read c lpa v room false p found in
      let (c2, counted, v2, keeps, trim) =
        sub_refcount-Trims c1 lpa p v1 (ground (arith, index1 lpa)) pos h in
      (
        c2,
        ground arith,
        v2,
        record {
          old = λ j q e. ground (arith, keeps.old j q e, index1 j);
          referred = λ j q e ne. keeps.referred j q (ground (arith, index1 j)) ne;
          expect = keeps.expect ∙ expect1;
          no_more = (let n = keeps.no_more in omega (arith, n, more1));
        },
        trim,
      )

  -- Without a reference to give back the count wraps round, and the entry that stays cached breaks
  -- the invariant: its count is not 0 and it is not pinned.
  pub add_ssd_version_underflow :
      p.ref_count ≡ 0
      → (c' : SitNatCache Block) × (SitNatCache.add_ssd_version read c lpa ≡ done tt c')
        × (c'.manager.index lpa ≡ some (with_count p (2 ^ 32 - 1)))
        × (c'.manager.replacer.key_states lpa ≡ some false)
  unfolding SitNatCache.add_ssd_version SitNatCache.sub_refcount
  add_ssd_version_underflow zero_count =
      let (c1, looked, v1, index1, expect1, more1) = inner-Finds read c lpa v room false p found in
      let here : c1.manager.index lpa ≡ some p = ground (arith, index1 lpa) in
      (
        set_entry c1 lpa (with_count p (2 ^ 32 - 1)),
        ground arith,
        ground arith,
        ground (arith, v1.pinned lpa p),
      )
