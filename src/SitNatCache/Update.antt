-- ===== src/SitNatCache/Update.antt =====
-- An update of a block through the cache: lookup, write, `add_host_version`, end of the handle. The
-- block keeps one reference more, until the SSD has applied the journal.
use hscfs.Base.{ℕ, ◌+◌, ◌^◌, ◌<◌, ◌≡◌, ◌∙◌, Option, some, arith, put, nat_key}
use hscfs.Base.Outcome.{done}
use hscfs.SitNatCache
use hscfs.SitNatCache.{SitNatCache, Entry, set_entry}
use hscfs.SitNatCache.Invariant.{IsValid}
use hscfs.SitNatCache.References.{with_count, add_refcount-Recounts, sub_refcount-Recounts}
use hscfs.SitNatCache.Coherence.{commit_block, IsCoherent, HasRoom, view, count_of, get-view}

module _ {Block : Type 0} (c : SitNatCache Block) (h : ℕ) (b : Block) (p : Entry Block)
    (v : IsValid c) (cached : c.manager.index h ≡ some p) where
  written : Entry Block
  written = record p { cache = b }

  written-IsValid : IsValid (set_entry c h written)
  unfolding written
  written-IsValid = record {
    manager = record {
      lists = v.manager.lists;
      domain = λ j. ground (arith, v.manager.domain j, cached);
    };
    keyed = λ j q e. ground (arith, v.keyed j q, v.keyed h p cached);
    pinned = λ j q e. ground (arith, v.pinned j q, v.pinned h p cached);
    counted = v.counted;
    word = v.word;
  }

  commit_steps :
      (c2 : SitNatCache Block)
      → SitNatCache.add_refcount (set_entry c h written) h ≡ some c2
      → commit_block c h b ≡ SitNatCache.sub_refcount c2 h
  unfolding commit_block written SitNatCache.add_host_version SitNatCache.put_cache_entry
  commit_steps c2 e = rw (cached, commit_block) (rw e)

  pub commit_block-Gives :
      0 < p.ref_count
      → p.ref_count + 1 < 2 ^ 32
      → (c' : SitNatCache Block) × (commit_block c h b ≡ some c')
        × IsValid c'
        × ((j : ℕ) → c'.manager.index j ≡ put c.manager.index h (some (record p { cache = b })) j)
        × (c'.cur_size ≡ c.cur_size)
  unfolding written
  commit_block-Gives pos small =
      let (c2, added, v2, index2, size2, expect2) =
        add_refcount-Recounts (set_entry c h written) h written written-IsValid (ground arith)
          small in
      let (c3, dropped, v3, index3, size3, expect3) =
        sub_refcount-Recounts c2 h (with_count written (p.ref_count + 1)) v2
          (ground (arith, index2 h)) (omega arith) small in
      (
        c3,
        commit_steps c2 added ∙ dropped,
        v3,
        λ j. ground (arith, index3 j, index2 j),
        omega (arith, size3, size2),
      )

module _ {Block : Type 0} (read : ℕ → Option Block) (c : SitNatCache Block) (lpa : ℕ) (b b' : Block)
    (coherent : IsCoherent read c) (room : HasRoom read c lpa)
    (here : view read c lpa ≡ some b) where
  -- The state after the lookup, and the one after the update.
  abbrev pub Updates : Type 0
  Updates =
      (c1 : SitNatCache Block) × (c2 : SitNatCache Block) × (p : Entry Block) × (SitNatCache.get
          read c lpa
        ≡ done lpa c1)
      × (c1.manager.index lpa ≡ some p)
      × (p.cache ≡ b)
      × (commit_block c1 lpa b' ≡ some c2)
      × IsCoherent read c2
      × ((j : ℕ) → view read c2 j ≡ put (view read c) lpa (some b') j)
      × (count_of read c2 lpa ≡ count_of read c lpa + 1)

  -- On a coherent cache with room in its counters, a lookup returns a pointer to the block `b` that cache
  -- and device hold at the address. Once the new block is written through it and the handle has ended,
  -- the table holds the new block there and every other block as before, the cache is coherent, and the
  -- block has one reference more than before the lookup.
  pub update-view : Updates
  update-view =
      let (c1, p, got, coherent1, cached, content, count, view1) =
        get-view read c lpa b coherent room here in
      let (c2, committed, v2, index2, size2) =
        commit_block-Gives c1 lpa b' p coherent1.valid cached (omega arith)
          (omega (arith, room.references)) in
      (
        c1,
        c2,
        p,
        got,
        cached,
        content,
        committed,
        record { valid = v2; clean = λ k q e z. ground (arith, index2 k, coherent1.clean k q) },
        λ j. ground (arith, index2 j, view1 j),
        ground (arith, index2 lpa),
      )
