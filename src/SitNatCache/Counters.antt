-- ===== src/SitNatCache/Counters.antt =====
-- The counters of the cache after an update of a block.
use hscfs.Base.{
  ℕ, ◌+◌, ◌≤◌, ◌≡◌, inl, inr, Option, some, arith, nat_key, Option-cases, subst, sym, ap, ◌∙◌,
  some_inj,
}
use hscfs.Base.Outcome.{done}
use hscfs.SitNatCache
use hscfs.SitNatCache.{SitNatCache, Entry}
use hscfs.SitNatCache.Lookup.{get-Keeps}
use hscfs.SitNatCache.Update.{commit_block-Gives}
use hscfs.SitNatCache.Coherence.{commit_block, IsCoherent, HasRoom, view, count_of, found}

module _ {Block : Type 0} (read : ℕ → Option Block) (c : SitNatCache Block) (lpa : ℕ) (b b' : Block)
    (coherent : IsCoherent read c) (room : HasRoom read c lpa)
    (here : view read c lpa ≡ some b) where
  -- At most one reference more to each block, and at most one block more.
  pub update-counts :
      (c1 c2 : SitNatCache Block)
      → SitNatCache.get read c lpa ≡ done lpa c1
      → commit_block c1 lpa b' ≡ some c2
      → (c2.cur_size ≤ c.cur_size + 1) × ((j : ℕ) → count_of read c2 j ≤ count_of read c j + 1)
  update-counts c1 c2 got committed =
      let (p, entry, content, count) = found read c lpa b coherent room here in
      let (d1, got1, v1, cached, keeps, trim) =
        get-Keeps read c lpa p coherent.valid room.entries entry
          (ground (arith, room.references)) in
      let (d2, ran, v2, index, size) =
        commit_block-Gives d1 lpa b' _ v1 cached (omega arith) (omega (arith, room.references)) in
      let same1 : d1 ≡ c1 = cc in
      let same2 : d2 ≡ c2 =
        some_inj (sym ran ∙ ap (λ d. commit_block d lpa b') same1 ∙ committed) in
      let counts : (j : ℕ) → count_of read d2 j ≤ count_of read c j + 1 = λ j.
        elim (Option-cases (d1.manager.index j)) [
          | inl gone ↦ ground (arith, index j, gone, cached, count)
          | inr (q, kept) ↦ ground (arith, index j, kept, cached, count, keeps.old j q kept)
        ] in
      let more = keeps.no_more in
      (
        subst (λ d. d.cur_size ≤ c.cur_size + 1) same2 (omega (arith, size, more)),
        λ j. subst (λ d. count_of read d j ≤ count_of read c j + 1) same2 (counts j),
      )
