-- ===== src/FileMapping/Resizer/Expand/Ensures.antt =====
-- What an expansion ensures: each new block has the node blocks of its path.
use hscfs.Base.{
  ℕ, zero, suc, ◌+◌, ◌-◌, ◌≡◌, ◌≢◌, ◌≤◌, ◌<◌, ◌∙◌, refl, sym, ap, subst, List, [], ◌∷◌, Bool, true,
  false, some, ltb, leb, ◌==◌, ◌&&◌, nat_key, arith, Bool-cases, ℕ-cases, some_inj, inl, inr,
}
use hscfs.Base.Outcome.{Outcome, done, thrown, aborted, step-done, bind-done}
use hscfs.Fs.{invalid_nid}
use hscfs.FileMapping.{max_blkno_limit, get_node_path}
use hscfs.FileMapping.Pointers.{Node, get_next_nid, set_next_nid}
use hscfs.FileMapping.Resizer.{NodeBlock, FileNodes, size_to_block, set_node, get_node_entry}
use hscfs.FileMapping.Resizer.Expand.{
  zeroed, is_at, on_fs, create_child, enter_child, next_node, ensure_path, ensure_block,
  ensure_blocks, expand, tail,
}
use hscfs.FileMapping.Resizer.Expand.Extensions.{
  Child, HasPath, HasPathOf, Stays, Extends, Extends-refl, Extends-trans, Extends-Child,
  Extends-HasPath, set_next_nid-new, set_next_nid-read,
}

pub done_inj : {S A : Type 0} {a b : A} {s s' : S} → done a s ≡ done b s' → (a ≡ b) × (s ≡ s')
done_inj h = (cc, cc)

on_fs-done :
    {Fs A : Type 0} (s : FileNodes Fs) (m : Outcome Fs A) {a : A} {s1 : FileNodes Fs}
    → on_fs s m ≡ done a s1
    → (fs1 : Fs) × (m ≡ done a fs1) × (s1 ≡ record s { fs = fs1 })
on_fs-done s (done a fs1) h = let (x, y) = done_inj h in (fs1, ap (λ k. done k fs1) x, sym y)
on_fs-done s (thrown e fs1) h = absurd (cc)
on_fs-done s aborted h = absurd (cc)

get_node_entry-found :
    {Fs : Type 0} (s : FileNodes Fs) (nid parent_nid : ℕ) {b : NodeBlock}
    → get_node_entry s nid parent_nid ≡ some b
    → s.nodes nid ≡ some b
unfolding get_node_entry
get_node_entry-found s nid parent_nid {b} h = ground (arith, h)

-- The ids that are given out, in a state that is ready for it, are not in use, and are in use then: for
-- `Meta.Nat.alloc_nid` this is `Meta.FreeIds.alloc_nid-in_use`.
module _ {Fs : Type 0} (alloc_nid : ℕ → Fs → Outcome Fs ℕ) (in_use : Fs → ℕ → Bool)
    (IsReady : ℕ → Fs → Type 0)
    (alloc_nid-in_use : (ino : ℕ) (fs : Fs) (nid : ℕ) (fs' : Fs)
      → IsReady ino fs
      → alloc_nid ino fs ≡ done nid fs'
      → (nid ≢ invalid_nid)
        × (in_use fs nid ≡ false)
        × (in_use fs' nid ≡ true)
        × ((k : ℕ) → in_use fs k ≡ true → in_use fs' k ≡ true)
        × IsReady ino fs') where
  -- The nodes that exist have ids that are in use, and ids can be given out to the file.
  abbrev pub Consistent : ℕ → FileNodes Fs → Type 0
  Consistent ino s =
      IsReady ino s.fs × ((nid : ℕ) (b : NodeBlock) → s.nodes nid ≡ some b → in_use s.fs nid ≡ true)

  abbrev pub Steps : FileNodes Fs → FileNodes Fs → ℕ → ℕ → ℕ → ℕ → ℕ → ℕ → Type 0
  Steps s s' ino cur level o x nxt =
      Extends s s' × Consistent ino s' × Child s' ino cur level o x nxt

  -- A node that is created at a free slot of a node.
  module _ (s : FileNodes Fs) (ino cur level o noffset below : ℕ) {cur_b : NodeBlock} {new : ℕ}
      {fs' : Fs} {node1 : Node} (consistent : Consistent ino s) (at : s.nodes cur ≡ some cur_b)
      (no_child : get_next_nid cur_b.node o level ≡ some 0)
      (given : alloc_nid ino s.fs ≡ done new fs')
      (set : set_next_nid cur_b.node o level new ≡ some node1) where
    abbrev after : FileNodes Fs
    after =
        set_node
          (set_node (record s { fs = fs' }) new
            (record { ino = ino; nid = new; noffset = noffset; node = zeroed below }))
          cur (record cur_b { node = node1 })

    not_new : (nid : ℕ) {b : NodeBlock} → s.nodes nid ≡ some b → nid ≢ new
    not_new nid {b} at same =
        let used = consistent.1 nid b at in
        let free = (alloc_nid-in_use ino s.fs new fs' consistent.0 given).1 in
        ground (arith, used, free, same)

    after-Extends : Extends s after
    after-Extends = (
      refl,
      λ nid b found. elim (ℕ-cases nid cur) [
        | inl here ↦ record {
          later = record cur_b { node = node1 };
          later_at = ground (arith, here);
          place = λ i n x.
              ap (λ c. is_at c i n x)
                (some_inj (sym at ∙ subst (λ k. s.nodes k ≡ some b) here found));
          pointers = λ k l nxt h ne.
              set_next_nid-new cur_b.node o level new k l nxt no_child set
                (ap (λ c. get_next_nid c.node k l)
                    (some_inj (sym at ∙ subst (λ k. s.nodes k ≡ some b) here found))
                  ∙ h)
                ne;
        }
        | inr other ↦ record {
          later = b;
          later_at = (let fresh = not_new nid found in ground (arith, found, other, fresh));
          place = λ i n x. refl;
          pointers = λ k l nxt h ne. h;
        }
      ],
    )

    after-Consistent : Consistent ino after
    after-Consistent =
        let (valid, free, taken, kept, ready) =
          alloc_nid-in_use ino s.fs new fs' consistent.0 given in
        (
          ready,
          λ nid b found. elim (ℕ-cases nid cur) [
            | inl here ↦ rw here (kept cur (consistent.1 cur cur_b at))
            | inr other ↦ elim (ℕ-cases nid new) [
              | inl fresh ↦ rw fresh taken
              | inr old ↦ kept nid (consistent.1 nid b (ground (arith, found, other, old)))
            ]
          ],
        )

    after-Child : Child after ino cur level o noffset new
    after-Child = record {
      parent = record cur_b { node = node1 };
      child = record { ino = ino; nid = new; noffset = noffset; node = zeroed below };
      parent_at = ground arith;
      pointer = set_next_nid-read cur_b.node o level new set;
      valid = (alloc_nid-in_use ino s.fs new fs' consistent.0 given).0;
      child_at = (let fresh = not_new cur at in ground (arith, fresh));
      placed = ground arith;
    }

    after-Steps :
        (s1 s' : FileNodes Fs) (nxt : ℕ)
        → s1 ≡ record s { fs = fs' }
        → done new (
            set_node
              (set_node s1 new
                (record { ino = ino; nid = new; noffset = noffset; node = zeroed below }))
              cur
              (record cur_b { node = node1 }))
          ≡ done nxt s'
        → Steps s s' ino cur level o noffset nxt
    after-Steps s1 s' nxt s1_eq h =
        let (e, f) = done_inj h in
        let start =
          ap
            (λ t.
              set_node
                (set_node t new
                  (record { ino = ino; nid = new; noffset = noffset; node = zeroed below }))
                cur (record cur_b { node = node1 }))
            (sym s1_eq) in
        subst (λ k. Steps s s' ino cur level o noffset k) e
          (subst (λ t. Steps s t ino cur level o noffset new) (start ∙ f)
            (after-Extends, after-Consistent, after-Child))

  pub create_child-Steps :
      (s s' : FileNodes Fs) (ino cur : ℕ) (cur_b : NodeBlock) (level o x below nxt : ℕ)
      → Consistent ino s
      → s.nodes cur ≡ some cur_b
      → get_next_nid cur_b.node o level ≡ some 0
      → create_child alloc_nid s ino cur cur_b level o x below ≡ done nxt s'
      → Steps s s' ino cur level o x nxt
  unfolding create_child
  create_child-Steps s s' ino cur cur_b level o x below nxt consistent at no_child h =
      let (new, s1, given, h3) = bind-done (on_fs s (alloc_nid ino s.fs)) _ h in
      let (fs1, given', s1_eq) = on_fs-done s (alloc_nid ino s.fs) given in
      let (node1, set, h4) = step-done (set_next_nid cur_b.node o level new) _ h3 in
      after-Steps s ino cur level o x below consistent at no_child given' set s1 s' nxt s1_eq h4

  enter_child-Steps :
      (s s' : FileNodes Fs) (ino cur : ℕ) (cur_b : NodeBlock) (level o x child nxt : ℕ)
      → Consistent ino s
      → s.nodes cur ≡ some cur_b
      → get_next_nid cur_b.node o level ≡ some child
      → child ≢ 0
      → enter_child alloc_nid s ino cur child x ≡ done nxt s'
      → Steps s s' ino cur level o x nxt
  unfolding enter_child
  enter_child-Steps s s' ino cur cur_b level o x child nxt consistent at pointer valid h =
      let (b, found, h1) = step-done (get_node_entry s child cur) _ h in
      elim (Bool-cases (is_at b ino child x)) [
        | inr misplaced ↦ absurd (ground (arith, h1, misplaced))
        | inl placed ↦
            let (nxt_eq, s_eq) = done_inj (rw placed at h1) in
            subst (λ k. Steps s s' ino cur level o x k) nxt_eq
              (subst (λ t. Steps s t ino cur level o x child) s_eq
                (
                  Extends-refl s,
                  consistent,
                  record {
                    parent = cur_b;
                    child = b;
                    parent_at = at;
                    pointer = pointer;
                    valid = valid;
                    child_at = get_node_entry-found s child cur found;
                    placed = placed;
                  },
                ))
      ]

  next_node-Steps :
      (s s' : FileNodes Fs) (ino cur level o x below nxt : ℕ)
      → Consistent ino s
      → next_node alloc_nid s ino cur level o x below ≡ done nxt s'
      → Steps s s' ino cur level o x nxt
  unfolding next_node
  next_node-Steps s s' ino cur level o x below nxt consistent h =
      let (cur_b, at, h1) = step-done (s.nodes cur) _ h in
      let (child, pointer, h2) = step-done (get_next_nid cur_b.node o level) _ h1 in
      elim (Bool-cases (child == invalid_nid)) [
        | inl no_child ↦
            create_child-Steps s s' ino cur cur_b level o x below nxt consistent at
              (ground (arith, pointer, no_child)) (rw no_child at h2)
        | inr valid ↦
            enter_child-Steps s s' ino cur cur_b level o x child nxt consistent at pointer
              (ground (arith, valid)) (rw valid at h2)
      ]

  pub ensure_path-HasPath :
      (n : ℕ) (s s' : FileNodes Fs) (ino cur level : ℕ) (os ns : List ℕ)
      → Consistent ino s
      → ensure_path alloc_nid n s ino cur level os ns ≡ done tt s'
      → Extends s s' × Consistent ino s' × HasPath s' ino n cur level os ns
  unfolding ensure_path
  ensure_path-HasPath zero s s' ino cur level os ns consistent h =
      let (u, s_eq) = done_inj h in
      subst (λ t. Extends s t × Consistent ino t × Unit) s_eq (Extends-refl s, consistent, tt)
  ensure_path-HasPath (suc n) s s' ino cur level [] ns consistent h = absurd (cc)
  ensure_path-HasPath (suc n) s s' ino cur level (o ∷ os) [] consistent h = absurd (cc)
  ensure_path-HasPath (suc n) s s' ino cur level (o ∷ os) (x ∷ ns) consistent h =
      let (nxt, s1, ran, rest) = bind-done (next_node alloc_nid s ino cur level o x n) _ h in
      let (e1, c1, child) = next_node-Steps s s1 ino cur level o x n nxt consistent ran in
      let (e2, c2, path) = ensure_path-HasPath n s1 s' ino nxt (level + 1) os ns c1 rest in
      (Extends-trans s s1 s' e1 e2, c2, (nxt, Extends-Child s1 s' e2 child, path))

  ensure_blocks-HasPath :
      (n : ℕ) (s s' : FileNodes Fs) (ino blk : ℕ)
      → Consistent ino s
      → ensure_blocks alloc_nid n s ino blk ≡ done tt s'
      → Extends s s' × Consistent ino s' × ((i : ℕ) → i < n → HasPathOf s' ino (blk + i))
  unfolding ensure_blocks ensure_block
  ensure_blocks-HasPath zero s s' ino blk consistent h =
      let (u, s_eq) = done_inj h in
      subst (λ t. Extends s t × Consistent ino t × ((i : ℕ) → i < 0 → HasPathOf t ino (blk + i)))
        s_eq (Extends-refl s, consistent, λ i lt. absurd (omega (arith, lt)))
  ensure_blocks-HasPath (suc n) s s' ino blk consistent h =
      let (u, s1, ran, rest) = bind-done (ensure_block alloc_nid s ino blk) _ h in
      let (path, known, walked) = step-done (get_node_path blk) _ ran in
      let (e1, c1, here) =
        ensure_path-HasPath path.level s s1 ino ino 0 path.offset (tail path.noffset) consistent
          walked in
      let (e2, c2, others) = ensure_blocks-HasPath n s1 s' ino (blk + 1) c1 rest in
      (
        Extends-trans s s1 s' e1 e2,
        c2,
        λ i lt. elim (ℕ-cases i 0) [
          | inl at ↦
              subst (λ k. HasPathOf s' ino k) (omega (arith, at))
                (
                  path,
                  known,
                  Extends-HasPath s1 s' ino path.level ino 0 path.offset (tail path.noffset) e2
                      here,
                )
          | inr later ↦
              subst (λ k. HasPathOf s' ino k) (omega (arith, later))
                (others (i - 1) (omega (arith, later, lt)))
        ],
      )

  -- Where the ids of the nodes are in use and the allocation of ids is in a state that is ready for the file,
  -- an expansion to a larger size that succeeds sets the size, and every block that it adds has all node blocks of its path
  -- then, each where the one before it points to; the node blocks that existed stay, with their valid
  -- pointers.
  pub expand-HasPaths :
      (s s' : FileNodes Fs) (ino tar_size : ℕ)
      → Consistent ino s
      → s.i_size < tar_size
      → expand alloc_nid s ino tar_size ≡ done tt s'
      → (s'.i_size ≡ tar_size)
        × ((blk : ℕ)
            → size_to_block s.i_size ≤ blk
            → blk < size_to_block tar_size
            → HasPathOf s' ino blk)
        × ((nid : ℕ) (b : NodeBlock) → s.nodes nid ≡ some b → Stays s' nid b)
  unfolding expand
  expand-HasPaths s s' ino tar_size consistent grows h =
      let (b, found, h1) = step-done (get_node_entry s ino invalid_nid) _ h in
      let larger : leb tar_size s.i_size ≡ false = ground (arith, grows) in
      elim (Bool-cases ((b.ino == b.nid) && (b.noffset == 0))) [
        | inr misplaced ↦ absurd (ground (arith, h1, misplaced))
        | inl placed ↦
            let h2 = rw (placed, larger) at h1 in
            elim (Bool-cases (ltb max_blkno_limit (size_to_block tar_size))) [
              | inl exceeds ↦ absurd (ground (arith, h2, exceeds))
              | inr fits ↦
                  let (e, c, paths) =
                    ensure_blocks-HasPath (size_to_block tar_size - size_to_block s.i_size)
                      (record s { i_size = tar_size }) s' ino (size_to_block s.i_size) consistent
                      (rw fits at h2) in
                  (
                    e.0,
                    λ blk lo hi.
                        subst (λ k. HasPathOf s' ino k) (omega (arith, lo))
                          (paths (blk - size_to_block s.i_size) (omega (arith, lo, hi))),
                    e.1,
                  )
            ]
      ]
