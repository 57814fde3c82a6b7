-- ===== src/FileMapping/Resizer/Expand/Returns.antt =====
-- The node blocks of a block's path can be had, as long as there are ids.
use hscfs.Base.{
  ℕ, zero, suc, ◌+◌, ◌≡◌, ◌≢◌, ◌≤◌, ◌<◌, ◌⊎◌, ◌∙◌, refl, ap, List, [], ◌∷◌, Bool, true, false, some,
  none, ◌==◌, nat_key, arith, Option-cases, inl, inr,
}
use hscfs.Base.Outcome.{Outcome, done}
use hscfs.Fs.{invalid_nid}
use hscfs.FileMapping.{NodePath, get_node_path}
use hscfs.FileMapping.Pointers.{Node, inode, direct, indirect, get_next_nid, set_next_nid}
use hscfs.FileMapping.Resizer.{NodeBlock, FileNodes, set_node, get_node_entry}
use hscfs.FileMapping.Resizer.Expand.{
  zeroed, is_at, create_child, enter_child, next_node, ensure_path, ensure_block, tail,
}
use hscfs.FileMapping.Resizer.Expand.Ensures.{Consistent, create_child-Steps, ensure_path-HasPath}
use hscfs.FileMapping.Resizer.Expand.Extensions.{HasPathOf}

-- The slots of a path below the inode are those of indirect nodes.
abbrev InNodes : ℕ → List ℕ → List ℕ → Type 0
InNodes zero os ns = Unit
InNodes (suc n) [] ns = ⊥
InNodes (suc n) (o ∷ os) [] = ⊥
InNodes (suc n) (o ∷ os) (x ∷ ns) = (o < 1020) × InNodes n os ns

abbrev Below : ℕ → List ℕ → List ℕ → Type 0
Below zero os ns = Unit
Below (suc n) [] ns = ⊥
Below (suc n) (o ∷ os) [] = ⊥
Below (suc n) (o ∷ os) (x ∷ ns) = InNodes n os ns

InNodes-Below : (n : ℕ) (os ns : List ℕ) → InNodes n os ns → Below n os ns
InNodes-Below zero os ns h = tt
InNodes-Below (suc n) [] ns h = h
InNodes-Below (suc n) (o ∷ os) [] h = h
InNodes-Below (suc n) (o ∷ os) (x ∷ ns) h = h.1

get_node_path-Below :
    (blk : ℕ) (path : NodePath)
    → get_node_path blk ≡ some path
    → Below path.level path.offset (tail path.noffset)
unfolding get_node_path
get_node_path-Below blk path h = ground arith

-- The nodes of a path that exist stand at their places, down to the first pointer that is not set.
abbrev pub IsWalkable : {Fs : Type 0} → FileNodes Fs → ℕ → ℕ → ℕ → ℕ → List ℕ → List ℕ → Type 0
IsWalkable s ino zero cur level os ns = Unit
IsWalkable s ino (suc n) cur level [] ns = ⊥
IsWalkable s ino (suc n) cur level (o ∷ os) [] = ⊥
IsWalkable s ino (suc n) cur level (o ∷ os) (x ∷ ns) =
    (b : NodeBlock) × (nxt : ℕ) × (s.nodes cur ≡ some b)
    × (get_next_nid b.node o level ≡ some nxt)
    × ((nxt ≡ 0)
        ⊎ ((nxt ≢ 0)
            × (c : NodeBlock) × (get_node_entry s nxt cur ≡ some c)
            × (is_at c ino nxt x ≡ true)
            × IsWalkable s ino n nxt (level + 1) os ns))

set_next_nid-not_none :
    (node : Node) (o level new nxt : ℕ)
    → get_next_nid node o level ≡ some nxt
    → set_next_nid node o level new ≢ none
unfolding get_next_nid set_next_nid
set_next_nid-not_none (inode a n) o level new nxt h fails = ground (arith, h, fails)
set_next_nid-not_none (indirect n) o level new nxt h fails = ground (arith, h, fails)
set_next_nid-not_none (direct a) o level new nxt h fails = ground (arith, h)

zeroed-free :
    (n o level : ℕ) → o < 1020 → 0 < level → get_next_nid (zeroed (suc n)) o level ≡ some 0
unfolding get_next_nid
zeroed-free n o level inside below = ground (arith, inside, below)

module _ {Fs : Type 0} (alloc_nid : ℕ → Fs → Outcome Fs ℕ) (in_use : Fs → ℕ → Bool)
    (IsReady : ℕ → Fs → Type 0)
    (alloc_nid-in_use : (ino : ℕ) (fs : Fs) (nid : ℕ) (fs' : Fs)
      → IsReady ino fs
      → alloc_nid ino fs ≡ done nid fs'
      → (nid ≢ invalid_nid)
        × (in_use fs nid ≡ false)
        × (in_use fs' nid ≡ true)
        × ((k : ℕ) → in_use fs k ≡ true → in_use fs' k ≡ true)
        × IsReady ino fs')
    (HasIds : ℕ → ℕ → Fs → Type 0)
    (alloc_nid-HasIds : (n ino : ℕ) (fs : Fs)
      → HasIds (suc n) ino fs
      → (nid : ℕ) × (fs' : Fs) × (alloc_nid ino fs ≡ done nid fs') × HasIds n ino fs') where
  create_child-eq_done :
      (ids : ℕ) (s : FileNodes Fs) (ino cur : ℕ) (b : NodeBlock) (level o x below : ℕ)
      → HasIds (suc ids) ino s.fs
      → Consistent alloc_nid in_use IsReady alloc_nid-in_use ino s
      → s.nodes cur ≡ some b
      → get_next_nid b.node o level ≡ some 0
      → (new : ℕ) × (s' : FileNodes Fs) × (create_child alloc_nid s ino cur b level o x below
          ≡ done new s')
        × Consistent alloc_nid in_use IsReady alloc_nid-in_use ino s'
        × (s'.nodes new ≡ some (record { ino = ino; nid = new; noffset = x; node = zeroed below }))
        × HasIds ids ino s'.fs
  unfolding create_child
  create_child-eq_done ids s ino cur b level o x below enough consistent at pointer =
      let (new, fs1, ran, left) = alloc_nid-HasIds ids ino s.fs enough in
      let free = (alloc_nid-in_use ino s.fs new fs1 consistent.0 ran).1 in
      let other : new ≢ cur = λ same. ground (arith, free, consistent.1 cur b at, same) in
      elim (Option-cases (set_next_nid b.node o level new)) [
        | inl fails ↦ absurd (set_next_nid-not_none b.node o level new 0 pointer fails)
        | inr (node1, set) ↦
            let s1 =
              set_node
                (set_node (record s { fs = fs1 }) new
                  (record { ino = ino; nid = new; noffset = x; node = zeroed below }))
                cur (record b { node = node1 }) in
            let runs : create_child alloc_nid s ino cur b level o x below ≡ done new s1 =
              rw ran (rw set refl) in
            let (e, c, child) =
              create_child-Steps alloc_nid in_use IsReady alloc_nid-in_use s s1 ino cur b level o x
                below new consistent at pointer runs in
            (new, s1, runs, c, ground (arith, other), left)
      ]

  -- Below a node that was created just now.
  ensure_path-eq_done_new :
      (n ids : ℕ) (s : FileNodes Fs) (ino cur level : ℕ) (b : NodeBlock) (os ns : List ℕ)
      → n ≤ ids
      → HasIds ids ino s.fs
      → Consistent alloc_nid in_use IsReady alloc_nid-in_use ino s
      → s.nodes cur ≡ some b
      → b.node ≡ zeroed n
      → 0 < level
      → InNodes n os ns
      → (s' : FileNodes Fs) × (ensure_path alloc_nid n s ino cur level os ns ≡ done tt s')
  unfolding ensure_path next_node
  ensure_path-eq_done_new zero ids s ino cur level b os ns few enough consistent at new below
        inside =
      (s, refl)
  ensure_path-eq_done_new (suc n) zero s ino cur level b os ns few enough consistent at new below
        inside =
      absurd (omega (arith, few))
  ensure_path-eq_done_new (suc n) (suc ids) s ino cur level b [] ns few enough consistent at new
        below inside =
      absurd inside
  ensure_path-eq_done_new (suc n) (suc ids) s ino cur level b (o ∷ os) [] few enough consistent at
        new below inside =
      absurd inside
  ensure_path-eq_done_new (suc n) (suc ids) s ino cur level b (o ∷ os) (x ∷ ns) few enough
        consistent at new below (fits, inside) =
      let pointer : get_next_nid b.node o level ≡ some 0 =
        rw new (zeroed-free n o level fits below) in
      let (nxt, s1, runs, c1, at1, left) =
        create_child-eq_done ids s ino cur b level o x n enough consistent at pointer in
      let (s', rest) =
        ensure_path-eq_done_new n ids s1 ino nxt (level + 1)
          (record { ino = ino; nid = nxt; noffset = x; node = zeroed n }) os ns (omega (arith, few))
          left c1 at1 refl (omega arith) inside in
      (s', rw (at, pointer) (rw runs rest))

  ensure_path-eq_done :
      (n ids : ℕ) (s : FileNodes Fs) (ino cur level : ℕ) (os ns : List ℕ)
      → n ≤ ids
      → HasIds ids ino s.fs
      → Consistent alloc_nid in_use IsReady alloc_nid-in_use ino s
      → Below n os ns
      → IsWalkable s ino n cur level os ns
      → (s' : FileNodes Fs) × (ensure_path alloc_nid n s ino cur level os ns ≡ done tt s')
  unfolding ensure_path next_node enter_child
  ensure_path-eq_done zero ids s ino cur level os ns few enough consistent inside walk = (s, refl)
  ensure_path-eq_done (suc n) zero s ino cur level os ns few enough consistent inside walk =
      absurd (omega (arith, few))
  ensure_path-eq_done (suc n) (suc ids) s ino cur level [] ns few enough consistent inside walk =
      absurd inside
  ensure_path-eq_done (suc n) (suc ids) s ino cur level (o ∷ os) [] few enough consistent inside
        walk =
      absurd inside
  ensure_path-eq_done (suc n) (suc ids) s ino cur level (o ∷ os) (x ∷ ns) few enough consistent
        inside (b, nxt, at, pointer, inl no_child) =
      let free : get_next_nid b.node o level ≡ some 0 = pointer ∙ ap some no_child in
      let (new, s1, runs, c1, at1, left) =
        create_child-eq_done ids s ino cur b level o x n enough consistent at free in
      let (s', rest) =
        ensure_path-eq_done_new n ids s1 ino new (level + 1)
          (record { ino = ino; nid = new; noffset = x; node = zeroed n }) os ns (omega (arith, few))
          left c1 at1 refl (omega arith) inside in
      (s', rw (at, free) (rw runs rest))
  ensure_path-eq_done (suc n) (suc ids) s ino cur level (o ∷ os) (x ∷ ns) few enough consistent
        inside (b, nxt, at, pointer, inr (valid, c, found, placed, walk)) =
      let test : (nxt == 0) ≡ false = ground (arith, valid) in
      let (s', rest) =
        ensure_path-eq_done n (suc ids) s ino nxt (level + 1) os ns (omega (arith, few)) enough
          consistent (InNodes-Below n os ns inside) walk in
      (s', rw (at, pointer) (rw (test, found) (rw placed rest)))

  -- While there are as many ids to give out as the path of a block has levels, at most three, the node
  -- blocks of the path can be had, if the ones that exist stand at their places, the ids of the nodes are in
  -- use, and the allocation of ids is in a state that is ready for the file.
  pub ensure_block-eq_done :
      (s : FileNodes Fs) (ino blk : ℕ) (path : NodePath)
      → Consistent alloc_nid in_use IsReady alloc_nid-in_use ino s
      → get_node_path blk ≡ some path
      → HasIds path.level ino s.fs
      → IsWalkable s ino path.level ino 0 path.offset (tail path.noffset)
      → (s' : FileNodes Fs) × (ensure_block alloc_nid s ino blk ≡ done tt s') × HasPathOf s' ino blk
  unfolding ensure_block
  ensure_block-eq_done s ino blk path consistent known enough walk =
      let (s', ran) =
        ensure_path-eq_done path.level path.level s ino ino 0 path.offset (tail path.noffset)
          (omega arith) enough consistent (get_node_path-Below blk path known) walk in
      let (e, c, h) =
        ensure_path-HasPath alloc_nid in_use IsReady alloc_nid-in_use path.level s s' ino ino 0
          path.offset (tail path.noffset) consistent ran in
      (s', rw known ran, (path, known, h))
