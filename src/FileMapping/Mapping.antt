-- ===== src/FileMapping/Mapping.antt =====
-- The search for the address of a block, and its change (src/fs/file_utils.cc, `file_mapping_util`). The
-- nodes that the search in the SSD brings into the cache are those that exist.
use hscfs.Base.{
  ℕ, zero, suc, ◌+◌, ◌≡◌, ◌⊎◌, ◌∙◌, refl, ap, subst, List, [], ◌∷◌, true, false, Option, some, none,
  ◌==◌, ◌&&◌, not, if◌then◌else◌, nat_key, guard, ◌>>=◌, ◌>>◌, arith, Bool-cases, Option-cases,
  ℕ-cases, some_inj, >>=-eq-some, inl, inr,
}
use hscfs.FileMapping.{get_node_path}
use hscfs.FileMapping.Pointers.{Node, inode, direct, indirect, get_next_nid, get_lpa, set_lpa}
use hscfs.FileMapping.Resizer.{NodeBlock, FileNodes, set_node}
use hscfs.FileMapping.Resizer.Expand.{is_at}

pub record BlockAddrInfo : Type 0 where
  pub lpa : ℕ
  pub nid : ℕ
  pub nid_off : ℕ

-- The node at hand in the loop, which must be at its place.
unfoldable pub last_node : {Fs : Type 0} → FileNodes Fs → ℕ → ℕ → ℕ → Option NodeBlock
last_node s ino cur_nid noffset = do
  b ← s.nodes cur_nid
  guard (is_at b ino cur_nid noffset)
  some b

unfoldable pub nxt_nid : {Fs : Type 0} → FileNodes Fs → ℕ → ℕ → ℕ → ℕ → ℕ → Option ℕ
nxt_nid s ino cur_nid noffset offset cur_level = do
  b ← last_node s ino cur_nid noffset
  get_next_nid b.node offset cur_level

-- The loop, with the levels that are left: the node at the end of the path, and the slot in it.
unfoldable pub find_node :
    {Fs : Type 0} → ℕ → FileNodes Fs → ℕ → ℕ → ℕ → List ℕ → List ℕ → Option (ℕ × ℕ)
find_node n s ino cur_nid cur_level [] noffset = none
find_node n s ino cur_nid cur_level (o ∷ offset) [] = none
find_node zero s ino cur_nid cur_level (o ∷ offset) (x ∷ noffset) = do
  b ← last_node s ino cur_nid x
  some (cur_nid, o)
find_node (suc n) s ino cur_nid cur_level (o ∷ offset) (x ∷ noffset) = do
  nxt ← nxt_nid s ino cur_nid x o cur_level
  find_node n s ino nxt (cur_level + 1) offset noffset

unfoldable pub get_addr_of_block : {Fs : Type 0} → FileNodes Fs → ℕ → ℕ → Option BlockAddrInfo
get_addr_of_block s ino blkno = do
  path ← get_node_path blkno
  (nid, off) ← find_node path.level s ino ino 0 path.offset path.noffset
  b ← s.nodes nid
  lpa ← get_lpa b.node off path.level
  some (record { lpa = lpa; nid = nid; nid_off = off })

unfoldable pub update_block_mapping :
    {Fs : Type 0} → FileNodes Fs → ℕ → ℕ → ℕ → Option (BlockAddrInfo × FileNodes Fs)
update_block_mapping s ino blkno new_lpa = do
  addr ← get_addr_of_block s ino blkno
  guard (not (addr.lpa == new_lpa))
  b ← s.nodes addr.nid
  guard (b.nid == addr.nid)
  node1 ← set_lpa b.node addr.nid_off (if ino == addr.nid then 0 else 1) new_lpa
  some (record addr { lpa = new_lpa }, set_node s addr.nid (record b { node = node1 }))

-- A change of an address leaves the pointers to nodes.
set_lpa-get_next_nid :
    (node : Node) {node' : Node} (off level lpa k l : ℕ)
    → set_lpa node off level lpa ≡ some node'
    → get_next_nid node' k l ≡ get_next_nid node k l
unfolding set_lpa get_next_nid
set_lpa-get_next_nid (inode a n) off level lpa k l h = ground arith
set_lpa-get_next_nid (direct a) off level lpa k l h = ground arith
set_lpa-get_next_nid (indirect n) off level lpa k l h = absurd (ground (arith, h))

set_lpa-get_lpa_all :
    (node : Node) {node' : Node} (off level lpa k l : ℕ)
    → set_lpa node off level lpa ≡ some node'
    → get_lpa node' k l
      ≡ (elim (get_lpa node k l) [ none ↦ none | some old ↦ some (if k == off then lpa else old) ])
unfolding set_lpa get_lpa
set_lpa-get_lpa_all (inode a n) off level lpa k l h = ground arith
set_lpa-get_lpa_all (direct a) off level lpa k l h = ground arith
set_lpa-get_lpa_all (indirect n) off level lpa k l h = absurd (ground (arith, h))

-- What the address of a block is after the slot `off` of the node `nid` was set.
abbrev pub with_slot : ℕ → ℕ → ℕ → Option BlockAddrInfo → Option BlockAddrInfo
with_slot nid off lpa none = none
with_slot nid off lpa (some addr) =
    some (if (addr.nid == nid) && (addr.nid_off == off) then record addr { lpa = lpa } else addr)

module _ {Fs : Type 0} (s : FileNodes Fs) (ino nid off level lpa : ℕ) (b : NodeBlock) (node1 : Node)
    (at : s.nodes nid ≡ some b) (set : set_lpa b.node off level lpa ≡ some node1) where
  abbrev after : FileNodes Fs
  after = set_node s nid (record b { node = node1 })

  last_node-after :
      (cur x : ℕ)
      → (last_node after ino cur x ≡ last_node s ino cur x)
        ⊎ ((cur ≡ nid)
            × (last_node s ino cur x ≡ some b)
            × (last_node after ino cur x ≡ some (record b { node = node1 })))
  unfolding last_node
  last_node-after cur x = elim (ℕ-cases cur nid) [
    | inr other ↦ inl (ground (arith, other))
    | inl here ↦ elim (Bool-cases (is_at b ino nid x)) [
      | inl placed ↦ inr (here, rw here (rw (at, placed) refl), rw here (ground (arith, placed)))
      | inr misplaced ↦ inl (rw here (ground (arith, at, misplaced)))
    ]
  ]

  nxt_nid-after : (cur x o l : ℕ) → nxt_nid after ino cur x o l ≡ nxt_nid s ino cur x o l
  unfolding nxt_nid
  nxt_nid-after cur x o l = elim (last_node-after cur x) [
    | inl same ↦ rw same refl
    | inr (here, old, new) ↦ rw (old, new) (set_lpa-get_next_nid b.node off level lpa o l set)
  ]

  find_node-after :
      (n cur cur_level : ℕ) (os ns : List ℕ)
      → find_node n after ino cur cur_level os ns ≡ find_node n s ino cur cur_level os ns
  unfolding find_node
  find_node-after n cur cur_level [] ns = refl
  find_node-after n cur cur_level (o ∷ os) [] = refl
  find_node-after zero cur cur_level (o ∷ os) (x ∷ ns) = elim (last_node-after cur x) [
    | inl same ↦ rw same refl
    | inr (here, old, new) ↦ rw (old, new) refl
  ]
  find_node-after (suc n) cur cur_level (o ∷ os) (x ∷ ns) =
      let same = nxt_nid-after cur x o cur_level in
      elim (Option-cases (nxt_nid s ino cur x o cur_level)) [
        | inl gone ↦ rw (same, gone) refl
        | inr (nxt, found) ↦ rw (same, found) (find_node-after n nxt (cur_level + 1) os ns)
      ]

  address-after :
      (m o l : ℕ)
      → (do
        c ← after.nodes m
        a ← get_lpa c.node o l
        some (record { lpa = a; nid = m; nid_off = o }))
        ≡ with_slot nid off lpa (do
          c ← s.nodes m
          a ← get_lpa c.node o l
          some (record { lpa = a; nid = m; nid_off = o }))
  address-after m o l = elim (ℕ-cases m nid) [
    | inr other ↦
        let test : (m == nid) ≡ false = ground (arith, other) in
        elim (Option-cases (s.nodes m)) [
          | inl gone ↦ ground (arith, test, gone)
          | inr (c, found) ↦ elim (Option-cases (get_lpa c.node o l)) [
            | inl fails ↦ ground (arith, test, found, fails)
            | inr (a, ok) ↦ ground (arith, test, found, ok)
          ]
        ]
    | inl here ↦
        let test : (m == nid) ≡ true = ground (arith, here) in
        let found : s.nodes m ≡ some b = rw here at in
        let read = set_lpa-get_lpa_all b.node off level lpa o l set in
        elim (Option-cases (get_lpa b.node o l)) [
          | inl fails ↦ ground (arith, test, found, read, fails)
          | inr (a, ok) ↦ ground (arith, test, found, read, ok)
        ]
  ]

  get_addr_of_block-after :
      (blk : ℕ)
      → get_addr_of_block after ino blk ≡ with_slot nid off lpa (get_addr_of_block s ino blk)
  unfolding get_addr_of_block
  get_addr_of_block-after blk = elim (Option-cases (get_node_path blk)) [
    | inl gone ↦ rw gone refl
    | inr (path, known) ↦
        let same = find_node-after path.level ino 0 path.offset path.noffset in
        elim (Option-cases (find_node path.level s ino ino 0 path.offset path.noffset)) [
          | inl lost ↦ rw known (rw (same, lost) refl)
          | inr (found, h) ↦ rw known (rw (same, h) (address-after found.0 found.1 path.level))
        ]
  ]

mapped :
    {Fs : Type 0} (s s' : FileNodes Fs) (ino blkno new_lpa : ℕ) (addr addr' : BlockAddrInfo)
    (b : NodeBlock) (node1 : Node) (level : ℕ)
    → get_addr_of_block s ino blkno ≡ some addr
    → s.nodes addr.nid ≡ some b
    → set_lpa b.node addr.nid_off level new_lpa ≡ some node1
    → ◌≡◌ {A = BlockAddrInfo × FileNodes Fs}
        (record addr { lpa = new_lpa }, set_node s addr.nid (record b { node = node1 }))
        (addr', s')
    → (addr'.lpa ≡ new_lpa)
      × (get_addr_of_block s' ino blkno ≡ some addr')
      × ((blk : ℕ)
          → get_addr_of_block s' ino blk
            ≡ with_slot addr'.nid addr'.nid_off new_lpa (get_addr_of_block s ino blk))
mapped s s' ino blkno new_lpa addr addr' b node1 level got at set e =
    let all = get_addr_of_block-after s ino addr.nid addr.nid_off level new_lpa b node1 at set in
    let self : with_slot addr.nid addr.nid_off new_lpa (some addr)
        ≡ some (record addr { lpa = new_lpa }) =
      ground arith in
    subst
      (λ r.
        (r.0.lpa ≡ new_lpa)
        × (get_addr_of_block r.1 ino blkno ≡ some r.0)
        × ((blk : ℕ)
            → get_addr_of_block r.1 ino blk
              ≡ with_slot r.0.nid r.0.nid_off new_lpa (get_addr_of_block s ino blk)))
      e (refl, all blkno ∙ ap (with_slot addr.nid addr.nid_off new_lpa) got ∙ self, all)

-- A change of a block's address is read back, and the block is at the same slot of the same node. For
-- every other block of the file the search answers as before, unless it ends at that slot.
pub update_block_mapping-get_addr_of_block :
    {Fs : Type 0} (s s' : FileNodes Fs) (ino blkno new_lpa : ℕ) {addr' : BlockAddrInfo}
    → update_block_mapping s ino blkno new_lpa ≡ some (addr', s')
    → (addr'.lpa ≡ new_lpa)
      × (get_addr_of_block s' ino blkno ≡ some addr')
      × ((blk : ℕ)
          → get_addr_of_block s' ino blk
            ≡ with_slot addr'.nid addr'.nid_off new_lpa (get_addr_of_block s ino blk))
unfolding update_block_mapping
update_block_mapping-get_addr_of_block s s' ino blkno new_lpa {addr'} h =
    let (addr, got, h1) = >>=-eq-some (get_addr_of_block s ino blkno) _ h in
    let (u, changed, h2) = >>=-eq-some (guard (not (addr.lpa == new_lpa))) _ h1 in
    let (b, at, h3) = >>=-eq-some (s.nodes addr.nid) _ h2 in
    let (v, same, h4) = >>=-eq-some (guard (b.nid == addr.nid)) _ h3 in
    let (node1, set, h5) =
      >>=-eq-some (set_lpa b.node addr.nid_off (if ino == addr.nid then 0 else 1) new_lpa) _ h4 in
    mapped s s' ino blkno new_lpa addr addr' b node1 (if ino == addr.nid then 0 else 1) got at set
      (some_inj h5)
