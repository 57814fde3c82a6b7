-- ===== src/FileMapping/Resizer/Expand/Extensions.antt =====
-- The node blocks of a path, and states of the nodes of which one extends the other.
use hscfs.Base.{ℕ, zero, suc, ◌+◌, ◌≡◌, ◌≢◌, ◌∙◌, refl, List, [], ◌∷◌, true, some, nat_key, arith}
use hscfs.Fs.{invalid_nid}
use hscfs.FileMapping.{NodePath, get_node_path}
use hscfs.FileMapping.Pointers.{Node, inode, direct, indirect, get_next_nid, set_next_nid}
use hscfs.FileMapping.Resizer.{NodeBlock, FileNodes}
use hscfs.FileMapping.Resizer.Expand.{is_at, tail}

-- A node, and the child at one of its slots.
pub record Child {Fs : Type 0} (s : FileNodes Fs) (ino cur level o noffset nxt : ℕ) : Type 0 where
  pub parent : NodeBlock
  pub child : NodeBlock
  pub parent_at : s.nodes cur ≡ some parent
  pub pointer : get_next_nid parent.node o level ≡ some nxt
  pub valid : nxt ≢ invalid_nid
  pub child_at : s.nodes nxt ≡ some child
  pub placed : is_at child ino nxt noffset ≡ true

-- The nodes of a path exist, each where the one before it points to.
abbrev pub HasPath : {Fs : Type 0} → FileNodes Fs → ℕ → ℕ → ℕ → ℕ → List ℕ → List ℕ → Type 0
HasPath s ino zero cur level os ns = Unit
HasPath s ino (suc n) cur level [] ns = ⊥
HasPath s ino (suc n) cur level (o ∷ os) [] = ⊥
HasPath s ino (suc n) cur level (o ∷ os) (x ∷ ns) =
    (nxt : ℕ) × Child s ino cur level o x nxt × HasPath s ino n nxt (level + 1) os ns

abbrev pub HasPathOf : {Fs : Type 0} → FileNodes Fs → ℕ → ℕ → Type 0
HasPathOf s ino blk =
    (path : NodePath) × (get_node_path blk ≡ some path)
    × HasPath s ino path.level ino 0 path.offset (tail path.noffset)

-- All nodes stay, with their places and their valid pointers to other nodes.
pub record Stays {Fs : Type 0} (s' : FileNodes Fs) (nid : ℕ) (b : NodeBlock) : Type 0 where
  pub later : NodeBlock
  pub later_at : s'.nodes nid ≡ some later
  pub place : (ino nid noffset : ℕ) → is_at later ino nid noffset ≡ is_at b ino nid noffset
  pub pointers :
      (o level nxt : ℕ)
      → get_next_nid b.node o level ≡ some nxt
      → nxt ≢ 0
      → get_next_nid later.node o level ≡ some nxt

abbrev pub Extends : {Fs : Type 0} → FileNodes Fs → FileNodes Fs → Type 0
Extends s s' =
    (s'.i_size ≡ s.i_size) × ((nid : ℕ) (b : NodeBlock) → s.nodes nid ≡ some b → Stays s' nid b)

module _ {Fs : Type 0} where
  pub Extends-refl : (s : FileNodes Fs) → Extends s s
  Extends-refl s = (
    refl,
    λ nid b at. record {
      later = b;
      later_at = at;
      place = λ i n o. refl;
      pointers = λ o l n h ne. h;
    },
  )

  pub Extends-trans : (s1 s2 s3 : FileNodes Fs) → Extends s1 s2 → Extends s2 s3 → Extends s1 s3
  Extends-trans s1 s2 s3 e f = (
    f.0 ∙ e.0,
    λ nid b at.
        let x = e.1 nid b at in
        let y = f.1 nid x.later x.later_at in
        record {
          later = y.later;
          later_at = y.later_at;
          place = λ i n o. y.place i n o ∙ x.place i n o;
          pointers = λ o l n h ne. y.pointers o l n (x.pointers o l n h ne) ne;
        },
  )

  pub Extends-Child :
      (s s' : FileNodes Fs) {ino cur level o x nxt : ℕ}
      → Extends s s'
      → Child s ino cur level o x nxt
      → Child s' ino cur level o x nxt
  Extends-Child s s' {ino} {cur} {level} {o} {x} {nxt} e c =
      let p = e.1 cur c.parent c.parent_at in
      let q = e.1 nxt c.child c.child_at in
      record {
        parent = p.later;
        child = q.later;
        parent_at = p.later_at;
        pointer = p.pointers o level nxt c.pointer c.valid;
        valid = c.valid;
        child_at = q.later_at;
        placed = q.place ino nxt x ∙ c.placed;
      }

  pub Extends-HasPath :
      (s s' : FileNodes Fs) (ino n cur level : ℕ) (os ns : List ℕ)
      → Extends s s'
      → HasPath s ino n cur level os ns
      → HasPath s' ino n cur level os ns
  Extends-HasPath s s' ino zero cur level os ns e h = tt
  Extends-HasPath s s' ino (suc n) cur level [] ns e h = h
  Extends-HasPath s s' ino (suc n) cur level (o ∷ os) [] e h = h
  Extends-HasPath s s' ino (suc n) cur level (o ∷ os) (x ∷ ns) e (nxt, c, h) =
      (nxt, Extends-Child s s' e c, Extends-HasPath s s' ino n nxt (level + 1) os ns e h)

-- A pointer that is set where there was none.
pub set_next_nid-new :
    (node : Node) {node' : Node} (o level new k l nxt : ℕ)
    → get_next_nid node o level ≡ some 0
    → set_next_nid node o level new ≡ some node'
    → get_next_nid node k l ≡ some nxt
    → nxt ≢ 0
    → get_next_nid node' k l ≡ some nxt
unfolding get_next_nid set_next_nid
set_next_nid-new (inode a n) o level new k l nxt free set old valid = ground arith
set_next_nid-new (indirect n) o level new k l nxt free set old valid = ground arith
set_next_nid-new (direct a) o level new k l nxt free set old valid = absurd (ground (arith, set))

pub set_next_nid-read :
    (node : Node) {node' : Node} (o level new : ℕ)
    → set_next_nid node o level new ≡ some node'
    → get_next_nid node' o level ≡ some new
unfolding get_next_nid set_next_nid
set_next_nid-read (inode a n) o level new set = ground arith
set_next_nid-read (indirect n) o level new set = ground arith
set_next_nid-read (direct a) o level new set = absurd (ground (arith, set))
