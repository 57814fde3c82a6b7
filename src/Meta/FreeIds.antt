-- ===== src/Meta/FreeIds.antt =====
-- The list of the free node ids in the NAT (`alloc_nid` of src/fs/super_manager.cc), and which ids are in
-- use.
use hscfs.Base.{
  ℕ, suc, ◌+◌, ◌*◌, ◌/◌, ◌%◌, ◌^◌, ◌<◌, ◌≤◌, ◌≡◌, ◌≢◌, ◌∙◌, refl, sym, ap, subst, List, [], ◌∷◌,
  Bool, true, false, not, Option, some, none, put, nat_key, ◌==◌, arith, length, inl, inr, ℕ-cases,
  some_inj,
}
use hscfs.Base.Outcome.{done}
use hscfs.Fs.{nat_entry_per_block, block_per_segment, invalid_nid, invalid_lpa}
use hscfs.SitNatCache.Coherence.{IsCoherent, view, count_of}
use hscfs.Meta.{Meta, NatBlock}
use hscfs.Meta.Nat.{alloc_nid}
use hscfs.Meta.NatLaws.{nat_lpa, nat_idx, IsReady, Changes, alloc_nid-Changes, alloc_nid-counts}

abbrev pub table_blocks : Meta → ℕ
table_blocks s = (s.super.segment_count_nat * block_per_segment) % 2 ^ 32

-- An id that is not among others.
abbrev pub Apart : ℕ → List ℕ → Type 0
Apart nid [] = Unit
Apart nid (k ∷ ks) = (k ≢ nid) × Apart nid ks

abbrev pub has_owner : Option NatBlock → ℕ → Bool
has_owner none idx = false
has_owner (some block) idx = not ((block idx).ino == 0)

module _ (read : ℕ → Option NatBlock) where
  -- The NAT entry of an id in use names the node's file.
  abbrev pub in_use : Meta → ℕ → Bool
  in_use s nid = has_owner (view read s.nat_cache (nat_lpa s nid)) (nat_idx nid)

  -- A valid id with a place in the table, whose entry is free.
  abbrev pub IsFree : Meta → ℕ → NatBlock → Type 0
  IsFree s nid block =
      (nid ≢ invalid_nid)
      × (nid / nat_entry_per_block < table_blocks s)
      × (view read s.nat_cache (nat_lpa s nid) ≡ some block)
      × ((block (nat_idx nid)).ino ≡ 0)

  -- The free list from `head` on: each entry names the next id, the last one none.
  abbrev pub Chain : Meta → ℕ → List ℕ → Type 0
  Chain s head [] = head ≡ invalid_nid
  Chain s head (nid ∷ nids) =
      (head ≡ nid)
      × Apart nid nids
      × (block : NatBlock) × IsFree s nid block
      × Chain s (block (nat_idx nid)).block_addr nids

  -- The free list of the table is well-formed, its blocks can be had, the table has room in the addresses,
  -- and the counters have room for an update with each id.
  pub record IsListed (s : Meta) (nids : List ℕ) : Type 0 where
    pub chain : Chain s s.super.next_free_nid nids
    pub coherent : IsCoherent read s.nat_cache
    pub whole : table_blocks s + s.super.nat_blkaddr ≤ 2 ^ 32
    pub blocks : s.nat_cache.cur_size + length nids < 2 ^ 64
    pub references : (lpa : ℕ) → count_of read s.nat_cache lpa + length nids + 1 < 2 ^ 32

  -- At least `n` ids can be given out to the file `ino`.
  abbrev pub HasIds : ℕ → ℕ → Meta → Type 0
  HasIds n ino s = (ino ≢ invalid_nid) × (nids : List ℕ) × (n ≤ length nids) × IsListed s nids

-- Two ids of the table with one place are the same.
place-inj :
    (a b base blocks : ℕ)
    → blocks + base ≤ 2 ^ 32
    → a / nat_entry_per_block < blocks
    → b / nat_entry_per_block < blocks
    → (a / nat_entry_per_block + base) % 2 ^ 32 ≡ (b / nat_entry_per_block + base) % 2 ^ 32
    → a % nat_entry_per_block ≡ b % nat_entry_per_block
    → a ≡ b
place-inj a b base blocks whole ha hb lpa idx = omega (arith, whole, ha, hb, lpa, idx)

put_other : {A : Type 0} (f : ℕ → A) (k j : ℕ) (x : A) → j ≢ k → put f k x j ≡ f j
put_other f k j x ne = ground (arith, ne)

module _ (read : ℕ → Option NatBlock) (s s' : Meta) (nid : ℕ) (block : NatBlock)
    (whole : table_blocks s + s.super.nat_blkaddr ≤ 2 ^ 32)
    (inside : nid / nat_entry_per_block < table_blocks s) (ino head : ℕ)
    (changes : Changes read s s' nid block (record { ino = ino; block_addr = invalid_lpa }) head)
    (here : view read s.nat_cache (nat_lpa s nid) ≡ some block) where
  place_eq : (k : ℕ) → nat_lpa s' k ≡ nat_lpa s k
  place_eq k = ap (λ su. (k / nat_entry_per_block + su.nat_blkaddr) % 2 ^ 32) changes.super

  table_eq : table_blocks s' ≡ table_blocks s
  table_eq = ap (λ su. (su.segment_count_nat * block_per_segment) % 2 ^ 32) changes.super

  view_eq :
      (k : ℕ)
      → view read s'.nat_cache (nat_lpa s' k)
        ≡ put
            (view read s.nat_cache)
            (nat_lpa s nid)
            (some (put block (nat_idx nid) (record { ino = ino; block_addr = invalid_lpa })))
            (nat_lpa s k)
  view_eq k = ap (λ lpa. view read s'.nat_cache lpa) (place_eq k) ∙ changes.table (nat_lpa s k)

  -- Another id that is free stays free, with its entry.
  IsFree-after :
      (k : ℕ) (b : NatBlock)
      → k ≢ nid
      → IsFree read s k b
      → (b' : NatBlock) × IsFree read s' k b' × (b' (nat_idx k) ≡ b (nat_idx k))
  IsFree-after k b other (valid, fits, at, free) =
      let fits' = subst (λ n. k / nat_entry_per_block < n) (sym table_eq) fits in
      elim (ℕ-cases (nat_lpa s k) (nat_lpa s nid)) [
        | inl same ↦
            let b_eq : block ≡ b =
              some_inj (sym here ∙ ap (λ j. view read s.nat_cache j) (sym same) ∙ at) in
            let apart : nat_idx k ≢ nat_idx nid = λ idx.
              other
                (place-inj k nid s.super.nat_blkaddr (table_blocks s) whole fits inside same idx) in
            let entry : put block (nat_idx nid) (record { ino = ino; block_addr = invalid_lpa })
                  (nat_idx k)
                ≡ b (nat_idx k) =
              put_other block (nat_idx nid) (nat_idx k) _ apart ∙ ap (λ x. x (nat_idx k)) b_eq in
            (
              put block (nat_idx nid) (record { ino = ino; block_addr = invalid_lpa }),
              (valid, fits', view_eq k ∙ ground (arith, same), ap (λ x. x.ino) entry ∙ free),
              entry,
            )
        | inr differ ↦ (b, (valid, fits', view_eq k ∙ ground (arith, differ, at), free), refl)
      ]

  Chain-after :
      (from : ℕ) (nids : List ℕ) → Apart nid nids → Chain read s from nids → Chain read s' from nids
  Chain-after from [] apart h = h
  Chain-after from (k ∷ ks) (other, apart) (e, alone, b, free, rest) =
      let (b', free', entry) = IsFree-after k b other free in
      (
        e,
        alone,
        b',
        free',
        subst (λ x. Chain read s' x ks) (ap (λ x. x.block_addr) (sym entry))
            (Chain-after (b (nat_idx k)).block_addr ks apart rest),
      )

  in_use-after :
      ino ≢ invalid_nid
      → (in_use read s' nid ≡ true) × ((k : ℕ) → in_use read s k ≡ true → in_use read s' k ≡ true)
  in_use-after real = (
    ap (λ b. has_owner b (nat_idx nid)) (view_eq nid) ∙ ground (arith, real),
    λ k used.
        ap (λ b. has_owner b (nat_idx k)) (view_eq k)
        ∙ elim (ℕ-cases (nat_lpa s k) (nat_lpa s nid)) [
          | inl same ↦ ground (arith, same, used, here, real)
          | inr differ ↦ ground (arith, differ, used)
        ],
  )

-- An allocation from a well-formed free list with the ids `nids` after the head.
abbrev Takes : (ℕ → Option NatBlock) → Meta → ℕ → ℕ → List ℕ → Type 0
Takes read s ino nid nids =
    (s' : Meta) × (alloc_nid read s ino false ≡ done nid s')
    × IsListed read s' nids
    × (nid ≢ invalid_nid)
    × (in_use read s nid ≡ false)
    × (in_use read s' nid ≡ true)
    × ((k : ℕ) → in_use read s k ≡ true → in_use read s' k ≡ true)

module _ (read : ℕ → Option NatBlock) (s : Meta) (ino : ℕ) (real : ino ≢ invalid_nid) where
  alloc_nid-Takes :
      (nid : ℕ) (nids : List ℕ) → IsListed read s (nid ∷ nids) → Takes read s ino nid nids
  alloc_nid-Takes nid nids listed =
      let (e, apart, block, free, rest) = listed.chain in
      let blocks = listed.blocks in
      let references = listed.references in
      let head = s.super.next_free_nid in
      let (valid, inside, here, unused) =
        subst (λ k. IsFree read s k block) {x = nid} (sym e) free in
      let ready : IsReady read s head block = record {
        in_table = inside;
        coherent = listed.coherent;
        room = record {
          entries = omega (arith, blocks);
          references = (let bound = references (nat_lpa s head) in omega (arith, bound));
        };
        here = here;
      } in
      let (s', ran, changes) = alloc_nid-Changes read s ino false block ready valid unused in
      let (size, counts) = alloc_nid-counts read s s' ino false block ready valid unused ran in
      let after : Chain read s' (block (nat_idx head)).block_addr nids =
        Chain-after read s s' head block listed.whole inside ino (block (nat_idx head)).block_addr
          changes here (block (nat_idx head)).block_addr nids
          (subst (λ k. Apart k nids) {x = nid} (sym e) apart)
          (subst (λ k. Chain read s (block (nat_idx k)).block_addr nids) {x = nid} (sym e) rest) in
      let (taken, kept) =
        in_use-after read s s' head block listed.whole inside ino (block (nat_idx head)).block_addr
          changes here real in
      let listed' : IsListed read s' nids = record {
        chain =
            subst (λ su. Chain read s' su.next_free_nid nids)
              {x = record (s.super) { next_free_nid = (block (nat_idx head)).block_addr }}
              (sym changes.super) after;
        coherent = changes.coherent;
        whole =
            subst
              (λ su. (su.segment_count_nat * block_per_segment) % 2 ^ 32 + su.nat_blkaddr ≤ 2 ^ 32)
              {x = record (s.super) { next_free_nid = (block (nat_idx head)).block_addr }}
              (sym changes.super) listed.whole;
        blocks = omega (arith, blocks, size);
        references = λ lpa. (let a = references lpa in let b = counts lpa in omega (arith, a, b));
      } in
      subst (λ k. Takes read s ino k nids) e
        (s', ran, listed', valid, rw (in_use, here) (ground (arith, unused)), taken, kept)

module _ (read : ℕ → Option NatBlock) where
  -- As long as there are ids in a well-formed free list, one is given out, and one less is left.
  pub alloc_nid-HasIds :
      (n ino : ℕ) (s : Meta)
      → HasIds read (suc n) ino s
      → (nid : ℕ) × (s' : Meta) × (alloc_nid read s ino false ≡ done nid s') × HasIds read n ino s'
  alloc_nid-HasIds n ino s (real, [], more, listed) = absurd (omega (arith, more))
  alloc_nid-HasIds n ino s (real, nid ∷ nids, more, listed) =
      let (s', ran, listed', valid, fresh, taken, kept) =
        alloc_nid-Takes read s ino real nid nids listed in
      (nid, s', ran, (real, nids, omega (arith, more), listed'))

  -- On a well-formed free list, an id that is given out to a file is valid, was not in use and is in use
  -- then, the other ids in use stay so, and the free list is well-formed again.
  pub alloc_nid-in_use :
      (ino : ℕ) (s : Meta) (nid : ℕ) (s' : Meta)
      → HasIds read 0 ino s
      → alloc_nid read s ino false ≡ done nid s'
      → (nid ≢ invalid_nid)
        × (in_use read s nid ≡ false)
        × (in_use read s' nid ≡ true)
        × ((k : ℕ) → in_use read s k ≡ true → in_use read s' k ≡ true)
        × HasIds read 0 ino s'
  unfolding alloc_nid
  alloc_nid-in_use ino s nid s' (real, [], more, listed) ran =
      let empty : (s.super.next_free_nid == invalid_nid) ≡ true =
        (let e = listed.chain in ground (arith, e)) in
      absurd (let h = rw empty at ran in cc)
  alloc_nid-in_use ino s nid s' (real, k ∷ ks, more, listed) ran =
      let (s1, runs, listed', valid, fresh, taken, kept) =
        alloc_nid-Takes read s ino real k ks listed in
      let both : done k s1 ≡ done nid s' = sym runs ∙ ran in
      let nid_eq : k ≡ nid = cc in
      let s_eq : s1 ≡ s' = cc in
      let given : (t : Meta) → ℕ → Type 0 = λ t i.
        (i ≢ invalid_nid)
        × (in_use read s i ≡ false)
        × (in_use read t i ≡ true)
        × ((j : ℕ) → in_use read s j ≡ true → in_use read t j ≡ true)
        × HasIds read 0 ino t in
      subst (λ i. given s' i) nid_eq
        (subst (λ t. given t k) s_eq (valid, fresh, taken, kept, (real, ks, omega arith, listed')))
