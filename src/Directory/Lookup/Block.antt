-- ===== src/Directory/Lookup/Block.antt =====
-- What the search for a name in one block of a directory answers.
use hscfs.Base.{
  ℕ, ◌+◌, ◌≡◌, ◌≢◌, ◌≤◌, ◌<◌, ◌⊎◌, ◌∙◌, refl, sym, ap, subst, List, [], ◌∷◌, Bool, true, false,
  Option, none, some, leb, length, arith, Bool-cases, Option-cases, some_inj, inl, inr,
}
use hscfs.Fs.{invalid_nid}
use hscfs.Directory.{
  nr_dentry_in_block, get_dentry_slots, DentryBlock, hscfs_find_target_dentry, Found,
}
use hscfs.Directory.Layout.{Segment, unused, entry, Named, entry_of, IsLaidOut, is_named, slot_of}
use hscfs.Directory.Runs.{AllFree, Place, no_run, run_at}
use hscfs.Directory.Search.{hscfs_find_target_dentry-Finds}
use hscfs.Directory.Lookup.{DentryStorePos, DentryInfo, no_info, find_dentry_in_block}

abbrev pub Among : ℕ → List ℕ → Type 0
Among x [] = ⊥
Among x (y ∷ ys) = (x ≡ y) ⊎ Among x ys

-- The entry that is found is what is stored at its slot.
slot_of-stored :
    (b : DentryBlock) (name : List ℕ) (name_hash p : ℕ) (ss : List Segment) (slot : ℕ) (e : Named)
    → IsLaidOut b p ss
    → slot_of name name_hash p ss ≡ some (slot, e)
    → b.dentry slot ≡ entry_of e
slot_of-stored b name name_hash p [] slot e laid h = absurd (cc)
slot_of-stored b name name_hash p (unused ∷ ss) slot e (free, rest) h =
    slot_of-stored b name name_hash (p + 1) ss slot e rest h
slot_of-stored b name name_hash p (entry x ∷ ss) slot e (st, rest) h =
    elim (Bool-cases (is_named name name_hash x)) [
      | inl hit ↦
          let same : some (p, x) ≡ some (slot, e) = sym (rw hit refl) ∙ h in
          subst (λ r. b.dentry r.0 ≡ entry_of r.1) (some_inj same) (st.2)
      | inr miss ↦
          slot_of-stored b name name_hash (p + get_dentry_slots (length x.name)) ss slot e rest
            (rw miss at h)
    ]

Place-room :
    (bitmap : ℕ → Bool) (max_slots : ℕ) (empty : Option ℕ) (n : ℕ)
    → 0 < n
    → n ≤ max_slots
    → Place bitmap nr_dentry_in_block max_slots empty
    → (q : ℕ) × (empty ≡ some q) × (q + n ≤ nr_dentry_in_block) × AllFree bitmap q n
Place-room bitmap max_slots empty n some_slot fits no_run = absurd (omega (arith, some_slot, fits))
Place-room bitmap max_slots empty n some_slot fits (run_at {n = m} {q = q} inside free) =
    (q, refl, omega (arith, inside, fits), λ i h. free i (omega (arith, h, fits)))

module _ (blocks : ℕ → Option DentryBlock) (name : List ℕ) (name_hash : ℕ) where
  abbrev needed : ℕ
  needed = get_dentry_slots (length name)

  -- A hole, or a block that is laid out, with valid inode numbers.
  pub data IsReadable (blk : ℕ) : Type 0 where
    hole : blocks blk ≡ none → IsReadable blk
    laid :
        (b : DentryBlock) (ss : List Segment)
        → blocks blk ≡ some b
        → IsLaidOut b 0 ss
        → ((slot : ℕ) (e : Named)
            → slot_of name name_hash 0 ss ≡ some (slot, e)
            → e.ino ≢ invalid_nid)
        → IsReadable blk

  -- The block has the entry `e` at a slot.
  pub record Holds (blk slot : ℕ) (e : Named) : Type 0 where
    pub block : DentryBlock
    pub segments : List Segment
    pub cached : blocks blk ≡ some block
    pub laid_out : IsLaidOut block 0 segments
    pub found : slot_of name name_hash 0 segments ≡ some (slot, e)

  -- The block is a hole or is laid out without the name.
  pub data Lacks (blk : ℕ) : Type 0 where
    empty : blocks blk ≡ none → Lacks blk
    other :
        (b : DentryBlock) (ss : List Segment)
        → blocks blk ≡ some b
        → IsLaidOut b 0 ss
        → slot_of name name_hash 0 ss ≡ none
        → Lacks blk

  -- An entry with the name fits at the slot, which is the first one of a hole.
  pub data HasRoom (blk : ℕ) : ℕ → Type 0 where
    at_start : blocks blk ≡ none → HasRoom blk 0
    at_slot :
        {b : DentryBlock} {slot : ℕ}
        → blocks blk ≡ some b
        → slot + needed ≤ nr_dentry_in_block
        → AllFree b.dentry_bitmap slot needed
        → HasRoom blk slot

  pub record NoRoom (blk : ℕ) : Type 0 where
    pub block : DentryBlock
    pub cached : blocks blk ≡ some block
    pub full :
        (slot : ℕ)
        → slot + needed ≤ nr_dentry_in_block
        → AllFree block.dentry_bitmap slot needed
        → ⊥

  -- Where an entry could be created among some blocks: at the place known before, or in a block with room.
  pub data Room : Option DentryStorePos → List ℕ → Option DentryStorePos → Type 0 where
    kept : {pos : DentryStorePos} {blks : List ℕ} → Room (some pos) blks (some pos)
    nowhere : {blks : List ℕ} → ((blk : ℕ) → Among blk blks → NoRoom blk) → Room none blks none
    room_at :
        {blks : List ℕ} {blk slot : ℕ}
        → Among blk blks
        → HasRoom blk slot
        → Room none blks (some (record { blkno = blk; slotno = slot }))

  -- The answer for a row of blocks, with the place known before.
  pub data Answer (known : Option DentryStorePos) (blks : List ℕ) (info : DentryInfo) : Type 0 where
    found :
        (blk slot : ℕ) (e : Named)
        → Among blk blks
        → Holds blk slot e
        → info.ino ≡ e.ino
        → info.type ≡ e.file_type
        → info.ino ≢ invalid_nid
        → info.store_pos ≡ some (record { blkno = blk; slotno = slot })
        → Answer known blks info
    not_found :
        info.ino ≡ invalid_nid
        → ((blk : ℕ) → Among blk blks → Lacks blk)
        → Room known blks info.store_pos
        → Answer known blks info

  find_room :
      (blk : ℕ) (b : DentryBlock) (s : Found) (q : ℕ)
      → blocks blk ≡ some b
      → hscfs_find_target_dentry name name_hash b ≡ some s
      → s.target ≡ none
      → leb needed s.max_slots ≡ true
      → s.empty_bit_pos ≡ some q
      → find_dentry_in_block blocks blk name name_hash
        ≡ some (record no_info { store_pos = some (record { blkno = blk; slotno = q }) })
  unfolding find_dentry_in_block
  find_room blk b s q cached ran target fits at =
      rw (find_dentry_in_block, cached, ran) (rw (target, fits, at) refl)

  find_entry :
      (blk : ℕ) (b : DentryBlock) (s : Found) (slot : ℕ)
      → blocks blk ≡ some b
      → hscfs_find_target_dentry name name_hash b ≡ some s
      → s.target ≡ some slot
      → find_dentry_in_block blocks blk name name_hash
        ≡ some (record {
          ino = (b.dentry slot).ino;
          type = (b.dentry slot).file_type;
          store_pos = some (record { blkno = blk; slotno = slot });
        })
  unfolding find_dentry_in_block
  find_entry blk b s slot cached ran target =
      rw (find_dentry_in_block, cached, ran) (rw target refl)

  find_full :
      (blk : ℕ) (b : DentryBlock) (s : Found)
      → blocks blk ≡ some b
      → hscfs_find_target_dentry name name_hash b ≡ some s
      → s.target ≡ none
      → leb needed s.max_slots ≡ false
      → find_dentry_in_block blocks blk name name_hash ≡ some no_info
  unfolding find_dentry_in_block
  find_full blk b s cached ran target small =
      rw (find_dentry_in_block, cached, ran) (rw (target, small) refl)

  pub find_dentry_in_block-Answer :
      (blk : ℕ)
      → 0 < length name
      → IsReadable blk
      → (info : DentryInfo) × (find_dentry_in_block blocks blk name name_hash ≡ some info)
        × Answer none (blk ∷ []) info
  unfolding find_dentry_in_block
  find_dentry_in_block-Answer blk some_name (hole none_yet) = (
    record no_info { store_pos = some (record { blkno = blk; slotno = 0 }) },
    rw (find_dentry_in_block, none_yet) refl,
    not_found refl
        (λ b h. elim h [ inl e ↦ subst Lacks (sym e) (empty none_yet) | inr out ↦ absurd out ])
        (room_at (inl refl) (at_start none_yet)),
  )
  find_dentry_in_block-Answer blk some_name (laid b ss cached laid_out valid) =
      let (s, ran, finds) = hscfs_find_target_dentry-Finds name name_hash b ss laid_out in
      elim (Option-cases (slot_of name name_hash 0 ss)) [
        | inr ((slot, e), at) ↦
            let target : s.target ≡ some slot = finds.target ∙ rw at refl in
            let here = slot_of-stored b name name_hash 0 ss slot e laid_out at in
            let info : DentryInfo = record {
              ino = (b.dentry slot).ino;
              type = (b.dentry slot).file_type;
              store_pos = some (record { blkno = blk; slotno = slot });
            } in
            let ino_eq : info.ino ≡ e.ino = ap (λ d. d.ino) here in
            (
              info,
              find_entry blk b s slot cached ran target,
              found blk slot e (inl refl)
                  (record {
                    block = b;
                    segments = ss;
                    cached = cached;
                    laid_out = laid_out;
                    found = at;
                  })
                  ino_eq (ap (λ d. d.file_type) here)
                  (λ zero_ino. valid slot e at (sym ino_eq ∙ zero_ino)) refl,
            )
        | inl gone ↦
            let target : s.target ≡ none = finds.target ∙ rw gone refl in
            let lacks : (k : ℕ) → Among k (blk ∷ []) → Lacks k = λ k h. elim h [
              | inl e ↦ subst Lacks (sym e) (other b ss cached laid_out gone)
              | inr out ↦ absurd out
            ] in
            elim (Bool-cases (leb (get_dentry_slots (length name)) s.max_slots)) [
              | inl fits ↦
                  let (q, at, inside, free) =
                    Place-room b.dentry_bitmap s.max_slots s.empty_bit_pos needed
                      (omega (arith, some_name)) (ground (arith, fits)) (finds.place gone) in
                  (
                    record no_info { store_pos = some (record { blkno = blk; slotno = q }) },
                    find_room blk b s q cached ran target fits at,
                    not_found refl lacks (room_at (inl refl) (at_slot cached inside free)),
                  )
              | inr small ↦ (
                no_info,
                find_full blk b s cached ran target small,
                not_found refl lacks (
                    nowhere (λ k h. elim h [
                      | inl e ↦ subst NoRoom (sym e) (record {
                        block = b;
                        cached = cached;
                        full = λ slot inside free.
                            (let most = finds.longest gone slot needed inside free in
                              ground (arith, small, most));
                      })
                      | inr out ↦ absurd out
                    ])),
              )
            ]
      ]
