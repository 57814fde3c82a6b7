-- ===== src/Journal/Layout.antt =====
-- The layout of the collected journal: items cover each full block to its end, there is always room
-- for one more header, and the payloads in order are the entries of the vectors.
use mathlib.Core.List.{append_assoc, append-nil}
use hscfs.Base.{ℕ, ◌+◌, ◌*◌, ◌≤◌, ◌≡◌, ◌⊎◌, inl, inr, refl, List, [], ◌∷◌, ◌++◌, arith, length, ◌∙◌}
use hscfs.Journal.{
  journal_type_nats, journal_type_sits, journal_type_super_block, journal_type_nop,
  journal_type_end,
}
use hscfs.Journal.Output.{Item, Payload, nats, sits, supers, nothing}
use hscfs.Journal.Writer.{Writer, next_block}

-- The bytes behind a header and the type code, by the payload.
abbrev pub payload_bytes : Payload → ℕ
payload_bytes (nats xs) = 12 * length xs
payload_bytes (sits xs) = 72 * length xs
payload_bytes (supers xs) = 8 * length xs
payload_bytes nothing = 0

abbrev pub payload_type : Payload → ℕ
payload_type (nats xs) = journal_type_nats
payload_type (sits xs) = journal_type_sits
payload_type (supers xs) = journal_type_super_block
payload_type nothing = journal_type_end

-- A header tells what follows: the type, and the length of the item; a `NOP` may be longer.
abbrev pub IsFramed : Item → Type 0
IsFramed item =
    ((item.len ≡ 4 + payload_bytes item.payload) × (item.type ≡ payload_type item.payload))
    ⊎ ((4 ≤ item.len) × (item.type ≡ journal_type_nop) × (item.payload ≡ nothing))

abbrev pub AllFramed : List Item → Type 0
AllFramed [] = Unit {0}
AllFramed (x ∷ xs) = IsFramed x × AllFramed xs

abbrev pub total_len : List Item → ℕ
total_len [] = 0
total_len (x ∷ xs) = x.len + total_len xs

-- A reader that goes from header to header meets the end of the block exactly.
abbrev pub AllFull : List (List Item) → Type 0
AllFull [] = Unit {0}
AllFull (b ∷ bs) = ((total_len b ≡ 4096) × AllFramed b) × AllFull bs

pub record IsLaid (w : Writer) : Type 0 where
  pub blocks : AllFull w.full
  pub framed : AllFramed w.current
  pub tail : total_len w.current ≡ w.buffer_tail_off
  pub room : w.buffer_tail_off + 4 ≤ 4096

-- What a reader collects from the items of a block, and from the blocks.
module _ {F : Type 0} (pick : Payload → List F) where
  abbrev pub read_items : List Item → List F
  read_items [] = []
  read_items (x ∷ xs) = pick x.payload ++ read_items xs

  abbrev pub read_blocks : List (List Item) → List F
  read_blocks [] = []
  read_blocks (b ∷ bs) = read_items b ++ read_blocks bs

  abbrev pub read_back : Writer → List F
  read_back w = read_blocks w.full ++ read_items w.current

  pub read_items-snoc :
      (xs : List Item) (x : Item) → read_items (xs ++ x ∷ []) ≡ read_items xs ++ pick x.payload
  read_items-snoc [] x = simp append-nil
  read_items-snoc (y ∷ xs) x = simp (read_items-snoc xs x, append_assoc)

  read_blocks-snoc :
      (bs : List (List Item)) (b : List Item)
      → read_blocks (bs ++ b ∷ []) ≡ read_blocks bs ++ read_items b
  read_blocks-snoc [] b = simp append-nil
  read_blocks-snoc (c ∷ bs) b = simp (read_blocks-snoc bs b, append_assoc)

total_len-snoc : (xs : List Item) (x : Item) → total_len (xs ++ x ∷ []) ≡ total_len xs + x.len
total_len-snoc [] x = omega arith
total_len-snoc (y ∷ xs) x = omega (arith, total_len-snoc xs x)

AllFramed-snoc : (xs : List Item) (x : Item) → AllFramed xs → IsFramed x → AllFramed (xs ++ x ∷ [])
AllFramed-snoc [] x a f = (f, tt)
AllFramed-snoc (y ∷ xs) x a f = (a.0, AllFramed-snoc xs x a.1 f)

AllFull-snoc :
    (bs : List (List Item)) (b : List Item)
    → AllFull bs
    → total_len b ≡ 4096
    → AllFramed b
    → AllFull (bs ++ b ∷ [])
AllFull-snoc [] b a t f = ((t, f), tt)
AllFull-snoc (c ∷ bs) b a t f = (a.0, AllFull-snoc bs b a.1 t f)

-- Writing an item of the length `n` at the tail, and going to the next block if this one is full.
unfoldable pub write_next : Writer → Item → ℕ → Writer
write_next w item n =
    next_block (record w { current = w.current ++ item ∷ []; buffer_tail_off = n })

module _ (w : Writer) (laid : IsLaid w) (item : Item) (n : ℕ) (f : IsFramed item)
    (end : w.buffer_tail_off + item.len ≡ n) where
  abbrev items : List Item
  items = w.current ++ item ∷ []

  items-len : total_len items ≡ n
  items-len = omega (arith, total_len-snoc w.current item, laid.tail)

  -- The block is left if the item fills it.
  filled_next :
      n ≡ 4096
      → write_next w item n
        ≡ record { full = w.full ++ items ∷ []; current = []; buffer_tail_off = 0 }
  unfolding write_next next_block
  filled_next h = ground arith

  same_block :
      n + 4 ≤ 4096 → write_next w item n ≡ record w { current = items; buffer_tail_off = n }
  unfolding write_next next_block
  same_block h = ground arith

  pub write_next-IsLaid : (n ≡ 4096) ⊎ (n + 4 ≤ 4096) → IsLaid (write_next w item n)
  write_next-IsLaid (inl filled) = rw (filled_next filled) (record {
    blocks =
        AllFull-snoc w.full items laid.blocks (items-len ∙ filled)
          (AllFramed-snoc w.current item laid.framed f);
    framed = tt;
    tail = refl;
    room = omega arith;
  })
  write_next-IsLaid (inr roomy) = rw (same_block roomy) (record {
    blocks = laid.blocks;
    framed = AllFramed-snoc w.current item laid.framed f;
    tail = items-len;
    room = roomy;
  })

  pub write_next-read_back :
      {F : Type 0} (pick : Payload → List F)
      → (n ≡ 4096) ⊎ (n + 4 ≤ 4096)
      → read_back pick (write_next w item n) ≡ read_back pick w ++ pick item.payload
  write_next-read_back pick (inl filled) =
      rw (filled_next filled)
        (simp (read_blocks-snoc pick, read_items-snoc pick, append_assoc, append-nil))
  write_next-read_back pick (inr roomy) =
      rw (same_block roomy) (simp (read_items-snoc pick, append_assoc))

  pub write_next-off : (n ≡ 4096 → (write_next w item n).buffer_tail_off ≡ 0)
  unfolding write_next next_block
  write_next-off filled = ground arith
