-- ===== src/Journal/Transaction.antt =====
-- The blocks that a whole transaction is collected into
-- (`collect_pending_journal_to_write_buffer`), as the SSD reads them.
use native.Mathlib.Nat.{mul-le-mul_right}
use mathlib.Core.List.{Permᴰ, append_assoc, append-nil}
use hscfs.Base.{
  ℕ, suc, ◌+◌, ◌*◌, ◌^◌, ◌≤◌, ◌<◌, ◌≡◌, refl, ◌∙◌, ap, List, [], ◌∷◌, ◌++◌, some, arith, length,
  suc,
}
use hscfs.Journal.{
  JournalContainer, NatJournalEntry, SitJournalEntry, SuperBlockJournalEntry, journal_type_end,
}
use hscfs.Journal.Merge.{
  Places, Resolves, insert_entry, merge_into, generate_output_vector-Resolves,
}
use hscfs.Journal.Output.{
  Item, Kind, Payload, nats, sits, supers, nothing, nat_kind, sit_kind, super_kind, prepare_output,
}
use hscfs.Journal.Writer.{
  Writer, buffer_start, collect, append_end_entry, collect_unless_empty,
  collect_pending_journal_to_write_buffer,
}
use hscfs.Journal.Layout.{
  IsLaid, AllFull, AllFramed, total_len, read_back, read_blocks, read_items, read_items-snoc,
}
use hscfs.Journal.Collection.{IsLawful, Collects, Collects-end, collect_vector-Collects}

abbrev pub read_nats : Payload → List NatJournalEntry
read_nats (nats xs) = xs
read_nats _ = []

abbrev pub read_sits : Payload → List SitJournalEntry
read_sits (sits xs) = xs
read_sits _ = []

abbrev pub read_supers : Payload → List SuperBlockJournalEntry
read_supers (supers xs) = xs
read_supers _ = []

nat-IsLawful : IsLawful nat_kind
nat-IsLawful = record {
  pos = omega arith;
  small = omega arith;
  bytes = λ xs. omega arith;
  typed = λ xs. refl;
}

sit-IsLawful : IsLawful sit_kind
sit-IsLawful = record {
  pos = omega arith;
  small = omega arith;
  bytes = λ xs. omega arith;
  typed = λ xs. refl;
}

super-IsLawful : IsLawful super_kind
super-IsLawful = record {
  pos = omega arith;
  small = omega arith;
  bytes = λ xs. omega arith;
  typed = λ xs. refl;
}

module _ {E : Type 0} (key : E → ℕ) (journal : List E) where
  Resolves-Permᴰ :
      {m m' : Places} (xs : List E)
      → Permᴰ m m'
      → Resolves key journal m xs
      → (ys : List E) × Resolves key journal m' ys × Permᴰ xs ys
  Resolves-Permᴰ [] Permᴰ.nil r = ([], tt, Permᴰ.nil)
  Resolves-Permᴰ (x ∷ xs) Permᴰ.nil r = absurd r
  Resolves-Permᴰ [] (Permᴰ.cons e p) r = absurd r
  Resolves-Permᴰ (x ∷ xs) (Permᴰ.cons e p) r =
      let (ys, s, q) = Resolves-Permᴰ xs p r.2 in (x ∷ ys, ground arith, Permᴰ.cons refl q)
  Resolves-Permᴰ [] (Permᴰ.swap e f) r = absurd r
  Resolves-Permᴰ (x ∷ []) (Permᴰ.swap e f) r = absurd r.2
  Resolves-Permᴰ (x ∷ y ∷ xs) (Permᴰ.swap e f) r = (y ∷ x ∷ xs, ground arith, Permᴰ.swap refl refl)
  Resolves-Permᴰ xs (Permᴰ.trans p q) r =
      let (ys, s, p') = Resolves-Permᴰ xs p r in
      let (zs, t, q') = Resolves-Permᴰ ys q s in (zs, t, Permᴰ.trans p' q')

length-Permᴰ : {E : Type 0} {xs ys : List E} → Permᴰ xs ys → length xs ≡ length ys
length-Permᴰ Permᴰ.nil = refl
length-Permᴰ (Permᴰ.cons e p) = ap suc (length-Permᴰ p)
length-Permᴰ (Permᴰ.swap e f) = refl
length-Permᴰ (Permᴰ.trans p q) = length-Permᴰ p ∙ length-Permᴰ q

module _ {E : Type 0} (key : E → ℕ) where
  length-insert_entry : (e : E) (xs : List E) → length (insert_entry key e xs) ≤ suc (length xs)
  length-insert_entry e [] = omega arith
  length-insert_entry e (x ∷ xs) = ground (arith, length-insert_entry e xs)

  length-merge_into : (xs es : List E) → length (merge_into key xs es) ≤ length xs + length es
  length-merge_into xs [] = omega arith
  length-merge_into xs (e ∷ es) =
      omega (arith, length-merge_into (insert_entry key e xs) es, length-insert_entry e xs)

  length-Resolves :
      (journal : List E) (m : Places) (xs : List E)
      → Resolves key journal m xs
      → length m ≡ length xs
  length-Resolves journal [] [] r = refl
  length-Resolves journal [] (x ∷ xs) r = absurd r
  length-Resolves journal ((k, i) ∷ m) [] r = absurd r
  length-Resolves journal ((k, i) ∷ m) (x ∷ xs) r = ap suc (length-Resolves journal m xs r.2)

  module _ (kind : Kind E) (lawful : IsLawful kind) where
    collect-Collects :
        (journal : List E) (m : Places) (xs : List E) (w : Writer)
        → Resolves key journal m xs
        → IsLaid w
        → 4 + length xs * kind.entry_size < 2 ^ 64
        → Collects kind xs w (collect kind journal m w)
    unfolding collect prepare_output
    collect-Collects journal m xs w r laid word =
        collect_vector-Collects kind lawful key (2 * length m + 2) (prepare_output journal m) w xs
          (record { resolves = r; counted = length-Resolves journal m xs r }) laid word
          (ground (arith, length-Resolves journal m xs r))

    -- The merged entries of a journal, in the order in which the map is gone through.
    collect_unless_empty-Collects :
        (arrange : Places → Places) (journal : List E) (w : Writer)
        → ((m : Places) → Permᴰ m (arrange m))
        → IsLaid w
        → 4 + length journal * kind.entry_size < 2 ^ 64
        → (ys : List E) × Permᴰ (merge_into key [] journal) ys
          × Collects kind ys w (collect_unless_empty kind arrange key journal w)
    collect_unless_empty-Collects arrange [] w rearranges laid word =
        ([], Permᴰ.nil, Collects-end kind lawful w [] refl laid)
    collect_unless_empty-Collects arrange (x ∷ xs) w rearranges laid word =
        let merged = generate_output_vector-Resolves key (x ∷ xs) in
        let (ys, resolves, same) =
          Resolves-Permᴰ key (x ∷ xs) (merge_into key [] (x ∷ xs)) (rearranges _) merged in
        (
          ys,
          same,
          collect-Collects (x ∷ xs) _ ys w resolves laid (
              omega (
                arith,
                word,
                mul-le-mul_right {m = length ys} {n = length (x ∷ xs)} kind.entry_size
                    (omega (arith, length-Permᴰ same, length-merge_into [] (x ∷ xs))),
              )),
        )

    collect_sorted-Collects :
        (journal : List E) (w : Writer)
        → IsLaid w
        → 4 + length journal * kind.entry_size < 2 ^ 64
        → Collects kind
            (merge_into key [] journal)
            w
            (collect_unless_empty kind (λ m. m) key journal w)
    collect_sorted-Collects [] w laid word = Collects-end kind lawful w [] refl laid
    collect_sorted-Collects (x ∷ xs) w laid word =
        collect-Collects (x ∷ xs) _ (merge_into key [] (x ∷ xs)) w
          (generate_output_vector-Resolves key (x ∷ xs)) laid
          (omega (
            arith,
            word,
            mul-le-mul_right {m = length (merge_into key [] (x ∷ xs))} {n = length (x ∷ xs)}
                kind.entry_size (omega (arith, length-merge_into [] (x ∷ xs))),
          ))

buffer_start-IsLaid : IsLaid buffer_start
buffer_start-IsLaid = record { blocks = tt; framed = tt; tail = refl; room = omega arith }

abbrev pub end_item : Item
end_item = record { len = 4; type = journal_type_end; payload = nothing }

-- What a reader gets from three vectors in turn and the end.
read_in_turn :
    {F : Type 0} (pick : Payload → List F) (w1 w2 w3 : Writer) (a b c : List F)
    → pick nothing ≡ []
    → read_back pick w1 ≡ read_back pick buffer_start ++ a
    → read_back pick w2 ≡ read_back pick w1 ++ b
    → read_back pick w3 ≡ read_back pick w2 ++ c
    → read_back pick (append_end_entry w3) ≡ a ++ (b ++ c)
unfolding append_end_entry
read_in_turn pick w1 w2 w3 a b c skips e1 e2 e3 =
    ap (◌++◌ (read_blocks pick w3.full)) (
      read_items-snoc pick w3.current end_item
      ∙ ap (◌++◌ (read_items pick w3.current)) skips
      ∙ append-nil (read_items pick w3.current))
    ∙ e3
    ∙ ap (λ l. l ++ c) (e2 ∙ ap (λ l. l ++ b) e1)
    ∙ append_assoc a b c

-- Every journal whose vectors' sizes fit into words is collected: the loops end with no exception.
-- The number returned is that of the blocks. The items cover each block but the last to its end, the
-- last block ends with an `END` item within 4 KiB, and every header tells its item's type and length.
-- A reader that goes through the blocks gets the merged SIT entries and the merged NAT entries in
-- the order of their keys, and the merged super block entries in some order.
pub collect_pending_journal-reads :
    (order : Places → Places) (j : JournalContainer)
    → ((m : Places) → Permᴰ m (order m))
    → 4 + length j.sit_journal * 72 < 2 ^ 64
    → 4 + length j.nat_journal * 12 < 2 ^ 64
    → 4 + length j.super_block_journal * 8 < 2 ^ 64
    → (w : Writer) × (items : List Item) × (ys : List SuperBlockJournalEntry)
      × (collect_pending_journal_to_write_buffer order j ≡ some (length w.full + 1, w))
      × AllFull w.full
      × (w.current ≡ items ++ end_item ∷ [])
      × AllFramed items
      × (total_len items + 4 ≤ 4096)
      × (read_back read_sits w ≡ merge_into (λ e. e.seg_id) [] j.sit_journal)
      × (read_back read_nats w ≡ merge_into (λ e. e.nid) [] j.nat_journal)
      × (read_back read_supers w ≡ ys)
      × Permᴰ (merge_into (λ e. e.off) [] j.super_block_journal) ys
unfolding collect_pending_journal_to_write_buffer append_end_entry
collect_pending_journal-reads order j rearranges s n b =
    let (w1, done1, laid1, reads1) =
      collect_sorted-Collects (λ e. e.seg_id) sit_kind sit-IsLawful j.sit_journal buffer_start
        buffer_start-IsLaid s in
    let (w2, done2, laid2, reads2) =
      collect_sorted-Collects (λ e. e.nid) nat_kind nat-IsLawful j.nat_journal w1 laid1 n in
    let (ys, same, (w3, done3, laid3, reads3)) =
      collect_unless_empty-Collects (λ e. e.off) super_kind super-IsLawful order
        j.super_block_journal w2 rearranges laid2 b in
    (
      append_end_entry w3,
      w3.current,
      ys,
      ground arith,
      laid3.blocks,
      refl,
      laid3.framed,
      omega (arith, laid3.tail, laid3.room),
      read_in_turn read_sits w1 w2 w3 (merge_into (λ e. e.seg_id) [] j.sit_journal) [] [] refl
            (reads1 _ read_sits (record { skips = refl; starts = refl; appends = λ xs ys. refl }))
            (reads2 _ read_sits (record { skips = refl; starts = refl; appends = λ xs ys. refl }))
            (reads3 _ read_sits (record { skips = refl; starts = refl; appends = λ xs ys. refl }))
          ∙ append-nil _,
      read_in_turn read_nats w1 w2 w3 [] (merge_into (λ e. e.nid) [] j.nat_journal) [] refl
            (reads1 _ read_nats (record { skips = refl; starts = refl; appends = λ xs ys. refl }))
            (reads2 _ read_nats (record { skips = refl; starts = refl; appends = λ xs ys. refl }))
            (reads3 _ read_nats (record { skips = refl; starts = refl; appends = λ xs ys. refl }))
          ∙ append-nil _,
      read_in_turn read_supers w1 w2 w3 [] [] ys refl
          (reads1 _ read_supers (record { skips = refl; starts = refl; appends = λ xs ys. refl }))
          (reads2 _ read_supers (record { skips = refl; starts = refl; appends = λ xs ys. refl }))
          (reads3 _ read_supers (record { skips = refl; starts = refl; appends = λ xs ys. refl })),
      same,
    )
