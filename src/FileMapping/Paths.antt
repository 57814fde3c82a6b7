-- ===== src/FileMapping/Paths.antt =====
-- What `get_node_path` computes: the path leads to the block, its slots exist, and the node numbers
-- are the preorder numbers of the index tree.
use hscfs.Base.{
  ℕ, ◌+◌, ◌≤◌, ◌<◌, ◌≡◌, ◌↔◌, ◌⊎◌, inl, inr, zero, suc, List, [], ◌∷◌, none, some, arith,
}
use hscfs.FileMapping.{NodePath, max_blkno_limit, get_node_path}
use hscfs.FileMapping.Shape.{block_at, preorder_numbers, slot_height, InBlock}

-- The slots of a path exist in the nodes that it goes through.
abbrev pub SlotsExist : ℕ → List ℕ → Type 0
SlotsExist level [] = ⊥
SlotsExist level (slot ∷ ds) =
    ((level ≡ 0) × (slot < 932) × (ds ≡ []))
    ⊎ ((933 ≤ slot) × (slot < 938) × (level ≡ 1 + slot_height slot) × InBlock level ds)

-- A block has a path exactly when its number is below the limit of the file size.
pub get_node_path-eq_none_iff :
    (block : ℕ) → (get_node_path block ≡ none) ↔ (max_blkno_limit ≤ block)
unfolding get_node_path
get_node_path-eq_none_iff block = (λ h. ground arith, λ h. ground arith)

-- The path of a block leads to it: its slots exist in the nodes that it goes through, the slots lead
-- to the block, and the node numbers are the preorder numbers of the nodes in the index tree.
pub get_node_path-leads_to_block :
    (block : ℕ) {p : NodePath}
    → get_node_path block ≡ some p
    → SlotsExist p.level p.offset
      × (block_at p.offset ≡ block)
      × (p.noffset ≡ preorder_numbers p.offset)
unfolding get_node_path
get_node_path-leads_to_block block h = (ground arith, ground arith, ground arith)

-- The path that the tree prescribes for a row of slots.
abbrev pub path_of_slots : ℕ → List ℕ → NodePath
path_of_slots level slots = record {
  level = level;
  offset = slots;
  noffset = preorder_numbers slots;
}

-- Every row of slots that exists is the path of the block that it leads to.
pub get_node_path-path_of_slots :
    (level : ℕ) (slots : List ℕ)
    → SlotsExist level slots
    → get_node_path (block_at slots) ≡ some (path_of_slots level slots)
unfolding get_node_path
get_node_path-path_of_slots level [] h = absurd h
get_node_path-path_of_slots level (s ∷ []) (inl h) = ground arith
get_node_path-path_of_slots zero (s ∷ []) (inr h) = ground arith
get_node_path-path_of_slots (suc l) (s ∷ []) (inr h) = absurd h.3
get_node_path-path_of_slots level (s ∷ a ∷ ds) (inl h) = ground arith
get_node_path-path_of_slots (suc zero) (s ∷ a ∷ []) (inr h) = ground arith
get_node_path-path_of_slots (suc (suc zero)) (s ∷ a ∷ b ∷ []) (inr h) = ground arith
get_node_path-path_of_slots (suc (suc (suc zero))) (s ∷ a ∷ b ∷ c ∷ []) (inr h) = ground arith
get_node_path-path_of_slots zero (s ∷ a ∷ ds) (inr h) = ground arith
get_node_path-path_of_slots l (s ∷ a ∷ ds) (inr h) = ground arith
