-- ===== src/FileMapping/Shape.antt =====
-- The shape of the index tree, described without the code: what the slots of a node lead to, and
-- the preorder numbers of the nodes.
use hscfs.Base.{ℕ, zero, suc, ◌+◌, ◌*◌, ◌<◌, ◌≡◌, List, [], ◌∷◌, ◌==◌, if◌then◌else◌}

-- The number of nodes of a subtree: a direct node has height 0.
abbrev pub subtree_nodes : ℕ → ℕ
subtree_nodes zero = 1
subtree_nodes (suc h) = 1 + 1020 * subtree_nodes h

-- The number of blocks under a subtree.
abbrev pub subtree_blocks : ℕ → ℕ
subtree_blocks zero = 1020
subtree_blocks (suc h) = 1020 * subtree_blocks h

-- The five subtrees that the inode points to, from the slot 933 on: two direct nodes, two indirect
-- ones and a double indirect one.
abbrev pub slot_height : ℕ → ℕ
slot_height slot =
    if slot == 933
    then 0
    else if slot == 934
    then 0
    else if slot == 935
    then 1
    else if slot == 936
    then 1
    else 2

abbrev pub blocks_before_slot : ℕ → ℕ
blocks_before_slot slot =
    if slot == 933
    then 932
    else if slot == 934
    then 932 + subtree_blocks 0
    else if slot == 935
    then 932 + 2 * subtree_blocks 0
    else if slot == 936
    then 932 + 2 * subtree_blocks 0 + subtree_blocks 1
    else 932 + 2 * subtree_blocks 0 + 2 * subtree_blocks 1

abbrev pub nodes_before_slot : ℕ → ℕ
nodes_before_slot slot =
    if slot == 933
    then 1
    else if slot == 934
    then 1 + subtree_nodes 0
    else if slot == 935
    then 1 + 2 * subtree_nodes 0
    else if slot == 936
    then 1 + 2 * subtree_nodes 0 + subtree_nodes 1
    else 1 + 2 * subtree_nodes 0 + 2 * subtree_nodes 1

-- The block that a row of slots below a subtree leads to.
abbrev pub digits_value : ℕ → List ℕ → ℕ
digits_value acc [] = acc
digits_value acc (d ∷ ds) = digits_value (acc * 1020 + d) ds

abbrev pub block_at : List ℕ → ℕ
block_at [] = 0
block_at (slot ∷ []) = slot
block_at (slot ∷ d ∷ ds) = blocks_before_slot slot + digits_value 0 (d ∷ ds)

-- The preorder numbers of the nodes that a row of slots goes through; the last slot is that of the
-- block. `n` is the number of the node at hand, of height `h`.
abbrev pub numbers_below : ℕ → ℕ → List ℕ → List ℕ
numbers_below h n [] = []
numbers_below h n (d ∷ []) = n ∷ []
numbers_below zero n (d ∷ e ∷ ds) = n ∷ []
numbers_below (suc h) n (d ∷ e ∷ ds) = n ∷ numbers_below h (n + 1 + d * subtree_nodes h) (e ∷ ds)

abbrev pub preorder_numbers : List ℕ → List ℕ
preorder_numbers [] = []
preorder_numbers (slot ∷ []) = 0 ∷ []
preorder_numbers (slot ∷ d ∷ ds) =
    0 ∷ numbers_below (slot_height slot) (nodes_before_slot slot) (d ∷ ds)

-- `n` slots, each within a node block.
abbrev pub InBlock : ℕ → List ℕ → Type 0
InBlock zero ds = ds ≡ []
InBlock (suc n) [] = ⊥
InBlock (suc n) (d ∷ ds) = (d < 1020) × InBlock n ds
