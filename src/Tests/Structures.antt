-- ===== src/Tests/Structures.antt =====
-- The index tree, descriptors and replace protection.
use hscfs.Base.{ℕ, ◌≡◌, inr, refl, [], ◌∷◌, some, nat_key, arith}
use hscfs.Base.Outcome.{done}
use hscfs.FdArray
use hscfs.FdArray.{FdArray}
use hscfs.FdArray.Laws as FdLaws
use hscfs.FileMapping.Pointers.{Node, inode}
use hscfs.ReplaceProtect.{
  TransactionReplaceProtectRecord, ReplaceProtectManager, add_tx, notify_first,
  mark_protect_process_cplt, all_protect_task_cplt,
}
use hscfs.ReplaceProtect.Conservation
use hscfs.FileMapping.{get_node_path, NodePath}
use hscfs.FileMapping.Shape.{block_at, preorder_numbers}
use hscfs.FileMapping.Paths.{
  SlotsExist, path_of_slots, get_node_path-leads_to_block, get_node_path-path_of_slots,
}
use hscfs.Tests.Data.{journal}

abbrev path_1000 : NodePath
path_1000 = record { level = 1; offset = 933 ∷ 68 ∷ []; noffset = 0 ∷ 1 ∷ [] }

get_node_path-leads_to_block_example :
    SlotsExist 1 (933 ∷ 68 ∷ [])
    × (block_at (933 ∷ 68 ∷ []) ≡ 1000)
    × ((0 ∷ 1 ∷ []) ≡ preorder_numbers (933 ∷ 68 ∷ []))
unfolding get_node_path
get_node_path-leads_to_block_example = get_node_path-leads_to_block 1000 {p = path_1000} refl

slots_exist : SlotsExist 1 (933 ∷ 68 ∷ [])
slots_exist = inr (omega arith, omega arith, refl, ground arith)

get_node_path-path_of_slots_example :
    get_node_path (block_at (933 ∷ 68 ∷ [])) ≡ some (path_of_slots 1 (933 ∷ 68 ∷ []))
get_node_path-path_of_slots_example = get_node_path-path_of_slots 1 (933 ∷ 68 ∷ []) slots_exist

with_file :
    (fd : ℕ) × (a' : FdArray) × (FdArray.alloc_fd (FdArray.create 8) 77 ≡ done fd a')
    × FdLaws.Opens (FdArray.create 8) a' fd 77
with_file = FdLaws.alloc_fd-Opens (FdArray.create 8) 77 (FdLaws.create-IsValid 8)

-- Pointers of the index tree.
abbrev blank : Node
blank = inode (λ i. 0) (λ i. 0)

-- The protection of applied transactions.
abbrev protection : TransactionReplaceProtectRecord
protection = record {
  tx_id = 7;
  tx_journal = journal;
  uncommit_node_segs = [];
  uncommit_data_segs = [];
}

abbrev no_protection : ReplaceProtectManager
no_protection = record { trp_list = []; protect_processing_tx = []; posted = [] }

all_protect_task_cplt-marked_example :
    Conservation.adds 7
      (Conservation.added protection ∷ Conservation.notified 7 ∷ Conservation.marked 7 ∷ [])
    ≡ Conservation.marks 7
        (Conservation.added protection ∷ Conservation.notified 7 ∷ Conservation.marked 7 ∷ [])
unfolding Conservation.run Conservation.step add_tx notify_first mark_protect_process_cplt
    all_protect_task_cplt
all_protect_task_cplt-marked_example =
    Conservation.all_protect_task_cplt-marked 7
      (Conservation.added protection ∷ Conservation.notified 7 ∷ Conservation.marked 7 ∷ [])
      {m' = record no_protection { posted = protection ∷ [] }} refl refl
