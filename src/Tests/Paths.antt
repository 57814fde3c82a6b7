-- ===== src/Tests/Paths.antt =====
-- Runs of the theorems on the path /a/bcd.
use hscfs.Base.{ℕ, ◌+◌, ◌%◌, ◌<◌, ◌≡◌, ◌≢◌, ◌↔◌, List, [], ◌∷◌, some, arith, length}
use hscfs.Path.{begin, names_from, construct_task, PathLookupTask, header_size}
use hscfs.Path.Names.{names_of, names_from-begin}
use hscfs.Path.Request.{construct_task-Builds}

abbrev path : List ℕ
path = 47 ∷ 97 ∷ 47 ∷ 47 ∷ 98 ∷ 99 ∷ []

abbrev names : List (List ℕ)
names = (97 ∷ []) ∷ (98 ∷ 99 ∷ []) ∷ []

names_from-begin_example : names_from 7 path (begin path) ≡ some names
names_from-begin_example = names_from-begin path

some_name : names ≢ []
some_name e = ground (arith, e)

construct_task-Builds_example :
    (t : PathLookupTask) × (construct_task path 2 (begin path) ≡ some t)
    × (t.start_ino ≡ 2)
    × (t.depth ≡ 2)
    × (names_of t.path_string ≡ names)
    × (length t.path_string ≡ t.pathlen + 1)
    × ((t.task_size < header_size + length t.path_string) ↔ (t.pathlen % 4 ≡ 0))
construct_task-Builds_example = construct_task-Builds path 2 some_name
