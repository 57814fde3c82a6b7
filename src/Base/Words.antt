-- ===== src/Base/Words.antt =====
-- Unsigned words: increments and decrements wrap around.
use Prim.Native.Nat.{ℕ, ◌+◌, ◌-◌, ◌%◌, ◌^◌}

abbrev pub succ32 : ℕ → ℕ
succ32 n = (n + 1) % 2 ^ 32

abbrev pub pred32 : ℕ → ℕ
pred32 n = (n + 2 ^ 32 - 1) % 2 ^ 32

abbrev pub succ64 : ℕ → ℕ
succ64 n = (n + 1) % 2 ^ 64

abbrev pub pred64 : ℕ → ℕ
pred64 n = (n + 2 ^ 64 - 1) % 2 ^ 64
