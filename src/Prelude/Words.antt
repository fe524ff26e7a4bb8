-- ===== src/Prelude/Words.antt =====
-- Unsigned machine words: values are native numbers, and what can wrap is reduced.
use win_hook_audio.Prelude.{ℕ, ◌+◌, ◌-◌, ◌%◌, ◌^◌}

-- The value of an expression stored to an `unsigned` / `uint32_t`.
abbrev pub u32 : ℕ → ℕ
u32 n = n % 2 ^ 32

-- `a - b` on `uint32_t`.
abbrev pub sub32 : ℕ → ℕ → ℕ
sub32 a b = u32 (a + 2 ^ 32 - b)

-- The value of an expression stored to a `uint64_t` / `size_t`.
abbrev pub u64 : ℕ → ℕ
u64 n = n % 2 ^ 64

-- `a - b` on `uint64_t`.
abbrev pub sub64 : ℕ → ℕ → ℕ
sub64 a b = u64 (a + 2 ^ 64 - b)
