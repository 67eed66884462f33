-- ===== src/Prelude/Words.antt =====
-- Machine words: an unsigned w-bit value is a number below 2 ^ w, with the wrap written out.
use Prim.Native.Nat.{ℕ, ◌+◌, ◌-◌, ◌%◌, ◌^◌}

abbrev pub u16_mod : ℕ
u16_mod = 2 ^ 16

abbrev pub u32_mod : ℕ
u32_mod = 2 ^ 32

abbrev pub u64_mod : ℕ
u64_mod = 2 ^ 64

-- `a + b` in uint64_t.
abbrev pub add64 : ℕ → ℕ → ℕ
add64 a b = (a + b) % u64_mod

-- `a - b` in uint64_t, for values of that type.
abbrev pub sub64 : ℕ → ℕ → ℕ
sub64 a b = (a + u64_mod - b) % u64_mod

-- `++a` in uint32_t.
abbrev pub inc32 : ℕ → ℕ
inc32 a = (a + 1) % u32_mod
