-- ===== src/Prelude/Words.antt =====
-- Unsigned 32-bit and 64-bit arithmetic of the C sources, with the wrap-around written out.
use Prim.Native.Nat.{ℕ, ◌+◌, ◌-◌, ◌*◌, ◌%◌, ◌<◌}

abbrev pub uint32_max : ℕ
uint32_max = 4294967295

abbrev pub uint64_max : ℕ
uint64_max = 18446744073709551615

abbrev pub IsByte : ℕ → Type 0
IsByte n = n < 256

abbrev pub IsU32 : ℕ → Type 0
IsU32 n = n < 4294967296

abbrev pub IsU64 : ℕ → Type 0
IsU64 n = n < 18446744073709551616

abbrev pub add32 : ℕ → ℕ → ℕ
add32 a b = (a + b) % 4294967296

abbrev pub sub32 : ℕ → ℕ → ℕ
sub32 a b = (a + 4294967296 - b) % 4294967296

abbrev pub mul32 : ℕ → ℕ → ℕ
mul32 a b = (a * b) % 4294967296

abbrev pub add64 : ℕ → ℕ → ℕ
add64 a b = (a + b) % 18446744073709551616

abbrev pub sub64 : ℕ → ℕ → ℕ
sub64 a b = (a + 18446744073709551616 - b) % 18446744073709551616

abbrev pub mul64 : ℕ → ℕ → ℕ
mul64 a b = (a * b) % 18446744073709551616
