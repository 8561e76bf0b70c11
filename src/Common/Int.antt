-- ===== src/Common/Int.antt =====
-- Go's signed integers over the native numbers, and the conversions between widths.
use mx_chain_simulator_go.Common.{
  ℕ, ◌+◌, ◌-◌, ◌%◌, ◌^◌, ◌<◌, ◌≡◌, Bool, true, false, arith, ltb, if◌then◌else◌,
}

-- `negsuc n` is -(n + 1).
pub data ℤ : Type 0 where
  pos : ℕ → ℤ
  negsuc : ℕ → ℤ

-- -n, as an integer.
abbrev pub neg : ℕ → ℤ
neg n = if ltb 0 n then negsuc (n - 1) else pos 0

-- `z <= 0`
abbrev pub is_nonpositive : ℤ → Bool
is_nonpositive (pos n) = if ltb 0 n then false else true
is_nonpositive (negsuc _) = true

-- The rounds of `for i := 0; i < z; i++`.
abbrev pub rounds : ℤ → ℕ
rounds (pos n) = n
rounds (negsuc _) = 0

-- `uint32(z)` for an `int` z: the value modulo 2 ^ 32.
unfoldable pub uint32 : ℤ → ℕ
uint32 (pos n) = n % 2 ^ 32
uint32 (negsuc n) = 2 ^ 32 - 1 - n % 2 ^ 32

-- The signed reading of 32 bits.
abbrev pub signed32 : ℕ → ℤ
signed32 u = if ltb u (2 ^ 31) then pos u else negsuc (2 ^ 32 - 1 - u)

-- `int32(z)` for an `int` z.
unfoldable pub int32 : ℤ → ℤ
unfolding uint32
int32 z = signed32 (uint32 z)

-- The range of a 64-bit `int`.
abbrev pub IsInt64 : ℤ → Type 0
IsInt64 (pos n) = n < 2 ^ 63
IsInt64 (negsuc n) = n < 2 ^ 63

pub uint32-lt : (z : ℤ) → uint32 z < 2 ^ 32
unfolding uint32
uint32-lt (pos n) = omega arith
uint32-lt (negsuc n) = omega arith

-- A conversion to 32 bits keeps what fits.
pub int32_of_small : (n : ℕ) → n < 2 ^ 31 → int32 (pos n) ≡ pos n
unfolding int32
int32_of_small n h = ground arith

pub int32_add_modulus : (n : ℕ) → int32 (pos (n + 2 ^ 32)) ≡ int32 (pos n)
unfolding int32
int32_add_modulus n = rw (cut n)
  where
    cut : (m : ℕ) → (m + 2 ^ 32) % 2 ^ 32 ≡ m % 2 ^ 32
    cut m = omega arith
