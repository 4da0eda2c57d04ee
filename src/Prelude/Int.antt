-- ===== src/Prelude/Int.antt =====
-- Integers over the native numbers, for the signed values that nginx and the kernel hand over
-- (`off_t`, `ngx_int_t`), and the conversions of machine words.
use Prim.Native.Nat.{ℕ, suc, ◌+◌, ◌-◌, ◌%◌, ◌^◌}
use mathlib.Core.Bool.{Bool, false}
use ngx_inference.Prelude.Tests.{if◌then◌else◌, leb, ltb, ◌==◌}

-- `negsuc n` is -(n + 1).
pub data ℤ : Type 0 where
  pos : ℕ → ℤ
  negsuc : ℕ → ℤ

-- The test `z == n` for a literal that is not negative.
abbrev pub eq_nat : ℤ → ℕ → Bool
eq_nat (pos n) k = n == k
eq_nat (negsuc n) k = false

-- The test `z > 0`.
abbrev pub is_positive : ℤ → Bool
is_positive (pos n) = ltb 0 n
is_positive (negsuc n) = false

-- The test `z >= n` for a literal that is not negative.
abbrev pub ge_nat : ℤ → ℕ → Bool
ge_nat (pos n) k = leb k n
ge_nat (negsuc n) k = false

abbrev pub sub_ℕ : ℕ → ℕ → ℤ
sub_ℕ a b = if leb b a then pos (a - b) else negsuc (b - a - 1)

infixl 65 ◌-ℤ◌
abbrev pub ◌-ℤ◌ : ℤ → ℤ → ℤ
pos a -ℤ pos b = sub_ℕ a b
pos a -ℤ negsuc b = pos (a + suc b)
negsuc a -ℤ pos b = negsuc (a + b)
negsuc a -ℤ negsuc b = sub_ℕ b a

abbrev pub word : ℕ
word = 2 ^ 64

-- `z as usize` on a 64-bit target: the value modulo 2^64.
abbrev pub as_usize : ℤ → ℕ
as_usize (pos n) = n % word
as_usize (negsuc n) = word - 1 - n % word

-- `a + b` on `usize` in a release build.
abbrev pub add_usize : ℕ → ℕ → ℕ
add_usize a b = (a + b) % word

abbrev pub i64_max : ℕ
i64_max = 9223372036854775807

-- `i64::saturating_add` of a number that is not negative.
abbrev pub saturating_add : ℤ → ℕ → ℤ
saturating_add (pos n) k = if leb (n + k) i64_max then pos (n + k) else pos i64_max
saturating_add (negsuc n) k = if leb (suc n) k then pos (k - suc n) else negsuc (n - k)
