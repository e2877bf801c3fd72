-- ===== src/Base/Int.antt =====
-- The C `int` return codes: 0 and 1, or the negative of an errno value.
use Prim.Native.Nat.{ℕ, zero, suc}
use mathlib.Core.Bool.{Bool, true, false}
use lcap.Base.Tests.{◌==◌}

-- `negsuc n` is -(n + 1).
pub data ℤ : Type 0 where
  pos : ℕ → ℤ
  negsuc : ℕ → ℤ

abbrev pub neg : ℕ → ℤ
neg zero = pos 0
neg (suc n) = negsuc n

abbrev pub is_neg : ℤ → Bool
is_neg (pos n) = false
is_neg (negsuc n) = true

abbrev pub is_int : ℤ → ℤ → Bool
is_int (pos m) (pos n) = m == n
is_int (pos m) (negsuc n) = false
is_int (negsuc m) (pos n) = false
is_int (negsuc m) (negsuc n) = m == n

-- The Linux errno values that the code returns.
abbrev pub enoent : ℕ
enoent = 2

abbrev pub eagain : ℕ
eagain = 11

abbrev pub enomem : ℕ
enomem = 12

abbrev pub enodev : ℕ
enodev = 19

abbrev pub einval : ℕ
einval = 22

abbrev pub eproto : ℕ
eproto = 71

abbrev pub eoverflow : ℕ
eoverflow = 75

abbrev pub ealready : ℕ
ealready = 114

abbrev pub inc : ℤ → ℤ
inc (pos n) = pos (suc n)
inc (negsuc zero) = pos 0
inc (negsuc (suc n)) = negsuc n

abbrev pub dec : ℤ → ℤ
dec (pos zero) = negsuc 0
dec (pos (suc n)) = pos n
dec (negsuc n) = negsuc (suc n)
