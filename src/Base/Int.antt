-- ===== src/Base/Int.antt =====
-- C's `int`, as the results of libzmq and the sizes of messages use it.
use Prim.Native.Nat.{ℕ, suc, zero, ◌+◌, ◌-◌, ◌%◌, ◌^◌, ◌<◌}
use mathlib.Core.Path.{◌≡◌, refl}
use mathlib.Core.Bool.{Bool, true, false}
use mathlib.Core.Option.{Option, none, some}
use native.Mathlib.Omega.{arith}
use zeromq_agent.Base.Tests.{ltb, ◌==◌, if◌then◌else◌}

-- `negsuc n` is -(n + 1).
pub data ℤ : Type 0 where
  pos : ℕ → ℤ
  negsuc : ℕ → ℤ

-- `x != 0`, as it stands in the tests for errors
abbrev pub is_nonzero : ℤ → Bool
is_nonzero (pos zero) = false
is_nonzero (pos (suc _)) = true
is_nonzero (negsuc _) = true

-- `x < 0`
abbrev pub is_negative : ℤ → Bool
is_negative (pos _) = false
is_negative (negsuc _) = true

-- The conversion of a `size_t` to a 32-bit `int`.
unfoldable pub to_int : ℕ → ℤ
to_int n = if ltb (n % 2 ^ 32) (2 ^ 31) then pos (n % 2 ^ 32) else negsuc (2 ^ 32 - 1 - n % 2 ^ 32)

-- The conversion of an `int` to a 64-bit `size_t`.
unfoldable pub to_size : ℤ → ℕ
to_size (pos n) = n
to_size (negsuc n) = 2 ^ 64 - 1 - n

-- `x + 1` on `int`; `none` is the overflow.
unfoldable pub increment : ℤ → Option ℤ
increment (pos n) = if n == 2 ^ 31 - 1 then none else some (pos (n + 1))
increment (negsuc zero) = some (pos 0)
increment (negsuc (suc n)) = some (negsuc n)

pub to_int-eq_of_lt : (n : ℕ) → n < 2 ^ 31 → to_int n ≡ pos n
unfolding to_int
to_int-eq_of_lt n h = ground arith

pub increment-pos : (n : ℕ) → n < 2 ^ 31 - 1 → increment (pos n) ≡ some (pos (n + 1))
unfolding increment
increment-pos n h = ground arith

pub to_size-pos : (n : ℕ) → to_size (pos n) ≡ n
unfolding to_size
to_size-pos n = refl
