-- ===== src/Base/Ints.antt =====
-- `int` counts that may fall below 0.
use Prim.Native.Nat.{ℕ, zero, suc}
use mathlib.Core.Path.{◌≡◌, refl}
use mathlib.Core.Bool.{Bool, true, false}
use native.Mathlib.Omega.{arith}

-- `negsuc n` is -(n + 1).
pub data ℤ : Type 0 where
  pos : ℕ → ℤ
  negsuc : ℕ → ℤ

unfoldable pub incr : ℤ → ℤ
incr (pos n) = pos (suc n)
incr (negsuc zero) = pos 0
incr (negsuc (suc n)) = negsuc n

unfoldable pub decr : ℤ → ℤ
decr (pos zero) = negsuc 0
decr (pos (suc n)) = pos n
decr (negsuc n) = negsuc (suc n)

-- `0 < x`.
unfoldable pub is_pos : ℤ → Bool
is_pos (pos zero) = false
is_pos (pos (suc n)) = true
is_pos (negsuc n) = false

-- One less is not more.
pub is_pos-decr : (x : ℤ) → is_pos x ≡ false → is_pos (decr x) ≡ false
unfolding is_pos decr
is_pos-decr (pos zero) h = refl
is_pos-decr (pos (suc n)) h = ground arith
is_pos-decr (negsuc n) h = refl
