-- ===== src/Common/Int.antt =====
-- Signed sequence numbers: a number that starts at -1 and counts up. Under the library's names, over
-- the native numbers.
use Prim.Native.Nat.{ℕ, zero, suc}
use mathlib.Core.Bool.{Bool, true, false}
use mathlib.Core.Option.{Option, none, some}
use mathlib.Core.Path.{◌≡◌, refl}
use pluto_agent_platform.Common.Tests.{leb}

-- `negsuc n` is -(n + 1).
pub data ℤ : Type 0 where
  pos : ℕ → ℤ
  negsuc : ℕ → ℤ

abbrev pub minus_one : ℤ
minus_one = negsuc 0

-- z + 1.
abbrev pub suc_ℤ : ℤ → ℤ
suc_ℤ (pos n) = pos (suc n)
suc_ℤ (negsuc zero) = pos 0
suc_ℤ (negsuc (suc n)) = negsuc n

-- n - 1.
abbrev pub pred_ℕ : ℕ → ℤ
pred_ℕ zero = negsuc 0
pred_ℕ (suc n) = pos n

-- The natural number that an integer is, where it is one.
abbrev pub nonnegative : ℤ → Option ℕ
nonnegative (pos n) = some n
nonnegative (negsuc n) = none

abbrev pub leb_ℤ : ℤ → ℤ → Bool
leb_ℤ (pos a) (pos b) = leb a b
leb_ℤ (pos a) (negsuc b) = false
leb_ℤ (negsuc a) (pos b) = true
leb_ℤ (negsuc a) (negsuc b) = leb b a

pub suc_ℤ-pred_ℕ : (n : ℕ) → suc_ℤ (pred_ℕ n) ≡ pos n
suc_ℤ-pred_ℕ zero = refl
suc_ℤ-pred_ℕ (suc n) = refl
