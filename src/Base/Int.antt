-- ===== src/Base/Int.antt =====
-- Signed integers over the native numbers, under the library's names.
use mathlib.Core.Bool.{Bool, true, false, not}
use Prim.Native.Nat.{ℕ, zero, suc, ◌+◌, ◌-◌}
use root_open_im_server.Base.Tests.{leb, if◌then◌else◌}

-- `negsuc n` is -(n + 1).
pub data ℤ : Type 0 where
  pos : ℕ → ℤ
  negsuc : ℕ → ℤ

-- `Add(1)` and `Add(-1)` on an atomic counter.
abbrev pub incr : ℤ → ℤ
incr (pos n) = pos (n + 1)
incr (negsuc n) = elim n [ zero ↦ pos 0 | suc m ↦ negsuc m ]

abbrev pub decr : ℤ → ℤ
decr (pos n) = elim n [ zero ↦ negsuc 0 | suc m ↦ pos m ]
decr (negsuc n) = negsuc (n + 1)

-- The difference of two integers, the first of them not negative.
abbrev pub subtract : ℕ → ℤ → ℤ
subtract a (pos b) = if leb b a then pos (a - b) else negsuc (b - a - 1)
subtract a (negsuc b) = pos (a + b + 1)

abbrev pub leb_ℤ : ℤ → ℤ → Bool
leb_ℤ (pos a) (pos b) = leb a b
leb_ℤ (pos a) (negsuc b) = false
leb_ℤ (negsuc a) (pos b) = true
leb_ℤ (negsuc a) (negsuc b) = leb b a

abbrev pub ltb_ℤ : ℤ → ℤ → Bool
ltb_ℤ a b = not (leb_ℤ b a)
