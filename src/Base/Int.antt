-- ===== src/Base/Int.antt =====
-- Signed C integers. `negsuc n` is -(n + 1).
use Prim.Native.Nat.{ℕ, suc, ◌+◌, ◌-◌}
use mathlib.Core.Bool.{Bool, true}
use loongson_gsgpu_dkms_modu.Base.Tests.{leb, if◌then◌else◌}

pub data ℤ : Type 0 where
  pos : ℕ → ℤ
  negsuc : ℕ → ℤ

abbrev pub pos_part : ℤ → ℕ
pos_part (pos n) = n
pos_part (negsuc n) = 0

abbrev pub neg_part : ℤ → ℕ
neg_part (pos n) = 0
neg_part (negsuc n) = suc n

-- a - b, as an integer.
abbrev pub sub_ℕ : ℕ → ℕ → ℤ
sub_ℕ a b = if leb b a then pos (a - b) else negsuc (b - a - 1)

-- `i - n` for a number `n`.
abbrev pub sub_ℤℕ : ℤ → ℕ → ℤ
sub_ℤℕ i n = sub_ℕ (pos_part i) (neg_part i + n)

-- `i + n` for a number `n`.
abbrev pub add_ℤℕ : ℤ → ℕ → ℤ
add_ℤℕ i n = sub_ℕ (pos_part i + n) (neg_part i)

-- `i < n` and `i <= n` for a number `n`.
abbrev pub ltb_ℤℕ : ℤ → ℕ → Bool
ltb_ℤℕ (pos i) n = leb (suc i) n
ltb_ℤℕ (negsuc i) n = true

abbrev pub leb_ℤℕ : ℤ → ℕ → Bool
leb_ℤℕ (pos i) n = leb i n
leb_ℤℕ (negsuc i) n = true
