-- ===== src/Base/Cyclic.antt =====
-- Places on a ring of `m` slots.
use Prim.Native.Nat.{ℕ, ◌+◌, ◌-◌, ◌%◌, ◌<◌}
use mathlib.Core.Path.{◌≡◌, ap, ◌∙◌}
use mathlib.Core.Logic.{inl, inr}
use mathlib.Core.Bool.{false}
use native.Mathlib.Nat.{mod-eq_of_lt, mod-lt, mod-add-mod, add-mod_right}
use native.Mathlib.Omega.{arith}
use loongson_gsgpu_dkms_modu.Base.Tests.{ltb, ◌==◌, Bool-cases}

-- A step of less than a turn leads somewhere else.
pub ahead : (m a d : ℕ) → a < m → 0 < d → d < m → (a == (a + d) % m) ≡ false
ahead m a d la pd ld = elim (Bool-cases (ltb (a + d) m)) [
  | inl y ↦ let same : (a + d) % m ≡ a + d = mod-eq_of_lt (ground arith) in rw same (ground arith)
  | inr n ↦
      let round : (a + d) % m ≡ a + d - m =
        ap (λ (t : ℕ). t % m) (ground arith)
        ∙ add-mod_right (a + d - m) m
        ∙ mod-eq_of_lt (ground arith) in
      rw round (ground arith)
]

pub apart : (m a d : ℕ) → 0 < d → d < m → (a % m == (a + d) % m) ≡ false
apart m a d pd ld = rw (mod-add-mod a m d) at (ahead m (a % m) d (mod-lt a (omega arith)) pd ld)
