-- ===== src/Ring/Round.antt =====
-- Rounding up to a multiple, as `gsgpu_ring_alloc` and `gsgpu_ring_commit` compute it.
use loongson_gsgpu_dkms_modu.Base.{
  ℕ, ◌+◌, ◌-◌, ◌*◌, ◌/◌, ◌%◌, ◌^◌, ◌≤◌, ◌<◌, ◌≡◌, ap, ◌∙◌, u32_mod, low_mask, bit_and-high_mask,
  pow-pos, arith,
}
use native.Mathlib.Nat.{
  mod-eq_of_lt, mod-lt, div-add-mod, pow-le-pow_right, mod_self, mul-mod_right, le-div_iff_mul-le,
  div-mul-le_self, mul-add-div, div-eq_of_lt,
}
use native.Mathlib.Decide.{ℕ_discrete}
use loongson_gsgpu_dkms_modu.Ring.{align_up}

-- The least multiple of `m` that is at least `n`.
unfoldable pub round_up : ℕ → ℕ → ℕ
round_up m n = m * ((n + (m - 1)) / m)

pub le-round_up : (m n : ℕ) → 0 < m → n ≤ round_up m n
unfolding round_up
le-round_up m n h = omega (arith, div-add-mod (n + (m - 1)) m, mod-lt (n + (m - 1)) h)

pub round_up-lt : (m n : ℕ) → 0 < m → round_up m n < n + m
unfolding round_up
round_up-lt m n h = omega (arith, div-add-mod (n + (m - 1)) m)

pub round_up-mod : (m n : ℕ) → round_up m n % m ≡ 0
unfolding round_up
round_up-mod m n = mul-mod_right m ((n + (m - 1)) / m)

div_mono : (m i j : ℕ) → 0 < m → i ≤ j → i / m ≤ j / m
div_mono m i j p h = (le-div_iff_mul-le p).1 (omega (arith, div-mul-le_self i m))

pub round_up_mono : (m i j : ℕ) → 0 < m → i ≤ j → round_up m i ≤ round_up m j
unfolding round_up
round_up_mono m i j p h = grind (arith, div_mono m (i + (m - 1)) (j + (m - 1)) p (omega arith))

-- What is missing to the next multiple.
pub add-missing : (m n : ℕ) → 0 < m → n + (m - n % m) % m ≡ round_up m n
unfolding round_up
add-missing m n h = elim (ℕ_discrete (n % m) 0) [
  | yes e ↦
      let sum : n + (m - 1) ≡ m * (n / m) + (m - 1) = omega (arith, div-add-mod n m) in
      let quo : (m * (n / m) + (m - 1)) / m ≡ n / m + 0 =
        mul-add-div h (n / m) (m - 1) ∙ ap (λ (t : ℕ). n / m + t) (div-eq_of_lt (omega arith)) in
      let full : (m - 0) % m ≡ 0 = ap (λ (t : ℕ). t % m) (omega arith) ∙ mod_self m in
      rw (sum, quo, e, full) (omega (arith, div-add-mod n m))
  | no ne ↦
      let low = mod-lt n h in
      let sum : n + (m - 1) ≡ m * (n / m + 1) + (n % m - 1) = omega (arith, div-add-mod n m) in
      let quo : (m * (n / m + 1) + (n % m - 1)) / m ≡ n / m + 1 + 0 =
        mul-add-div h (n / m + 1) (n % m - 1)
        ∙ ap (λ (t : ℕ). n / m + 1 + t) (div-eq_of_lt (omega arith)) in
      let rest : (m - n % m) % m ≡ m - n % m = mod-eq_of_lt (omega arith) in
      rw (sum, quo, rest) (omega (arith, div-add-mod n m))
]

pub pow-le-30 : {k : ℕ} → k ≤ 30 → 2 ^ k ≤ 2 ^ 30
pow-le-30 h = pow-le-pow_right (omega arith) h

-- The request that `gsgpu_ring_alloc` rounds up, where the sum does not wrap.
pub align_up-round_up :
    (a ndw : ℕ) → a ≤ 30 → ndw + 2 ^ a ≤ u32_mod → align_up (low_mask a) ndw ≡ round_up (2 ^ a) ndw
unfolding align_up round_up
align_up-round_up a ndw h fits =
    let m = 2 ^ a in
    let p = pow-pos a in
    let sum : (ndw + low_mask a) % u32_mod ≡ ndw + (m - 1) = mod-eq_of_lt (omega arith) in
    let clear = bit_and-high_mask (ndw + (m - 1)) a 32 (omega arith) (omega arith) in
    rw sum (clear ∙ omega (arith, div-add-mod (ndw + (m - 1)) m))
