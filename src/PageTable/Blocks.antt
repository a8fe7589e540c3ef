-- ===== src/PageTable/Blocks.antt =====
-- Pages in blocks of `d`.
use loongson_gsgpu_dkms_modu.Base.{
  ℕ, ◌+◌, ◌-◌, ◌*◌, ◌/◌, ◌%◌, ◌≤◌, ◌<◌, ◌≡◌, ◌∙◌, arith, ap, sym, ◌≢◌, Bool-cases, leb, leb→le, inl,
  inr,
}
use native.Mathlib.Nat.{
  div-add-mod, add-mul-mod_self_left, mod-eq_of_lt, eq_of_mul-eq-mul_left, mod-lt,
}

-- A step that stays below `d` stays in the block.
pub same_block_mod : (d a j : ℕ) → a % d + j < d → (a + j) % d ≡ a % d + j
same_block_mod d a j lt =
    ap (λ (t : ℕ). t % d) (omega (arith, div-add-mod a d))
    ∙ add-mul-mod_self_left (a % d + j) d (a / d)
    ∙ mod-eq_of_lt lt

pub same_block_div : (d a j : ℕ) → a % d + j < d → (a + j) / d ≡ a / d
same_block_div d a j lt =
    eq_of_mul-eq-mul_left d (omega arith) ((a + j) / d) (a / d)
      (omega (arith, div-add-mod a d, div-add-mod (a + j) d, same_block_mod d a j lt))

-- From a page to the end of its block.
pub next_block_mod : (d a : ℕ) → 0 < d → (a + (d - a % d)) % d ≡ 0
next_block_mod d a pd =
    let lt : a % d < d = mod-lt a pd in
    ap (λ (t : ℕ). t % d) (omega (arith, div-add-mod a d))
    ∙ add-mul-mod_self_left 0 d (a / d + 1)
    ∙ mod-eq_of_lt pd

pub next_block_div : (d a : ℕ) → 0 < d → (a + (d - a % d)) / d ≡ a / d + 1
next_block_div d a pd = eq_of_mul-eq-mul_left d pd ((a + (d - a % d)) / d) (a / d + 1) (
    omega
      (arith, div-add-mod a d, div-add-mod (a + (d - a % d)) d, next_block_mod d a pd, mod-lt a pd))

-- A later page of another block is past the end of this one.
pub past_block : (d a q : ℕ) → 0 < d → a ≤ q → a / d ≢ q / d → a + (d - a % d) ≤ q
past_block d a q pd le apart = elim (Bool-cases (leb (a + (d - a % d)) q)) [
  | inl y ↦ leb→le (a + (d - a % d)) q y
  | inr n ↦
      let lt : a % d < d = mod-lt a pd in
      let step : a + (q - a) ≡ q = omega arith in
      absurd
        (apart (sym (ap (λ (t : ℕ). t / d) (sym step) ∙ same_block_div d a (q - a) (ground arith))))
]

-- Two pages of a block differ as their places in it do.
pub block_diff : (d a q : ℕ) → a / d ≡ q / d → a + q % d ≡ q + a % d
block_diff d a q e = omega (arith, div-add-mod a d, div-add-mod q d, ap (λ (t : ℕ). d * t) e)
