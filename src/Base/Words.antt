-- ===== src/Base/Words.antt =====
-- Unsigned machine words as natural numbers, and `x & (2^k - 1)` as a remainder.
use Prim.Native.Nat.{ℕ, zero, suc, ◌+◌, ◌-◌, ◌*◌, ◌/◌, ◌%◌, ◌^◌, ◌<◌, ◌≤◌, ◌∣◌, min, digits}
use Prim.Native.Nat.{bit_and, bit_and-bitwise}
use native.Mathlib.Nat.{
  pow-suc, one-le-pow, zero-mod, mod-lt, mod-one, mod-le, mod-mod_of_dvd, one-dvd,
  mul-dvd-mul_right, mod-eq_of_lt, div-add-mod, add-mul-mod_self_left,
}
use mathlib.Core.Path.{◌≡◌, ◌∙◌, sym, ap}
use native.Mathlib.Omega.{arith}

abbrev pub u32_mod : ℕ
u32_mod = 2 ^ 32

abbrev pub u64_mod : ℕ
u64_mod = 2 ^ 64

-- `a - b` on `uint32_t`, which wraps.
abbrev pub sub32 : ℕ → ℕ → ℕ
sub32 a b = (a + u32_mod - b) % u32_mod

-- `a - b` on `uint64_t`, which wraps.
abbrev pub sub64 : ℕ → ℕ → ℕ
sub64 a b = (a + u64_mod - b) % u64_mod

-- `k` ones.
abbrev pub low_mask : ℕ → ℕ
low_mask k = 2 ^ k - 1

zero_mod : (m : ℕ) → 0 ≡ 0 % m
zero_mod m = sym (zero-mod m)

mod_step : (a m h : ℕ) → m ≡ h * 2 → 0 < h → a % m ≡ a / 2 % h * 2 + a % 2
mod_step a m h e p =
    let low : ℕ = a / 2 % h * 2 + a % 2 in
    let split : a ≡ low + m * (a / 2 / h) =
      omega (arith, div-add-mod (a / 2) h, ap (λ (t : ℕ). t * (a / 2 / h)) e) in
    ap (λ (t : ℕ). t % m) split
    ∙ add-mul-mod_self_left low m (a / 2 / h)
    ∙ mod-eq_of_lt (omega (arith, mod-lt (a / 2) p))

mask_digits : (n k a : ℕ) → a ≤ n → digits (λ b. 0) min n a (low_mask k) ≡ a % 2 ^ k
mask_digits zero k zero h = zero_mod (2 ^ k)
mask_digits zero k (suc a) h = absurd (omega arith)
mask_digits (suc n) k zero h = zero_mod (2 ^ k)
mask_digits (suc n) zero (suc a) h = omega (arith, mask_digits n zero (suc a / 2) (omega arith))
mask_digits (suc n) (suc k) (suc a) h =
    let half : low_mask (suc k) / 2 ≡ low_mask k = omega (arith, pow-suc 2 k, one-le-pow k 2) in
    let odd : low_mask (suc k) % 2 ≡ 1 = omega (arith, pow-suc 2 k, one-le-pow k 2) in
    let ih = mask_digits n k (suc a / 2) (omega arith) in
    rw
      (
        half,
        odd,
        ih,
        mod_step (suc a) (2 ^ suc k) (2 ^ k) (omega (arith, pow-suc 2 k))
            (omega (arith, one-le-pow k 2)),
      )
      (omega arith)

-- A mask of `k` ones keeps the remainder by `2 ^ k`.
pub bit_and-low_mask : (a k : ℕ) → bit_and a (low_mask k) ≡ a % 2 ^ k
bit_and-low_mask a k = bit_and-bitwise a (low_mask k) ∙ mask_digits a k a (omega arith)

high_digits :
    (n k w a : ℕ)
    → a ≤ n
    → a < 2 ^ w
    → k ≤ w
    → digits (λ b. 0) min n a (low_mask w - low_mask k) ≡ a - a % 2 ^ k
high_digits zero k w zero h lt le = omega arith
high_digits zero k w (suc a) h lt le = absurd (omega arith)
high_digits (suc n) k w zero h lt le = omega arith
high_digits (suc n) zero w (suc a) h lt le =
    let full : low_mask w - low_mask 0 ≡ low_mask w = omega arith in
    rw full (mask_digits (suc n) w (suc a) h) ∙ mod-eq_of_lt lt ∙ omega (arith, mod-one (suc a))
high_digits (suc n) (suc k) zero (suc a) h lt le = absurd (omega arith)
high_digits (suc n) (suc k) (suc w) (suc a) h lt le =
    let kp = pow-suc 2 k in
    let wp = pow-suc 2 w in
    let kl = one-le-pow k 2 (omega arith) in
    let wl = one-le-pow w 2 (omega arith) in
    let half : (low_mask (suc w) - low_mask (suc k)) / 2 ≡ low_mask w - low_mask k = omega arith in
    let even : (low_mask (suc w) - low_mask (suc k)) % 2 ≡ 0 = omega arith in
    let ih = high_digits n k w (suc a / 2) (omega arith) (omega arith) (omega arith) in
    rw (half, even, ih)
      (omega (
        arith,
        mod_step (suc a) (2 ^ suc k) (2 ^ k) (omega arith) (omega arith),
        mod-le (suc a / 2) (2 ^ k),
      ))

-- The complement of a mask of `k` ones, on `w` bits, clears the `k` low bits.
pub bit_and-high_mask :
    (a k w : ℕ) → a < 2 ^ w → k ≤ w → bit_and a (low_mask w - low_mask k) ≡ a - a % 2 ^ k
bit_and-high_mask a k w lt le =
    bit_and-bitwise a (low_mask w - low_mask k) ∙ high_digits a k w a (omega arith) lt le

pub pow-pos : (k : ℕ) → 0 < 2 ^ k
pow-pos k = one-le-pow k 2 (omega arith)

pow-dvd-pow : (j k : ℕ) → j ≤ k → 2 ^ j ∣ 2 ^ k
pow-dvd-pow zero k le = one-dvd (2 ^ k)
pow-dvd-pow (suc j) zero le = absurd (omega arith)
pow-dvd-pow (suc j) (suc k) le =
    simp pow-suc (mul-dvd-mul_right (2 ^ j) (pow-dvd-pow j k (omega arith)) 2)

-- A smaller power of two divides a larger one.
pub mod_pow-mod_pow : (a j k : ℕ) → j ≤ k → a % 2 ^ k % 2 ^ j ≡ a % 2 ^ j
mod_pow-mod_pow a j k le = mod-mod_of_dvd (2 ^ j) a (pow-dvd-pow j k le)
