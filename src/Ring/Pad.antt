-- ===== src/Ring/Pad.antt =====
-- `gsgpu_ring_generic_pad_ib` of gsgpu/gpu/gsgpu_ring.c and `xdma_ring_pad_ib` of
-- gsgpu/gpu/gsgpu_xdma.c: NOPs at the end of an indirect buffer.
use loongson_gsgpu_dkms_modu.Base.{
  ℕ, zero, suc, ◌+◌, ◌-◌, ◌%◌, ◌^◌, ◌≤◌, ◌<◌, ◌≡◌, ◌≢◌, refl, sym, ap, ◌∙◌, inl, inr, List,
  if◌then◌else◌, ◌==◌, ltb, leb, ◌&&◌, length, set, get_or, Option, none, some, bit_and, low_mask,
  bit_and-low_mask, pow-pos, sub32, arith, Bool-cases, length-set, get_or-set_self, get_or-set_ne,
}
use native.Mathlib.Nat.{mod-lt, mod-eq_of_lt, mod-add-mod, mod_self}
use native.Mathlib.Decide.{dec_lt}
use loongson_gsgpu_dkms_modu.Ring.Round.{round_up, add-missing}

-- `struct gsgpu_ib`: its words, and how many are in use.
pub record Ib : Type 0 where
  pub ptr : List ℕ
  pub length_dw : ℕ

-- One NOP at the end.
pub append_nop : ℕ → Ib → Ib
append_nop nop ib = record { ptr = set ib.ptr ib.length_dw nop; length_dw = ib.length_dw + 1 }

-- `gsgpu_ring_generic_pad_ib`. `none`: the loop has not ended within the rounds.
pub generic_pad_ib : ℕ → ℕ → ℕ → Ib → Option Ib
generic_pad_ib zero mask nop ib = none
generic_pad_ib (suc f) mask nop ib =
    let rest = generic_pad_ib f mask nop (append_nop nop ib) in
    if bit_and ib.length_dw mask == 0 then some ib else rest

append_nops : ℕ → ℕ → Ib → Ib
append_nops zero nop ib = ib
append_nops (suc n) nop ib = append_nops n nop (append_nop nop ib)

-- `xdma_ring_pad_ib`: a counted loop, to a multiple of eight.
pub xdma_pad_ib : ℕ → Ib → Ib
unfolding append_nops
xdma_pad_ib nop ib = append_nops (sub32 8 (bit_and ib.length_dw 7) % 8) nop ib

-- Rounds that are needed from a length.
missing : ℕ → ℕ → ℕ
missing m n = (m - n % m) % m

missing_zero : (m n : ℕ) → 0 < m → n % m ≡ 0 → missing m n ≡ 0
unfolding missing
missing_zero m n h e = rw e (ap (λ (t : ℕ). t % m) (omega arith) ∙ mod_self m)

missing-suc : (m n : ℕ) → 0 < m → n % m ≢ 0 → missing m n ≡ suc (missing m (n + 1))
unfolding missing
missing-suc m n h e =
    let low = mod-lt n h in
    let next = mod-add-mod n m 1 in
    let now : (m - n % m) % m ≡ m - n % m = mod-eq_of_lt (omega arith) in
    elim (dec_lt (n % m + 1) m) [
      | yes p ↦
          let more : (n + 1) % m ≡ n % m + 1 = sym next ∙ mod-eq_of_lt p in
          let then' : (m - (n + 1) % m) % m ≡ m - (n % m + 1) =
            rw more (mod-eq_of_lt (omega arith)) in
          rw (now, then') (omega arith)
      | no q ↦
          let full : n % m + 1 ≡ m = omega arith in
          let more : (n + 1) % m ≡ 0 = sym next ∙ ap (λ (t : ℕ). t % m) full ∙ mod_self m in
          rw (now, missing_zero m (n + 1) h more) (omega arith)
    ]

append_nops_zero : (nop : ℕ) (ib : Ib) → ib ≡ append_nops 0 nop ib
unfolding append_nops
append_nops_zero nop ib = refl

append_nops-suc :
    (n nop : ℕ) (ib : Ib) → append_nops (suc n) nop ib ≡ append_nops n nop (append_nop nop ib)
unfolding append_nops
append_nops-suc n nop ib = refl

pad_loop :
    (f k nop : ℕ) (ib : Ib)
    → missing (2 ^ k) ib.length_dw < f
    → generic_pad_ib f (low_mask k) nop ib
      ≡ some (append_nops (missing (2 ^ k) ib.length_dw) nop ib)
unfolding generic_pad_ib
pad_loop zero k nop ib h = absurd (omega arith)
pad_loop (suc f) k nop ib h = elim (Bool-cases (bit_and ib.length_dw (low_mask k) == 0)) [
  | inl done ↦
      let z : ib.length_dw % 2 ^ k ≡ 0 = ground (arith, bit_and-low_mask ib.length_dw k) in
      rw (done, missing_zero (2 ^ k) ib.length_dw (pow-pos k) z) (ap some (append_nops_zero nop ib))
  | inr more ↦
      let nz : ib.length_dw % 2 ^ k ≢ 0 = ground (arith, bit_and-low_mask ib.length_dw k) in
      let step = missing-suc (2 ^ k) ib.length_dw (pow-pos k) nz in
      rw (more, step, append_nops-suc)
        (pad_loop f k nop (append_nop nop ib) (unfold append_nop in omega arith)
          ∙ unfold append_nop in refl)
]

length_dw-append_nops : (n nop : ℕ) (ib : Ib) → (append_nops n nop ib).length_dw ≡ ib.length_dw + n
unfolding append_nops append_nop
length_dw-append_nops zero nop ib = omega arith
length_dw-append_nops (suc n) nop ib =
    omega (arith, length_dw-append_nops n nop (append_nop nop ib))

ptr-append_nops :
    (n nop j : ℕ) (ib : Ib)
    → ib.length_dw + n ≤ length ib.ptr
    → get_or (append_nops n nop ib).ptr j 0
      ≡ (if leb ib.length_dw j && ltb j (ib.length_dw + n) then nop else get_or ib.ptr j 0)
unfolding append_nops append_nop
ptr-append_nops zero nop j ib h = ground arith
ptr-append_nops (suc n) nop j ib h = ground (
  arith,
  ptr-append_nops n nop j (append_nop nop ib) (omega (arith, length-set ib.ptr ib.length_dw nop)),
  get_or-set_self ib.ptr ib.length_dw nop 0,
  get_or-set_ne ib.ptr ib.length_dw j nop 0,
)

-- The loop that pads an indirect buffer to a power of two ends within as many rounds as the unit,
-- if the buffer has room: the length is then the least multiple of the unit that is at least the old
-- one, NOPs stand between the two lengths, and every other word is as it was.
pub generic_pad_ib_total :
    (f k nop : ℕ) (ib : Ib)
    → 2 ^ k ≤ f
    → round_up (2 ^ k) ib.length_dw ≤ length ib.ptr
    → (out : Ib) × (generic_pad_ib f (low_mask k) nop ib ≡ some out)
      × (out.length_dw ≡ round_up (2 ^ k) ib.length_dw)
      × ((j : ℕ)
          → get_or out.ptr j 0 ≡ (
              if leb ib.length_dw j && ltb j (round_up (2 ^ k) ib.length_dw)
              then nop
              else get_or ib.ptr j 0))
generic_pad_ib_total f k nop ib h room =
    let n = missing (2 ^ k) ib.length_dw in
    let end : ib.length_dw + n ≡ round_up (2 ^ k) ib.length_dw =
      unfold missing in add-missing (2 ^ k) ib.length_dw (pow-pos k) in
    let few : n < f =
      unfold missing in omega (arith, mod-lt (2 ^ k - ib.length_dw % 2 ^ k) (pow-pos k)) in
    (
      append_nops n nop ib,
      pad_loop f k nop ib few,
      length_dw-append_nops n nop ib ∙ end,
      λ j. rw (← end) (ptr-append_nops n nop j ib (omega arith)),
    )
