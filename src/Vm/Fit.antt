-- ===== src/Vm/Fit.antt =====
-- The parameters that `gsgpu_vm_bo_map` and `gsgpu_vm_bo_replace_map` accept.
use loongson_gsgpu_dkms_modu.Base.{
  ℕ, ◌+◌, ◌%◌, ◌≤◌, ◌<◌, ◌≡◌, refl, ◌↔◌, false, Option, none, some, leb, arith, bit_and-low_mask,
  u64_mod,
}
use loongson_gsgpu_dkms_modu.Vm.{Bo, page_size, end_of, exceeds, rejects}

-- The range lies in the buffer object, if there is one, with its end on 64 bits.
abbrev pub Covers : Option Bo → ℕ → ℕ → Type 0
Covers none offset size = Unit {0}
Covers (some bo) offset size = (offset + size) % u64_mod ≤ bo.size

-- The address, the offset and the size are of whole pages, there is a page, and the range ends in the address
-- space of 64 bits.
abbrev pub IsFit : Option Bo → ℕ → ℕ → ℕ → Type 0
IsFit bo saddr offset size =
    (saddr % page_size ≡ 0)
    × (offset % page_size ≡ 0)
    × (0 < size)
    × (size % page_size ≡ 0)
    × (saddr + size ≤ u64_mod)
    × Covers bo offset size

exceeds-Covers :
    (bo : Option Bo) (offset size : ℕ) → (exceeds bo offset size ≡ false) ↔ Covers bo offset size
unfolding exceeds
exceeds-Covers none offset size = (λ h. tt, λ h. refl)
exceeds-Covers (some bo) offset size = (λ h. ground arith, λ h. ground arith)

-- A range of whole pages ends in 64 bits exactly where its last byte, on 64 bits, is behind its first.
end_of_iff :
    (saddr size : ℕ)
    → saddr < u64_mod
    → size < u64_mod
    → 0 < size
    → size % page_size ≡ 0
    → (leb (end_of saddr size) saddr ≡ false) ↔ (saddr + size ≤ u64_mod)
end_of_iff saddr size a b p w = (λ h. ground arith, λ h. ground arith)

pub rejects_iff :
    (bo : Option Bo) (saddr offset size : ℕ)
    → saddr < u64_mod
    → size < u64_mod
    → (rejects bo saddr offset size ≡ false) ↔ IsFit bo saddr offset size
unfolding rejects
rejects_iff bo saddr offset size a b =
    let in_bo = exceeds-Covers bo offset size in
    let ends = end_of_iff saddr size a b in
    rw (bit_and-low_mask saddr 14, bit_and-low_mask offset 14, bit_and-low_mask size 14)
      (
        λ h.
            let positive : 0 < size = ground arith in
            let whole : size % page_size ≡ 0 = ground arith in
            (
              ground arith,
              ground arith,
              positive,
              whole,
              (ends positive whole).0 (ground arith),
              in_bo.0 (ground arith),
            ),
        λ (s, o, p, w, e, c). let order = (ends p w).1 e in let inside = in_bo.1 c in ground arith,
      )
