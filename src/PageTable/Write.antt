-- ===== src/PageTable/Write.antt =====
-- What `gsgpu_vm_cpu_set_ptes` writes.
use loongson_gsgpu_dkms_modu.Base.{
  ℕ, zero, suc, ◌+◌, ◌*◌, ◌%◌, ◌≤◌, ◌<◌, ◌≡◌, refl, sym, ap, ◌∙◌, ◌⊎◌, inl, inr, false, Option,
  arith, ◌==◌, u64_mod,
}
use loongson_gsgpu_dkms_modu.Vm.{add64}
use loongson_gsgpu_dkms_modu.PageTable.{Flags, Pte, resolve, set_pte, set_ptes}
use native.Mathlib.Nat.{mod-add-mod, mod-lt, mod-eq_of_lt}

-- The entries after the first.
pub set_ptes_out :
    (gart : Option (ℕ → ℕ)) (count t i addr incr : ℕ) (flags : Flags) (ptes : ℕ → ℕ → Pte)
    (t' i' : ℕ)
    → ((t' == t) ≡ false) ⊎ ((i' < i) ⊎ (i + count ≤ i'))
    → set_ptes gart count t i addr incr flags ptes t' i' ≡ ptes t' i'
unfolding set_ptes
set_ptes_out gart zero t i addr incr flags ptes t' i' h = refl
set_ptes_out gart (suc count) t i addr incr flags ptes t' i' h =
    set_ptes_out gart count t (i + 1) (add64 addr incr) incr flags
      (set_pte ptes t i (record { addr = resolve gart addr; flags = flags })) t' i' (ground arith)
    ∙ ground arith

set_here : (ptes : ℕ → ℕ → Pte) (t i i' : ℕ) (v : Pte) → i' ≡ i → set_pte ptes t i v t i' ≡ v
set_here ptes t i i' v e = ground arith

-- Steps add up.
pub add64-add64 : (a b j : ℕ) → add64 (add64 a b) (j * b) ≡ add64 a (suc j * b)
add64-add64 a b j = mod-add-mod (a + b) u64_mod (j * b) ∙ ap (λ (x : ℕ). x % u64_mod) (omega arith)

pub set_ptes_in :
    (gart : Option (ℕ → ℕ)) (count t i addr incr : ℕ) (flags : Flags) (ptes : ℕ → ℕ → Pte) (j : ℕ)
    → addr < u64_mod
    → j < count
    → set_ptes gart count t i addr incr flags ptes t (i + j)
      ≡ record { addr = resolve gart (add64 addr (j * incr)); flags = flags }
unfolding set_ptes
set_ptes_in gart zero t i addr incr flags ptes j la lt = absurd (omega arith)
set_ptes_in gart (suc count) t i addr incr flags ptes zero la lt =
    set_ptes_out gart count t (i + 1) (add64 addr incr) incr flags
      (set_pte ptes t i (record { addr = resolve gart addr; flags = flags })) t (i + 0)
      (inr (inl (omega arith)))
    ∙ set_here ptes t i (i + 0) (record { addr = resolve gart addr; flags = flags }) (omega arith)
    ∙ ap (λ a. record { addr = resolve gart a; flags = flags })
        (sym (mod-eq_of_lt la) ∙ ap (λ (x : ℕ). x % u64_mod) (omega arith))
set_ptes_in gart (suc count) t i addr incr flags ptes (suc j) la lt =
    let place : i + suc j ≡ i + 1 + j = omega arith in
    rw place (
      set_ptes_in gart count t (i + 1) (add64 addr incr) incr flags
        (set_pte ptes t i (record { addr = resolve gart addr; flags = flags })) j
        (mod-lt (addr + incr) (omega arith)) (omega arith)
      ∙ ap (λ a. record { addr = resolve gart a; flags = flags }) (add64-add64 addr incr j))
