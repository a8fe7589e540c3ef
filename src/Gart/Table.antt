-- ===== src/Gart/Table.antt =====
-- What the loops over pages write into the table.
use loongson_gsgpu_dkms_modu.Base.{
  ℕ, zero, suc, ◌+◌, ◌*◌, ◌%◌, ◌≤◌, ◌<◌, ◌≡◌, refl, sym, ap, ◌∙◌, ◌⊎◌, inl, inr, true, Bool-cases,
  ◌==◌, ltb, u32_mod, u64_mod, arith,
}
use loongson_gsgpu_dkms_modu.Gart.{gpu_page_size, entry, set_pte_pde, fill_page, fill_pages}
use native.Mathlib.Nat.{mod-add-mod, mod-lt, mod-eq_of_lt}

next_entry : (t n : ℕ) → t + n < u32_mod → (t + n) % u32_mod ≡ t + n
next_entry t n h = mod-eq_of_lt h

module _ (flags : ℕ) where
  pub fill_page_out :
      (n t base : ℕ) (table : ℕ → ℕ) (j : ℕ)
      → t + n < u32_mod
      → (j < t) ⊎ (t + n ≤ j)
      → fill_page n t base flags table j ≡ table j
  unfolding fill_page
  fill_page_out zero t base table j h out = refl
  fill_page_out (suc n) t base table j h out = rw (next_entry t 1 (omega arith)) (
      fill_page_out n (t + 1) ((base + gpu_page_size) % u64_mod) (set_pte_pde table t base flags) j
        (omega arith) (omega arith)
      ∙ ground arith)

  written_here :
      (table : ℕ → ℕ) (t base j : ℕ) → j ≡ t → set_pte_pde table t base flags j ≡ entry base flags
  written_here table t base j e = let same : (j == t) ≡ true = ground arith in rw same refl

  pub fill_page_in :
      (n t base : ℕ) (table : ℕ → ℕ) (i : ℕ)
      → t + n < u32_mod
      → base < u64_mod
      → i < n
      → fill_page n t base flags table (t + i) ≡ entry ((base + i * gpu_page_size) % u64_mod) flags
  unfolding fill_page
  fill_page_in zero t base table i h b lt = absurd (omega arith)
  fill_page_in (suc n) t base table zero h b lt = rw (next_entry t 1 (omega arith)) (
      fill_page_out n (t + 1) ((base + gpu_page_size) % u64_mod) (set_pte_pde table t base flags)
        (t + 0) (omega arith) (inl (omega arith))
      ∙ written_here table t base (t + 0) (omega arith)
      ∙ ap (λ a. entry a flags) (sym (mod-eq_of_lt b) ∙ ap (λ (x : ℕ). x % u64_mod) (omega arith)))
  fill_page_in (suc n) t base table (suc i) h b lt =
      let place : t + suc i ≡ t + 1 + i = omega arith in
      rw (next_entry t 1 (omega arith), place)
        (fill_page_in n (t + 1) ((base + gpu_page_size) % u64_mod) (set_pte_pde table t base flags)
            i (omega arith) (mod-lt (base + gpu_page_size) (omega arith)) (omega arith)
          ∙ ap (λ a. entry a flags)
              (mod-add-mod (base + gpu_page_size) u64_mod (i * gpu_page_size)
                ∙ ap (λ (x : ℕ). x % u64_mod) (omega arith)))

  -- What is written_here does not depend on what was there.
  pub fill_page_congr :
      (n t base : ℕ) (table table' : ℕ → ℕ) (j : ℕ)
      → t + n < u32_mod
      → ((t ≤ j) × (j < t + n)) ⊎ (table j ≡ table' j)
      → fill_page n t base flags table j ≡ fill_page n t base flags table' j
  unfolding fill_page
  fill_page_congr zero t base table table' j h (inl inside) =
      absurd (omega (arith, inside.0, inside.1))
  fill_page_congr zero t base table table' j h (inr e) = e
  fill_page_congr (suc n) t base table table' j h c = rw (next_entry t 1 (omega arith)) (
      fill_page_congr n (t + 1) ((base + gpu_page_size) % u64_mod) (set_pte_pde table t base flags)
        (set_pte_pde table' t base flags) j (omega arith)
        (elim (Bool-cases (j == t)) [
          | inl y ↦ inr (rw y refl)
          | inr ne ↦ elim c [ inl inside ↦ inl (ground arith, omega arith) | inr e ↦ inr (rw ne e) ]
        ]))

module _ (k : ℕ) (dma : ℕ → ℕ) (flags : ℕ) where
  pub fill_pages_out :
      (pages i t : ℕ) (table : ℕ → ℕ) (j : ℕ)
      → t + pages * k < u32_mod
      → (j < t) ⊎ (t + pages * k ≤ j)
      → fill_pages k pages dma flags i t table j ≡ table j
  unfolding fill_pages
  fill_pages_out zero i t table j h out = refl
  fill_pages_out (suc pages) i t table j h out = rw (next_entry t k (omega arith)) (
      fill_pages_out pages (i + 1) (t + k) (fill_page k t (dma i) flags table) j (omega arith)
        (omega arith)
      ∙ fill_page_out flags k t (dma i) table j (omega arith) (omega arith))

  pub fill_pages_in :
      (pages i t : ℕ) (table : ℕ → ℕ) (p n : ℕ)
      → t + pages * k < u32_mod
      → ((m : ℕ) → dma m < u64_mod)
      → p < pages
      → n < k
      → fill_pages k pages dma flags i t table (t + (p * k + n))
        ≡ entry ((dma (i + p) + n * gpu_page_size) % u64_mod) flags
  unfolding fill_pages
  fill_pages_in zero i t table p n h b lp ln = absurd (omega arith)
  fill_pages_in (suc pages) i t table zero n h b lp ln =
      let place : t + (0 * k + n) ≡ t + n = omega arith in
      let page : i + 0 ≡ i = omega arith in
      rw (next_entry t k (omega arith), place, page)
        (fill_pages_out pages (i + 1) (t + k) (fill_page k t (dma i) flags table) (t + n)
            (omega arith) (inl (omega arith))
          ∙ fill_page_in flags k t (dma i) table n (omega arith) (b i) ln)
  fill_pages_in (suc pages) i t table (suc p) n h b lp ln =
      let place : t + (suc p * k + n) ≡ t + k + (p * k + n) = omega arith in
      let page : i + suc p ≡ i + 1 + p = omega arith in
      rw (next_entry t k (omega arith), place, page)
        (fill_pages_in pages (i + 1) (t + k) (fill_page k t (dma i) flags table) p n (omega arith) b
          (omega arith) ln)

  pub fill_pages_congr :
      (pages i t : ℕ) (table table' : ℕ → ℕ) (j : ℕ)
      → t + pages * k < u32_mod
      → ((t ≤ j) × (j < t + pages * k)) ⊎ (table j ≡ table' j)
      → fill_pages k pages dma flags i t table j ≡ fill_pages k pages dma flags i t table' j
  unfolding fill_pages
  fill_pages_congr zero i t table table' j h (inl inside) =
      absurd (omega (arith, inside.0, inside.1))
  fill_pages_congr zero i t table table' j h (inr e) = e
  fill_pages_congr (suc pages) i t table table' j h c = rw (next_entry t k (omega arith)) (
      fill_pages_congr pages (i + 1) (t + k) (fill_page k t (dma i) flags table)
        (fill_page k t (dma i) flags table') j (omega arith)
        (elim c [
          | inr e ↦ inr (fill_page_congr flags k t (dma i) table table' j (omega arith) (inr e))
          | inl inside ↦ elim (Bool-cases (ltb j (t + k))) [
            | inl y ↦ inr (
                fill_page_congr flags k t (dma i) table table' j (omega arith)
                  (inl (inside.0, ground arith)))
            | inr n ↦ inl (ground arith, omega arith)
          ]
        ]))
