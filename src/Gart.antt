-- ===== src/Gart.antt =====
-- gsgpu/gpu/gsgpu_gart.c: the table behind the GART aperture, by the index of the GPU page, and the binding of
-- the pages of system memory of an object, in gsgpu/gpu/gsgpu_ttm.c.
pub mod Table
pub mod Bind
pub mod Backend
mod Tests
use Prim.Native.Nat.{bit_and, bit_or}
use loongson_gsgpu_dkms_modu.Base.{
  ℕ, zero, suc, ◌+◌, ◌*◌, ◌/◌, ◌%◌, ◌^◌, Bool, true, false, not, Option, none, some, ◌==◌, ◌&&◌,
  if◌then◌else◌, u32_mod, u64_mod, Status, ok, err, Errno, einval,
}

-- `GSGPU_GPU_PAGE_SIZE`.
abbrev pub gpu_page_size : ℕ
gpu_page_size = 16384

-- `struct gsgpu_gart`, with the address of the dummy page, `GSGPU_GPU_PAGES_IN_CPU_PAGE` and the flushes of
-- the TLB. `table` is what `ptr` points to. The list of pages that debugging keeps is left out.
pub record Gart : Type 0 where
  pub ready : Bool
  pub table : Option (ℕ → ℕ)
  pub dummy_page_addr : ℕ
  pub gpu_pages : ℕ
  pub flushes : ℕ

-- The value that `mmu_set_pte_pde` writes.
abbrev pub entry : ℕ → ℕ → ℕ
entry addr flags = bit_or (bit_and addr 18446744073709547520) flags

abbrev pub set_pte_pde : (ℕ → ℕ) → ℕ → ℕ → ℕ → ℕ → ℕ
set_pte_pde table t addr flags j = if j == t then entry addr flags else table j

-- The entries of one page of the CPU, from `t` on.
pub fill_page : ℕ → ℕ → ℕ → ℕ → (ℕ → ℕ) → ℕ → ℕ
fill_page zero t base flags table = table
fill_page (suc n) t base flags table =
    fill_page n ((t + 1) % u32_mod) ((base + gpu_page_size) % u64_mod) flags
      (set_pte_pde table t base flags)

-- The loop over `pages` pages from the `i`-th on.
pub fill_pages : ℕ → ℕ → (ℕ → ℕ) → ℕ → ℕ → ℕ → (ℕ → ℕ) → ℕ → ℕ
unfolding fill_page
fill_pages k zero dma flags i t table = table
fill_pages k (suc pages) dma flags i t table =
    fill_pages k pages dma flags (i + 1) ((t + k) % u32_mod) (fill_page k t (dma i) flags table)

abbrev pub first_entry : ℕ → ℕ
first_entry offset = offset / gpu_page_size % u32_mod

abbrev pub flushed : Gart → Gart
flushed g = record g { flushes = g.flushes + 1 }

pub unbind_at : Option (ℕ → ℕ) → Gart → ℕ → ℕ → Status × Gart
unfolding fill_pages
unbind_at none g offset pages = (ok, flushed g)
unbind_at (some table) g offset pages =
    let dummy : ℕ → ℕ = λ i. g.dummy_page_addr in
    (
      ok,
      flushed (record g {
        table = some (fill_pages g.gpu_pages pages dummy 0 0 (first_entry offset) table);
      }),
    )

-- `gsgpu_gart_unbind`.
pub unbind : Gart → ℕ → ℕ → Status × Gart
unfolding unbind_at
unbind g offset pages = if not g.ready then (err einval, g) else unbind_at g.table g offset pages

-- `gsgpu_gart_map`.
pub map : Gart → ℕ → ℕ → (ℕ → ℕ) → ℕ → (ℕ → ℕ) → Status × (ℕ → ℕ)
unfolding fill_pages
map g offset pages dma flags dst =
    if not g.ready
    then (err einval, dst)
    else (ok, fill_pages g.gpu_pages pages dma flags 0 (first_entry offset) dst)

pub mapped : Gart → Status × (ℕ → ℕ) → Status × Gart
mapped g (err e, table) = (err e, g)
mapped g (ok, table) = (ok, flushed (record g { table = some table }))

pub bind_at : Option (ℕ → ℕ) → Gart → ℕ → ℕ → (ℕ → ℕ) → ℕ → Status × Gart
unfolding map mapped
bind_at none g offset pages dma flags = (ok, g)
bind_at (some table) g offset pages dma flags = mapped g (map g offset pages dma flags table)

-- `gsgpu_gart_bind`.
pub bind : Gart → ℕ → ℕ → (ℕ → ℕ) → ℕ → Status × Gart
unfolding bind_at
bind g offset pages dma flags =
    if not g.ready then (err einval, g) else bind_at g.table g offset pages dma flags
