-- ===== src/PageTable.antt =====
-- gsgpu/gpu/gsgpu_vm.c: the entries that the driver writes for a range of pages, by the CPU. A page
-- table is known by the number of its block of pages, the address shifted by the block size, and an
-- entry by its index. The bit `GSGPU_PTE_HUGEPAGE` of the flags is kept apart. The copies of the tables
-- in their shadows get the same writes and are left out.
pub mod Blocks
pub mod Write
pub mod Update
mod Tests
use loongson_gsgpu_dkms_modu.Base.{
  ℕ, zero, suc, ◌+◌, ◌-◌, ◌*◌, ◌/◌, ◌%◌, ◌^◌, ◌≡◌, Bool, true, false, Option, none, some, ◌==◌,
  ◌&&◌, ◌||◌, not, if◌then◌else◌, ltb, u32_mod, u64_mod, low_mask, bit_and, Status, ok, err, enoent,
  is_some,
}
use loongson_gsgpu_dkms_modu.Vm.{add64, page_size}

-- The flags of an entry.
pub record Flags : Type 0 where
  pub huge_page : Bool
  pub access : ℕ

-- An entry: where it points, and its flags.
pub record Pte : Type 0 where
  pub addr : ℕ
  pub flags : Flags

-- The page tables by block and index, the directory entry of each table, the mark `huge` of its
-- `struct gsgpu_vm_pt`, and whether this is on the list `relocated`.
pub record Tables : Type 0 where
  pub ptes : ℕ → ℕ → Pte
  pub pdes : ℕ → Pte
  pub huge : ℕ → Bool
  pub relocated : ℕ → Bool

-- `struct gsgpu_pte_update_params`: the addresses of the pages in system memory, from which
-- `gsgpu_vm_map_gart` finds where an address points. `kmaps` and `kmaps_dir`: whether `gsgpu_bo_kmap` maps the
-- table of a block, and the directory that holds its entry.
pub record Params : Type 0 where
  pub block_size : ℕ
  pub kmaps : ℕ → Bool
  pub kmaps_dir : ℕ → Bool
  pub map_gart : Option (ℕ → ℕ)

abbrev pub resolve : Option (ℕ → ℕ) → ℕ → ℕ
resolve none a = a
resolve (some f) a = f a

-- `GSGPU_VM_PTE_COUNT`.
abbrev pub pte_count : Params → ℕ
pte_count p = 2 ^ p.block_size

abbrev pub set_pte : (ℕ → ℕ → Pte) → ℕ → ℕ → Pte → ℕ → ℕ → Pte
set_pte ptes t i v t' i' = if t' == t && i' == i then v else ptes t' i'

abbrev pub update {ℓ} : {A : Type ℓ} → (ℕ → A) → ℕ → A → ℕ → A
update f t v t' = if t' == t then v else f t'

-- The loop of `gsgpu_vm_cpu_set_ptes` on a page table: `count` entries from index `i` on.
pub set_ptes : Option (ℕ → ℕ) → ℕ → ℕ → ℕ → ℕ → ℕ → Flags → (ℕ → ℕ → Pte) → ℕ → ℕ → Pte
set_ptes gart zero t i addr incr flags ptes = ptes
set_ptes gart (suc count) t i addr incr flags ptes =
    set_ptes gart count t (i + 1) (add64 addr incr) incr flags
      (set_pte ptes t i (record { addr = resolve gart addr; flags = flags }))

-- `gsgpu_vm_handle_huge_pages`: the flags that it decides by, and what it does. `gsgpu_gmc_get_vm_pde`
-- leaves the address and the flags as they are.
pub huge_flags : Params → ℕ → Flags → Flags
huge_flags p nptes flags =
    if not (is_some p.map_gart) && nptes == pte_count p
    then record flags { huge_page = true }
    else flags

pub handle_huge_pages : Params → Tables → ℕ → ℕ → ℕ → Flags → Tables
unfolding huge_flags
handle_huge_pages p tables t nptes dst flags =
    let f = huge_flags p nptes flags in
    if not f.huge_page
    then (if tables.huge t
        then record tables {
          huge = update tables.huge t false;
          relocated = update tables.relocated t true;
        }
        else tables)
    else record tables {
      huge = update tables.huge t true;
      pdes =
          if p.kmaps_dir t
          then update tables.pdes t (record { addr = resolve p.map_gart dst; flags = f })
          else tables.pdes;
    }

-- A turn of the loop of `gsgpu_vm_update_ptes`, after `gsgpu_vm_get_entry`: `nptes` entries of table `t`
-- from index `i` on. What cannot be mapped for the CPU is silently left unwritten.
pub update_chunk : Params → Tables → ℕ → ℕ → ℕ → ℕ → Flags → Tables
unfolding handle_huge_pages set_ptes
update_chunk p tables t i nptes dst flags =
    let after = handle_huge_pages p tables t nptes dst flags in
    if after.huge t then after else record after {
      ptes =
          if p.kmaps t
          then set_ptes p.map_gart nptes t i dst page_size flags after.ptes
          else after.ptes;
    }

-- `mask`, and its complement on 64 bits.
abbrev pub mask : Params → ℕ
mask p = low_mask p.block_size

abbrev pub not_mask : Params → ℕ
not_mask p = low_mask 64 - low_mask p.block_size

-- `nptes`, an `unsigned`.
pub chunk : Params → ℕ → ℕ → ℕ
chunk p addr end =
    if bit_and addr (not_mask p) == bit_and end (not_mask p)
    then (end - addr) % u32_mod
    else (pte_count p - bit_and addr (mask p)) % u32_mod

-- `gsgpu_vm_update_ptes`. `exists_table`: `gsgpu_vm_get_entry` finds the table of a block. Each turn of
-- the loop uses up a unit of fuel.
pub update_ptes : ℕ → Params → (ℕ → Bool) → Tables → ℕ → ℕ → ℕ → Flags → Option (Status × Tables)
unfolding update_chunk chunk
update_ptes zero p exists_table tables addr end dst flags =
    if ltb addr end then none else some (ok, tables)
update_ptes (suc fuel) p exists_table tables addr end dst flags =
    let nptes = chunk p addr end in
    let t = addr / pte_count p in
    let after = update_chunk p tables t (bit_and addr (mask p)) nptes dst flags in
    let rest =
      update_ptes fuel p exists_table after (addr + nptes) end
        (add64 dst (nptes * page_size % u32_mod)) flags in
    if ltb addr end
    then (if exists_table t then rest else some (err enoent, tables))
    else some (ok, tables)
