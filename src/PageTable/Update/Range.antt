-- ===== src/PageTable/Update/Range.antt =====
-- The loop of `gsgpu_vm_update_ptes`.
use loongson_gsgpu_dkms_modu.Base.{ℕ, ◌+◌, ◌*◌, ◌/◌, ◌≤◌, ◌<◌, ◌≡◌, ◌⊎◌, Bool, false, u64_mod}
use loongson_gsgpu_dkms_modu.Vm.{page_size, add64}
use loongson_gsgpu_dkms_modu.PageTable.{Flags, Tables, Params, resolve, pte_count}
use loongson_gsgpu_dkms_modu.PageTable.Update.{seen}

module _ (p : Params) (exists_table : ℕ → Bool) (end : ℕ) (flags : Flags) (kl : p.block_size ≤ 17)
    (small : flags.huge_page ≡ false) (le : end < u64_mod) where
  -- The pages from `addr` on point to the addresses from `dst` on, and the others where they did.
  abbrev Updated : Tables → Tables → ℕ → ℕ → Type 0
  Updated tables tables' addr dst =
      ((j : ℕ)
        → addr + j < end
        → seen p tables' (addr + j)
          ≡ (resolve p.map_gart (add64 dst (j * page_size)), flags.access))
      × ((q : ℕ)
          → (q < addr) ⊎ (end ≤ q)
          → (tables.huge (q / pte_count p) ≡ false) ⊎ (q / pte_count p < addr / pte_count p)
          → seen p tables' q ≡ seen p tables q)
