-- ===== src/Vm/Remove.antt =====
-- gsgpu/gpu/gsgpu_vm.c: `gsgpu_vm_bo_rmv`, the end of the mappings of a buffer object in an address space.
pub mod Outcome
use loongson_gsgpu_dkms_modu.Base.{ℕ, true, false, none, List, [], ◌∷◌, keep}
use loongson_gsgpu_dkms_modu.Vm.{Mapping, Vm, IntervalTree, owns}

module _ (tree : IntervalTree) where
  -- The loop over `valids`: the mappings wait on `freed`.
  pub rmv_valids : Vm → List Mapping → Vm
  rmv_valids vm [] = vm
  rmv_valids vm (m ∷ ms) =
      rmv_valids
        (record vm { va = tree.remove m vm.va; freed = record m { bo_va = none } ∷ vm.freed }) ms

  -- The loop over `invalids`: the mappings are freed.
  pub rmv_invalids : Vm → List Mapping → Vm
  rmv_invalids vm [] = vm
  rmv_invalids vm (m ∷ ms) = rmv_invalids (record vm { va = tree.remove m vm.va }) ms

  -- `gsgpu_vm_bo_rmv`. The memory of the `bo_va` is free afterwards.
  pub bo_rmv : Vm → ℕ → Vm
  unfolding rmv_valids rmv_invalids
  bo_rmv vm b =
      let vm1 = rmv_valids vm (keep (owns b true) vm.va) in
      rmv_invalids vm1 (keep (owns b false) vm1.va)
