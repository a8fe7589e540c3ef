-- ===== src/Vm/Cut.antt =====
-- gsgpu/gpu/gsgpu_vm.c: `gsgpu_vm_bo_clear_mappings`, which cuts a range out of the mappings, and
-- `gsgpu_vm_bo_replace_map`.
use loongson_gsgpu_dkms_modu.Base.{
  ℕ, ◌+◌, ◌-◌, ◌/◌, Bool, false, ◌&&◌, not, Option, none, some, List, [], ◌∷◌, ltb, if◌then◌else◌,
  sub64, Status, einval, enomem, ok, err,
}
use loongson_gsgpu_dkms_modu.Vm.{
  Mapping, Vm, IntervalTree, page_size, add64, end_of, rejects, insert_map, new_mapping,
}

-- The parts of a mapping before page `s` and after page `e`, as `gsgpu_vm_bo_clear_mappings` fills
-- them in.
abbrev pub cut_before : ℕ → Mapping → Mapping
cut_before s m = record m { last = s - 1; valid = false }

abbrev pub cut_after : ℕ → Mapping → Mapping
cut_after e m = record m {
  start = e + 1;
  offset = add64 m.offset (sub64 (e + 1) m.start);
  valid = false;
}

-- `list_add` of a node that is on a list already breaks the list: `none`.
unfoldable pub fill_once : Bool → Option Mapping → Mapping → Option (Option Mapping)
fill_once sticks_out part m =
    if sticks_out then elim part [ none ↦ some (some m) | some x ↦ none ] else some part

-- `before`, `after` and the list `removed`.
pub record Gathered : Type 0 where
  pub before : Option Mapping
  pub after : Option Mapping
  pub removed : List Mapping

-- A turn of the first loop of `gsgpu_vm_bo_clear_mappings`.
unfoldable pub add_parts :
    Option (Option Mapping) → Option (Option Mapping) → List Mapping → Option Gathered
add_parts (some b) (some a) removed = some (record { before = b; after = a; removed = removed })
add_parts (some b) none removed = none
add_parts none a removed = none

unfoldable pub gather_one : ℕ → ℕ → Gathered → Mapping → Option Gathered
unfolding add_parts fill_once
gather_one s e g m =
    add_parts (fill_once (ltb m.start s) g.before (cut_before s m))
      (fill_once (ltb e m.last) g.after (cut_after e m)) (m ∷ g.removed)

unfoldable pub gather : ℕ → ℕ → Gathered → List Mapping → Option Gathered
unfolding gather_one
gather s e g [] = some g
gather s e g (m ∷ ms) = elim (gather_one s e g m) [ none ↦ none | some h ↦ gather s e h ms ]

-- What the second loop leaves of a removed mapping, for the list `freed`.
abbrev pub trim : ℕ → ℕ → Mapping → Mapping
trim s e m = record m {
  start = if ltb m.start s then s else m.start;
  last = if ltb e m.last then e else m.last;
  bo_va = none;
}

module _ (tree : IntervalTree) where
  -- The second loop of `gsgpu_vm_bo_clear_mappings`.
  unfoldable pub free_up : ℕ → ℕ → Vm → List Mapping → Vm
  free_up s e vm [] = vm
  free_up s e vm (m ∷ ms) =
      free_up s e (record vm { va = tree.remove m vm.va; freed = trim s e m ∷ vm.freed }) ms

  abbrev pub insert_part : Option Mapping → Vm → Vm
  insert_part none vm = vm
  insert_part (some m) vm = record vm { va = tree.insert m vm.va }

  -- `gsgpu_vm_bo_clear_mappings` after the first loop.
  unfoldable pub free_gathered : Vm → ℕ → ℕ → Option Gathered → Option (Status × Vm)
  unfolding free_up
  free_gathered vm s e none = none
  free_gathered vm s e (some g) =
      some (ok, insert_part g.after (insert_part g.before (free_up s e vm g.removed)))

  -- `gsgpu_vm_bo_clear_mappings` from the first loop on, at pages `s` to `e`.
  unfoldable pub clear_pages : Vm → ℕ → ℕ → Option (Status × Vm)
  unfolding gather free_gathered
  clear_pages vm s e =
      free_gathered vm s e
        (gather s e (record { before = none; after = none; removed = [] }) (tree.iter vm.va s e))

  -- `gsgpu_vm_bo_clear_mappings`. `mem_before`, `mem_after`: whether there is memory for both parts.
  unfoldable pub clear_mappings : Bool → Bool → Vm → ℕ → ℕ → Option (Status × Vm)
  unfolding clear_pages
  clear_mappings mem_before mem_after vm saddr size =
      if mem_before && mem_after
      then clear_pages vm (saddr / page_size) (end_of saddr size / page_size)
      else some (err enomem, vm)

  -- `gsgpu_vm_bo_replace_map`. `mem`: whether there is memory for the mapping.
  unfoldable pub replace_map : Bool → Bool → Bool → Vm → ℕ → ℕ → ℕ → ℕ → ℕ → Option (Status × Vm)
  unfolding rejects insert_map clear_mappings
  replace_map mem mem_before mem_after vm b saddr offset size flags =
      if rejects (vm.bo_vas b).bo saddr offset size
      then some (err einval, vm)
      else if not mem
      then some (err enomem, vm)
      else elim (clear_mappings mem_before mem_after vm saddr size) [
        | none ↦ none
        | some (err r, vm') ↦ some (err r, vm')
        | some (ok, vm') ↦ some (
          ok,
          insert_map tree vm' b
              (new_mapping tree (saddr / page_size) (end_of saddr size / page_size) offset flags),
        )
      ]
