-- ===== src/Vm/Tests.antt =====
-- A space with two mappings, in the simplest tree.
use loongson_gsgpu_dkms_modu.Base.{
  ℕ, ◌-◌, ◌*◌, ◌≡◌, refl, true, false, not, some, [], ◌∷◌, arith, if◌then◌else◌, u64_mod, ok, keep,
}
use loongson_gsgpu_dkms_modu.Vm.Cut.{cut_after, clear_pages, replace_map}
use loongson_gsgpu_dkms_modu.Vm.{
  Mapping, Bo, Vm, overlaps, starts_at, IntervalTree, page_size, exceeds, rejects, bo_map,
  lookup_mapping, bo_unmap, idle,
}
use loongson_gsgpu_dkms_modu.Vm.Pages.{IsDisjoint, IsSound}
use loongson_gsgpu_dkms_modu.Vm.Remove.{bo_rmv}
use loongson_gsgpu_dkms_modu.Vm.Remove.Outcome.{without, bo_rmv_outcome}
use loongson_gsgpu_dkms_modu.Vm.Fit.{IsFit}
use loongson_gsgpu_dkms_modu.Vm.Laws.{map_some, side, cleared_page, clear_pages_outcome}
use loongson_gsgpu_dkms_modu.Vm.Place.{first_page, last_page, placed}
use loongson_gsgpu_dkms_modu.Vm.Mapped.{bo_map_outcome}
use loongson_gsgpu_dkms_modu.Vm.Undo.{unmap-map, replace_map_outcome}
use loongson_gsgpu_dkms_modu.Vm.Clear.Outcome.{inside}

abbrev list_tree : IntervalTree
list_tree = record {
  insert = ◌∷◌;
  remove = λ m va. keep (λ x. not (starts_at m.start x)) va;
  iter = λ va s e. keep (overlaps s e) va;
  insert_lem = λ m va. (0, refl);
  remove_lem = λ m va. refl;
  iter_lem = λ va s e. refl;
}

abbrev mapping : ℕ → ℕ → Mapping
mapping s e = record { start = s; last = e; offset = 0; flags = 3; bo_va = some 1; valid = true }

abbrev bo : Bo
bo = record { size = 100 * page_size; per_vm = true }

abbrev space : Vm
space = record {
  va = mapping 10 19 ∷ mapping 30 39 ∷ [];
  freed = [];
  bo_vas = λ b. record { bo = some bo; was_moved = false; vm_status = idle };
}

space-IsSound : IsSound space.va
unfolding IsDisjoint
space-IsSound = record { disjoint = λ p. ground arith; proper = ground arith }

clear_pages_outcome_example :
    (vm' : Vm) × (clear_pages list_tree space 15 32 ≡ some (ok, vm'))
    × IsSound vm'.va
    × ((p : ℕ)
        → lookup_mapping list_tree vm' p ≡ cleared_page 15 32 p (lookup_mapping list_tree space p))
clear_pages_outcome_example = clear_pages_outcome list_tree space 15 32 space-IsSound (omega arith)

bo_map_outcome_example :
    let (r, vm') = bo_map list_tree true space 2 (20 * page_size) 0 (4 * page_size) 3 in
    IsSound vm'.va
    × (r ≡ ok
        → (p : ℕ)
        → lookup_mapping list_tree vm' p ≡ (
            if inside (first_page (20 * page_size)) (last_page (20 * page_size) (4 * page_size)) p
            then some (placed list_tree 2 (20 * page_size) 0 (4 * page_size) 3)
            else lookup_mapping list_tree space p))
bo_map_outcome_example =
    bo_map_outcome list_tree true space 2 (20 * page_size) 0 (4 * page_size) 3 space-IsSound

granted : (bo_map list_tree true space 2 (20 * page_size) 0 (4 * page_size) 3).0 ≡ ok
unfolding bo_map rejects exceeds
granted = refl

unmap-map_example :
    let (r, vm') =
      bo_unmap list_tree
        (bo_map list_tree true space 2 (20 * page_size) 0 (4 * page_size) 3).1
        2
        (20 * page_size) in
    (r ≡ ok) × (vm'.va ≡ space.va) × (vm'.freed ≡ space.freed)
unmap-map_example =
    unmap-map list_tree true space 2 (20 * page_size) 0 (4 * page_size) 3 space-IsSound granted

accepted : IsFit (some bo) (15 * page_size) 0 (18 * page_size)
accepted = (refl, refl, omega arith, refl, omega arith, omega arith)

replace_map_outcome_example :
    (vm' : Vm) × (replace_map list_tree true true true space 2 (15 * page_size) 0 (18 * page_size) 3
      ≡ some (ok, vm'))
    × IsSound vm'.va
    × ((p : ℕ)
        → lookup_mapping list_tree vm' p ≡ (
            if inside (first_page (15 * page_size)) (last_page (15 * page_size) (18 * page_size)) p
            then some (placed list_tree 2 (15 * page_size) 0 (18 * page_size) 3)
            else map_some
                (side (first_page (15 * page_size)) (last_page (15 * page_size) (18 * page_size)) p)
                (lookup_mapping list_tree space p)))
replace_map_outcome_example =
    replace_map_outcome list_tree space 2 (15 * page_size) 0 (18 * page_size) 3 space-IsSound
      (omega arith) (omega arith) accepted

-- The offset of the part after a range grows by pages, though it is in bytes.
after_in_pages : (cut_after 34 (mapping 30 39)).offset ≡ 5
after_in_pages = refl

-- An offset that wraps with the size passes the check against the size of the buffer object.
wrapped_offset : rejects (some bo) (20 * page_size) (u64_mod - page_size) (2 * page_size) ≡ false
unfolding rejects exceeds
wrapped_offset = refl

bo_rmv_outcome_example :
    IsSound (bo_rmv list_tree space 1).va
    × ((p : ℕ)
        → lookup_mapping list_tree (bo_rmv list_tree space 1) p
          ≡ without 1 (lookup_mapping list_tree space p))
bo_rmv_outcome_example = bo_rmv_outcome list_tree space 1 space-IsSound
