-- ===== src/Vm/Mapped.antt =====
-- `gsgpu_vm_bo_map`, `gsgpu_vm_bo_unmap` and `gsgpu_vm_bo_replace_map`: when they succeed, and what the
-- pages map afterwards.
use loongson_gsgpu_dkms_modu.Base.{
  ℕ, ◌≡◌, refl, sym, ap, ◌∙◌, subst, ◌⊎◌, inl, inr, Bool, true, false, some, arith, if◌then◌else◌,
  Bool-cases, is_some, length, Status, einval, enomem, ok, err, head?,
}
use loongson_gsgpu_dkms_modu.Vm.{
  Mapping, Vm, IntervalTree, rejects, insert_map, new_mapping, bo_map, lookup_mapping,
}
use loongson_gsgpu_dkms_modu.Vm.Pages.{IsDisjoint, IsProper, IsSound}
use loongson_gsgpu_dkms_modu.Vm.Laws.{All-insert}
use loongson_gsgpu_dkms_modu.Vm.Place.{first_page, last_page, placed, rejects_le, insert_outcome}
use loongson_gsgpu_dkms_modu.Vm.Clear.Outcome.{inside}

pub insert_map-IsSound :
    (tree : IntervalTree) (vm : Vm) (m : Mapping) (b : ℕ)
    → IsSound vm.va
    → IsProper m
    → is_some (head? (tree.iter vm.va m.start m.last)) ≡ false
    → IsSound (insert_map tree vm b m).va
unfolding insert_map IsDisjoint
insert_map-IsSound tree vm m b sound proper free = record {
  disjoint = λ p.
      ground (arith, ap length (insert_outcome tree vm m b sound proper free p), sound.disjoint p);
  proper = All-insert tree (record m { bo_va = some b; valid = false }) vm.va proper sound.proper;
}

pub lookup-insert_map :
    (tree : IntervalTree) (vm : Vm) (m : Mapping) (b : ℕ)
    → IsSound vm.va
    → IsProper m
    → is_some (head? (tree.iter vm.va m.start m.last)) ≡ false
    → (p : ℕ)
    → lookup_mapping tree (insert_map tree vm b m) p ≡ (
        if inside m.start m.last p
        then some (record m { bo_va = some b; valid = false })
        else lookup_mapping tree vm p)
unfolding lookup_mapping
lookup-insert_map tree vm m b sound proper free p =
    ap head? (
      tree.iter_lem (insert_map tree vm b m).va p p
      ∙ insert_outcome tree vm m b sound proper free p)
    ∙ elim (Bool-cases (inside m.start m.last p)) [
      | inl y ↦ rw y refl
      | inr n ↦ rw n (ap head? (sym (tree.iter_lem vm.va p p)))
    ]

-- The result of `gsgpu_vm_bo_map` by its three tests.
abbrev pub tested : Bool → Bool → Bool → Vm → Vm → Status × Vm
tested refused met mem vm vm' =
    if refused
    then (err einval, vm)
    else if met
    then (err einval, vm)
    else if mem
    then (ok, vm')
    else (err enomem, vm)

pub tested_ok :
    (refused met mem : Bool) (vm vm' : Vm)
    → (tested refused met mem vm vm').0 ≡ ok
    → (refused ≡ false) × (met ≡ false) × (mem ≡ true)
tested_ok true met mem vm vm' h = cc
tested_ok false true mem vm vm' h = cc
tested_ok false false false vm vm' h = cc
tested_ok false false true vm vm' h = (refl, refl, refl)

-- Where the tests fail, the address space is the old one.
tested_cases :
    (refused met mem : Bool) (vm vm' : Vm)
    → ((tested refused met mem vm vm').1 ≡ vm)
      ⊎ ((refused ≡ false) × (met ≡ false) × ((tested refused met mem vm vm') ≡ (ok, vm')))
tested_cases true met mem vm vm' = inl refl
tested_cases false true mem vm vm' = inl refl
tested_cases false false false vm vm' = inl refl
tested_cases false false true vm vm' = inr (refl, refl, refl)

-- Where no page has two mappings, none has after a request to map, whatever its outcome. Where it is
-- granted, the pages of the request map the buffer object at the offset asked for, and every other page
-- maps what it did.
pub bo_map_outcome :
    (tree : IntervalTree) (mem : Bool) (vm : Vm) (b saddr offset size flags : ℕ)
    → IsSound vm.va
    → let (r, vm') = bo_map tree mem vm b saddr offset size flags in
      IsSound vm'.va
      × (r ≡ ok
          → (p : ℕ)
          → lookup_mapping tree vm' p ≡ (
              if inside (first_page saddr) (last_page saddr size) p
              then some (placed tree b saddr offset size flags)
              else lookup_mapping tree vm p))
unfolding bo_map
bo_map_outcome tree mem vm b saddr offset size flags sound =
    let m = new_mapping tree (first_page saddr) (last_page saddr size) offset flags in
    let rej = rejects (vm.bo_vas b).bo saddr offset size in
    let met = is_some (head? (tree.iter vm.va (first_page saddr) (last_page saddr size))) in
    (
      elim (tested_cases rej met mem vm (insert_map tree vm b m)) [
        | inl e ↦ subst (λ t. IsSound t.va) (sym e) sound
        | inr (r, f, e) ↦
            subst (λ t. IsSound t.1.va) (sym e)
              (insert_map-IsSound tree vm m b sound
                (rejects_le (vm.bo_vas b).bo saddr offset size r) f)
      ],
      λ h p.
          let (r, f, y) = tested_ok rej met mem vm (insert_map tree vm b m) h in
          rw (r, f, y)
            (lookup-insert_map tree vm m b sound (rejects_le (vm.bo_vas b).bo saddr offset size r) f
              p),
    )
