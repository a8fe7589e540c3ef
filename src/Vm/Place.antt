-- ===== src/Vm/Place.antt =====
-- `gsgpu_vm_bo_map`, `gsgpu_vm_bo_unmap` and `gsgpu_vm_bo_replace_map`: what pages map afterwards.
use loongson_gsgpu_dkms_modu.Base.{
  ℕ, ◌/◌, ◌≤◌, ◌<◌, max, ◌≡◌, refl, sym, ap, ◌∙◌, inl, inr, true, false, Option, none, some, [],
  ◌∷◌, arith, if◌then◌else◌, Bool-cases, is_some, keep, head?, keep_none, none_of_keep, All-weaken,
  head_keep, List-cases, All-head_keep, nil_of_head,
}
use loongson_gsgpu_dkms_modu.Vm.{
  Mapping, Bo, Vm, overlaps, IntervalTree, page_size, end_of, rejects, insert_map, new_mapping,
  lookup_mapping,
}
use loongson_gsgpu_dkms_modu.Vm.Pages.{keep-insert_out, keep-insert_in, IsProper, IsSound}
use loongson_gsgpu_dkms_modu.Vm.Clear.Outcome.{inside}

-- The pages of a request.
abbrev pub first_page : ℕ → ℕ
first_page saddr = saddr / page_size

abbrev pub last_page : ℕ → ℕ → ℕ
last_page saddr size = end_of saddr size / page_size

-- The mapping that a request makes.
abbrev pub placed : IntervalTree → ℕ → ℕ → ℕ → ℕ → ℕ → Mapping
placed tree b saddr offset size flags =
    record (new_mapping tree (first_page saddr) (last_page saddr size) offset flags) {
      bo_va = some b;
      valid = false;
    }

-- A request that passes the checks has a page.
pub rejects_le :
    (bo : Option Bo) (saddr offset size : ℕ)
    → rejects bo saddr offset size ≡ false
    → first_page saddr ≤ last_page saddr size
unfolding rejects
rejects_le bo saddr offset size h =
    let order : saddr < end_of saddr size = ground arith in omega arith

-- The tree meets no mapping in a range exactly where no page of the range maps anything.
pub free_range :
    (tree : IntervalTree) (vm : Vm) (s e : ℕ)
    → IsSound vm.va
    → (p : ℕ) → is_some (head? (tree.iter vm.va s e)) ≡ false
    → inside s e p ≡ true
    → keep (overlaps p p) vm.va ≡ []
free_range tree vm s e sound p h within =
    let empty : keep (overlaps s e) vm.va ≡ [] =
      sym (tree.iter_lem vm.va s e) ∙ nil_of_head (tree.iter vm.va s e) h in
    keep_none (overlaps p p) vm.va
      (All-weaken vm.va (λ x t. ground arith) (none_of_keep (overlaps s e) vm.va empty))

pub range_free :
    (tree : IntervalTree) (vm : Vm) (s e : ℕ)
    → IsSound vm.va
    → s ≤ e
    → ((p : ℕ) → inside s e p ≡ true → lookup_mapping tree vm p ≡ none)
    → is_some (head? (tree.iter vm.va s e)) ≡ false
unfolding lookup_mapping
range_free tree vm s e sound le free = elim (List-cases (tree.iter vm.va s e)) [
  | inl y ↦ rw y refl
  | inr (m, ms, y) ↦
      let met : keep (overlaps s e) vm.va ≡ m ∷ ms = sym (tree.iter_lem vm.va s e) ∙ y in
      let meets = head_keep (overlaps s e) vm.va m ms met in
      let proper = All-head_keep IsProper (overlaps s e) vm.va m ms met sound.proper in
      let p = max s m.start in
      let nothing : keep (overlaps p p) vm.va ≡ [] =
        sym (tree.iter_lem vm.va p p)
        ∙ nil_of_head (tree.iter vm.va p p) (ap is_some (free p (ground arith))) in
      let misses =
        All-head_keep (λ x. overlaps p p x ≡ false) (overlaps s e) vm.va m ms met
          (none_of_keep (overlaps p p) vm.va nothing) in
      absurd (ground arith)
]

-- A mapping of free pages joins the tree: no page gets two mappings, and only its pages change.
pub insert_outcome :
    (tree : IntervalTree) (vm : Vm) (m : Mapping) (b : ℕ)
    → IsSound vm.va
    → IsProper m
    → is_some (head? (tree.iter vm.va m.start m.last)) ≡ false
    → (p : ℕ)
    → keep (overlaps p p) (insert_map tree vm b m).va ≡ (
        if inside m.start m.last p
        then record m { bo_va = some b; valid = false } ∷ []
        else keep (overlaps p p) vm.va)
unfolding insert_map
insert_outcome tree vm m b sound proper free p = elim (Bool-cases (inside m.start m.last p)) [
  | inl y ↦ rw y (
      keep-insert_in tree (overlaps p p) (record m { bo_va = some b; valid = false }) vm.va y
        (free_range tree vm m.start m.last sound p free y))
  | inr n ↦
      rw n
        (keep-insert_out tree (overlaps p p) (record m { bo_va = some b; valid = false }) vm.va n)
]
