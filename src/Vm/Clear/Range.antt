-- ===== src/Vm/Clear/Range.antt =====
-- What an address space maps after `gsgpu_vm_bo_clear_mappings`, page by page.
use loongson_gsgpu_dkms_modu.Base.{
  ℕ, ◌≤◌, ◌≡◌, refl, ap, ◌∙◌, subst, Bool, true, ◌&&◌, not, List, [], ◌∷◌, ◌++◌, arith, length, All,
  keep, any, keep-append, keep_congr, none_of_keep, any-keep, All-splits, All-split, or_false,
}
use loongson_gsgpu_dkms_modu.Vm.Cut.{free_up}
use loongson_gsgpu_dkms_modu.Vm.{Mapping, Vm, overlaps, starts_at, IntervalTree}
use loongson_gsgpu_dkms_modu.Vm.Pages.{IsDisjoint, IsProper, nil_of_one}
use loongson_gsgpu_dkms_modu.Vm.Clear.{
  reverse_onto, any-reverse_onto, free_up_lem, any_append, starts_apart,
}

any_here :
    (ov : Mapping → Bool) (pre post : List Mapping) (x : Mapping)
    → IsDisjoint (pre ++ x ∷ post)
    → All IsProper (pre ++ x ∷ post)
    → any (λ y. starts_at y.start x) (keep ov (pre ++ x ∷ post)) ≡ ov x
unfolding IsDisjoint
any_here ov pre post x disjoint proper =
    let parts = All-split IsProper pre (x ∷ post) proper in
    let c : Mapping → Bool = overlaps x.start x.start in
    let cx : c x ≡ true = ground arith in
    let alone =
      nil_of_one (keep c pre) x (keep c post) (
        subst (λ l. length l ≤ 1) (keep-append c pre (x ∷ post) ∙ rw cx refl) (disjoint x.start)) in
    any-keep (λ y. starts_at y.start x) ov (pre ++ x ∷ post)
    ∙ any_append (λ y. ov y && starts_at y.start x) pre (x ∷ post)
    ∙ ground (
      arith,
      starts_apart ov x.start pre (none_of_keep c pre alone.0) parts.0,
      starts_apart ov x.start post (none_of_keep c post alone.1) parts.1.1,
    )

-- To take out the mappings that start where one that a test accepts does is to take out those that it
-- accepts.
pub starts-keep :
    (ov : Mapping → Bool) (va : List Mapping)
    → IsDisjoint va
    → All IsProper va
    → keep (λ x. not (any (λ y. starts_at y.start x) (keep ov va))) va ≡ keep (λ x. not (ov x)) va
starts-keep ov va disjoint proper =
    keep_congr (λ x. not (any (λ y. starts_at y.start x) (keep ov va))) (λ x. not (ov x)) va
      (All-splits va λ pre post x split. ap not (
        ap (λ l. any (λ y. starts_at y.start x) (keep ov l)) split
        ∙ any_here ov pre post x (subst IsDisjoint split disjoint)
            (subst (All IsProper) split proper)))

-- The second loop leaves the mappings that the first did not gather.
pub free_up-gathered :
    (tree : IntervalTree) (s e : ℕ) (vm : Vm)
    → IsDisjoint vm.va
    → All IsProper vm.va
    → (free_up tree s e vm (reverse_onto (keep (overlaps s e) vm.va) [])).va
      ≡ keep (λ x. not (overlaps s e x)) vm.va
free_up-gathered tree s e vm disjoint proper =
    free_up_lem tree s e vm (reverse_onto (keep (overlaps s e) vm.va) [])
    ∙ keep_congr
        (λ x. not (any (λ y. starts_at y.start x) (reverse_onto (keep (overlaps s e) vm.va) [])))
        (λ x. not (overlaps s e x)) vm.va
        (All-splits vm.va λ pre post x split. ap not (
          any-reverse_onto (λ y. starts_at y.start x) (keep (overlaps s e) vm.va) []
          ∙ or_false (any (λ y. starts_at y.start x) (keep (overlaps s e) vm.va))
          ∙ ap (λ l. any (λ y. starts_at y.start x) (keep (overlaps s e) l)) split
          ∙ any_here (overlaps s e) pre post x (subst IsDisjoint split disjoint)
              (subst (All IsProper) split proper)))
