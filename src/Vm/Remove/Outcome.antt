-- ===== src/Vm/Remove/Outcome.antt =====
-- What an address space maps after `gsgpu_vm_bo_rmv`.
use loongson_gsgpu_dkms_modu.Base.{
  ℕ, ◌≤◌, ◌≡◌, refl, sym, ap, ◌∙◌, subst, inl, inr, Bool, true, false, ◌&&◌, ◌||◌, not, Option,
  none, some, List, [], ◌∷◌, arith, if◌then◌else◌, Bool-cases, length, keep, any, head?, keep_congr,
  keep-keep, keep_le, All-keep, All-splits,
}
use loongson_gsgpu_dkms_modu.Vm.{
  Mapping, Vm, overlaps, starts_at, IntervalTree, owns, lookup_mapping,
}
use loongson_gsgpu_dkms_modu.Vm.Pages.{IsDisjoint, IsProper, IsSound}
use loongson_gsgpu_dkms_modu.Vm.Clear.{keep-true}
use loongson_gsgpu_dkms_modu.Vm.Clear.Range.{starts-keep}
use loongson_gsgpu_dkms_modu.Vm.Remove.{rmv_valids, rmv_invalids, bo_rmv}

-- Both loops take out of the tree what starts where one of their mappings does.
one_less :
    (tree : IntervalTree) (m : Mapping) (ms va : List Mapping)
    → keep (λ x. not (any (λ y. starts_at y.start x) ms)) (tree.remove m va)
      ≡ keep (λ x. not (any (λ y. starts_at y.start x) (m ∷ ms))) va
one_less tree m ms va =
    ap (keep (λ x. not (any (λ y. starts_at y.start x) ms))) (tree.remove_lem m va)
    ∙ keep-keep (λ x. not (any (λ y. starts_at y.start x) ms)) (λ x. not (starts_at m.start x)) va
    ∙ keep_congr (λ x. not (starts_at m.start x) && not (any (λ y. starts_at y.start x) ms))
        (λ x. not (any (λ y. starts_at y.start x) (m ∷ ms))) va
        (All-splits va (λ pre post x e. ground arith))

rmv_valids_lem :
    (tree : IntervalTree) (vm : Vm) (ms : List Mapping)
    → (rmv_valids tree vm ms).va ≡ keep (λ x. not (any (λ y. starts_at y.start x) ms)) vm.va
unfolding rmv_valids
rmv_valids_lem tree vm [] = sym (keep-true vm.va)
rmv_valids_lem tree vm (m ∷ ms) =
    rmv_valids_lem tree
      (record vm { va = tree.remove m vm.va; freed = record m { bo_va = none } ∷ vm.freed }) ms
    ∙ one_less tree m ms vm.va

rmv_invalids_lem :
    (tree : IntervalTree) (vm : Vm) (ms : List Mapping)
    → (rmv_invalids tree vm ms).va ≡ keep (λ x. not (any (λ y. starts_at y.start x) ms)) vm.va
unfolding rmv_invalids
rmv_invalids_lem tree vm [] = sym (keep-true vm.va)
rmv_invalids_lem tree vm (m ∷ ms) =
    rmv_invalids_lem tree (record vm { va = tree.remove m vm.va }) ms ∙ one_less tree m ms vm.va

keep-IsSound : (q : Mapping → Bool) (va : List Mapping) → IsSound va → IsSound (keep q va)
unfolding IsDisjoint
keep-IsSound q va sound = record {
  disjoint = λ p. rw (keep-keep (overlaps p p) q va) (
      omega (
        arith,
        keep_le (λ x. q x && overlaps p p x) (overlaps p p) va (λ x t. ground arith),
        sound.disjoint p,
      ));
  proper = All-keep IsProper q va sound.proper;
}

-- A mapping of the `bo_va`, on either list.
abbrev pub is_of : ℕ → Mapping → Bool
is_of b m = owns b true m || owns b false m

not_or : (a b : Bool) → not a && not b ≡ not (a || b)
not_or true b = refl
not_or false b = refl

rmv_va :
    (tree : IntervalTree) (vm : Vm) (b : ℕ)
    → IsSound vm.va
    → (bo_rmv tree vm b).va ≡ keep (λ x. not (is_of b x)) vm.va
unfolding bo_rmv
rmv_va tree vm b sound =
    let vm1 = rmv_valids tree vm (keep (owns b true) vm.va) in
    let first : vm1.va ≡ keep (λ x. not (owns b true x)) vm.va =
      rmv_valids_lem tree vm (keep (owns b true) vm.va)
      ∙ starts-keep (owns b true) vm.va sound.disjoint sound.proper in
    let sound1 : IsSound vm1.va =
      subst IsSound (sym first) (keep-IsSound (λ x. not (owns b true x)) vm.va sound) in
    rmv_invalids_lem tree vm1 (keep (owns b false) vm1.va)
    ∙ starts-keep (owns b false) vm1.va sound1.disjoint sound1.proper
    ∙ ap (keep (λ x. not (owns b false x))) first
    ∙ keep-keep (λ x. not (owns b false x)) (λ x. not (owns b true x)) vm.va
    ∙ keep_congr (λ x. not (owns b true x) && not (owns b false x)) (λ x. not (is_of b x)) vm.va
        (All-splits vm.va (λ pre post x e. not_or (owns b true x) (owns b false x)))

-- What a page maps when the mappings of a `bo_va` are gone.
abbrev pub without : ℕ → Option Mapping → Option Mapping
without b none = none
without b (some m) = if is_of b m then none else some m

keep_swap : (p q : Mapping → Bool) (xs : List Mapping) → keep p (keep q xs) ≡ keep q (keep p xs)
keep_swap p q xs =
    keep-keep p q xs
    ∙ keep_congr (λ x. q x && p x) (λ x. p x && q x) xs
        (All-splits xs (λ pre post x e. ground arith))
    ∙ sym (keep-keep q p xs)

head_without :
    (b : ℕ) (xs : List Mapping)
    → length xs ≤ 1
    → head? (keep (λ x. not (is_of b x)) xs) ≡ without b (head? xs)
head_without b [] one = refl
head_without b (m ∷ []) one = elim (Bool-cases (is_of b m)) [
  | inl y ↦ rw y refl
  | inr n ↦ rw n refl
]
head_without b (m ∷ x ∷ xs) one = absurd (omega arith)

-- Where no page has two mappings, none has after the end of a `bo_va`, every page that one of its
-- mappings covered maps nothing, and every other page what it did.
pub bo_rmv_outcome :
    (tree : IntervalTree) (vm : Vm) (b : ℕ)
    → IsSound vm.va
    → IsSound (bo_rmv tree vm b).va
      × ((p : ℕ) → lookup_mapping tree (bo_rmv tree vm b) p ≡ without b (lookup_mapping tree vm p))
unfolding lookup_mapping IsDisjoint
bo_rmv_outcome tree vm b sound =
    let gone = rmv_va tree vm b sound in
    (
      subst IsSound (sym gone) (keep-IsSound (λ x. not (is_of b x)) vm.va sound),
      λ p.
          ap head? (
            tree.iter_lem (bo_rmv tree vm b).va p p
            ∙ ap (keep (overlaps p p)) gone
            ∙ keep_swap (overlaps p p) (λ x. not (is_of b x)) vm.va)
          ∙ head_without b (keep (overlaps p p) vm.va) (sound.disjoint p)
          ∙ ap (λ l. without b (head? l)) (sym (tree.iter_lem vm.va p p)),
    )
