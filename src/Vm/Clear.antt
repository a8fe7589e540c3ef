-- ===== src/Vm/Clear.antt =====
-- The loops of `gsgpu_vm_bo_clear_mappings`: what the first gathers, and what the second leaves in the
-- tree, where no page has two mappings.
pub mod Range
pub mod Outcome
use loongson_gsgpu_dkms_modu.Base.{
  ℕ, ◌+◌, ◌≤◌, ◌≡◌, refl, sym, ap, ◌∙◌, inl, inr, Bool, true, false, ◌&&◌, ◌||◌, not, Option, none,
  some, List, [], ◌∷◌, ◌++◌, arith, ltb, ◌==◌, Bool-cases, length, All, keep, any, keep_congr,
  keep-keep, All-splits,
}
use loongson_gsgpu_dkms_modu.Vm.Cut.{
  cut_before, cut_after, fill_once, add_parts, gather_one, gather, trim, free_up,
}
use loongson_gsgpu_dkms_modu.Vm.{Mapping, Vm, overlaps, starts_at, IntervalTree}
use loongson_gsgpu_dkms_modu.Vm.Pages.{map_head}

abbrev pub or_else : Option Mapping → Option Mapping → Option Mapping
or_else none b = b
or_else (some m) b = some m

abbrev pub count_some : Option Mapping → ℕ
count_some none = 0
count_some (some m) = 1

abbrev pub reverse_onto : List Mapping → List Mapping → List Mapping
reverse_onto [] ys = ys
reverse_onto (x ∷ xs) ys = reverse_onto xs (x ∷ ys)

abbrev pub early : ℕ → Mapping → Bool
early s m = ltb m.start s

abbrev pub late : ℕ → Mapping → Bool
late e m = ltb e m.last

or_else-none : (b : Option Mapping) → or_else b none ≡ b
or_else-none none = refl
or_else-none (some m) = refl

-- A turn fills a part at most once.
fill_once_lem :
    (q : Mapping → Bool) (f : Mapping → Mapping) (m : Mapping) (ms : List Mapping)
    (b : Option Mapping)
    → count_some b + length (keep q (m ∷ ms)) ≤ 1
    → (b' : Option Mapping) × (fill_once (q m) b (f m) ≡ some b')
      × (count_some b' + length (keep q ms) ≤ 1)
      × (or_else b' (map_head f (keep q ms)) ≡ or_else b (map_head f (keep q (m ∷ ms))))
unfolding fill_once
fill_once_lem q f m ms (some b) h = elim (Bool-cases (q m)) [
  | inl y ↦ absurd (ground arith)
  | inr n ↦ (some b, rw n refl, ground arith, refl)
]
fill_once_lem q f m ms none h = elim (Bool-cases (q m)) [
  | inl y ↦ (some (f m), rw y refl, ground arith, rw y refl)
  | inr n ↦ (none, rw n refl, ground arith, rw n refl)
]

one_turn :
    (s e : ℕ) (m : Mapping) (b a b' a' : Option Mapping) (r : List Mapping)
    → fill_once (early s m) b (cut_before s m) ≡ some b'
    → fill_once (late e m) a (cut_after e m) ≡ some a'
    → gather_one s e (record { before = b; after = a; removed = r }) m
      ≡ some (record { before = b'; after = a'; removed = m ∷ r })
unfolding gather_one add_parts
one_turn s e m b a b' a' r eb ea =
    ap
      (λ (t : Option (Option Mapping)).
        add_parts t (fill_once (late e m) a (cut_after e m)) (m ∷ r))
      eb
    ∙ ap (λ (t : Option (Option Mapping)). add_parts (some b') t (m ∷ r)) ea

-- Where one mapping at most sticks out on each side, no part is filled in twice.
pub gather_lem :
    (s e : ℕ) (ms : List Mapping) (b a : Option Mapping) (r : List Mapping)
    → count_some b + length (keep (early s) ms) ≤ 1
    → count_some a + length (keep (late e) ms) ≤ 1
    → gather s e (record { before = b; after = a; removed = r }) ms
      ≡ some (record {
        before = or_else b (map_head (cut_before s) (keep (early s) ms));
        after = or_else a (map_head (cut_after e) (keep (late e) ms));
        removed = reverse_onto ms r;
      })
unfolding gather
gather_lem s e [] b a r hb ha = ap some (rw (or_else-none b, or_else-none a) refl)
gather_lem s e (m ∷ ms) b a r hb ha =
    let (b', eb, cb, ob) = fill_once_lem (early s) (cut_before s) m ms b hb in
    let (a', ea, ca, oa) = fill_once_lem (late e) (cut_after e) m ms a ha in
    rw (one_turn s e m b a b' a' r eb ea, gather)
      (gather_lem s e ms b' a' (m ∷ r) cb ca ∙ ap some (rw (ob, oa) refl))

pub any-reverse_onto :
    (q : Mapping → Bool) (xs ys : List Mapping) → any q (reverse_onto xs ys) ≡ any q xs || any q ys
any-reverse_onto q [] ys = refl
any-reverse_onto q (x ∷ xs) ys = ground (arith, any-reverse_onto q xs (x ∷ ys))

pub keep-true : (xs : List Mapping) → keep (λ x. true) xs ≡ xs
keep-true [] = refl
keep-true (x ∷ xs) = ap (◌∷◌ x) (keep-true xs)

-- The second loop takes out the mappings that start where a gathered one does.
pub free_up_lem :
    (tree : IntervalTree) (s e : ℕ) (vm : Vm) (ms : List Mapping)
    → (free_up tree s e vm ms).va ≡ keep (λ x. not (any (λ m. starts_at m.start x) ms)) vm.va
unfolding free_up
free_up_lem tree s e vm [] = sym (keep-true vm.va)
free_up_lem tree s e vm (m ∷ ms) =
    free_up_lem tree s e (record vm { va = tree.remove m vm.va; freed = trim s e m ∷ vm.freed }) ms
    ∙ ap (keep (λ x. not (any (λ y. starts_at y.start x) ms))) (tree.remove_lem m vm.va)
    ∙ keep-keep (λ x. not (any (λ y. starts_at y.start x) ms)) (λ x. not (starts_at m.start x))
        vm.va
    ∙ keep_congr (λ x. not (starts_at m.start x) && not (any (λ y. starts_at y.start x) ms))
        (λ x. not (any (λ y. starts_at y.start x) (m ∷ ms))) vm.va
        (All-splits vm.va (λ pre post x e. ground arith))

pub any_append :
    (q : Mapping → Bool) (xs ys : List Mapping) → any q (xs ++ ys) ≡ any q xs || any q ys
any_append q [] ys = refl
any_append q (x ∷ xs) ys = ground (arith, any_append q xs ys)

-- A mapping that does not cover the first page of another starts elsewhere.
pub starts_apart :
    (ov : Mapping → Bool) (s : ℕ) (xs : List Mapping)
    → All (λ y. overlaps s s y ≡ false) xs
    → All (λ y. y.start ≤ y.last) xs
    → any (λ y. ov y && (s == y.start)) xs ≡ false
starts_apart ov s [] h proper = refl
starts_apart ov s (x ∷ xs) h proper = ground (arith, starts_apart ov s xs h.1 proper.1)
