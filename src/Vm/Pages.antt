-- ===== src/Vm/Pages.antt =====
-- Address spaces page by page: no page has two mappings, and what an insertion does to the mappings
-- that pass a test.
use loongson_gsgpu_dkms_modu.Base.{
  ℕ, suc, ◌≤◌, ◌≡◌, refl, sym, ap, ◌∙◌, subst, inl, inr, Bool, true, false, not, Option, none, some,
  List, [], ◌∷◌, ◌++◌, map, arith, if◌then◌else◌, Bool-cases, length, take, drop, All,
  length-append, take-append-drop, keep, keep-append, none_of_keep, split_keep, length_le_one,
  append_nil,
}
use loongson_gsgpu_dkms_modu.Vm.{Mapping, overlaps, IntervalTree}

-- No page has two mappings.
unfoldable pub IsDisjoint : List Mapping → Type 0
IsDisjoint va = (p : ℕ) → length (keep (overlaps p p) va) ≤ 1

module _ (tree : IntervalTree) where
  pub keep-insert_out :
      (q : Mapping → Bool) (m : Mapping) (va : List Mapping)
      → q m ≡ false
      → keep q (tree.insert m va) ≡ keep q va
  keep-insert_out q m va h =
      let at = tree.insert_lem m va in
      rw (at.1, keep-append q (take at.0 va) (m ∷ drop at.0 va), h)
        (sym (keep-append q (take at.0 va) (drop at.0 va)) ∙ ap (keep q) (take-append-drop at.0 va))

  pub length-keep-insert :
      (q : Mapping → Bool) (m : Mapping) (va : List Mapping)
      → q m ≡ true
      → length (keep q (tree.insert m va)) ≡ suc (length (keep q va))
  length-keep-insert q m va h =
      let at = tree.insert_lem m va in
      let parts = keep-append q (take at.0 va) (drop at.0 va) in
      let whole = ap (keep q) (take-append-drop at.0 va) in
      let sum = length-append (keep q (take at.0 va)) (keep q (drop at.0 va)) in
      rw (at.1, keep-append q (take at.0 va) (m ∷ drop at.0 va), h)
        (omega (
          arith,
          length-append (keep q (take at.0 va)) (m ∷ keep q (drop at.0 va)),
          sum,
          ap length parts,
          ap length whole,
        ))

  pub keep-insert_in :
      (q : Mapping → Bool) (m : Mapping) (va : List Mapping)
      → q m ≡ true
      → keep q va ≡ []
      → keep q (tree.insert m va) ≡ m ∷ []
  keep-insert_in q m va h e =
      let at = tree.insert_lem m va in
      let parts : keep q (take at.0 va) ++ keep q (drop at.0 va) ≡ [] =
        sym (keep-append q (take at.0 va) (drop at.0 va))
        ∙ ap (keep q) (take-append-drop at.0 va)
        ∙ e in
      let sides = append_nil (keep q (take at.0 va)) (keep q (drop at.0 va)) parts in
      rw (at.1, keep-append q (take at.0 va) (m ∷ drop at.0 va), h, sides.0, sides.1) refl

abbrev pub IsProper : Mapping → Type 0
IsProper m = m.start ≤ m.last

-- No page has two mappings, and every mapping has a page.
pub record IsSound (va : List Mapping) : Type 0 where
  pub disjoint : IsDisjoint va
  pub proper : All IsProper va

-- Away from the removed mappings, what covers a page stays.
keep_rest :
    (c q ov : Mapping → Bool) (f : Mapping → Mapping) (va : List Mapping)
    → ((x : Mapping) → ov x ≡ true → c x ≡ true → q x ≡ true)
    → All (λ x. q x ≡ false) va
    → keep c (keep (λ x. not (ov x)) va) ≡ map (λ x. if ov x then f x else x) (keep c va)
keep_rest c q ov f [] h none_q = refl
keep_rest c q ov f (x ∷ va) h none_q = ground (arith, h x, keep_rest c q ov f va h none_q.1)

map_append :
    (f : Mapping → Mapping) (xs ys : List Mapping) → map f (xs ++ ys) ≡ map f xs ++ map f ys
map_append f [] ys = refl
map_append f (x ∷ xs) ys = ap (◌∷◌ (f x)) (map_append f xs ys)

nil_of_length : (xs : List Mapping) → length xs ≤ 0 → xs ≡ []
nil_of_length [] h = refl
nil_of_length (x ∷ xs) h = absurd (omega arith)

pub nil_of_one :
    (xs : List Mapping) (m : Mapping) (ys : List Mapping)
    → length (xs ++ m ∷ ys) ≤ 1
    → (xs ≡ []) × (ys ≡ [])
nil_of_one [] m [] h = (refl, refl)
nil_of_one [] m (y ∷ ys) h = absurd (omega arith)
nil_of_one (x ∷ xs) m ys h = absurd (omega (arith, length-append xs (m ∷ ys)))

abbrev pub insert_list : IntervalTree → Option Mapping → List Mapping → List Mapping
insert_list tree none va = va
insert_list tree (some m) va = tree.insert m va

abbrev pub map_head : (Mapping → Mapping) → List Mapping → Option Mapping
map_head f [] = none
map_head f (x ∷ xs) = some (f x)

module _ (tree : IntervalTree) (c q ov : Mapping → Bool) (f : Mapping → Mapping)
    (narrow : (x : Mapping) → q x ≡ true → ov x ≡ true)
    (wide : (x : Mapping) → ov x ≡ true → c x ≡ true → q x ≡ true)
    (same : (x : Mapping) → q x ≡ true → c (f x) ≡ c x) where
  one_part :
      (pre post : List Mapping) (m : Mapping)
      → length (keep c (pre ++ m ∷ post)) ≤ 1
      → q m ≡ true
      → All (λ x. q x ≡ false) pre
      → All (λ x. q x ≡ false) post
      → keep c (tree.insert (f m) (keep (λ x. not (ov x)) (pre ++ m ∷ post)))
        ≡ map (λ x. if ov x then f x else x) (keep c (pre ++ m ∷ post))
  one_part pre post m one qm a b =
      let g : Mapping → Mapping = λ x. if ov x then f x else x in
      let rest : Mapping → Bool = λ x. not (ov x) in
      let om : ov m ≡ true = narrow m qm in
      let va1 = keep rest (pre ++ m ∷ post) in
      let kept : keep c va1 ≡ map g (keep c pre) ++ map g (keep c post) =
        rw
          (
            keep-append rest pre (m ∷ post),
            om,
            keep-append c (keep rest pre) (keep rest post),
            keep_rest c q ov f pre wide a,
            keep_rest c q ov f post wide b,
          )
          refl in
      let whole = keep-append c pre (m ∷ post) in
      elim (Bool-cases (c m)) [
        | inl y ↦
            let nothing : (keep c pre ≡ []) × (keep c post ≡ []) =
              nil_of_one (keep c pre) m (keep c post)
                (subst (λ l. length l ≤ 1) (whole ∙ rw y refl) one) in
            let empty : keep c va1 ≡ [] = kept ∙ rw (nothing.0, nothing.1) refl in
            keep-insert_in tree c (f m) va1 (same m qm ∙ y) empty
            ∙ rw (whole, y, nothing.0, nothing.1, om) refl
        | inr n ↦
            keep-insert_out tree c (f m) va1 (same m qm ∙ n)
            ∙ kept
            ∙ rw (whole, n) (sym (map_append g (keep c pre) (keep c post)))
      ]

  -- One part of at most one mapping comes back: what covers a page is this part, or the same as before.
  pub keep-insert_list :
      (va : List Mapping)
      → length (keep c va) ≤ 1
      → length (keep q va) ≤ 1
      → keep c (insert_list tree (map_head f (keep q va)) (keep (λ x. not (ov x)) va))
        ≡ map (λ x. if ov x then f x else x) (keep c va)
  keep-insert_list va one part = elim (length_le_one (keep q va) part) [
    | inl e ↦ rw e (keep_rest c q ov f va wide (none_of_keep q va e))
    | inr (m, e) ↦
        let s = split_keep q va m e in
        rw e (
          subst
            (λ l.
              keep c (tree.insert (f m) (keep (λ x. not (ov x)) l))
              ≡ map (λ x. if ov x then f x else x) (keep c l))
            (sym s.2) (one_part s.0 s.1 m (subst (λ l. length (keep c l) ≤ 1) s.2 one) s.3 s.4 s.5))
  ]

-- What already stands in the tree next to a new mapping does not matter to a page that it leaves alone.
pub keep-insert_cong :
    (tree : IntervalTree) (c : Mapping → Bool) (m : Mapping) (xs ys : List Mapping)
    → keep c xs ≡ keep c ys
    → length (keep c (tree.insert m ys)) ≤ 1
    → keep c (tree.insert m xs) ≡ keep c (tree.insert m ys)
keep-insert_cong tree c m xs ys e one = elim (Bool-cases (c m)) [
  | inl y ↦
      let empty : keep c ys ≡ [] =
        nil_of_length (keep c ys) (omega (arith, length-keep-insert tree c m ys y)) in
      keep-insert_in tree c m xs y (e ∙ empty) ∙ sym (keep-insert_in tree c m ys y empty)
  | inr n ↦ keep-insert_out tree c m xs n ∙ e ∙ sym (keep-insert_out tree c m ys n)
]
