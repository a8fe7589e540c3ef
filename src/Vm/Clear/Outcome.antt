-- ===== src/Vm/Clear/Outcome.antt =====
-- What an address space maps after `gsgpu_vm_bo_clear_mappings`, page by page.
use loongson_gsgpu_dkms_modu.Base.{
  ℕ, ◌≤◌, ◌<◌, ◌≡◌, refl, sym, ap, ◌∙◌, subst, inl, inr, Bool, true, false, ◌&&◌, not, Option, none,
  some, List, [], map, arith, ltb, leb, if◌then◌else◌, ltb→lt, lt→ltb, Bool-cases, length, keep,
  keep-keep, keep_none, keep_le, All-splits, length-map, head_keep, List-cases,
}
use loongson_gsgpu_dkms_modu.Vm.Cut.{cut_before, cut_after}
use loongson_gsgpu_dkms_modu.Vm.{Mapping, overlaps, IntervalTree}
use loongson_gsgpu_dkms_modu.Vm.Pages.{
  IsDisjoint, keep-insert_out, IsSound, insert_list, map_head, keep-insert_list, keep-insert_cong,
}
use loongson_gsgpu_dkms_modu.Vm.Clear.{early, late}

-- What is left, for page `p`, of a mapping that covered it: a mapping of the range `s` to `e` keeps the
-- part on the side of `p`.
abbrev pub piece : ℕ → ℕ → ℕ → Mapping → Mapping
piece s e p m = if overlaps s e m then (if ltb p s then cut_before s m else cut_after e m) else m

abbrev pub inside : ℕ → ℕ → ℕ → Bool
inside s e p = leb s p && leb p e

module _ (tree : IntervalTree) (s e : ℕ) (va : List Mapping) where
  abbrev pub part_before : Option Mapping
  part_before = map_head (cut_before s) (keep (early s) (keep (overlaps s e) va))

  abbrev pub part_after : Option Mapping
  part_after = map_head (cut_after e) (keep (late e) (keep (overlaps s e) va))

  abbrev pub rest : List Mapping
  rest = keep (λ x. not (overlaps s e x)) va

  pub one_early : IsDisjoint va → length (keep (early s) (keep (overlaps s e) va)) ≤ 1
  unfolding IsDisjoint
  one_early h = rw (keep-keep (early s) (overlaps s e) va) (
      omega (
        arith,
        h s,
        keep_le (λ x. overlaps s e x && early s x) (overlaps s s) va (λ x t. ground arith),
      ))

  pub one_late : IsDisjoint va → length (keep (late e) (keep (overlaps s e) va)) ≤ 1
  unfolding IsDisjoint
  one_late h = rw (keep-keep (late e) (overlaps s e) va) (
      omega (
        arith,
        h e,
        keep_le (λ x. overlaps s e x && late e x) (overlaps e e) va (λ x t. ground arith),
      ))

  -- Below the range.
  below :
      (p : ℕ)
      → IsDisjoint va
      → p < s
      → keep (overlaps p p) (insert_list tree part_before rest)
        ≡ map (λ x. if overlaps s e x then cut_before s x else x) (keep (overlaps p p) va)
  unfolding IsDisjoint
  below p h lt = rw (keep-keep (early s) (overlaps s e) va) (
      keep-insert_list tree (overlaps p p) (λ x. overlaps s e x && early s x) (overlaps s e)
        (cut_before s) (λ x t. ground arith) (λ x t u. ground arith) (λ x t. ground arith) va (h p)
        (subst (λ l. length l ≤ 1) (keep-keep (early s) (overlaps s e) va) (one_early h)))

  -- Above the range.
  above :
      (p : ℕ)
      → IsDisjoint va
      → e < p
      → keep (overlaps p p) (insert_list tree part_after rest)
        ≡ map (λ x. if overlaps s e x then cut_after e x else x) (keep (overlaps p p) va)
  unfolding IsDisjoint
  above p h lt = rw (keep-keep (late e) (overlaps s e) va) (
      keep-insert_list tree (overlaps p p) (λ x. overlaps s e x && late e x) (overlaps s e)
        (cut_after e) (λ x t. ground arith) (λ x t u. ground arith) (λ x t. ground arith) va (h p)
        (subst (λ l. length l ≤ 1) (keep-keep (late e) (overlaps s e) va) (one_late h)))

-- A part that does not cover a page leaves what covers it.
part_out :
    (tree : IntervalTree) (c q : Mapping → Bool) (f : Mapping → Mapping) (xs va : List Mapping)
    → ((x : Mapping) → q x ≡ true → c (f x) ≡ false)
    → keep c (insert_list tree (map_head f (keep q xs)) va) ≡ keep c va
part_out tree c q f xs va h = elim (List-cases (keep q xs)) [
  | inl e ↦ rw e refl
  | inr (m, ms, e) ↦ rw e (keep-insert_out tree c (f m) va (h m (head_keep q xs m ms e)))
]

part_cong :
    (tree : IntervalTree) (c : Mapping → Bool) (part : Option Mapping) (xs ys : List Mapping)
    → keep c xs ≡ keep c ys
    → length (keep c (insert_list tree part ys)) ≤ 1
    → keep c (insert_list tree part xs) ≡ keep c (insert_list tree part ys)
part_cong tree c none xs ys e one = e
part_cong tree c (some m) xs ys e one = keep-insert_cong tree c m xs ys e one

module _ (tree : IntervalTree) (s e : ℕ) (va : List Mapping) (sound : IsSound va) where
  abbrev pub cleared : List Mapping
  cleared =
      insert_list tree (part_after tree s e va)
        (insert_list tree (part_before tree s e va) (rest tree s e va))

  map_side :
      (p : ℕ) (b b' : Bool)
      → b ≡ b'
      → map
          (λ x. if overlaps s e x then (if b then cut_before s x else cut_after e x) else x)
          (keep (overlaps p p) va)
        ≡ map
            (λ x. if overlaps s e x then (if b' then cut_before s x else cut_after e x) else x)
            (keep (overlaps p p) va)
  map_side p b b' h =
      ap
        (λ t.
          map (λ x. if overlaps s e x then (if t then cut_before s x else cut_after e x) else x)
            (keep (overlaps p p) va))
        h

  cleared_below :
      (p : ℕ)
      → s ≤ e
      → p < s
      → keep (overlaps p p) cleared ≡ map (piece s e p) (keep (overlaps p p) va)
  cleared_below p le lt =
      part_out tree (overlaps p p) (late e) (cut_after e) (keep (overlaps s e) va)
        (insert_list tree (part_before tree s e va) (rest tree s e va)) (λ x t. ground arith)
      ∙ below tree s e va p sound.disjoint lt
      ∙ map_side p true (ltb p s) (sym (lt→ltb p s lt))

  cleared_above :
      (p : ℕ)
      → s ≤ e
      → e < p
      → keep (overlaps p p) cleared ≡ map (piece s e p) (keep (overlaps p p) va)
  unfolding IsDisjoint
  cleared_above p le lt =
      let not_below : ltb p s ≡ false = ground arith in
      let up = above tree s e va p sound.disjoint lt in
      part_cong tree (overlaps p p) (part_after tree s e va)
        (insert_list tree (part_before tree s e va) (rest tree s e va)) (rest tree s e va)
        (part_out tree (overlaps p p) (early s) (cut_before s) (keep (overlaps s e) va)
          (rest tree s e va) (λ x t. ground arith))
        (omega (
          arith,
          ap length up,
          length-map (λ x. if overlaps s e x then cut_after e x else x) (keep (overlaps p p) va),
          sound.disjoint p,
        ))
      ∙ up
      ∙ map_side p false (ltb p s) (sym not_below)

  cleared_inside : (p : ℕ) → s ≤ p → p ≤ e → keep (overlaps p p) cleared ≡ []
  cleared_inside p ge le =
      part_out tree (overlaps p p) (late e) (cut_after e) (keep (overlaps s e) va)
        (insert_list tree (part_before tree s e va) (rest tree s e va)) (λ x t. ground arith)
      ∙ part_out tree (overlaps p p) (early s) (cut_before s) (keep (overlaps s e) va)
          (rest tree s e va) (λ x t. ground arith)
      ∙ keep-keep (overlaps p p) (λ x. not (overlaps s e x)) va
      ∙ keep_none (λ x. not (overlaps s e x) && overlaps p p x) va
          (All-splits va (λ pre post x t. ground arith))

  pub keep-cleared :
      (p : ℕ)
      → s ≤ e
      → keep (overlaps p p) cleared
        ≡ (if inside s e p then [] else map (piece s e p) (keep (overlaps p p) va))
  keep-cleared p le = elim (Bool-cases (ltb p s)) [
    | inl y ↦
        let out : inside s e p ≡ false = ground arith in
        cleared_below p le (ltb→lt p s y) ∙ rw out refl
    | inr n ↦ elim (Bool-cases (ltb e p)) [
      | inl z ↦
          let out : inside s e p ≡ false = ground arith in
          cleared_above p le (ltb→lt e p z) ∙ rw out refl
      | inr k ↦
          let within : inside s e p ≡ true = ground arith in
          cleared_inside p (ground arith) (ground arith) ∙ rw within refl
    ]
  ]
