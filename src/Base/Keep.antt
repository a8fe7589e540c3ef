-- ===== src/Base/Keep.antt =====
-- The elements of a list that a test accepts.
use Prim.Native.Nat.{suc, ◌≤◌}
use mathlib.Core.Path.{◌≡◌, refl, ap, subst}
use mathlib.Core.Logic.{◌⊎◌, inl, inr}
use mathlib.Core.Bool.{Bool, true, false, ◌&&◌, ◌||◌}
use mathlib.Core.List.{List, [], ◌∷◌, ◌++◌, map}
use mathlib.Core.Option.{Option, none, some}
use native.Mathlib.Omega.{arith}
use loongson_gsgpu_dkms_modu.Base.Tests.{if◌then◌else◌, Bool-cases, is_some}
use loongson_gsgpu_dkms_modu.Base.Lists.{length, All}

module _ {ℓ} {A : Type ℓ} where
  abbrev pub keep : (A → Bool) → List A → List A
  keep q [] = []
  keep q (x ∷ xs) = if q x then x ∷ keep q xs else keep q xs

  abbrev pub any : (A → Bool) → List A → Bool
  any q [] = false
  any q (x ∷ xs) = if q x then true else any q xs

  abbrev pub head? : List A → Option A
  head? [] = none
  head? (x ∷ xs) = some x

  abbrev pub to_list : Option A → List A
  to_list none = []
  to_list (some x) = x ∷ []

module _ {ℓ} {A : Type ℓ} where
  pub keep-append : (q : A → Bool) (xs ys : List A) → keep q (xs ++ ys) ≡ keep q xs ++ keep q ys
  keep-append q [] ys = refl
  keep-append q (x ∷ xs) ys = ground (arith, keep-append q xs ys)

  -- Tests that agree on the elements keep the same ones.
  pub keep_congr : (p q : A → Bool) (xs : List A) → All (λ x. p x ≡ q x) xs → keep p xs ≡ keep q xs
  keep_congr p q [] h = refl
  keep_congr p q (x ∷ xs) h = ground (arith, keep_congr p q xs h.1)

  pub keep-keep : (p q : A → Bool) (xs : List A) → keep p (keep q xs) ≡ keep (λ x. q x && p x) xs
  keep-keep p q [] = refl
  keep-keep p q (x ∷ xs) = ground (arith, keep-keep p q xs)

  pub keep_none : (q : A → Bool) (xs : List A) → All (λ x. q x ≡ false) xs → keep q xs ≡ []
  keep_none q [] h = refl
  keep_none q (x ∷ xs) h = ground (arith, keep_none q xs h.1)

  pub none_of_keep : (q : A → Bool) (xs : List A) → keep q xs ≡ [] → All (λ x. q x ≡ false) xs
  none_of_keep q [] h = tt
  none_of_keep q (x ∷ xs) h = ground (arith, none_of_keep q xs)

  pub any-keep : (p q : A → Bool) (xs : List A) → any p (keep q xs) ≡ any (λ x. q x && p x) xs
  any-keep p q [] = refl
  any-keep p q (x ∷ xs) = ground (arith, any-keep p q xs)

  -- Fewer elements pass a narrower test.
  pub keep_le :
      (p q : A → Bool) (xs : List A)
      → ((x : A) → p x ≡ true → q x ≡ true)
      → length (keep p xs) ≤ length (keep q xs)
  keep_le p q [] h = omega arith
  keep_le p q (x ∷ xs) h = ground (arith, keep_le p q xs h, h x)

  pub All-weaken {κ μ} :
      {P : A → Type κ} {Q : A → Type μ} (xs : List A) → ((x : A) → P x → Q x) → All P xs → All Q xs
  All-weaken [] f h = tt
  All-weaken (x ∷ xs) f h = (f x h.0, All-weaken xs f h.1)

  pub All-append {κ} : (P : A → Type κ) (xs ys : List A) → All P xs → All P ys → All P (xs ++ ys)
  All-append P [] ys a b = b
  All-append P (x ∷ xs) ys a b = (a.0, All-append P xs ys a.1 b)

  pub All-keep {κ} : (P : A → Type κ) (q : A → Bool) (xs : List A) → All P xs → All P (keep q xs)
  All-keep P q [] h = tt
  All-keep P q (x ∷ xs) h = ground (arith, All-keep P q xs h.1)

  -- To prove something of every element, prove it of an element between what stands on both sides.
  pub All-splits {κ} :
      {P : A → Type κ} (xs : List A)
      → ((pre post : List A) (x : A) → xs ≡ pre ++ x ∷ post → P x)
      → All P xs
  All-splits [] f = tt
  All-splits (x ∷ xs) f =
      (f [] xs x refl, All-splits xs (λ pre post y e. f (x ∷ pre) post y (ap (◌∷◌ x) e)))

  -- Where one element passes, it stands between elements that do not.
  pub split_keep :
      (q : A → Bool) (xs : List A) (m : A)
      → keep q xs ≡ m ∷ []
      → (pre : List A) × (post : List A) × (xs ≡ pre ++ m ∷ post)
        × (q m ≡ true)
        × All (λ x. q x ≡ false) pre
        × All (λ x. q x ≡ false) post
  split_keep q [] m h = cc
  split_keep q (x ∷ xs) m h = elim (Bool-cases (q x)) [
    | inl y ↦
        let here : (x ≡ m) × (keep q xs ≡ []) = ground arith in
        ([], xs, ap (λ (t : A). t ∷ xs) here.0, ground arith, tt, none_of_keep q xs here.1)
    | inr n ↦
        let there = split_keep q xs m (ground arith) in
        (x ∷ there.0, there.1, ap (◌∷◌ x) there.2, there.3, (n, there.4), there.5)
  ]

  pub length_le_one : (xs : List A) → length xs ≤ 1 → (xs ≡ []) ⊎ ((m : A) × (xs ≡ m ∷ []))
  length_le_one [] h = inl refl
  length_le_one (x ∷ []) h = inr (x, refl)
  length_le_one (x ∷ y ∷ xs) h = absurd (omega arith)

  pub append_nil : (xs ys : List A) → xs ++ ys ≡ [] → (xs ≡ []) × (ys ≡ [])
  append_nil [] ys e = (refl, e)
  append_nil (x ∷ xs) ys e = cc

  pub All-split {κ} : (P : A → Type κ) (xs ys : List A) → All P (xs ++ ys) → All P xs × All P ys
  All-split P [] ys h = (tt, h)
  All-split P (x ∷ xs) ys h = let rest = All-split P xs ys h.1 in ((h.0, rest.0), rest.1)

pub or_false : (b : Bool) → b || false ≡ b
or_false true = refl
or_false false = refl

module _ {ℓ κ} {A : Type ℓ} {B : Type κ} where
  pub length-map : (f : A → B) (xs : List A) → length (map f xs) ≡ length xs
  length-map f [] = refl
  length-map f (x ∷ xs) = ap suc (length-map f xs)

module _ {ℓ} {A : Type ℓ} where
  -- What is kept passes the test.
  pub head_keep :
      (q : A → Bool) (xs : List A) (m : A) (ms : List A) → keep q xs ≡ m ∷ ms → q m ≡ true
  head_keep q [] m ms e = cc
  head_keep q (x ∷ xs) m ms e = ground (arith, head_keep q xs m ms)

  pub List-cases : (xs : List A) → (xs ≡ []) ⊎ ((x : A) × (rest : List A) × (xs ≡ x ∷ rest))
  List-cases [] = inl refl
  List-cases (x ∷ xs) = inr (x, xs, refl)

  pub All-head_keep {κ} :
      (P : A → Type κ) (q : A → Bool) (xs : List A) (m : A) (ms : List A)
      → keep q xs ≡ m ∷ ms
      → All P xs
      → P m
  All-head_keep P q [] m ms e h = cc
  All-head_keep P q (x ∷ xs) m ms e h = elim (Bool-cases (q x)) [
    | inl y ↦ subst P (ground arith) h.0
    | inr n ↦ All-head_keep P q xs m ms (ground arith) h.1
  ]

  pub nil_of_head : (xs : List A) → is_some (head? xs) ≡ false → xs ≡ []
  nil_of_head [] h = refl
  nil_of_head (x ∷ xs) h = cc
