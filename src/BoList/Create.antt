-- ===== src/BoList/Create.antt =====
-- The layout of a list: ordinary buffer objects from the front, user memory from the back.
use loongson_gsgpu_dkms_modu.Base.{
  ℕ, zero, suc, ◌+◌, ◌-◌, ◌≤◌, ◌≡◌, refl, sym, ap, ◌∙◌, ◌⊎◌, inl, inr, true, false, List, [], ◌∷◌,
  ◌++◌, Option, none, some, ◌==◌, ltb, if◌then◌else◌, length, set, replicate, All, arith,
  length-append, length-replicate, Option-cases,
}
use mathlib.Core.List.{append_assoc, append-nil}
use loongson_gsgpu_dkms_modu.BoList.{
  Env, Info, Entry, Build, list, went_on, blank, entry_of, ref, fill_one, fill, create, free, unref,
}

-- The entries of ordinary objects, in order; and those of user memory, each in front of the last.
abbrev pub front : Env → List Info → List Entry
front v [] = []
front v (info ∷ infos) = elim (v.lookup info.bo_handle) [
  | none ↦ front v infos
  | some bo ↦ elim (v.usermm bo) [
    | none ↦ entry_of v bo info ∷ front v infos
    | some mm ↦ front v infos
  ]
]

abbrev pub back : Env → List Info → List Entry → List Entry
back v [] acc = acc
back v (info ∷ infos) acc = elim (v.lookup info.bo_handle) [
  | none ↦ back v infos acc
  | some bo ↦ elim (v.usermm bo) [
    | none ↦ back v infos acc
    | some mm ↦ back v infos (entry_of v bo info ∷ acc)
  ]
]

-- One reference more for each entry.
abbrev pub held : Env → List Info → (ℕ → ℕ) → ℕ → ℕ
held v [] refs = refs
held v (info ∷ infos) refs = elim (v.lookup info.bo_handle) [
  | none ↦ held v infos refs
  | some bo ↦ held v infos (ref bo refs)
]

-- The handle is known, and user memory is the caller's.
abbrev pub IsUsable : Env → Info → Type 0
IsUsable v info =
    (bo : ℕ) × (v.lookup info.bo_handle ≡ some bo)
    × ((v.usermm bo ≡ none) ⊎ (v.usermm bo ≡ some v.mm))

set_at :
    (xs : List Entry) (y e : Entry) (ys : List Entry)
    → set (xs ++ (y ∷ ys)) (length xs) e ≡ xs ++ (e ∷ ys)
set_at [] y e ys = refl
set_at (x ∷ xs) y e ys = ap (◌∷◌ x) (set_at xs y e ys)

replicate_back :
    (n : ℕ) (ys : List Entry)
    → blank ∷ (replicate n blank ++ ys) ≡ replicate n blank ++ (blank ∷ ys)
replicate_back zero ys = refl
replicate_back (suc n) ys = ap (◌∷◌ blank) (replicate_back n ys)

abbrev laid : List Entry → ℕ → List Entry → (ℕ → ℕ) → Build
laid a n b refs = record {
  array = a ++ (replicate n blank ++ b);
  last_entry = length a;
  first_userptr = length a + n;
  refs = refs;
}

front_step :
    (v : Env) (a b : List Entry) (n : ℕ) (refs : ℕ → ℕ) (info : Info) (bo : ℕ)
    → v.lookup info.bo_handle ≡ some bo
    → v.usermm bo ≡ none
    → fill_one v (laid a (suc n) b refs) info
      ≡ went_on (laid (a ++ (entry_of v bo info ∷ [])) n b (ref bo refs))
unfolding fill_one
front_step v a b n refs info bo l u =
    let e = entry_of v bo info in
    let s : set (a ++ (blank ∷ (replicate n blank ++ b))) (length a) e
        ≡ (a ++ (e ∷ [])) ++ (replicate n blank ++ b) =
      set_at a blank e (replicate n blank ++ b)
      ∙ sym (append_assoc a (e ∷ []) (replicate n blank ++ b)) in
    let len : length (a ++ (e ∷ [])) ≡ length a + 1 = length-append a (e ∷ []) in
    rw (l, u, s, len, fill_one)
      (ap
        (λ (t : ℕ). went_on (record {
          array = (a ++ (e ∷ [])) ++ (replicate n blank ++ b);
          last_entry = length a + 1;
          first_userptr = t;
          refs = ref bo refs;
        }))
        (omega arith))

back_step :
    (v : Env) (a b : List Entry) (n : ℕ) (refs : ℕ → ℕ) (info : Info) (bo : ℕ)
    → v.lookup info.bo_handle ≡ some bo
    → v.usermm bo ≡ some v.mm
    → fill_one v (laid a (suc n) b refs) info
      ≡ went_on (laid a n (entry_of v bo info ∷ b) (ref bo refs))
unfolding fill_one
back_step v a b n refs info bo l u =
    let e = entry_of v bo info in
    let at : length a + suc n - 1 ≡ length (a ++ replicate n blank) =
      omega (arith, length-append {0} a (replicate n blank), length-replicate {0} n blank) in
    let same : (v.mm == v.mm) ≡ true = ground arith in
    let s : set (a ++ (blank ∷ (replicate n blank ++ b))) (length (a ++ replicate n blank)) e
        ≡ a ++ (replicate n blank ++ (e ∷ b)) =
      ap (λ (t : List Entry). set t (length (a ++ replicate n blank)) e)
        (ap (λ (t : List Entry). a ++ t) (replicate_back n b)
          ∙ sym (append_assoc a (replicate n blank) (blank ∷ b)))
      ∙ set_at (a ++ replicate n blank) blank e b
      ∙ append_assoc a (replicate n blank) (e ∷ b) in
    rw (l, u, same, at, s, fill_one)
      (ap
        (λ (t : ℕ). went_on (record {
          array = a ++ (replicate n blank ++ (e ∷ b));
          last_entry = length a;
          first_userptr = t;
          refs = ref bo refs;
        }))
        (omega (arith, length-append {0} a (replicate n blank), length-replicate {0} n blank)))

fill_lem :
    (v : Env) (infos : List Info) (a b : List Entry) (refs : ℕ → ℕ) (i : ℕ)
    → All (IsUsable v) infos
    → fill v (laid a (length infos) b refs) i infos
      ≡ list (laid (a ++ front v infos) 0 (back v infos b) (held v infos refs))
unfolding fill
fill_lem v [] a b refs i h = ap (λ (t : List Entry). list (laid t 0 b refs)) (sym (append-nil a))
fill_lem v (info ∷ infos) a b refs i ((bo, l, inl u), hs) =
    rw (front_step v a b (length infos) refs info bo l u, l, u, fill, front, back, held)
      (fill_lem v infos (a ++ (entry_of v bo info ∷ [])) b (ref bo refs) (i + 1) hs
        ∙ ap (λ (t : List Entry). list (laid t 0 (back v infos b) (held v infos (ref bo refs))))
            (append_assoc a (entry_of v bo info ∷ []) (front v infos)))
fill_lem v (info ∷ infos) a b refs i ((bo, l, inr u), hs) =
    rw (back_step v a b (length infos) refs info bo l u, l, u, fill, front, back, held)
      (fill_lem v infos a (entry_of v bo info ∷ b) (ref bo refs) (i + 1) hs)

-- How many references entries hold to a buffer object, and how many the requests ask for.
abbrev is_ref : ℕ → Option ℕ → ℕ
is_ref x none = 0
is_ref x (some bo) = if x == bo then 1 else 0

abbrev count : ℕ → List Entry → ℕ
count x [] = 0
count x (e ∷ es) = is_ref x e.robj + count x es

abbrev asked : Env → ℕ → List Info → ℕ
asked v x [] = 0
asked v x (info ∷ infos) = is_ref x (v.lookup info.bo_handle) + asked v x infos

count-append : (x : ℕ) (xs ys : List Entry) → count x (xs ++ ys) ≡ count x xs + count x ys
count-append x [] ys = omega arith
count-append x (e ∷ xs) ys = omega (arith, count-append x xs ys)

count_laid :
    (v : Env) (x : ℕ) (infos : List Info) (acc : List Entry)
    → count x (front v infos) + count x (back v infos acc) ≡ count x acc + asked v x infos
count_laid v x [] acc = omega arith
count_laid v x (info ∷ infos) acc = elim (Option-cases (v.lookup info.bo_handle)) [
  | inl l ↦ rw (l, front, back, asked) (omega (arith, count_laid v x infos acc))
  | inr (bo, l) ↦ elim (Option-cases (v.usermm bo)) [
    | inl u ↦ rw (l, u, front, back, asked) (omega (arith, count_laid v x infos acc))
    | inr (mm, u) ↦
        rw (l, u, front, back, asked)
          (omega (arith, count_laid v x infos (entry_of v bo info ∷ acc)))
  ]
]

held-asked :
    (v : Env) (x : ℕ) (infos : List Info) (refs : ℕ → ℕ)
    → held v infos refs x ≡ refs x + asked v x infos
unfolding ref
held-asked v x [] refs = omega arith
held-asked v x (info ∷ infos) refs = elim (Option-cases (v.lookup info.bo_handle)) [
  | inl l ↦ rw (l, held, asked) (held-asked v x infos refs ∙ omega arith)
  | inr (bo, l) ↦ rw (l, held, asked) (held-asked v x infos (ref bo refs) ∙ ground arith)
]

free-count : (es : List Entry) (refs : ℕ → ℕ) (x : ℕ) → free es refs x ≡ refs x - count x es
unfolding free unref
free-count [] refs x = omega arith
free-count (e ∷ es) refs x = elim (Option-cases e.robj) [
  | inl n ↦ rw (n, free) (free-count es refs x ∙ omega arith)
  | inr (bo, h) ↦ rw (h, free) (free-count es _ x ∙ ground arith)
]

-- Where every handle is known, user memory is the caller's, and there is room and memory for the list,
-- the list holds the ordinary objects in order from the front and user memory in reverse order from the
-- back, with the boundary between them; and its end gives back exactly the references that it took.
pub free-create :
    (v : Env) (refs : ℕ → ℕ) (infos : List Info) (limit : ℕ)
    → All (IsUsable v) infos
    → length infos ≤ limit
    → (b : Build) × (create v refs infos limit true ≡ list b)
      × (b.array ≡ front v infos ++ back v infos [])
      × (b.first_userptr ≡ length (front v infos))
      × ((x : ℕ) → free b.array b.refs x ≡ refs x)
unfolding create
free-create v refs infos limit h le =
    let small : ltb limit (length infos) ≡ false = ground arith in
    let b = laid (front v infos) 0 (back v infos []) (held v infos refs) in
    let start : replicate (length infos) blank ++ [] ≡ replicate (length infos) blank =
      append-nil _ in
    let n = length infos in
    let build : List Entry → ℕ → Build =
      λ t k. record { array = t; last_entry = 0; first_userptr = k; refs = refs } in
    let first : build (replicate n blank) n ≡ laid [] n [] refs =
      ap (λ (t : List Entry). build t n) (sym start)
      ∙ ap (build (replicate n blank ++ [])) (omega arith) in
    (
      b,
      rw small (ap (λ (t : Build). fill v t 0 infos) first ∙ fill_lem v infos [] [] refs 0 h),
      refl,
      omega arith,
      λ x.
          free-count b.array b.refs x
          ∙ omega (
            arith,
            count-append x (front v infos) (back v infos []),
            count_laid v x infos [],
            held-asked v x infos refs,
          ),
    )
