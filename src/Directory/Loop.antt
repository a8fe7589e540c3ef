-- ===== src/Directory/Loop.antt =====
-- The loop of `gsgpu_vm_alloc_levels` over the entries of a directory.
use loongson_gsgpu_dkms_modu.Base.{
  ℕ, zero, suc, ◌+◌, ◌≤◌, ◌≡◌, refl, sym, ap, ◌∙◌, subst, inl, inr, Bool, true, Option, none, some,
  ◌==◌, if◌then◌else◌, arith, Bool-cases, is_some, Status, ok, err,
}
use loongson_gsgpu_dkms_modu.Directory.{
  Pt, leaf, dir, bo_of, with_bo, put, Manager, Attempt, Created, made, refused, Lists, prepare,
  adopt, fill, ensure, Sub, Step, after_sub, after_ensure, entries_loop,
}
use loongson_gsgpu_dkms_modu.Directory.Walk.{
  table_at, IsTree, Keeps, Keeps-refl, with_bo-IsTree, with_bo-Keeps, put_self, put-Keeps,
  put-IsTree, some_kept,
}

-- A step on an entry keeps the shape and the tables that are there; what it is made for, `P`, holds
-- where it does not fail.
abbrev pub Sound : Manager → ℕ → ℕ → Pt → (Pt → Type 0) → Status × Pt × Lists → Type 0
Sound g depth level t P (r, t', s) = IsTree depth t' × Keeps g level t t' × (r ≡ ok → P t')

some_bo : (t : Pt) (b : ℕ) → is_some (bo_of (with_bo t (some b))) ≡ true
some_bo (leaf x) b = refl
some_bo (dir x f) b = refl

module _ (g : Manager) (use_cpu : Bool) (supply : ℕ → Attempt) (depth level : ℕ) (t : Pt)
    (tree : IsTree depth t) where
  abbrev HasBo : Status × Pt × Lists → Type 0
  HasBo = Sound g depth level t (λ t'. is_some (bo_of t') ≡ true)

  adopt-Sound :
      (s : Lists) (bo : ℕ) (placed : Bool) (r : Status)
      → bo_of t ≡ none
      → HasBo (adopt t s bo placed r)
  unfolding adopt
  adopt-Sound s bo placed (err e) q = (tree, Keeps-refl g level t, λ x. cc)
  adopt-Sound s bo placed ok q = (
    with_bo-IsTree depth t (some bo) tree,
    with_bo-Keeps g level t (some bo) q,
    λ x. some_bo t bo,
  )

  fill-Sound :
      (a : Attempt) (s : Lists) (c : Created) → bo_of t ≡ none → HasBo (fill use_cpu a t s c)
  unfolding fill
  fill-Sound a s (refused e) q = (tree, Keeps-refl g level t, λ x. cc)
  fill-Sound a s (made bo) q = adopt-Sound s bo a.placed (prepare use_cpu a) q

  ensure-Sound : (s : Lists) (o : Option ℕ) → bo_of t ≡ o → HasBo (ensure use_cpu supply t s o)
  unfolding ensure
  ensure-Sound s (some bo) q = (tree, Keeps-refl g level t, λ x. ap is_some q)
  ensure-Sound s none q =
      fill-Sound (supply s.steps) (record s { steps = s.steps + 1 }) (supply s.steps).create q

-- The call for an entry's own entries: it reaches each page from `saddr` to `eaddr`.
abbrev pub Reaches : Manager → ℕ → ℕ → ℕ → Pt → Type 0
Reaches g level saddr eaddr t =
    (q : ℕ) → saddr ≤ q → q ≤ eaddr → is_some (table_at g t level q) ≡ true

abbrev pub IsSub : Manager → ℕ → ℕ → Sub → Type 0
IsSub g depth level sub =
    (t : Pt) (saddr eaddr : ℕ) (s : Lists)
    → IsTree depth t
    → is_some (bo_of t) ≡ true
    → Sound g depth level t (Reaches g level saddr eaddr) (sub t saddr eaddr s)

-- The entries of a directory, from `i` to `to`.
abbrev pub ReachesAll : Manager → ℕ → ℕ → ℕ → ℕ → ℕ → ℕ → ℕ → (ℕ → Pt) → Type 0
ReachesAll g level i from to saddr eaddr mask f =
    (j q : ℕ)
    → i ≤ j
    → j ≤ to
    → (j ≡ from → saddr ≤ q)
    → (j ≡ to → q ≤ eaddr)
    → q ≤ mask
    → is_some (table_at g (f j) level q) ≡ true

abbrev pub SoundStep : Manager → ℕ → ℕ → (ℕ → Pt) → ((ℕ → Pt) → Type 0) → Step → Type 0
SoundStep g depth level f P (r, f', s) =
    ((j : ℕ) → IsTree depth (f' j)) × ((j : ℕ) → Keeps g level (f j) (f' j)) × (r ≡ ok → P f')

first_page : (i from saddr q : ℕ) → (i ≡ from → saddr ≤ q) → (if i == from then saddr else 0) ≤ q
first_page i from saddr q h = elim (Bool-cases (i == from)) [
  | inl y ↦ rw y (h (ground arith))
  | inr n ↦ rw n (omega arith)
]

last_page :
    (i to eaddr mask q : ℕ)
    → (i ≡ to → q ≤ eaddr)
    → q ≤ mask
    → q ≤ (if i == to then eaddr else mask)
last_page i to eaddr mask q h le = elim (Bool-cases (i == to)) [
  | inl y ↦ rw y (h (ground arith))
  | inr n ↦ rw n le
]

module _ (g : Manager) (use_cpu : Bool) (supply : ℕ → Attempt) (depth level : ℕ) (sub : Sub)
    (is_sub : IsSub g depth level sub) (from to saddr eaddr mask : ℕ) where
  after_sub-Sound :
      (f : ℕ → Pt) (i : ℕ) (t : Pt) (rest : (ℕ → Pt) → Lists → Step) (P : Pt → Type 0)
      (Q : (ℕ → Pt) → Type 0)
      → ((j : ℕ) → IsTree depth (f j))
      → Keeps g level (f i) t
      → ((f' : ℕ → Pt) (s : Lists)
          → ((j : ℕ) → IsTree depth (f' j))
          → P (f' i)
          → SoundStep g depth level f' Q (rest f' s))
      → (r : Status × Pt × Lists) → Sound g depth level t P r
      → SoundStep g depth level f Q (after_sub f i rest r)
  unfolding after_sub
  after_sub-Sound f i t rest P Q shape keeps later (err e, t', s) (tree, kept, h) =
      let on = λ (q b : ℕ) (x : table_at g (f i) level q ≡ some b). kept q b (keeps q b x) in
      (put-IsTree depth f i t' tree shape, put-Keeps g level f i t' on, λ e. cc)
  after_sub-Sound f i t rest P Q shape keeps later (ok, t', s) (tree, kept, h) =
      let on = λ (q b : ℕ) (x : table_at g (f i) level q ≡ some b). kept q b (keeps q b x) in
      let next =
        later (put f i t') s (put-IsTree depth f i t' tree shape)
          (subst P (sym (put_self f i t')) (h refl)) in
      (next.0, λ j q b x. next.1 j q b (put-Keeps g level f i t' on j q b x), next.2)

  after_ensure-Sound :
      (f : ℕ → Pt) (i a z : ℕ) (rest : (ℕ → Pt) → Lists → Step) (Q : (ℕ → Pt) → Type 0)
      → ((j : ℕ) → IsTree depth (f j))
      → ((f' : ℕ → Pt) (s : Lists)
          → ((j : ℕ) → IsTree depth (f' j))
          → Reaches g level a z (f' i)
          → SoundStep g depth level f' Q (rest f' s))
      → (r : Status × Pt × Lists) → Sound g depth level (f i) (λ t'. is_some (bo_of t') ≡ true) r
      → SoundStep g depth level f Q (after_ensure (λ t s. sub t a z s) f i rest r)
  unfolding after_ensure
  after_ensure-Sound f i a z rest Q shape later (err e, t, s) (tree, kept, h) =
      (shape, λ j. Keeps-refl g level (f j), λ x. cc)
  after_ensure-Sound f i a z rest Q shape later (ok, t, s) (tree, kept, h) =
      after_sub-Sound f i t rest (Reaches g level a z) Q shape kept later (sub t a z s)
        (is_sub t a z s tree (h refl))

  -- A page of entry `i`, or of a later one.
  reach :
      (i : ℕ) (f' f'' : ℕ → Pt) (j q : ℕ)
      → Keeps g level (f' j) (f'' j)
      → ReachesAll g level (i + 1) from to saddr eaddr mask f''
      → Reaches g level (if i == from then saddr else 0) (if i == to then eaddr else mask) (f' i)
      → i ≤ j
      → j ≤ to
      → (j ≡ from → saddr ≤ q)
      → (j ≡ to → q ≤ eaddr)
      → q ≤ mask
      → is_some (table_at g (f'' j) level q) ≡ true
  reach i f' f'' j q kept rest reached ge le low high in_mask = elim (Bool-cases (j == i)) [
    | inr n ↦ rest j q (ground arith) le low high in_mask
    | inl y ↦
        let same : i ≡ j = ground arith in
        some_kept g level q (f' j) (f'' j) kept (
          subst (λ (n : ℕ). is_some (table_at g (f' n) level q) ≡ true) same
            (reached q (first_page i from saddr q (λ e. low (sym same ∙ e)))
              (last_page i to eaddr mask q (λ e. high (sym same ∙ e)) in_mask)))
  ]

  pub entries_loop-Sound :
      (count i : ℕ) (f : ℕ → Pt) (s : Lists)
      → to + 1 ≤ i + count
      → ((j : ℕ) → IsTree depth (f j))
      → SoundStep g depth level f
          (ReachesAll g level i from to saddr eaddr mask)
          (entries_loop count use_cpu supply sub i from to saddr eaddr mask f s)
  unfolding entries_loop
  entries_loop-Sound zero i f s e shape =
      (shape, λ j. Keeps-refl g level (f j), λ x j q ge le. absurd (omega arith))
  entries_loop-Sound (suc count) i f s e shape =
      let a : ℕ = if i == from then saddr else 0 in
      let z : ℕ = if i == to then eaddr else mask in
      after_ensure-Sound f i a z
        (λ f' s'. entries_loop count use_cpu supply sub (i + 1) from to saddr eaddr mask f' s')
        (ReachesAll g level i from to saddr eaddr mask) shape
        (λ f' s' shape' reached.
          let rest = entries_loop-Sound count (i + 1) f' s' (omega arith) shape' in
          let f'' =
            (entries_loop count use_cpu supply sub (i + 1) from to saddr eaddr mask f' s').1 in
          (
            rest.0,
            rest.1,
            λ good j q ge le low high in_mask.
                reach i f' f'' j q (rest.1 j) (rest.2 good) reached ge le low high in_mask,
          ))
        (ensure use_cpu supply (f i) s (bo_of (f i)))
        (ensure-Sound g use_cpu supply depth level (f i) (shape i) s (bo_of (f i)) refl)
