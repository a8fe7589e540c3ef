-- ===== src/Irq/Counts.antt =====
-- An interrupt type is on in the hardware as long as someone holds it.
use loongson_gsgpu_dkms_modu.Base.{
  ℕ, zero, suc, ◌+◌, ◌<◌, ◌≡◌, ◌≢◌, refl, ap, ◌∙◌, inl, inr, Bool, true, false, List, ◌==◌, leb,
  not, ◌&&◌, arith, Bool-cases, length, is_some, get_or, set, ℤ, pos, add_ℤℕ, sub_ℤℕ, Status,
  get_or-set_self, get_or-set_ne, length-set,
}
use native.Mathlib.Decide.{ℕ_discrete}
use loongson_gsgpu_dkms_modu.Irq.{
  Source, counts, has_types, is_nonzero, enabled, update, with_count, get, put,
}

-- A source with counts, each of which agrees with the hardware's state.
pub record IsSynced (s : Source) : Type 0 where
  pub types : has_types s ≡ true
  pub size : length (counts s) ≡ s.num_types
  pub hw_size : length s.hw ≡ s.num_types
  pub agrees :
      (t : ℕ)
      → t < s.num_types
      → (n : ℕ) × (get_or (counts s) t (pos 0) ≡ pos n) × (get_or s.hw t false ≡ not (n == 0))

second_of : (a b : Bool) → (a && b) ≡ true → b ≡ true
second_of true b h = h
second_of false b h = cc

-- A type's count becomes `n`, and its state in the hardware agrees.
written :
    (s : Source) (t n : ℕ) (hw : List Bool)
    → IsSynced s
    → t < s.num_types
    → length hw ≡ s.num_types
    → get_or hw t false ≡ not (n == 0)
    → ((u : ℕ) → t ≢ u → get_or hw u false ≡ get_or s.hw u false)
    → IsSynced (record (with_count s t (pos n)) { hw = hw })
written s t n hw k lt size at off = record {
  types = second_of (is_some s.enabled_types) s.has_set k.types;
  size = length-set (counts s) t (pos n) ∙ k.size;
  hw_size = size;
  agrees = λ u lu. elim (ℕ_discrete t u) [
    | yes q ↦ (
      n,
      rw (← q) (get_or-set_self (counts s) t (pos n) (pos 0) (omega (arith, lt, k.size))),
      rw (← q) at,
    )
    | no ne ↦
        let (m, c, h) = k.agrees u lu in
        (m, get_or-set_ne (counts s) t u (pos n) (pos 0) ne ∙ c, off u ne ∙ h)
  ];
}

is_nonzero_lem : (n : ℕ) → is_nonzero (pos n) ≡ not (n == 0)
is_nonzero_lem zero = refl
is_nonzero_lem (suc n) = ground arith

enabled-with_count :
    (s : Source) (t n : ℕ)
    → IsSynced s
    → t < s.num_types
    → enabled true (with_count s t (pos n)) t ≡ not (n == 0)
unfolding enabled
enabled-with_count s t n k lt =
    let inside : leb s.num_types t ≡ false = ground arith in
    let set_there : s.has_set ≡ true = second_of (is_some s.enabled_types) s.has_set k.types in
    rw (inside, set_there, get_or-set_self (counts s) t (pos n) (pos 0) (omega (arith, lt, k.size)))
      (is_nonzero_lem n)

-- The count is written and the hardware is told.
update-IsSynced :
    (s : Source) (t n : ℕ) (r : Status)
    → IsSynced s
    → t < s.num_types
    → IsSynced (update true (with_count s t (pos n)) t r).1
unfolding update
update-IsSynced s t n r k lt =
    let b = enabled true (with_count s t (pos n)) t in
    written s t n (set s.hw t b) k lt (length-set s.hw t b ∙ k.hw_size)
      (get_or-set_self s.hw t b false (omega (arith, lt, k.hw_size))
        ∙ enabled-with_count s t n k lt)
      (λ u ne. get_or-set_ne s.hw t u b false ne)

-- The count is written and the hardware's state already agrees.
count-IsSynced :
    (s : Source) (t n m : ℕ)
    → IsSynced s
    → t < s.num_types
    → get_or s.hw t false ≡ not (m == 0)
    → not (m == 0) ≡ not (n == 0)
    → IsSynced (with_count s t (pos n))
count-IsSynced s t n m k lt h e = written s t n s.hw k lt k.hw_size (h ∙ e) (λ u ne. refl)

-- A reference to a type of an interrupt keeps every type switched on exactly while it is held. The
-- source has counts, none of which is negative.
pub get-IsSynced :
    (irq_enabled : Bool) (s : Source) (t : ℕ) (r : Status)
    → IsSynced s
    → IsSynced (get irq_enabled s t r).1
unfolding get
get-IsSynced false s t r k = k
get-IsSynced true s t r k = elim (Bool-cases (leb s.num_types t)) [
  | inl out ↦ rw (out, get) k
  | inr inside ↦
      let lt : t < s.num_types = ground arith in
      let (n, c, h) = k.agrees t lt in
      let more : add_ℤℕ (get_or (counts s) t (pos 0)) 1 ≡ pos (n + 1) =
        ap (λ (i : ℤ). add_ℤℕ i 1) c ∙ ground arith in
      elim (Bool-cases (n + 1 == 1)) [
        | inl y ↦ rw (inside, k.types, more, y) (update-IsSynced s t (n + 1) r k lt)
        | inr m ↦ rw (inside, k.types, more, m) (count-IsSynced s t (n + 1) n k lt h (ground arith))
      ]
]

-- The release of a type that is held keeps every type switched on exactly while it is held. The
-- source has counts, none of which is negative, and that of the type is at least one.
pub put-IsSynced :
    (irq_enabled : Bool) (s : Source) (t n : ℕ) (r : Status)
    → IsSynced s
    → get_or (counts s) t (pos 0) ≡ pos (suc n)
    → IsSynced (put irq_enabled s t r).1
unfolding put
put-IsSynced false s t n r k c = k
put-IsSynced true s t n r k c = elim (Bool-cases (leb s.num_types t)) [
  | inl out ↦ rw (out, put) k
  | inr inside ↦
      let lt : t < s.num_types = ground arith in
      let (m, d, h) = k.agrees t lt in
      let m_is : m ≡ suc n = ground (arith, c, d) in
      let less : sub_ℤℕ (get_or (counts s) t (pos 0)) 1 ≡ pos n =
        ap (λ (i : ℤ). sub_ℤℕ i 1) c ∙ ground arith in
      elim (Bool-cases (n == 0)) [
        | inl y ↦
            let z : is_nonzero (pos n) ≡ false = is_nonzero_lem n ∙ ap not y in
            rw (inside, k.types, less, z) (update-IsSynced s t n r k lt)
        | inr q ↦
            let z : is_nonzero (pos n) ≡ true = is_nonzero_lem n ∙ ap not q in
            rw (inside, k.types, less, z) (count-IsSynced s t n m k lt h (ground arith))
      ]
]
