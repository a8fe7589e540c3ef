-- ===== src/HwSema/Laws.antt =====
-- What the semaphore ioctl does on each branch, and what it keeps true of the table.
use loongson_gsgpu_dkms_modu.Base.{
  ℕ, zero, suc, ◌-◌, ◌%◌, ◌≡◌, refl, sym, ap, ◌∙◌, ◌⊎◌, inl, inr, true, false, List, [], ◌∷◌,
  Option, none, some, u32_mod, u64_mod, ◌==◌, ltb, if◌then◌else◌, length, get_elem?, set, replicate,
  All, take, Status, ok, err, einval, enodata, length-set, lt_of_get_elem?, lt→ltb, ==_iff, subst,
  arith, Bool-cases,
}
use native.Mathlib.Nat.{mod-eq_of_lt}
use loongson_gsgpu_dkms_modu.HwSema.{
  Sema, Vm, Request, cleared, num_sema, find_idle, op_ioctl, op_get, op_put,
}

-- The entry that a process gets.
abbrev pub granted : Vm → Request → Sema
granted vm req = record { own = true; pasid = vm.pasid; ctx = req.ctx_id; vm = some vm.addr }

abbrev pub IsOwned : Sema → Type 0
IsOwned s = s.own ≡ true

-- The search stops at the first entry without an owner.
pub find_idle_lem :
    (sema : List Sema)
    → ((find_idle sema ≡ none) × All IsOwned sema)
      ⊎ ((i : ℕ) × (s : Sema) × (find_idle sema ≡ some i)
          × (get_elem? sema i ≡ some s)
          × (s.own ≡ false)
          × All IsOwned (take i sema))
unfolding find_idle
find_idle_lem [] = inl (refl, tt)
find_idle_lem (s ∷ rest) = elim (Bool-cases s.own) [
  | inr free ↦ inr (0, s, rw free, refl, free, tt)
  | inl owned ↦ elim (find_idle_lem rest) [
    | inl (e, all) ↦ inl (rw owned (rw e), (owned, all))
    | inr (i, t, e, at, free, all) ↦ inr (suc i, t, rw owned (rw e), at, free, (owned, all))
  ]
]

-- GET gives the caller the free semaphore with the lowest number, marks it with the caller's
-- address space and context, and leaves every other entry alone. If every semaphore is owned it
-- fails with -ENODATA, returns the number ~0, and changes nothing.
pub get_outcome :
    (sema : List Sema) (vm : Vm) (req : Request)
    → req.ops ≡ op_get
    → (All IsOwned sema
        × (op_ioctl sema vm req ≡ some (err enodata, record req { id = u64_mod - 1 }, sema)))
      ⊎ ((i : ℕ) × (s : Sema) × (get_elem? sema i ≡ some s)
          × (s.own ≡ false)
          × All IsOwned (take i sema)
          × (op_ioctl sema vm req ≡ some (ok, record req { id = i }, set sema i (granted vm req))))
unfolding op_ioctl
get_outcome sema vm req e = elim (find_idle_lem sema) [
  | inl (f, all) ↦ inl (all, ground (arith, f))
  | inr (i, s, f, at, free, all) ↦ inr (i, s, at, free, all, ground (arith, f))
]

-- PUT never looks at the owner: any caller clears any entry by its number, and a number past the end
-- of the array, after it is cut to 32 bits, is a write outside the array.
put_unchecked :
    (sema : List Sema) (vm : Vm) (req : Request)
    → req.ops ≡ op_put
    → op_ioctl sema vm req ≡ (
        if ltb (req.id % u32_mod) (length sema)
        then some (ok, req, set sema (req.id % u32_mod) cleared)
        else none)
unfolding op_ioctl
put_unchecked sema vm req e = ground arith

-- The table has an entry for each semaphore, and one without an owner has nothing left of an old one.
abbrev pub IsClean : Sema → Type 0
IsClean s = (s.own ≡ true) ⊎ (s ≡ cleared)

pub record IsTable (sema : List Sema) : Type 0 where
  pub size : length sema ≡ num_sema
  pub clean : All IsClean sema

set-IsClean :
    (sema : List Sema) (i : ℕ) (s : Sema)
    → IsClean s
    → All IsClean sema
    → All IsClean (set sema i s)
set-IsClean [] i s c all = tt
set-IsClean (x ∷ sema) zero s c all = (c, all.1)
set-IsClean (x ∷ sema) (suc i) s c all = (all.0, set-IsClean sema i s c all.1)

set-IsTable :
    (sema : List Sema) (i : ℕ) (s : Sema) → IsClean s → IsTable sema → IsTable (set sema i s)
set-IsTable sema i s c t = record {
  size = length-set sema i s ∙ t.size;
  clean = set-IsClean sema i s c t.clean;
}

table_of :
    {r r' : Status} {q q' : Request} {t t' : List Sema}
    → ◌≡◌ {A = Option (Status × Request × List Sema)} (some (r, q, t)) (some (r', q', t'))
    → (q ≡ q') × (t ≡ t') × (r ≡ r')
table_of e = ground arith

other_outcome :
    (sema : List Sema) (vm : Vm) (req : Request)
    → (req.ops ≡ op_get)
      ⊎ (req.ops ≡ op_put)
      ⊎ (op_ioctl sema vm req ≡ some (err einval, req, sema))
unfolding op_ioctl
other_outcome sema vm req = elim (Bool-cases (req.ops == op_get)) [
  | inl g ↦ inl ((==_iff req.ops op_get).0 g)
  | inr ng ↦ elim (Bool-cases (req.ops == op_put)) [
    | inl p ↦ inr (inl ((==_iff req.ops op_put).0 p))
    | inr np ↦ inr (inr (rw (ng, np)))
  ]
]

-- Every request that stays inside the array keeps the table well formed.
pub op_ioctl-IsTable :
    (sema sema' : List Sema) (vm : Vm) (req req' : Request) (r : Status)
    → IsTable sema
    → op_ioctl sema vm req ≡ some (r, req', sema')
    → IsTable sema'
op_ioctl-IsTable sema sema' vm req req' r t e = elim (other_outcome sema vm req) [
  | inl g ↦ elim (get_outcome sema vm req g) [
    | inl (all, f) ↦ subst IsTable (table_of (sym f ∙ e)).1 t
    | inr (i, s, at, free, all, f) ↦
        subst IsTable (table_of (sym f ∙ e)).1 (set-IsTable sema i (granted vm req) (inl refl) t)
  ]
  | inr (inl p) ↦ elim (Bool-cases (ltb (req.id % u32_mod) (length sema))) [
    | inl b ↦
        let f : op_ioctl sema vm req ≡ some (ok, req, set sema (req.id % u32_mod) cleared) =
          put_unchecked sema vm req p ∙ rw b in
        subst IsTable (table_of (sym f ∙ e)).1
          (set-IsTable sema (req.id % u32_mod) cleared (inr refl) t)
    | inr b ↦ let f : op_ioctl sema vm req ≡ none = put_unchecked sema vm req p ∙ rw b in cc
  ]
  | inr (inr f) ↦ subst IsTable (table_of (sym f ∙ e)).1 t
]

set-set_back :
    (sema : List Sema) (i : ℕ) (s t : Sema)
    → get_elem? sema i ≡ some t
    → set (set sema i s) i t ≡ sema
set-set_back [] i s t e = refl
set-set_back (x ∷ sema) zero s t e = ground arith
set-set_back (x ∷ sema) (suc i) s t e = ap (◌∷◌ x) (set-set_back sema i s t e)

get_elem?-IsClean :
    (sema : List Sema) (i : ℕ) (s : Sema) → All IsClean sema → get_elem? sema i ≡ some s → IsClean s
get_elem?-IsClean [] i s all e = cc
get_elem?-IsClean (x ∷ sema) zero s all e = ground (arith, all.0)
get_elem?-IsClean (x ∷ sema) (suc i) s all e = get_elem?-IsClean sema i s all.1 e

put_back :
    (sema : List Sema) (vm : Vm) (req : Request) (i : ℕ) (s : Sema)
    → IsTable sema
    → get_elem? sema i ≡ some s
    → s.own ≡ false
    → let back = record req { id = i; ops = op_put } in
      op_ioctl (set sema i (granted vm req)) vm back ≡ some (ok, back, sema)
put_back sema vm req i s t at free =
    let back = record req { id = i; ops = op_put } in
    let old = set sema i (granted vm req) in
    let lt = lt_of_get_elem? sema i at in
    let small : i % u32_mod ≡ i = mod-eq_of_lt (omega (arith, t.size)) in
    let in_array : ltb i (length old) ≡ true =
      lt→ltb i (length old) (omega (arith, length-set {0} sema i (granted vm req))) in
    let was : s ≡ cleared = ground (arith, get_elem?-IsClean sema i s t.clean at) in
    put_unchecked old vm back refl
    ∙ rw (small, in_array, set-set_back sema i (granted vm req) cleared (at ∙ ap some was))

-- A semaphore that is got and then put leaves the table as it was.
put-get :
    (sema sema' : List Sema) (vm : Vm) (req req' : Request)
    → IsTable sema
    → req.ops ≡ op_get
    → op_ioctl sema vm req ≡ some (ok, req', sema')
    → op_ioctl sema' vm (record req' { ops = op_put })
      ≡ some (ok, record req' { ops = op_put }, sema)
put-get sema sema' vm req req' t o e = elim (get_outcome sema vm req o) [
  | inl (all, f) ↦ cc (sym f ∙ e)
  | inr (i, s, at, free, all, f) ↦
      let (q, n, _) = table_of (sym f ∙ e) in rw (← q, ← n) (put_back sema vm req i s t at free)
]

pub replicate-IsClean : (n : ℕ) → All IsClean (replicate n cleared)
replicate-IsClean zero = tt
replicate-IsClean (suc n) = (inr refl, replicate-IsClean n)
