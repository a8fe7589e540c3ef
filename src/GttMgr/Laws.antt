-- ===== src/GttMgr/Laws.antt =====
-- Pages are counted: what a node takes from the domain is what its end gives back.
use loongson_gsgpu_dkms_modu.Base.{
  negsuc, ltb, u64_mod, false, not, ◌&&◌, ◌||◌, ◌<◌, Bool, refl, ◌+◌, ◌%◌, true, Status, ok, err,
  ◌∙◌, ℕ, ◌≡◌, ap, ◌⊎◌, inl, inr, none, some, add_ℤℕ, sub_ℤℕ, ℤ, pos, Errno, arith, Bool-cases,
  List, ◌∷◌,
}
use native.Mathlib.Nat.{mod-eq_of_lt}
use loongson_gsgpu_dkms_modu.GttMgr.{
  as_u64, fresh, settle, Insert, Mgr, Place, Mem, Request, Inserted, at, failed, new, del, window,
  alloc, refuses, taken, given_back, is_placed, place_node, remove,
}

pub add_ℤℕ-sub_ℤℕ : (i : ℤ) (n : ℕ) → add_ℤℕ (sub_ℤℕ i n) n ≡ i
add_ℤℕ-sub_ℤℕ (pos i) n = ground arith
add_ℤℕ-sub_ℤℕ (negsuc i) n = ground arith

given_back-taken : (m : Mgr) (mem : Mem) → given_back (taken m mem) mem ≡ m
given_back-taken m mem =
    ap (λ (a : ℤ). record { available = a; mm = m.mm }) (add_ℤℕ-sub_ℤℕ m.available mem.num_pages)

remove_head : (s : ℕ) (xs : List ℕ) → remove (s ∷ xs) s ≡ xs
unfolding remove
remove_head s xs = ground arith

Inserted-cases : (i : Inserted) → ((s : ℕ) × (i ≡ at s)) ⊎ ((e : Errno) × (i ≡ failed e))
Inserted-cases (at s) = inl (s, refl)
Inserted-cases (failed e) = inr (e, refl)

alloc_at :
    (insert : Insert) (n : ℕ) (m : Mgr) (place : Place) (mem : Mem) (s : ℕ)
    → insert m.mm mem.num_pages (window (some place) n) ≡ at s
    → alloc insert n m (some place) (record mem { mm_node = some (fresh mem) }) (fresh mem) ≡ (
      ok,
      record m { mm = s ∷ m.mm },
      record mem {
        mm_node = some (record { start = some s; size = mem.num_pages });
        start = some s;
      },
    )
unfolding alloc
alloc_at insert n m place mem s e = rw e refl

alloc_failed :
    (insert : Insert) (n : ℕ) (m : Mgr) (place : Place) (mem : Mem) (r : Errno)
    → insert m.mm mem.num_pages (window (some place) n) ≡ failed r
    → alloc insert n m (some place) (record mem { mm_node = some (fresh mem) }) (fresh mem)
      ≡ (err r, m, record mem { mm_node = some (fresh mem) })
unfolding alloc
alloc_failed insert n m place mem r e = rw e refl

settled :
    (insert : Insert) (n : ℕ) (m : Mgr) (place : Place) (mem : Mem) (answer : Status × Mgr × Mem)
    → is_placed place ≡ true
    → alloc insert n m (some place) (record mem { mm_node = some (fresh mem) }) (fresh mem) ≡ answer
    → place_node insert n m place mem ≡ settle mem answer
unfolding place_node
settled insert n m place mem answer y e = rw y (ap (settle mem) e)

abbrev cleared : Status × Mgr × Mem → Mgr
cleared (r, m, mem) = (del m mem).0

del-place_node :
    (insert : Insert) (n : ℕ) (m : Mgr) (place : Place) (mem : Mem)
    → cleared (place_node insert n (taken m mem) place mem) ≡ m
unfolding place_node del settle
del-place_node insert n m place mem = elim (Bool-cases (is_placed place)) [
  | inr q ↦ rw (q, place_node) (given_back-taken m mem)
  | inl y ↦ elim (Inserted-cases (insert m.mm mem.num_pages (window (some place) n))) [
    | inl (s, e) ↦
        ap cleared (
          settled insert n (taken m mem) place mem _ y
            (alloc_at insert n (taken m mem) place mem s e))
        ∙ ap
            (λ (xs : List ℕ). record {
              available = add_ℤℕ (sub_ℤℕ m.available mem.num_pages) mem.num_pages;
              mm = xs;
            })
            (remove_head s m.mm)
        ∙ given_back-taken m mem
    | inr (r, e) ↦
        ap cleared (
          settled insert n (taken m mem) place mem _ y
            (alloc_failed insert n (taken m mem) place mem r e))
        ∙ given_back-taken m mem
  ]
]

-- Whatever `gsgpu_gtt_mgr_new` answers to a request that has no node yet, the deletion of what it left
-- brings the manager back to what it was: the pages left and the ranges.
pub del-new :
    (insert : Insert) (num_cpu_pages : ℕ) (room : Bool) (m : Mgr) (req : Request) (place : Place)
    (mem : Mem)
    → mem.mm_node ≡ none
    → let (r, m', mem') = new insert num_cpu_pages room m req place mem in (del m' mem').0 ≡ m
unfolding new del
del-new insert num_cpu_pages room m req place mem h = elim (Bool-cases (refuses m req mem)) [
  | inl y ↦ rw (y, h) refl
  | inr n ↦ elim (Bool-cases room) [
    | inl r ↦ rw (n, r) (del-place_node insert num_cpu_pages m place mem)
    | inr r ↦ rw (n, r, h) (given_back-taken m mem)
  ]
]

and_false : (b : Bool) → (b && false) ≡ false
and_false true = refl
and_false false = refl

-- Once moves inside the domain have taken the pages left below zero, no request of fewer pages than the
-- conversion to an unsigned number leaves is refused: the check does not see the negative number.
refuses-negsuc :
    (m : Mgr) (req : Request) (mem : Mem) (n : ℕ)
    → m.available ≡ negsuc n
    → mem.num_pages + n < u64_mod
    → refuses m req mem ≡ false
unfolding refuses
refuses-negsuc m req mem n e lt =
    let small : n % u64_mod ≡ n = mod-eq_of_lt (omega arith) in
    let no : ltb (as_u64 m.available) mem.num_pages ≡ false =
      ap (λ (a : ℤ). ltb (as_u64 a) mem.num_pages) e ∙ ground (arith, small) in
    rw no (and_false (req.own_mem || not req.in_tt))
