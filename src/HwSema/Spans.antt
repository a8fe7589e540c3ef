-- ===== src/HwSema/Spans.antt =====
-- The loops over all semaphores: the end of an address space and the start of the manager.
use loongson_gsgpu_dkms_modu.Base.{
  ℕ, suc, ◌+◌, ◌≡◌, refl, ap, inl, inr, List, [], ◌∷◌, ◌++◌, map, some, if◌then◌else◌, length, set,
  replicate, length-append, lt→ltb, arith, Bool-cases,
}
use mathlib.Core.List.{append_assoc}
use loongson_gsgpu_dkms_modu.HwSema.{
  Sema, cleared, num_sema, reset, holds, free_from, sema_free, init_from, mgr_init,
}
use loongson_gsgpu_dkms_modu.HwSema.Laws.{IsTable, replicate-IsClean}

-- The entry that the end of an address space leaves.
abbrev pub freed : ℕ → Sema → Sema
freed vm s = if holds s.vm vm then cleared else s

set_middle :
    (done : List Sema) (s : Sema) (rest : List Sema)
    → set (done ++ (s ∷ rest)) (length done) cleared ≡ done ++ (cleared ∷ rest)
set_middle [] s rest = refl
set_middle (x ∷ done) s rest = ap (◌∷◌ x) (set_middle done s rest)

reset_middle :
    (done : List Sema) (s : Sema) (rest : List Sema)
    → reset (done ++ (s ∷ rest)) (length done) ≡ some (done ++ (cleared ∷ rest))
unfolding reset
reset_middle done s rest =
    rw
      (lt→ltb (length done) (length (done ++ (s ∷ rest)))
        (omega (arith, length-append {0} done (s ∷ rest))))
      (ap some (set_middle done s rest))

snoc_step :
    (vm : ℕ) (done : List Sema) (x : Sema) (rest ys : List Sema)
    → free_from ((done ++ (x ∷ [])) ++ rest) vm rest (length (done ++ (x ∷ [])))
      ≡ some ((done ++ (x ∷ [])) ++ ys)
    → free_from (done ++ (x ∷ rest)) vm rest (suc (length done)) ≡ some (done ++ (x ∷ ys))
snoc_step vm done x rest ys h =
    let len : length (done ++ (x ∷ [])) ≡ suc (length done) =
      omega (arith, length-append {0} done (x ∷ [])) in
    rw (append_assoc done (x ∷ []) rest, append_assoc done (x ∷ []) ys, len) at h

free_loop :
    (vm : ℕ) (done rest : List Sema)
    → free_from (done ++ rest) vm rest (length done) ≡ some (done ++ map (freed vm) rest)
unfolding free_from
free_loop vm done [] = refl
free_loop vm done (s ∷ rest) =
    let next = λ (x : Sema). snoc_step vm done x rest _ (free_loop vm (done ++ (x ∷ [])) rest) in
    elim (Bool-cases (holds s.vm vm)) [
      | inl hit ↦ rw (hit, reset_middle done s rest, free_from) (next cleared)
      | inr miss ↦ rw (miss, free_from) (next s)
    ]

-- When an address space goes away its semaphores are cleared, every other entry stays as it is, and no
-- write leaves the array.
sema_free_lem : (sema : List Sema) (vm : ℕ) → sema_free sema vm ≡ some (map (freed vm) sema)
unfolding sema_free
sema_free_lem sema vm = free_loop vm [] sema

init_loop :
    (done rest : List Sema)
    → init_from (done ++ rest) (length done) (length rest)
      ≡ some (done ++ replicate (length rest) cleared)
unfolding init_from
init_loop done [] = refl
init_loop done (s ∷ rest) =
    let len : length (done ++ (cleared ∷ [])) ≡ length done + 1 =
      length-append done (cleared ∷ []) in
    let ih =
      rw
        (
          append_assoc done (cleared ∷ []) rest,
          append_assoc done (cleared ∷ []) (replicate (length rest) cleared),
          len,
        )
        at (init_loop (done ++ (cleared ∷ [])) rest) in
    rw (reset_middle done s rest, init_from) ih

-- Whatever the memory held, the manager starts with every semaphore free and cleared.
mgr_init_lem :
    (sema : List Sema)
    → length sema ≡ num_sema
    → (mgr_init sema ≡ some (replicate num_sema cleared)) × IsTable (replicate num_sema cleared)
unfolding mgr_init
mgr_init_lem sema e =
    (rw e at (init_loop [] sema), record { size = refl; clean = replicate-IsClean num_sema })
