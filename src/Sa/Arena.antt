-- ===== src/Sa/Arena.antt =====
-- The pieces of a sub-allocator stand in order and do not overlap, whatever the code does to the list.
use loongson_gsgpu_dkms_modu.Base.{
  ℕ, ◌*◌, ◌%◌, ◌≤◌, ◌≡◌, refl, subst, ◌⊎◌, inl, inr, List, [], ◌∷◌, Option, none, some, u32_mod,
  ◌==◌, if◌then◌else◌, arith, Bool-cases, Option-cases,
}
use loongson_gsgpu_dkms_modu.Sa.{
  SaBo, Manager, Fences, unlink, remove_locked, is_done, free_run, try_free, hole_soffset, onto,
  olist, split_before, hole_before, hold, bo_free, next_hole, scan, num_fence_lists,
}

-- Below the hole, from it downwards.
abbrev pub Downs : List SaBo → Type 0
Downs [] = Unit
Downs (b ∷ bs) = (hole_soffset bs ≤ b.soffset) × (b.soffset ≤ b.eoffset) × Downs bs

-- Above the hole, from `lo` up to `hi`.
abbrev pub Ups : ℕ → List SaBo → ℕ → Type 0
Ups lo [] hi = lo ≤ hi
Ups lo (b ∷ bs) hi = (lo ≤ b.soffset) × (b.soffset ≤ b.eoffset) × Ups b.eoffset bs hi

pub record IsArena (m : Manager) : Type 0 where
  pub down : Downs m.left
  pub up : Ups (hole_soffset m.left) m.right m.size

pub Ups-lower : (bs : List SaBo) (lo lo' hi : ℕ) → lo' ≤ lo → Ups lo bs hi → Ups lo' bs hi
Ups-lower [] lo lo' hi h u = omega arith
Ups-lower (b ∷ bs) lo lo' hi h u = (omega (arith, u.0), u.1, u.2)

pub Ups-le : (bs : List SaBo) (lo hi : ℕ) → Ups lo bs hi → lo ≤ hi
Ups-le [] lo hi u = u
Ups-le (b ∷ bs) lo hi u = omega (arith, u.0, u.1, Ups-le bs b.eoffset hi u.2)

pub unlink-Ups : (id : ℕ) (bs : List SaBo) (lo hi : ℕ) → Ups lo bs hi → Ups lo (unlink id bs) hi
unfolding unlink
unlink-Ups id [] lo hi u = u
unlink-Ups id (b ∷ bs) lo hi u = elim (Bool-cases (b.id == id)) [
  | inl e ↦ rw (e, if◌then◌else◌) (Ups-lower bs b.eoffset lo hi (omega (arith, u.0, u.1)) u.2)
  | inr e ↦ rw (e, if◌then◌else◌) (u.0, u.1, unlink-Ups id bs b.eoffset hi u.2)
]

pub unlink-Downs :
    (id : ℕ) (bs : List SaBo)
    → Downs bs
    → Downs (unlink id bs) × (hole_soffset (unlink id bs) ≤ hole_soffset bs)
unfolding unlink hole_soffset
unlink-Downs id [] d = (tt, omega arith)
unlink-Downs id (b ∷ bs) d = elim (Bool-cases (b.id == id)) [
  | inl e ↦ rw (e, if◌then◌else◌) (d.2, omega (arith, d.0, d.1))
  | inr e ↦
      let (ih, le) = unlink-Downs id bs d.2 in
      rw (e, if◌then◌else◌) ((omega (arith, d.0, le), d.1, ih), omega arith)
]

-- The removal of a piece leaves the others where they are, in order.
pub remove-IsArena : (m : Manager) (id : ℕ) → IsArena m → IsArena (remove_locked m id)
unfolding remove_locked
remove-IsArena m id a =
    let (d, le) = unlink-Downs id m.left a.down in
    record {
      down = d;
      up =
          Ups-lower (unlink id m.right) (hole_soffset m.left) _ m.size le
            (unlink-Ups id m.right (hole_soffset m.left) m.size a.up);
    }

free_run-IsArena :
    (f : Fences) (m : Manager) (bs : List SaBo)
    → Downs m.left
    → m.right ≡ bs
    → Ups (hole_soffset m.left) bs m.size
    → IsArena (free_run f m bs)
unfolding free_run
free_run-IsArena f m [] d e u = record { down = d; up = rw e u }
free_run-IsArena f m (b ∷ bs) d e u = elim (Bool-cases (is_done f b)) [
  | inr n ↦ rw (n, free_run) (record { down = d; up = rw e u })
  | inl y ↦
      let m' = record m { right = bs; flist = λ i. unlink b.id (m.flist i) } in
      let u' = Ups-lower bs b.eoffset (hole_soffset m.left) m.size (omega (arith, u.0, u.1)) u.2 in
      rw (y, free_run) (free_run-IsArena f m' bs d refl u')
]

pub try_free-IsArena : (f : Fences) (m : Manager) → IsArena m → IsArena (try_free f m)
unfolding try_free
try_free-IsArena f m a = free_run-IsArena f m m.right a.down refl a.up

-- The list as a whole runs upwards through the buffer.
pub onto-Ups :
    (down up : List SaBo) (hi : ℕ)
    → Downs down
    → Ups (hole_soffset down) up hi
    → Ups 0 (onto down up) hi
unfolding hole_soffset
onto-Ups [] up hi d u = u
onto-Ups (b ∷ bs) up hi d u = onto-Ups bs (b ∷ up) hi d.2 (d.0, d.1, u)

split-IsArena :
    (id : ℕ) (acc bs : List SaBo) (hi : ℕ)
    → Downs acc
    → Ups (hole_soffset acc) bs hi
    → let (l, r) = split_before id acc bs in Downs l × Ups (hole_soffset l) r hi
unfolding split_before hole_soffset
split-IsArena id acc [] hi d u = (d, u)
split-IsArena id acc (b ∷ bs) hi d u = elim (Bool-cases (b.id == id)) [
  | inl e ↦ rw (e, if◌then◌else◌) (d, u)
  | inr e ↦ rw (e, if◌then◌else◌) (split-IsArena id (b ∷ acc) bs hi (u.0, u.1, d) u.2)
]

pub hole_before-IsArena : (m : Manager) (id : ℕ) → IsArena m → IsArena (hole_before m id)
unfolding hole_before hole_soffset
hole_before-IsArena m id a =
    let (d, u) =
      split-IsArena id [] (olist m) m.size tt (onto-Ups m.left m.right m.size a.down a.up) in
    record { down = d; up = u }

hold-Ups :
    (id : ℕ) (fence : Option ℕ) (bs : List SaBo) (lo hi : ℕ)
    → Ups lo bs hi
    → Ups lo (hold id fence bs) hi
unfolding hold
hold-Ups id fence [] lo hi u = u
hold-Ups id fence (b ∷ bs) lo hi u = elim (Bool-cases (b.id == id)) [
  | inl e ↦ rw (e, if◌then◌else◌) u
  | inr e ↦ rw (e, if◌then◌else◌) (u.0, u.1, hold-Ups id fence bs b.eoffset hi u.2)
]

hold-Downs :
    (id : ℕ) (fence : Option ℕ) (bs : List SaBo)
    → Downs bs
    → Downs (hold id fence bs) × (hole_soffset (hold id fence bs) ≡ hole_soffset bs)
unfolding hold hole_soffset
hold-Downs id fence [] d = (tt, refl)
hold-Downs id fence (b ∷ bs) d = elim (Bool-cases (b.id == id)) [
  | inl e ↦ rw (e, if◌then◌else◌) (d, refl)
  | inr e ↦
      let (ih, same) = hold-Downs id fence bs d.2 in
      rw (e, if◌then◌else◌) ((omega (arith, d.0, same), d.1, ih), refl)
]

-- The end of a piece, whether it goes at once or waits for its fence, leaves the pieces in order.
bo_free-IsArena :
    (f : Fences) (m : Manager) (b : SaBo) (fence : Option ℕ)
    → IsArena m
    → IsArena (bo_free f m b fence)
unfolding bo_free
bo_free-IsArena f m b none a = remove-IsArena m b.id a
bo_free-IsArena f m b (some g) a = elim (Bool-cases (f.signaled g)) [
  | inl y ↦ rw (y, if◌then◌else◌) (remove-IsArena m b.id a)
  | inr n ↦
      let (d, same) = hold-Downs b.id (some g) m.left a.down in
      let u = hold-Ups b.id (some g) m.right (hole_soffset m.left) m.size a.up in
      rw (n, if◌then◌else◌) (record { down = d; up = rw same u })
]

pub head_or_none :
    (bs : List SaBo) → (bs ≡ []) ⊎ ((b : SaBo) × (rest : List SaBo) × (bs ≡ b ∷ rest))
head_or_none [] = inl refl
head_or_none (b ∷ bs) = inr (b, bs, refl)

pub moved_of :
    {m m' : Manager} {t t' : ℕ → ℕ}
    → ◌≡◌ {A = Option (Manager × (ℕ → ℕ))} (some (m, t)) (some (m', t'))
    → m ≡ m'
moved_of e = ground arith

-- Whatever hole is tried next, the pieces stand in order.
pub next_hole-IsArena :
    (f : Fences) (m : Manager) (tries : ℕ → ℕ) (fences : ℕ → Option ℕ) (m' : Manager)
    (tries' : ℕ → ℕ)
    → IsArena m
    → (next_hole f m tries fences).moved ≡ some (m', tries')
    → IsArena m'
unfolding next_hole hole_soffset
next_hole-IsArena f m tries fences m' tries' a e = elim (head_or_none m.right) [
  | inl r ↦
      let whole : Ups 0 (olist m) m.size = onto-Ups m.left m.right m.size a.down a.up in
      subst IsArena (moved_of (rw (r, next_hole) at e)) (record { down = tt; up = whole })
  | inr (b, bs, r) ↦
      let c =
        scan f m tries 0 num_fence_lists
          (record { best = (m.size * 2) % u32_mod; best_bo = none; fences = fences }) in
      elim (Option-cases c.best_bo) [
        | inl n ↦ cc (rw (r, n, next_hole) at e)
        | inr (x, h) ↦
            subst IsArena (moved_of (rw (r, h, next_hole) at e))
              (remove-IsArena (hole_before m x.id) x.id (hole_before-IsArena m x.id a))
      ]
]
