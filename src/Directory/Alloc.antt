-- ===== src/Directory/Alloc.antt =====
-- After `gsgpu_vm_alloc_pts` each page of the range has its table.
use loongson_gsgpu_dkms_modu.Base.{
  ℕ, zero, suc, ◌+◌, ◌-◌, ◌/◌, ◌%◌, ◌^◌, ◌≤◌, ◌<◌, ◌≡◌, refl, sym, ap, ◌∙◌, inl, inr, Bool, true,
  false, ◌||◌, Option, none, some, ◌==◌, leb, if◌then◌else◌, arith, Bool-cases, is_some, ◌*◌,
  pow-pos, u64_mod, sub64, Status, ok, err, einval, Errno,
}
use native.Mathlib.Nat.{div-add-mod, div-add-mod', mod-lt, le-div_iff_mul-le}
use loongson_gsgpu_dkms_modu.Vm.{page_size, add64}
use loongson_gsgpu_dkms_modu.Directory.{
  Pt, leaf, dir, bo_of, Manager, level_shift, num_entries, dir2, Attempt, Lists, Sub, Step,
  entries_loop, fill_range, as_dir, alloc_levels, alloc_pts, get_entry,
}
use loongson_gsgpu_dkms_modu.Directory.Walk.{table_at, IsTree, bo_of_entry, get_entry-table_at}
use loongson_gsgpu_dkms_modu.Directory.Loop.{
  Sound, Reaches, IsSub, ReachesAll, SoundStep, entries_loop-Sound,
}

-- A directory.
as_dir-Sound :
    (g : Manager) (depth level : ℕ) (bo : Option ℕ) (f : ℕ → Pt) (P : (ℕ → Pt) → Type 0)
    (Q : Pt → Type 0)
    → ((f' : ℕ → Pt) → P f' → Q (dir bo f'))
    → (r : Step) → SoundStep g depth (level + 1) f P r
    → Sound g (suc depth) level (dir bo f) Q (as_dir bo r)
unfolding IsTree table_at
as_dir-Sound g depth level bo f P Q to_dir (r, f', s) (shape, kept, h) = (
  shape,
  λ q b x. kept (q / 2 ^ level_shift g level) (q % 2 ^ level_shift g level) b x,
  λ e. to_dir f' (h e),
)

-- Pages in the order of their tables.
div_mono : (m a b : ℕ) → 0 < m → a ≤ b → a / m ≤ b / m
div_mono m a b pos le = (le-div_iff_mul-le pos).1 (omega (arith, div-add-mod' a m))

mod_mono : (m a b : ℕ) → a ≤ b → a / m ≡ b / m → a % m ≤ b % m
mod_mono m a b le e = omega (arith, div-add-mod a m, div-add-mod b m, ap (λ (t : ℕ). m * t) e)

through :
    (g : Manager) (level : ℕ) (bo : Option ℕ) (f : ℕ → Pt) (saddr eaddr : ℕ)
    → let m = 2 ^ level_shift g level in
      ReachesAll g (level + 1) (saddr / m) (saddr / m) (eaddr / m) (saddr % m) (eaddr % m) (m - 1) f
      → Reaches g level saddr eaddr (dir bo f)
unfolding table_at
through g level bo f saddr eaddr h q lo hi =
    let m : ℕ = 2 ^ level_shift g level in
    let pos : 0 < m = pow-pos (level_shift g level) in
    h (q / m) (q % m) (div_mono m saddr q pos lo) (div_mono m q eaddr pos hi)
      (λ e. mod_mono m saddr q lo (sym e)) (λ e. mod_mono m q eaddr hi e)
      (omega (arith, mod-lt q pos))

fill_range-Sound :
    (g : Manager) (use_cpu : Bool) (supply : ℕ → Attempt) (depth level : ℕ) (sub : Sub)
    (bo : Option ℕ) (saddr eaddr : ℕ) (f : ℕ → Pt) (s : Lists)
    → IsSub g depth (level + 1) sub
    → ((j : ℕ) → IsTree depth (f j))
    → Sound g
        (suc depth)
        level
        (dir bo f)
        (Reaches g level saddr eaddr)
        (as_dir bo (fill_range g use_cpu supply sub level saddr eaddr f s))
unfolding fill_range IsTree
fill_range-Sound g use_cpu supply depth level sub bo saddr eaddr f s is_sub shape =
    let m : ℕ = 2 ^ level_shift g level in
    let from = saddr / m in
    let to = eaddr / m in
    elim (Bool-cases (leb (num_entries g level) from || leb (num_entries g level) to)) [
      | inl y ↦ rw (Sound, y, as_dir) (shape, λ q b x. x, λ e. cc)
      | inr n ↦ rw n (
          as_dir-Sound g depth level bo f
            (ReachesAll g (level + 1) from from to (saddr % m) (eaddr % m) (m - 1))
            (Reaches g level saddr eaddr) (λ f' h. through g level bo f' saddr eaddr h)
            (entries_loop (to + 1 - from) use_cpu supply sub from from to (saddr % m) (eaddr % m)
              (m - 1) f s)
            (entries_loop-Sound g use_cpu supply depth (level + 1) sub is_sub from to (saddr % m)
              (eaddr % m) (m - 1) (to + 1 - from) from f s (omega arith) shape))
    ]

leaf-IsTree : (depth : ℕ) (bo : Option ℕ) → IsTree depth (leaf bo)
unfolding IsTree
leaf-IsTree zero bo = tt
leaf-IsTree (suc depth) bo = tt

no_table :
    (level : ℕ) (bo : Option ℕ) (b : ℕ)
    → level < dir2
    → (if level == dir2 then bo else none) ≡ some b
    → ⊥
no_table level bo b lt e = ground arith

-- A directory that has got its array of entries had no table in it.
fresh-Sound :
    (g : Manager) (depth level : ℕ) (bo : Option ℕ) (P : Pt → Type 0) (f : ℕ → Pt)
    → level < dir2
    → (r : Status × Pt × Lists) → Sound g (suc depth) level (dir bo f) P r
    → Sound g (suc depth) level (leaf bo) P r
unfolding table_at
fresh-Sound g depth level bo P f lt (r, t, s) (tree, kept, h) =
    (tree, λ q b x. absurd (no_table level bo b lt x), h)

-- All levels below.
pub alloc_levels-IsSub :
    (depth : ℕ) (g : Manager) (use_cpu : Bool) (supply : ℕ → Attempt) (level : ℕ)
    → level + depth ≡ dir2
    → IsSub g depth level (alloc_levels depth g use_cpu supply level)
unfolding alloc_levels table_at IsTree
alloc_levels-IsSub zero g use_cpu supply level e (leaf bo) saddr eaddr s tree has =
    let here : (level == dir2) ≡ true = ground arith in
    (tt, λ q b x. x, λ good q lo hi. rw here has)
alloc_levels-IsSub zero g use_cpu supply level e (dir bo f) saddr eaddr s tree has = absurd tree
alloc_levels-IsSub (suc depth) g use_cpu supply level e (dir bo f) saddr eaddr s tree has =
    fill_range-Sound g use_cpu supply depth level (alloc_levels depth g use_cpu supply (level + 1))
      bo saddr eaddr f s (alloc_levels-IsSub depth g use_cpu supply (level + 1) (omega arith)) tree
alloc_levels-IsSub (suc depth) g use_cpu supply level e (leaf bo) saddr eaddr s tree has =
    elim (Bool-cases (supply s.steps).memory) [
      | inr n ↦ rw (Sound, n) (tt, λ q b x. x, λ good. cc)
      | inl y ↦ rw y (
          fresh-Sound g depth level bo (Reaches g level saddr eaddr) (λ i. leaf none) (omega arith)
            (as_dir bo (
              fill_range g use_cpu supply (alloc_levels depth g use_cpu supply (level + 1)) level
                saddr eaddr (λ i. leaf none) (record s { steps = s.steps + 1 })))
            (fill_range-Sound g use_cpu supply depth level
              (alloc_levels depth g use_cpu supply (level + 1)) bo saddr eaddr (λ i. leaf none)
              (record s { steps = s.steps + 1 })
              (alloc_levels-IsSub depth g use_cpu supply (level + 1) (omega arith))
              (λ j. leaf-IsTree depth none)))
    ]

on_test {ℓ} :
    {A : Type ℓ} (P : A → Type 0) (b : Bool) {x y : A} → P x → P y → P (if b then x else y)
on_test P true px py = px
on_test P false px py = py

-- What the allocation of the tables for a range of addresses leaves.
abbrev pub Allocated : Manager → Pt → ℕ → ℕ → Status × Pt × Lists → Type 0
Allocated g root saddr size (r, root', s') =
    IsTree dir2 root'
    × ((q b : ℕ)
        → bo_of_entry (get_entry g root q).0 ≡ some b
        → bo_of_entry (get_entry g root' q).0 ≡ some b)
    × (r ≡ ok
        → (q : ℕ) → saddr ≤ q * page_size
        → q * page_size < saddr + size
        → is_some (bo_of_entry (get_entry g root' q).0) ≡ true)

Allocated-of_Sound :
    (g : Manager) (root : Pt) (saddr size a z : ℕ)
    → IsTree dir2 root
    → a ≡ saddr / page_size
    → z ≡ (saddr + size - 1) / page_size
    → (r : Status × Pt × Lists) → Sound g dir2 0 root (Reaches g 0 a z) r
    → Allocated g root saddr size r
Allocated-of_Sound g root saddr size a z tree at_a at_z (r, root', s') (tree', kept, reaches) = (
  tree',
  λ q b e.
      get_entry-table_at g root' q tree' ∙ kept q b (sym (get_entry-table_at g root q tree) ∙ e),
  λ good q lo hi.
      ap is_some (get_entry-table_at g root' q tree') ∙ reaches good q (omega arith) (omega arith),
)

refused-Allocated :
    (g : Manager) (root : Pt) (saddr size : ℕ) (s : Lists) (e : Errno)
    → IsTree dir2 root
    → Allocated g root saddr size (err e, root, s)
refused-Allocated g root saddr size s e tree = (tree, λ q b x. x, λ good. cc)

-- What `gsgpu_vm_alloc_pts` leaves of the tree: it keeps its shape and each table that was there, whatever
-- the outcome; and if it succeeds, the walk of `gsgpu_vm_get_entry` finds a table with a buffer object for
-- each page of the range. The range is not empty and does not wrap around, and the root has its buffer object.
pub alloc_pts_outcome :
    (g : Manager) (use_cpu : Bool) (supply : ℕ → Attempt) (root : Pt) (saddr size : ℕ) (s : Lists)
    → IsTree dir2 root
    → is_some (bo_of root) ≡ true
    → 0 < size
    → saddr + size < u64_mod
    → Allocated g root saddr size (alloc_pts g use_cpu supply root saddr size s)
unfolding alloc_pts
alloc_pts_outcome g use_cpu supply root saddr size s tree has pos fits =
    let last : ℕ = sub64 (add64 saddr size) 1 / page_size in
    let refused = refused-Allocated g root saddr size s einval tree in
    let runs =
      Allocated-of_Sound g root saddr size (saddr / page_size) last tree refl (omega arith)
        (alloc_levels dir2 g use_cpu supply 0 root (saddr / page_size) last s)
        (alloc_levels-IsSub dir2 g use_cpu supply 0 refl root (saddr / page_size) last s tree
          has) in
    on_test (Allocated g root saddr size)
      (if saddr % page_size == 0 then (if size % page_size == 0 then false else true) else true)
      refused (on_test (Allocated g root saddr size) (leb g.max_pfn last) refused runs)
