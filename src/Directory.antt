-- ===== src/Directory.antt =====
-- gsgpu/gpu/gsgpu_vm.c: the tree of page directories of an address space. A directory or table is a
-- `struct gsgpu_vm_pt`, known by the number of its buffer object.
pub mod Walk
pub mod Loop
pub mod Alloc
mod Tests
use loongson_gsgpu_dkms_modu.Base.{
  ℕ, zero, suc, ◌+◌, ◌-◌, ◌*◌, ◌/◌, ◌%◌, ◌^◌, Bool, true, false, ◌||◌, List, [], ◌∷◌, ◌++◌, Option,
  none, some, ◌==◌, leb, if◌then◌else◌, u64_mod, sub64, Status, ok, err, Errno, einval, enomem,
}
use loongson_gsgpu_dkms_modu.Vm.{add64, page_size}

-- `struct gsgpu_vm_pt`: its buffer object, and its entries, if it has them.
pub data Pt : Type 0 where
  leaf : Option ℕ → Pt
  dir : Option ℕ → (ℕ → Pt) → Pt

abbrev pub bo_of : Pt → Option ℕ
bo_of (leaf bo) = bo
bo_of (dir bo f) = bo

abbrev pub with_bo : Pt → Option ℕ → Pt
with_bo (leaf b) bo = leaf bo
with_bo (dir b f) bo = dir bo f

-- Of `struct gsgpu_vm_manager`: the shifts and widths of the levels GSGPU_VM_DIR0 to _DIR2, and the number
-- of pages.
pub record Manager : Type 0 where
  pub dir0_shift : ℕ
  pub dir0_width : ℕ
  pub dir1_shift : ℕ
  pub dir1_width : ℕ
  pub dir2_shift : ℕ
  pub dir2_width : ℕ
  pub max_pfn : ℕ

-- `gsgpu_vm_level_shift`.
pub level_shift : Manager → ℕ → ℕ
level_shift g zero = g.dir0_shift - g.dir2_shift
level_shift g (suc zero) = g.dir1_shift - g.dir2_shift
level_shift g (suc (suc zero)) = 0
level_shift g (suc (suc (suc l))) = 255

-- `gsgpu_vm_num_entries`.
pub num_entries : Manager → ℕ → ℕ
num_entries g zero = 2 ^ g.dir0_width
num_entries g (suc zero) = 2 ^ g.dir1_width
num_entries g (suc (suc zero)) = 2 ^ g.dir2_width
num_entries g (suc (suc (suc l))) = 1

-- GSGPU_VM_DIR2.
abbrev pub dir2 : ℕ
dir2 = 2

-- How the allocations of one step go: `memory` for an array of entries; for a table the number of its
-- buffer object or an error, the results of `gsgpu_vm_clear_bo` and `gsgpu_bo_kmap`, and whether
-- it stands in a domain that it prefers.
pub data Created : Type 0 where
  made : ℕ → Created
  refused : Errno → Created

pub record Attempt : Type 0 where
  pub memory : Bool
  pub create : Created
  pub clear : Status
  pub kmap : Status
  pub placed : Bool

-- What the allocations change beside the tree: the number of steps so far, and the lists `relocated` and
-- `evicted` of the address space.
pub record Lists : Type 0 where
  pub steps : ℕ
  pub relocated : List ℕ
  pub evicted : List ℕ

-- `gsgpu_vm_bo_base_init` of a page table. It shares its reservation object with the root.
pub base_init : Lists → ℕ → Bool → Lists
base_init s bo true = record s { relocated = bo ∷ s.relocated }
base_init s bo false = record s { evicted = s.evicted ++ (bo ∷ []) }

-- A buffer object that was made is cleared and, for updates by the CPU, mapped.
pub prepare : Bool → Attempt → Status
prepare use_cpu a = elim a.clear [ err e ↦ err e | ok ↦ if use_cpu then a.kmap else ok ]

pub adopt : Pt → Lists → ℕ → Bool → Status → Status × Pt × Lists
unfolding base_init
adopt t s bo placed (err e) = (err e, t, s)
adopt t s bo placed ok = (ok, with_bo t (some bo), base_init s bo placed)

pub fill : Bool → Attempt → Pt → Lists → Created → Status × Pt × Lists
unfolding prepare adopt
fill use_cpu a t s (refused e) = (err e, t, s)
fill use_cpu a t s (made bo) = adopt t s bo a.placed (prepare use_cpu a)

-- An entry of a directory gets a buffer object, if it has none.
pub ensure : Bool → (ℕ → Attempt) → Pt → Lists → Option ℕ → Status × Pt × Lists
unfolding fill
ensure use_cpu supply t s (some bo) = (ok, t, s)
ensure use_cpu supply t s none =
    fill use_cpu (supply s.steps) t (record s { steps = s.steps + 1 }) (supply s.steps).create

abbrev pub Step : Type 0
Step = Status × (ℕ → Pt) × Lists

abbrev pub put : (ℕ → Pt) → ℕ → Pt → ℕ → Pt
put f i t j = if j == i then t else f j

-- The loop over the entries of a directory. `sub` is the call for the entry's own entries.
abbrev pub Sub : Type 0
Sub = Pt → ℕ → ℕ → Lists → Status × Pt × Lists

-- After the call for the entry's own entries.
pub after_sub : (ℕ → Pt) → ℕ → ((ℕ → Pt) → Lists → Step) → Status × Pt × Lists → Step
after_sub f i rest (err e, t, s) = (err e, put f i t, s)
after_sub f i rest (ok, t, s) = rest (put f i t) s

-- After the entry's buffer object.
pub after_ensure :
    (Pt → Lists → Status × Pt × Lists)
    → (ℕ → Pt)
    → ℕ
    → ((ℕ → Pt) → Lists → Step)
    → Status × Pt × Lists
    → Step
unfolding after_sub
after_ensure sub f i rest (err e, t, s) = (err e, f, s)
after_ensure sub f i rest (ok, t, s) = after_sub f i rest (sub t s)

pub entries_loop : ℕ → Bool → (ℕ → Attempt) → Sub → ℕ → ℕ → ℕ → ℕ → ℕ → ℕ → (ℕ → Pt) → Lists → Step
unfolding ensure after_ensure
entries_loop zero use_cpu supply sub i from to saddr eaddr mask f s = (ok, f, s)
entries_loop (suc count) use_cpu supply sub i from to saddr eaddr mask f s =
    after_ensure
      (λ t s'. sub t (if i == from then saddr else 0) (if i == to then eaddr else mask) s') f i
      (λ f' s'. entries_loop count use_cpu supply sub (i + 1) from to saddr eaddr mask f' s')
      (ensure use_cpu supply (f i) s (bo_of (f i)))

-- The part of `gsgpu_vm_alloc_levels` after the array of entries is there.
pub fill_range : Manager → Bool → (ℕ → Attempt) → Sub → ℕ → ℕ → ℕ → (ℕ → Pt) → Lists → Step
unfolding entries_loop level_shift num_entries
fill_range g use_cpu supply sub level saddr eaddr f s =
    let shift = level_shift g level in
    let from = saddr / 2 ^ shift in
    let to = eaddr / 2 ^ shift in
    if leb (num_entries g level) from || leb (num_entries g level) to
    then (err einval, f, s)
    else entries_loop (to + 1 - from) use_cpu supply sub from from to (saddr % 2 ^ shift)
        (eaddr % 2 ^ shift) (2 ^ shift - 1) f s

abbrev pub as_dir : Option ℕ → Step → Status × Pt × Lists
as_dir bo (r, f, s) = (r, dir bo f, s)

-- `gsgpu_vm_alloc_levels`, with `depth` levels below `level` (none at GSGPU_VM_DIR2).
pub alloc_levels : ℕ → Manager → Bool → (ℕ → Attempt) → ℕ → Sub
unfolding fill_range
alloc_levels zero g use_cpu supply level parent saddr eaddr s = (ok, parent, s)
alloc_levels (suc depth) g use_cpu supply level (dir bo f) saddr eaddr s = as_dir bo (
    fill_range g use_cpu supply (alloc_levels depth g use_cpu supply (level + 1)) level saddr eaddr
      f s)
alloc_levels (suc depth) g use_cpu supply level (leaf bo) saddr eaddr s =
    let s' = record s { steps = s.steps + 1 } in
    let filled = as_dir bo (
      fill_range g use_cpu supply (alloc_levels depth g use_cpu supply (level + 1)) level saddr
        eaddr (λ i. leaf none) s') in
    if (supply s.steps).memory then filled else (err enomem, leaf bo, s')

-- `gsgpu_vm_alloc_pts`. The root stands at level GSGPU_VM_DIR0.
pub alloc_pts : Manager → Bool → (ℕ → Attempt) → Pt → ℕ → ℕ → Lists → Status × Pt × Lists
unfolding alloc_levels
alloc_pts g use_cpu supply root saddr size s =
    let aligned = (saddr % page_size == 0) in
    let whole = (size % page_size == 0) in
    let last = sub64 (add64 saddr size) 1 / page_size in
    if (if aligned then (if whole then false else true) else true)
    then (err einval, root, s)
    else if leb g.max_pfn last
    then (err einval, root, s)
    else alloc_levels dir2 g use_cpu supply 0 root (saddr / page_size) last s

-- `gsgpu_vm_get_entry`, from an entry at `level` on: the entry for a page, and its parent.
pub get_from : Manager → Pt → Option Pt → ℕ → ℕ → Option Pt × Option Pt
unfolding level_shift
get_from g (leaf bo) parent level addr = (if level == dir2 then some (leaf bo) else none, parent)
get_from g (dir bo f) parent level addr =
    get_from g (f (addr / 2 ^ level_shift g level)) (some (dir bo f)) (level + 1)
      (addr % 2 ^ level_shift g level)

pub get_entry : Manager → Pt → ℕ → Option Pt × Option Pt
unfolding get_from
get_entry g root addr = get_from g root none 0 addr
