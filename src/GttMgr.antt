-- ===== src/GttMgr.antt =====
-- gsgpu/gpu/gsgpu_gtt_mgr.c: the pages that buffer objects may take in the GTT domain, and the ranges of
-- address space that some of them get. The range allocator `drm_mm` and the memory allocator are not
-- part of the driver: what they answer is an argument.
pub mod Laws
mod Tests
use loongson_gsgpu_dkms_modu.Base.{
  ℕ, zero, suc, ◌+◌, ◌-◌, ◌*◌, ◌%◌, ◌≡◌, Bool, true, false, List, [], ◌∷◌, Option, none, some, ◌==◌,
  ◌&&◌, ◌||◌, not, if◌then◌else◌, ltb, u64_mod, ltb_ℤℕ, add_ℤℕ, sub_ℤℕ, sub_ℕ, ℤ, pos, negsuc,
  Status, ok, err, enomem, Errno, pos_part, neg_part,
}

-- `struct gsgpu_gtt_node`: where its range starts, if it has one.
pub record Node : Type 0 where
  pub start : Option ℕ
  pub size : ℕ

-- `struct ttm_place`.
pub record Place : Type 0 where
  pub fpfn : ℕ
  pub lpfn : ℕ
  pub topdown : Bool

-- `struct ttm_mem_reg`. `start` is `none` for `GSGPU_BO_INVALID_OFFSET`.
pub record Mem : Type 0 where
  pub num_pages : ℕ
  pub mm_node : Option Node
  pub start : Option ℕ

-- `struct gsgpu_gtt_mgr`: the pages left, an `atomic64_t`, and the starts of the ranges in `mm`.
pub record Mgr : Type 0 where
  pub available : ℤ
  pub mm : List ℕ

-- `gsgpu_gtt_mgr_init`. `mem`: whether there is memory.
pub init : ℕ → Bool → Option Mgr
init p_size mem = if mem then some (record { available = pos p_size; mm = [] }) else none

-- The window and the direction that `gsgpu_gtt_mgr_alloc` asks of `drm_mm_insert_node_in_range`.
pub record Window : Type 0 where
  pub from : ℕ
  pub to : ℕ
  pub high : Bool

pub window : Option Place → ℕ → Window
window none num_cpu_pages = record { from = 0; to = num_cpu_pages; high = false }
window (some p) num_cpu_pages = record {
  from = p.fpfn;
  to = if p.lpfn == 0 then num_cpu_pages else p.lpfn;
  high = p.topdown;
}

-- `drm_mm_insert_node_in_range`: the start of a free range of a number of pages, or an error.
pub data Inserted : Type 0 where
  at : ℕ → Inserted
  failed : Errno → Inserted

abbrev pub Insert : Type 0
Insert = List ℕ → ℕ → Window → Inserted

-- `gsgpu_gtt_mgr_alloc`.
pub alloc : Insert → ℕ → Mgr → Option Place → Mem → Node → Status × Mgr × Mem
unfolding window
alloc insert num_cpu_pages m place mem node = elim node.start [
  | some s ↦ (ok, m, mem)
  | none ↦ elim (insert m.mm mem.num_pages (window place num_cpu_pages)) [
    | failed e ↦ (err e, m, mem)
    | at s ↦ (
      ok,
      record m { mm = s ∷ m.mm },
      record mem { mm_node = some (record node { start = some s }); start = some s },
    )
  ]
]

-- Whether `gsgpu_gtt_mgr_new` counts the request against the pages left: not where an object that is in
-- the domain moves inside it.
pub record Request : Type 0 where
  pub own_mem : Bool
  pub in_tt : Bool

-- The `long` of `atomic64_read`, as the comparison with `unsigned long` converts it.
abbrev pub as_u64 : ℤ → ℕ
as_u64 (pos n) = n % u64_mod
as_u64 (negsuc n) = u64_mod - 1 - n % u64_mod

-- Whether the request fails for want of pages.
pub refuses : Mgr → Request → Mem → Bool
refuses m req mem = (req.own_mem || not req.in_tt) && ltb (as_u64 m.available) mem.num_pages

-- `atomic64_sub` and `atomic64_add` of the pages.
abbrev pub taken : Mgr → Mem → Mgr
taken m mem = record m { available = sub_ℤℕ m.available mem.num_pages }

abbrev pub given_back : Mgr → Mem → Mgr
given_back m mem = record m { available = add_ℤℕ m.available mem.num_pages }

-- Whether the placement asks for a range at once.
pub is_placed : Place → Bool
is_placed p = not (p.fpfn == 0) || (not (p.lpfn == 0) || p.topdown)

-- What `gsgpu_gtt_mgr_new` makes of the answer of `gsgpu_gtt_mgr_alloc`.
pub settle : Mem → Status × Mgr × Mem → Status × Mgr × Mem
settle mem (ok, m', mem') = (ok, m', mem')
settle mem (err e, m', mem') = (ok, given_back m' mem, record mem' { mm_node = none })

-- The node of `gsgpu_gtt_mgr_new`, once the pages are taken.
abbrev pub fresh : Mem → Node
fresh mem = record { start = none; size = mem.num_pages }

pub place_node : Insert → ℕ → Mgr → Place → Mem → Status × Mgr × Mem
unfolding alloc is_placed settle
place_node insert num_cpu_pages m place mem =
    let with_node = record mem { mm_node = some (fresh mem) } in
    if is_placed place
    then settle mem (alloc insert num_cpu_pages m (some place) with_node (fresh mem))
    else (ok, m, record with_node { start = none })

-- `gsgpu_gtt_mgr_new`. `room`: whether there is memory for a node. Where the pages or the range are
-- missing it returns 0, without a node.
unfoldable pub new : Insert → ℕ → Bool → Mgr → Request → Place → Mem → Status × Mgr × Mem
unfolding refuses place_node
new insert num_cpu_pages room m req place mem =
    if refuses m req mem
    then (ok, m, mem)
    else if room
    then place_node insert num_cpu_pages (taken m mem) place mem
    else (err enomem, given_back (taken m mem) mem, mem)

-- `drm_mm_remove_node`.
pub remove : List ℕ → ℕ → List ℕ
remove [] s = []
remove (x ∷ xs) s = if x == s then xs else x ∷ remove xs s

-- `gsgpu_gtt_mgr_del`.
unfoldable pub del : Mgr → Mem → Mgr × Mem
unfolding remove
del m mem = elim mem.mm_node [
  | none ↦ (m, mem)
  | some node ↦ (
    record {
      available = add_ℤℕ m.available mem.num_pages;
      mm = elim node.start [ none ↦ m.mm | some s ↦ remove m.mm s ];
    },
    record mem { mm_node = none },
  )
]

-- `gsgpu_gtt_mgr_usage`, on `s64` and `uint64_t`. `PAGE_SIZE` is the kernel's.
pub usage : ℕ → Mgr → ℕ → ℕ
usage page_size m size =
    pos_part (sub_ℕ (size + neg_part m.available) (pos_part m.available)) * page_size
