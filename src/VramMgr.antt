-- ===== src/VramMgr.antt =====
-- gsgpu/gpu/gsgpu_vram_mgr.c: the ranges of VRAM that buffer objects take, and how many bytes are in use,
-- in all and in the part that the CPU sees. The range allocator `drm_mm` is not part of the driver: what
-- it answers is an argument. Pages have `2 ^ page_shift` bytes.
pub mod Usage
pub mod Free
mod Tests
use loongson_gsgpu_dkms_modu.Base.{
  ℕ, zero, suc, ◌+◌, ◌-◌, ◌*◌, ◌/◌, ◌%◌, ◌^◌, min, max, Bool, Option, none, some, List, [], ◌∷◌,
  ◌++◌, ltb, leb, ◌==◌, if◌then◌else◌, u32_mod, u64_mod, sub32, sub64, Errno, Status, enomem,
  enospc, ok, err,
}

-- `struct drm_mm_node`, in pages.
pub record Range : Type 0 where
  pub start : ℕ
  pub size : ℕ

-- `struct gsgpu_vram_mgr`, with the ranges in `mm`. The counts of bytes are of type `atomic64_t`.
pub record Mgr : Type 0 where
  pub mm : List Range
  pub usage : ℕ
  pub vis_usage : ℕ

-- What the module reads of the device.
pub record Device : Type 0 where
  pub page_shift : ℕ
  pub visible_vram_size : ℕ
  pub vram_page_split : Option ℕ

-- `struct ttm_place`.
pub record Place : Type 0 where
  pub fpfn : ℕ
  pub lpfn : ℕ
  pub contiguous : Bool
  pub topdown : Bool

-- `struct ttm_mem_reg`.
pub record Mem : Type 0 where
  pub num_pages : ℕ
  pub page_alignment : ℕ
  pub start : ℕ
  pub mm_node : Option (List Range)

abbrev pub bytes : Device → ℕ → ℕ
bytes dev pages = pages * 2 ^ dev.page_shift

-- `gsgpu_vram_mgr_vis_size`.
pub vis_size : Device → Range → ℕ
vis_size dev node =
    let start = bytes dev node.start % u64_mod in
    let end = bytes dev (node.size + node.start) % u64_mod in
    if leb dev.visible_vram_size start
    then 0
    else sub64 (if ltb dev.visible_vram_size end then dev.visible_vram_size else end) start

-- `pages_per_node` and `num_nodes`; `~0ul` is `none`.
abbrev pub div_round_up : ℕ → ℕ → ℕ
div_round_up n d = (n + d - 1) / d

unfoldable pub pages_per_node : Device → Place → Mem → Option ℕ
pages_per_node dev place mem =
    if place.contiguous
    then none
    else elim dev.vram_page_split [ none ↦ none | some split ↦ some (max split mem.page_alignment) ]

unfoldable pub num_nodes : Option ℕ → ℕ → ℕ
num_nodes none pages = 1
num_nodes (some per) pages = div_round_up pages per

-- `drm_mm_insert_node_in_range`: the ranges taken, the pages, the alignment, the window and whether it
-- looks from the top; the start of a free range, or an error.
pub data Inserted : Type 0 where
  at : ℕ → Inserted
  failed : Errno → Inserted

abbrev pub Insert : Type 0
Insert = List Range → ℕ → ℕ → ℕ → ℕ → Bool → Inserted

-- The locals of the loop of `gsgpu_vram_mgr_new`. `mm` has the last range
-- first.
pub record Turn : Type 0 where
  pub mm : List Range
  pub nodes : List Range
  pub used : ℕ
  pub vis_used : ℕ
  pub start : ℕ
  pub pages_left : ℕ

-- A turn of the loop, for a range of `pages` pages from `from` on.
unfoldable pub take_node : Device → Mem → Turn → ℕ → ℕ → Turn
unfolding vis_size
take_node dev mem t pages from =
    let node : Range = record { start = from; size = pages } in
    let end = from + pages in
    let start = if ltb mem.num_pages end then end - mem.num_pages else 0 in
    record {
      mm = node ∷ t.mm;
      nodes = t.nodes ++ node ∷ [];
      used = t.used + bytes dev pages;
      vis_used = t.vis_used + vis_size dev node;
      start = max t.start start;
      pages_left = t.pages_left - pages;
    }

-- The size of the next range, `min(pages_left, pages_per_node)`, and its alignment.
abbrev pub next_pages : Option ℕ → ℕ → ℕ
next_pages none left = left
next_pages (some per) left = min left per

abbrev pub alignment_of : Option ℕ → Mem → ℕ → ℕ
alignment_of none mem pages = mem.page_alignment
alignment_of (some per) mem pages = if pages == per then per else mem.page_alignment

-- What the loop ends with: all ranges, or an error.
pub data Looped : Type 0 where
  complete : Turn → Looped
  stopped : Errno → Turn → Looped

unfoldable pub take_nodes : Insert → Device → Option ℕ → ℕ → ℕ → Bool → Mem → ℕ → Turn → Looped
unfolding take_node
take_nodes insert dev per fpfn lpfn topdown mem zero t = complete t
take_nodes insert dev per fpfn lpfn topdown mem (suc n) t =
    let pages = next_pages per t.pages_left in
    elim (insert t.mm pages (alignment_of per mem pages) fpfn lpfn topdown) [
      | failed r ↦ stopped r t
      | at a ↦ take_nodes insert dev per fpfn lpfn topdown mem n (take_node dev mem t pages a)
    ]

-- `r == -ENOSPC ? 0 : r`.
abbrev pub unless_full : Errno → Status
unless_full enospc = ok
unless_full r = err r

-- `drm_mm_remove_node`.
pub remove_node : Range → List Range → List Range
remove_node n [] = []
remove_node n (x ∷ mm) = let rest = remove_node n mm in if x.start == n.start then mm else x ∷ rest

-- The loop after `error:`, over the ranges taken, the last one first.
pub give_back : List Range → List Range → List Range
unfolding remove_node
give_back [] mm = mm
give_back (n ∷ nodes) mm = remove_node n (give_back nodes mm)

unfoldable pub finish : Mgr → Mem → Looped → Status × Mgr × Mem
unfolding give_back
finish mgr mem (stopped r t) =
    (unless_full r, record mgr { mm = give_back t.nodes t.mm }, record mem { start = t.start })
finish mgr mem (complete t) = (
  ok,
  record { mm = t.mm; usage = mgr.usage + t.used; vis_usage = mgr.vis_usage + t.vis_used },
  record mem { start = t.start; mm_node = some t.nodes },
)

-- The locals before the loop.
abbrev pub first_turn : Mgr → Mem → Turn
first_turn mgr mem = record {
  mm = mgr.mm;
  nodes = [];
  used = 0;
  vis_used = 0;
  start = 0;
  pages_left = mem.num_pages;
}

-- `gsgpu_vram_mgr_new`. `memory`: whether there is memory; `size`: the pages of the domain.
unfoldable pub vram_new : Insert → Device → ℕ → Bool → Mgr → Place → Mem → Status × Mgr × Mem
unfolding pages_per_node num_nodes take_nodes finish
vram_new insert dev size memory mgr place mem =
    let lpfn = if place.lpfn == 0 then size else place.lpfn in
    let per = pages_per_node dev place mem in
    if memory
    then finish mgr mem (
        take_nodes insert dev per place.fpfn lpfn place.topdown mem (num_nodes per mem.num_pages)
          (first_turn mgr mem))
    else (err enomem, mgr, mem)

-- The loop of `gsgpu_vram_mgr_del`: the ranges left and the bytes in use, in all and visible; `none` where
-- it reads past the end of `nodes`.
pub free_nodes : Device → List Range → ℕ → Turn → Option Turn
unfolding remove_node vis_size
free_nodes dev nodes zero t = some t
free_nodes dev [] (suc pages) t = none
free_nodes dev (n ∷ nodes) (suc pages) t =
    free_nodes dev nodes (sub32 (suc pages) n.size) (record t {
      mm = remove_node n t.mm;
      used = t.used + bytes dev n.size;
      vis_used = t.vis_used + vis_size dev n;
    })

abbrev pub del_turn : Mgr → Turn
del_turn mgr = record { mm = mgr.mm; nodes = []; used = 0; vis_used = 0; start = 0; pages_left = 0 }

-- `gsgpu_vram_mgr_del` after its loop.
pub released : Mgr → Mem → Option Turn → Option (Mgr × Mem)
released mgr mem none = none
released mgr mem (some t) = some (
  record { mm = t.mm; usage = mgr.usage - t.used; vis_usage = mgr.vis_usage - t.vis_used },
  record mem { mm_node = none },
)

-- `gsgpu_vram_mgr_del` on the ranges of `mem`. `unsigned pages` keeps 32 bits.
pub del_nodes : Device → Mgr → Mem → Option (List Range) → Option (Mgr × Mem)
unfolding free_nodes released
del_nodes dev mgr mem none = some (mgr, mem)
del_nodes dev mgr mem (some nodes) =
    released mgr mem (free_nodes dev nodes (mem.num_pages % u32_mod) (del_turn mgr))

pub vram_del : Device → Mgr → Mem → Option (Mgr × Mem)
unfolding del_nodes
vram_del dev mgr mem = del_nodes dev mgr mem mem.mm_node
