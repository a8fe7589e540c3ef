-- ===== src/Split.antt =====
-- gsgpu/gpu/gsgpu_vm.c: `gsgpu_vm_bo_split_mapping`, which cuts a mapping into pieces of contiguous memory
-- and updates the page tables with each. A page has `2 ^ page_shift` bytes for the CPU; the GPU has
-- `per_cpu` pages in it (GSGPU_GPU_PAGES_IN_CPU_PAGE).
pub mod Cover
mod Tests
use loongson_gsgpu_dkms_modu.Base.{
  ℕ, zero, suc, ◌+◌, ◌-◌, ◌*◌, ◌/◌, ◌^◌, min, Option, none, some, List, [], ◌∷◌, leb, ◌==◌,
  if◌then◌else◌, Bool, true, false, sub64, Errno, Status, ok, err,
}
use loongson_gsgpu_dkms_modu.VramMgr.{Range}
use loongson_gsgpu_dkms_modu.Vm.{add64}

-- Numbers of pages are below 2 ^ 52, so that only the sum with `max_entries` can leave 64 bits.
-- Where the memory is: in system memory (`pages_addr`), in ranges of VRAM from the one that `nodes` points
-- to on, or nowhere. There `max_entries` is not set: the argument is what it holds.
pub data Source : Type 0 where
  system : Source
  vram : List Range → Source
  nowhere : ℕ → Source

pub record Device : Type 0 where
  pub page_shift : ℕ
  pub per_cpu : ℕ
  pub vram_base_offset : ℕ

-- A call of `gsgpu_vm_bo_update_mapping`; its other arguments are the same in each turn.
pub record Update : Type 0 where
  pub start : ℕ
  pub last : ℕ
  pub addr : ℕ

abbrev pub shifted : Device → ℕ → ℕ
shifted dev n = n * 2 ^ dev.page_shift

-- `GSGPU_VM_MAX_UPDATE_SIZE`.
abbrev pub max_update_size : ℕ
max_update_size = 1024

-- `addr` and `max_entries` of a turn; `none` past the end of `nodes`.
pub piece_of : Device → Source → ℕ → Option (ℕ × ℕ)
piece_of dev system pfn = some (shifted dev pfn, max_update_size)
piece_of dev (vram []) pfn = none
piece_of dev (vram (r ∷ rs)) pfn =
    some
      (shifted dev r.start + shifted dev pfn + dev.vram_base_offset, (r.size - pfn) * dev.per_cpu)
piece_of dev (nowhere max_entries) pfn = some (0, max_entries)

-- The end of a turn: on to the next range where this one is used up.
pub advance : Source → ℕ → Source × ℕ
advance system pfn = (system, pfn)
advance (vram []) pfn = (vram [], pfn)
advance (vram (r ∷ rs)) pfn = if r.size == pfn then (vram rs, 0) else (vram (r ∷ rs), pfn)
advance (nowhere e) pfn = (nowhere e, pfn)

-- The end of a turn whose update did not fail: `done` is the test of the loop, `rest` its later turns.
pub joined : Bool → Update → Option (Status × List Update) → Option (Status × List Update)
joined true u rest = some (ok, u ∷ [])
joined false u none = none
joined false u (some (r, us)) = some (r, u ∷ us)

-- The loop. `update`: the error of `gsgpu_vm_bo_update_mapping`, if it fails. Each turn uses up a unit of
-- fuel.
pub split_loop :
    ℕ → Device → (Update → Option Errno) → Source → ℕ → ℕ → ℕ → Option (Status × List Update)
unfolding piece_of advance joined
split_loop zero dev update src pfn start end = none
split_loop (suc fuel) dev update src pfn start end = elim (piece_of dev src pfn) [
  | none ↦ none
  | some (addr, max_entries) ↦
      let last = min end (sub64 (add64 start max_entries) 1) in
      let u : Update = record { start = start; last = last; addr = addr } in
      let (src', pfn') = advance src (pfn + (last + 1 - start) / dev.per_cpu) in
      let rest = split_loop fuel dev update src' pfn' (last + 1) end in
      elim (update u) [ some r ↦ some (err r, u ∷ []) | none ↦ joined (last + 1 == end + 1) u rest ]
]

-- The search of the range that holds the offset of the mapping.
pub seek : Source → ℕ → Source × ℕ
seek system pfn = (system, pfn)
seek (nowhere e) pfn = (nowhere e, pfn)
seek (vram []) pfn = (vram [], pfn)
seek (vram (r ∷ rs)) pfn =
    let rest = seek (vram rs) (pfn - r.size) in
    if leb r.size pfn then rest else (vram (r ∷ rs), pfn)

-- `gsgpu_vm_bo_split_mapping` on pages `start` to `end`, from the byte `offset` of the buffer object.
pub split_mapping :
    ℕ → Device → (Update → Option Errno) → Source → ℕ → ℕ → ℕ → Option (Status × List Update)
unfolding split_loop seek
split_mapping fuel dev update src start end offset =
    let (src', pfn) = seek src (offset / 2 ^ dev.page_shift) in
    split_loop fuel dev update src' pfn start end
