-- ===== src/Queue.antt =====
-- gsgpu/gpu/gsgpu_queue_mgr.c, and the least recently used rings of gsgpu/gpu/gsgpu_ring.c: the kernel's
-- ring behind the ring number of a process.
pub mod Distinct
pub mod Again
mod Tests
use loongson_gsgpu_dkms_modu.Base.{
  ℕ, Bool, false, not, Option, none, some, List, [], ◌∷◌, ◌++◌, ltb, leb, ◌==◌, if◌then◌else◌,
  is_some, get_elem?, get_or, set, replicate, Status, einval, ok, err, keep, any,
}

-- The parts of `struct gsgpu_ring` that are read here. Rings are told apart by `idx`.
pub record HwRing : Type 0 where
  pub idx : ℕ
  pub type : ℕ
  pub pipe : ℕ

-- `GSGPU_MAX_RINGS`, `GSGPU_MAX_IP_NUM`, and the numbers of the blocks and of the types of their rings.
abbrev pub max_rings : ℕ
max_rings = 21

abbrev pub max_ip_num : ℕ
max_ip_num = 16

abbrev pub hw_ip_gfx : ℕ
hw_ip_gfx = 0

abbrev pub hw_ip_dma : ℕ
hw_ip_dma = 2

-- `struct gsgpu_queue_mapper`.
pub record Mapper : Type 0 where
  pub hw_ip : ℕ
  pub queue_map : List (Option HwRing)

-- `gsgpu_queue_mapper_init`.
pub mapper_init : ℕ → Option Mapper
mapper_init hw_ip =
    if ltb max_ip_num hw_ip
    then none
    else some (record { hw_ip = hw_ip; queue_map = replicate max_rings none })

-- The rings of the device: those of the graphics block, how many DMA engines there are, the types of
-- the rings of both blocks, and `ring_lru_list`.
pub record Device : Type 0 where
  pub gfx_ring : List HwRing
  pub num_gfx_rings : ℕ
  pub num_instances : ℕ
  pub type_gfx : ℕ
  pub type_xdma : ℕ
  pub lru : List HwRing

-- `gsgpu_ring_lru_touch_locked`: `list_move_tail`.
pub touch : HwRing → List HwRing → List HwRing
touch r lru = keep (λ x. not (x.idx == r.idx)) lru ++ r ∷ []

-- `gsgpu_ring_is_blacklisted`.
abbrev pub is_blacklisted : HwRing → List ℕ → Bool
is_blacklisted r blacklist = any (λ b. r.idx == b) blacklist

-- The loop of `gsgpu_ring_lru_get`: the ring that it finds. With `lru_pipe_order` it moves the ring to the
-- end of the list at once, and the walk, which goes on from there, ends.
pub lru_find : ℕ → List ℕ → List HwRing → Option HwRing
lru_find type blacklist [] = none
lru_find type blacklist (entry ∷ rest) =
    let found = lru_find type blacklist rest in
    if not (entry.type == type)
    then found
    else if is_blacklisted entry blacklist
    then found
    else some entry

-- What it does with the ring.
pub lru_take : Device → Bool → Option HwRing → Status × Option HwRing × Device
unfolding touch
lru_take dev lru_pipe_order none = (err einval, none, dev)
lru_take dev lru_pipe_order (some r) =
    let walked = if lru_pipe_order then touch r dev.lru else dev.lru in
    (ok, some r, record dev { lru = touch r walked })

-- `gsgpu_ring_lru_get`.
pub lru_get : Device → ℕ → List ℕ → Bool → Status × Option HwRing × Device
unfolding lru_find lru_take
lru_get dev type blacklist lru_pipe_order =
    lru_take dev lru_pipe_order (lru_find type blacklist dev.lru)

-- `gsgpu_get_cached_map`.
abbrev pub cached : Mapper → ℕ → Option HwRing
cached m ring = get_or m.queue_map ring none

-- `gsgpu_update_cached_map`.
pub update_cached_map : Mapper → ℕ → HwRing → Status × Mapper
update_cached_map m ring r =
    if is_some (cached m ring)
    then (err einval, m)
    else (ok, record m { queue_map = set m.queue_map ring (some r) })

-- What a mapping leaves: `out_ring` and the changed structures.
pub record Mapped : Type 0 where
  pub status : Status
  pub out_ring : Option HwRing
  pub mapper : Mapper
  pub device : Device

-- `gsgpu_identity_map` in the graphics block, whose rings are in range.
pub identity_map : Device → Mapper → ℕ → Mapped
unfolding update_cached_map
identity_map dev m ring = elim (get_elem? dev.gfx_ring ring) [
  | none ↦ record { status = err einval; out_ring = none; mapper = m; device = dev }
  | some r ↦
      let (status, m') = update_cached_map m ring r in
      record { status = status; out_ring = some r; mapper = m'; device = dev }
]

-- `ring_blacklist`.
pub blacklist : List (Option HwRing) → List ℕ
blacklist [] = []
blacklist (none ∷ rest) = blacklist rest
blacklist (some r ∷ rest) = r.idx ∷ blacklist rest

-- `gsgpu_lru_map` after the search of a ring.
pub map_found : Mapper → ℕ → Status × Option HwRing × Device → Mapped
unfolding update_cached_map
map_found m user_ring (ok, some r, dev) =
    let (status, m') = update_cached_map m user_ring r in
    record { status = status; out_ring = some r; mapper = m'; device = dev }
map_found m user_ring (status, out, dev) = record {
  status = status;
  out_ring = out;
  mapper = m;
  device = dev;
}

-- `gsgpu_lru_map`.
pub lru_map : Device → Mapper → ℕ → Bool → Mapped
unfolding lru_get blacklist map_found
lru_map dev m user_ring lru_pipe_order =
    map_found m user_ring (lru_get dev dev.type_xdma (blacklist m.queue_map) lru_pipe_order)

-- `ip_num_rings`, where the block has rings.
abbrev pub ip_num_rings : Device → ℕ → Option ℕ
ip_num_rings dev hw_ip =
    if hw_ip == hw_ip_gfx
    then some dev.num_gfx_rings
    else if hw_ip == hw_ip_dma
    then some dev.num_instances
    else none

-- The rest of `gsgpu_queue_mgr_map`, after its checks.
pub map_ring : Device → Mapper → ℕ → Mapped
unfolding identity_map lru_map
map_ring dev m ring =
    if is_some (cached m ring)
    then record { status = ok; out_ring = cached m ring; mapper = m; device = dev }
    else if m.hw_ip == hw_ip_gfx
    then identity_map dev m ring
    else if m.hw_ip == hw_ip_dma
    then lru_map dev m ring false
    else record { status = err einval; out_ring = none; mapper = m; device = dev }

-- `gsgpu_queue_mgr_map` on the mapper of block `hw_ip`.
pub queue_mgr_map : Device → Mapper → ℕ → ℕ → ℕ → Mapped
unfolding map_ring
queue_mgr_map dev m hw_ip instance_number ring =
    let refused : Mapped = record {
      status = err einval;
      out_ring = none;
      mapper = m;
      device = dev;
    } in
    if leb max_ip_num hw_ip
    then refused
    else if leb max_rings ring
    then refused
    else if not (instance_number == 0)
    then refused
    else elim (ip_num_rings dev hw_ip) [
      | none ↦ refused
      | some n ↦ if leb n ring then refused else map_ring dev m ring
    ]
