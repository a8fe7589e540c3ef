-- ===== src/Queue/Tests.antt =====
-- A device with a graphics ring and two DMA rings.
use loongson_gsgpu_dkms_modu.Base.{
  ℕ, zero, suc, ◌≡◌, refl, none, some, [], ◌∷◌, get_or, replicate, ok,
}
use loongson_gsgpu_dkms_modu.Queue.{
  HwRing, Mapper, Device, lru_find, lru_take, lru_get, update_cached_map, blacklist, map_found,
  lru_map, map_ring, queue_mgr_map,
}
use loongson_gsgpu_dkms_modu.Queue.Distinct.{IsDistinct, queue_mgr_map-IsDistinct}

abbrev dma_ring : ℕ → HwRing
dma_ring n = record { idx = n; type = 2; pipe = 0 }

abbrev dev : Device
dev = record {
  gfx_ring = record { idx = 0; type = 0; pipe = 0 } ∷ [];
  num_gfx_rings = 1;
  num_instances = 2;
  type_gfx = 0;
  type_xdma = 2;
  lru = dma_ring 2 ∷ dma_ring 1 ∷ [];
}

abbrev mapper : Mapper
mapper = record { hw_ip = 2; queue_map = replicate 21 none }

empty-IsDistinct : IsDistinct mapper.queue_map
unfolding IsDistinct
empty-IsDistinct i j r s a b e = absurd (nothing 21 i r a)
  where
    nothing : (n i : ℕ) (r : HwRing) → get_or (replicate n none) i none ≡ some r → ⊥
    nothing zero i r a = cc
    nothing (suc n) zero r a = cc
    nothing (suc n) (suc i) r a = nothing n i r a

queue_mgr_map-IsDistinct_example : IsDistinct (queue_mgr_map dev mapper 2 0 1).mapper.queue_map
queue_mgr_map-IsDistinct_example = queue_mgr_map-IsDistinct dev mapper 2 0 1 refl empty-IsDistinct

mapped :
    ((queue_mgr_map dev mapper 2 0 1).status ≡ ok)
    × ((queue_mgr_map dev mapper 2 0 1).out_ring ≡ some (dma_ring 2))
unfolding queue_mgr_map map_ring lru_map lru_get lru_find lru_take map_found update_cached_map
    blacklist
mapped = (refl, refl)
