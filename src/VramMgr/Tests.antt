-- ===== src/VramMgr/Tests.antt =====
-- Forty pages in ranges of sixteen, of a domain of which the CPU sees the first eight pages.
use loongson_gsgpu_dkms_modu.Base.{
  ◌-◌, ◌*◌, ◌^◌, ◌≤◌, min, ◌≡◌, refl, true, false, none, some, [], arith, length,
}
use loongson_gsgpu_dkms_modu.VramMgr.{
  Mgr, Device, Place, Mem, vis_size, pages_per_node, num_nodes, Insert, take_node, take_nodes,
  finish, vram_new, vram_del, at,
}
use loongson_gsgpu_dkms_modu.VramMgr.Usage.{vis_size_lem, NewOutcome, vram_new_outcome}
use loongson_gsgpu_dkms_modu.VramMgr.Free.{vram_del-vram_new}

abbrev dev : Device
dev = record { page_shift = 14; visible_vram_size = 8 * 16384; vram_page_split = some 16 }

abbrev insert : Insert
insert mm pages alignment fpfn lpfn topdown = at (16 * length mm)

abbrev mgr : Mgr
mgr = record { mm = []; usage = 0; vis_usage = 0 }

abbrev place : Place
place = record { fpfn = 0; lpfn = 0; contiguous = false; topdown = false }

abbrev mem : Mem
mem = record { num_pages = 40; page_alignment = 1; start = 0; mm_node = none }

counts_bytes : (vram_new insert dev 100 true mgr place mem).1.usage ≡ 655360
unfolding vram_new pages_per_node num_nodes take_nodes take_node finish
counts_bytes = refl

vis_size_lem_example :
    (vis_size dev (record { start = 4; size = 8 }) ≡ min (12 * 2 ^ 14) (8 * 16384) - 4 * 2 ^ 14)
    × (vis_size dev (record { start = 4; size = 8 }) ≤ 8 * 2 ^ 14)
vis_size_lem_example = vis_size_lem dev (record { start = 4; size = 8 }) (omega arith)

vram_new_outcome_example :
    NewOutcome insert dev true mgr mem (vram_new insert dev 100 true mgr place mem)
vram_new_outcome_example = vram_new_outcome insert dev 100 true mgr place mem (omega arith)

vram_del-vram_new_example :
    let (r, mgr', mem') = vram_new insert dev 100 true mgr place mem in
    (mgr'' : Mgr) × (mem'' : Mem) × (vram_del dev mgr' mem' ≡ some (mgr'', mem''))
    × (mem''.mm_node ≡ none)
    × (mgr''.usage ≡ 0)
    × (mgr''.vis_usage ≡ 0)
vram_del-vram_new_example =
    vram_del-vram_new insert dev 100 true mgr place mem (omega arith) (omega arith) refl
