-- ===== src/GttMgr/Tests.antt =====
-- The domain of 100 pages at a request for 30 of them, in a range at once.
use loongson_gsgpu_dkms_modu.Base.{negsuc, ◌≡◌, refl, [], none, true, false, pos}
use loongson_gsgpu_dkms_modu.GttMgr.{Insert, at, Mgr, Place, Mem, Request, new, del}
use loongson_gsgpu_dkms_modu.GttMgr.Laws.{del-new}

abbrev insert : Insert
insert mm pages window = at 8

abbrev mgr : Mgr
mgr = record { available = pos 100; mm = [] }

abbrev request : Request
request = record { own_mem = true; in_tt = false }

abbrev place : Place
place = record { fpfn = 4; lpfn = 0; topdown = false }

abbrev mem : Mem
mem = record { num_pages = 30; mm_node = none; start = none }

takes_pages : (new insert 1000 true mgr request place mem).1.available ≡ pos 70
unfolding new
takes_pages = refl

del-new_example :
    let (r, m', mem') = new insert 1000 true mgr request place mem in (del m' mem').0 ≡ mgr
del-new_example = del-new insert 1000 true mgr request place mem refl

abbrev overdrawn : Mgr
overdrawn = record { available = negsuc 4; mm = [] }
