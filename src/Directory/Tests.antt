-- ===== src/Directory/Tests.antt =====
-- The allocation of the tables for two pages, of three levels with nine bits each.
use loongson_gsgpu_dkms_modu.Base.{ℕ, ◌+◌, ◌*◌, ◌≡◌, refl, true, [], ◌∷◌, some, arith, ok}
use loongson_gsgpu_dkms_modu.Directory.{
  Pt, leaf, Manager, Attempt, made, Lists, alloc_pts, get_entry,
}
use loongson_gsgpu_dkms_modu.Directory.Walk.{bo_of_entry, IsTree}
use loongson_gsgpu_dkms_modu.Directory.Alloc.{Allocated, alloc_pts_outcome}

abbrev manager : Manager
manager = record {
  dir0_shift = 32;
  dir0_width = 9;
  dir1_shift = 23;
  dir1_width = 9;
  dir2_shift = 14;
  dir2_width = 9;
  max_pfn = 100000000;
}

-- The object of step `n` is `n + 1000`.
abbrev supply : ℕ → Attempt
supply n = record { memory = true; create = made (n + 1000); clear = ok; kmap = ok; placed = true }

abbrev nothing : Lists
nothing = record { steps = 0; relocated = []; evicted = [] }

abbrev root : Pt
root = leaf (some 1)

-- Two pages on both sides of the border of a table.
two_tables :
    (alloc_pts manager true supply root (511 * 16384) 32768 nothing).2.relocated
    ≡ 1004 ∷ 1003 ∷ 1001 ∷ []
unfolding alloc_pts
two_tables = refl

finds_second :
    bo_of_entry
      (get_entry manager (alloc_pts manager true supply root (511 * 16384) 32768 nothing).1 512).0
    ≡ some 1004
unfolding alloc_pts get_entry
finds_second = refl

is_tree : IsTree 2 root
unfolding IsTree
is_tree = tt

alloc_pts_outcome_example :
    Allocated manager root
      (511 * 16384)
      32768
      (alloc_pts manager true supply root (511 * 16384) 32768 nothing)
alloc_pts_outcome_example =
    alloc_pts_outcome manager true supply root (511 * 16384) 32768 nothing is_tree refl
      (omega arith) (omega arith)
