-- ===== src/Sync/Tests.antt =====
-- The set of fences at a table of two contexts.
use loongson_gsgpu_dkms_modu.Base.{
  ◌≡◌, refl, [], ◌∷◌, if◌then◌else◌, none, some, true, false, ◌==◌, ltb, arith, set, ok,
}
use loongson_gsgpu_dkms_modu.Sync.{get_fence, Fences, Sync, create, sync_fence}
use loongson_gsgpu_dkms_modu.Sync.Laws.{IsTable, Synced, sync_fence_outcome}
use loongson_gsgpu_dkms_modu.Sync.Get.{Taken, get_fence_outcome}
use loongson_gsgpu_dkms_modu.Sync.Peek.{concat}

-- Fence 50 has the context 5, every other one 6; those below 100 are signaled.
abbrev fences : Fences
fences = record {
  signaled = λ f. ltb f 100;
  context = λ f. if f == 50 then 5 else 6;
  sched = λ f. none;
  is_later = λ f g. ltb g f;
  bucket = λ c. 3;
}

abbrev table : Sync
table = record {
  buckets =
      set create.buckets 3
        (record { fence = 50; explicit = false } ∷ record { fence = 300; explicit = true } ∷ []);
  last_vm_update = none;
}

table-IsTable : IsTable fences table
table-IsTable = record { size = refl; hash = λ c. omega arith }

-- The later fence 300 stays where 200 is added.
keeps_later : sync_fence fences 1 table (some 200) false true ≡ (ok, table)
unfolding sync_fence
keeps_later = refl

sync_fence_outcome_example :
    Synced fences 1 table 200 false true (sync_fence fences 1 table (some 200) false true)
sync_fence_outcome_example = sync_fence_outcome fences 1 table 200 false true table-IsTable

get_fence_outcome_example :
    let (r, s') = get_fence fences table in
    Taken fences (concat table.buckets) (r, concat s'.buckets)
get_fence_outcome_example = get_fence_outcome fences table
