-- ===== src/Job/Tests.antt =====
-- A job of an address space that finds its VMID idle.
use mathlib.Core.Option
use loongson_gsgpu_dkms_modu.Base.{
  ℕ, Option, ◌≡◌, refl, true, false, [], ◌∷◌, none, some, ltb, set, ok, arith,
}
use loongson_gsgpu_dkms_modu.Sync.{Sync, create, sync_fence, peek_fence, get_fence}
use loongson_gsgpu_dkms_modu.Sync.Laws.{IsTable}
use loongson_gsgpu_dkms_modu.Vmid.{Ids, Kernel, Place, Space, Job, grab}
use loongson_gsgpu_dkms_modu.Job.{Sets, dependency}
use loongson_gsgpu_dkms_modu.Job.Dependency.{Told, dependency_ends}

-- Fences below 100 are signaled.
abbrev kernel : Kernel
kernel = record {
  fences = record {
    signaled = λ f. ltb f 100;
    context = λ f. f;
    sched = λ f. none;
    is_later = λ f g. ltb g f;
    bucket = λ c. 5;
  };
  array = λ fs context seq. some 300;
  memory = true;
  mem = λ f. true;
}

abbrev place : Place
place = record { dev = 1; idx = 0; fence_context = 7; vm_fence_context = 20 }

abbrev waiting : ℕ → Sync
waiting f = record create {
  buckets = set create.buckets 5 (record { fence = f; explicit = false } ∷ []);
}

-- The only VMID is in use until fence `f` is signaled.
abbrev ids : ℕ → Ids
ids f = record {
  ids_lru = 1 ∷ [];
  ids = λ i. record {
    active = waiting f;
    last_flush = none;
    owner = 0;
    pd_gpu_addr = 0;
    flushed_updates = none;
  };
  vmid_wait = λ r. none;
  seqno = λ r. 0;
}

abbrev space : Space
space = record { owner = 9; use_cpu_for_update = false; reserved_vmid = none; pasid = 77 }

abbrev job : Job
job = record { vm_pd_addr = 4096; vm_needs_flush = false; vmid = 0; pasid = 0 }

abbrev sets : Sets
sets = record { sync = waiting 40; sched_sync = create }

-- The fence 40 is over. With VMID 1 in use the job is told to wait for the array of fences.
waits :
    (Option.map
      (λ (r : Option ℕ × Ids × Sets × Job). r.0)
      (dependency kernel (kernel ∷ []) place (λ f. false) (some space) 500 (ids 200) sets job))
    ≡ some (some 300)
unfolding dependency grab sync_fence peek_fence get_fence
waits = refl

runs :
    (Option.map
      (λ (r : Option ℕ × Ids × Sets × Job). r.3.vmid)
      (dependency kernel (kernel ∷ []) place (λ f. false) (some space) 500 (ids 60) sets job))
    ≡ some 1
unfolding dependency grab sync_fence peek_fence get_fence
runs = refl

table : IsTable kernel.fences (get_fence kernel.fences sets.sync).1
unfolding get_fence
table = record { size = refl; hash = λ c. omega arith }

succeeds : (grab kernel place (ids 60) (get_fence kernel.fences sets.sync).1 space job 500).0 ≡ ok
unfolding grab sync_fence peek_fence get_fence
succeeds = refl

dependency_ends_example :
    Told kernel.fences kernel.fences space job
      (dependency kernel (kernel ∷ []) place (λ f. false) (some space) 500 (ids 60) sets job)
dependency_ends_example =
    dependency_ends kernel kernel [] place (λ f. false) space 500 (ids 60) sets job table
      (λ fs context seq a un e. ground arith) (omega arith, tt) (λ j e. cc) refl succeeds
