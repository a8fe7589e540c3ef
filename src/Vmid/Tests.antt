-- ===== src/Vmid/Tests.antt =====
-- The choice of a VMID for a job, with three VMIDs in use.
use loongson_gsgpu_dkms_modu.Base.{
  ℕ, ◌≡◌, refl, true, false, [], ◌∷◌, none, some, ◌==◌, ltb, if◌then◌else◌, set,
}
use loongson_gsgpu_dkms_modu.Sync.{Sync, create, sync_fence, peek_fence}
use loongson_gsgpu_dkms_modu.Vmid.{Slot, Ids, Kernel, Place, Space, Job, grab}
use loongson_gsgpu_dkms_modu.Vmid.Outcome.{Outcome}

-- Fences below 100 are signaled; the ring's context is 7.
abbrev kernel : Kernel
kernel = record {
  fences = record {
    signaled = λ f. ltb f 100;
    context = λ f. if f == 200 then 0 else 7;
    sched = λ f. none;
    is_later = λ f g. ltb g f;
    bucket = λ c. 3;
  };
  array = λ fs context seq. some 300;
  memory = true;
  mem = λ f. true;
}

abbrev place : Place
place = record { dev = 1; idx = 0; fence_context = 7; vm_fence_context = 20 }

abbrev users : ℕ → Sync
users f = record create {
  buckets = set create.buckets 3 (record { fence = f; explicit = false } ∷ []);
}

-- VMID 1 is in use; 2 is idle; 3 is in use by the address space 9.
abbrev entry : ℕ → Slot
entry i =
    if i == 3
    then record {
      active = users 200;
      last_flush = some 150;
      owner = 9;
      pd_gpu_addr = 4096;
      flushed_updates = none;
    }
    else if i == 2
    then record {
      active = users 50;
      last_flush = none;
      owner = 4;
      pd_gpu_addr = 8192;
      flushed_updates = none;
    }
    else record {
      active = users 200;
      last_flush = none;
      owner = 5;
      pd_gpu_addr = 12288;
      flushed_updates = none;
    }

abbrev ids : Ids
ids = record { ids_lru = 1 ∷ 2 ∷ 3 ∷ []; ids = entry; vmid_wait = λ r. none; seqno = λ r. 0 }

abbrev space : Space
space = record { owner = 9; use_cpu_for_update = false; reserved_vmid = none; pasid = 77 }

abbrev job : Job
job = record { vm_pd_addr = 4096; vm_needs_flush = false; vmid = 0; pasid = 0 }

-- The address space 9 gets its VMID again, with no flush; with other page tables it gets the idle one.
gets_own : (grab kernel place ids create space job 400).3 ≡ record job { vmid = 3; pasid = 77 }
unfolding grab sync_fence peek_fence
gets_own = refl

gets_idle :
    (grab kernel place ids create space (record job { vm_pd_addr = 1 }) 400).3
    ≡ record { vm_pd_addr = 1; vm_needs_flush = true; vmid = 2; pasid = 77 }
unfolding grab sync_fence peek_fence
gets_idle = refl
