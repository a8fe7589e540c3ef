-- ===== src/Job.antt =====
-- gsgpu/gpu/gsgpu_job.c: what the scheduler asks of a job before it runs, and how a job is made and
-- submitted. The scheduler is the kernel's.
pub mod Dependency
mod Tests
use loongson_gsgpu_dkms_modu.Base.{
  ℕ, Bool, true, false, List, [], ◌∷◌, Option, none, some, ◌==◌, ◌&&◌, if◌then◌else◌, Status, ok,
  err, Errno, einval, enomem,
}
use loongson_gsgpu_dkms_modu.Sync.{Fences, Entry, Sync, create, get_fence, peek_fence}
use loongson_gsgpu_dkms_modu.Vmid.{Ids, Kernel, Place, Space, Job, wait_on, grab}

-- A turn of the loop of `gsgpu_job_dependency`, after the request for a VMID: a fence of the job's set ends
-- it, and else it goes on.
abbrev pub Answer : Type 0
Answer = Option (Option ℕ × Ids × Sync × Job)

pub turn : Option Entry → Ids → Sync → Job → Answer → Answer
turn (some e) m sync job rest = some (some e.fence, m, sync, job)
turn none m sync job rest = rest

-- The loop of `gsgpu_job_dependency`: it turns while there is no fence and the job has no VMID. Each turn
-- meets the kernel at another moment; `none`: the moments are used up.
pub retry : List Kernel → Place → Space → ℕ → Ids → Sync → Job → Answer
unfolding turn
retry [] p vm finished m sync job = if job.vmid == 0 then none else some (none, m, sync, job)
retry (k ∷ ks) p vm finished m sync job =
    let (r, m', sync', job') = grab k p m sync vm job finished in
    let (e, sync'') = get_fence k.fences sync' in
    let rest = turn e m' sync'' job' (retry ks p vm finished m' sync'' job') in
    if job.vmid == 0 then rest else some (none, m, sync, job)

-- The sets of a job: the fences it waits for, and those that its run waits for.
pub record Sets : Type 0 where
  pub sync : Sync
  pub sched_sync : Sync

-- `gsgpu_job_dependency`. `optimized` is `drm_sched_dependency_optimized`, and `k` the kernel at the
-- beginning. A fence that the job waits for explicitly may be left to the run of the job.
pub note_explicit : Kernel → Place → (ℕ → Bool) → Sets → Entry → Sets
note_explicit k p optimized s e =
    if e.explicit && optimized e.fence
    then record s { sched_sync = (wait_on k p s.sched_sync e.fence).1 }
    else s

pub with_first :
    Kernel
    → List Kernel
    → Place
    → (ℕ → Bool)
    → Option Space
    → ℕ
    → Ids
    → Sets
    → Job
    → Option Entry
    → Option (Option ℕ × Ids × Sets × Job)
unfolding note_explicit retry
with_first k ks p optimized vm finished m s job (some e) =
    some (some e.fence, m, note_explicit k p optimized s e, job)
with_first k ks p optimized none finished m s job none = some (none, m, s, job)
with_first k ks p optimized (some vm) finished m s job none =
    elim (retry ks p vm finished m s.sync job) [
      | none ↦ none
      | some (f, m', sync', job') ↦ some (f, m', record s { sync = sync' }, job')
    ]

pub dependency :
    Kernel
    → List Kernel
    → Place
    → (ℕ → Bool)
    → Option Space
    → ℕ
    → Ids
    → Sets
    → Job
    → Option (Option ℕ × Ids × Sets × Job)
unfolding with_first
dependency k ks p optimized vm finished m s job =
    let (e, sync) = get_fence k.fences s.sync in
    with_first k ks p optimized vm finished m (record s { sync = sync }) job e
