-- ===== src/Vmid.antt =====
-- gsgpu/gpu/gsgpu_ids.c: the choice of a VMID for a job. The fences that protect a VMID are a set of
-- gsgpu_sync.c. References to fences are not counted.
pub mod Steps
pub mod Choice
pub mod Outcome
mod Tests
use loongson_gsgpu_dkms_modu.Base.{
  ℕ, u32_mod, ◌%◌, ◌+◌, Bool, true, false, not, List, [], ◌∷◌, ◌++◌, Option, none, some, ◌==◌, ◌&&◌,
  ◌||◌, if◌then◌else◌, keep, Status, ok, err, enomem, is_some,
}
use loongson_gsgpu_dkms_modu.Sync.{Fences, Sync, sync_fence, peek_fence}

-- `struct gsgpu_vmid`.
pub record Slot : Type 0 where
  pub active : Sync
  pub last_flush : Option ℕ
  pub owner : ℕ
  pub pd_gpu_addr : ℕ
  pub flushed_updates : Option ℕ

-- `struct gsgpu_vmid_mgr`, with what the device keeps for each ring: `ring->vmid_wait` and
-- `vm_manager.seqno`.
pub record Ids : Type 0 where
  pub ids_lru : List ℕ
  pub ids : ℕ → Slot
  pub vmid_wait : ℕ → Option ℕ
  pub seqno : ℕ → ℕ

-- Of `struct gsgpu_vm`; `owner` is the fence context of its entity.
pub record Space : Type 0 where
  pub owner : ℕ
  pub use_cpu_for_update : Bool
  pub reserved_vmid : Option ℕ
  pub pasid : ℕ

-- Of `struct gsgpu_job`. No VMID is the number 0.
pub record Job : Type 0 where
  pub vm_pd_addr : ℕ
  pub vm_needs_flush : Bool
  pub vmid : ℕ
  pub pasid : ℕ

-- What the kernel gives at the moment of the call: its fences, `dma_fence_array_create` (none: no memory)
-- of fences, context and sequence number, whether there is memory for the array of fences, and for which
-- fences there is memory in a set.
pub record Kernel : Type 0 where
  pub fences : Fences
  pub array : List ℕ → ℕ → ℕ → Option ℕ
  pub memory : Bool
  pub mem : ℕ → Bool

-- The ring of the job: its device, its number, and the contexts of fences of the device and of its VMs.
pub record Place : Type 0 where
  pub dev : ℕ
  pub idx : ℕ
  pub fence_context : ℕ
  pub vm_fence_context : ℕ

pub put_slot : (ℕ → Slot) → ℕ → Slot → ℕ → Slot
put_slot ids i v j = if j == i then v else ids j

-- A fence is added to a set.
abbrev pub wait_on : Kernel → Place → Sync → ℕ → Status × Sync
wait_on k p s f = sync_fence k.fences p.dev s (some f) false (k.mem f)

-- A turn of the loop of `gsgpu_vmid_grab_idle`: VMID `i` is taken where it has no fence to wait for.
pub pick :
    ℕ → Option ℕ → (ℕ → Slot) → Option ℕ × List ℕ × (ℕ → Slot) → Option ℕ × List ℕ × (ℕ → Slot)
pick i none ids rest = (some i, [], ids)
pick i (some g) ids (found, fs, ids') = (found, g ∷ fs, ids')

-- The loop: the idle VMID, the fences of those before it, and the VMIDs, whose sets lose signaled fences.
pub find_idle : Fences → ℕ → (ℕ → Slot) → List ℕ → Option ℕ × List ℕ × (ℕ → Slot)
unfolding put_slot pick
find_idle w ring ids [] = (none, [], ids)
find_idle w ring ids (i ∷ is) =
    let (f, active) = peek_fence w (some ring) (ids i).active in
    let ids' = put_slot ids i (record (ids i) { active = active }) in
    pick i f ids' (find_idle w ring ids' is)

abbrev pub Idle : Type 0
Idle = Status × Ids × Sync × Option ℕ

-- No VMID is idle: the job waits for `a`, an array of the fences.
pub wait_array : Kernel → Place → Ids → Sync → Option ℕ → Idle
wait_array k p m sync none = (err enomem, m, sync, none)
wait_array k p m sync (some a) =
    let (r, sync') = wait_on k p sync a in
    (r, record m { vmid_wait = λ q. if q == p.idx then some a else m.vmid_wait q }, sync', none)

pub wait_any : Kernel → Place → Ids → Sync → List ℕ → Idle
unfolding wait_array
wait_any k p m sync fs =
    let seq = (m.seqno p.idx + 1) % u32_mod in
    wait_array k p (record m { seqno = λ r. if r == p.idx then seq else m.seqno r }) sync
      (k.array fs (p.vm_fence_context + p.idx) seq)

-- What `gsgpu_vmid_grab_idle` makes of the walk.
pub idle_or_wait : Kernel → Place → Ids → Sync → Option ℕ × List ℕ × (ℕ → Slot) → Idle
unfolding wait_any
idle_or_wait k p m sync (some i, fs, ids) = (ok, record m { ids = ids }, sync, some i)
idle_or_wait k p m sync (none, fs, ids) = wait_any k p (record m { ids = ids }) sync fs

-- `gsgpu_vmid_grab_idle` where the ring waits for no fence of an earlier call, or it is signaled.
pub look : Kernel → Place → Ids → Sync → Idle
unfolding find_idle idle_or_wait
look k p m sync =
    if k.memory
    then idle_or_wait k p m sync (find_idle k.fences p.idx m.ids m.ids_lru)
    else (err enomem, m, sync, none)

-- `gsgpu_vmid_grab_idle`. The last argument is `ring->vmid_wait`.
pub wait_or_look : Kernel → Place → Ids → Sync → Option ℕ → Idle
unfolding look
wait_or_look k p m sync none = look k p m sync
wait_or_look k p m sync (some f) =
    if k.fences.signaled f
    then look k p m sync
    else (let (r, sync') = wait_on k p sync f in (r, m, sync', none))

pub grab_idle : Kernel → Place → Ids → Sync → Idle
unfolding wait_or_look
grab_idle k p m sync = wait_or_look k p m sync (m.vmid_wait p.idx)

-- Whether the last flush of a VMID is missing, or was made on another ring and is not over.
abbrev pub unflushed_by : Fences → Place → Option ℕ → Bool
unflushed_by w p none = true
unflushed_by w p (some f) = not (w.context f == (p.fence_context + p.idx)) && not (w.signaled f)

abbrev pub unflushed : Fences → Place → Slot → Bool
unflushed w p v = unflushed_by w p v.last_flush

-- The updates that a reserved VMID has not flushed.
abbrev pub reserved_updates : Fences → Option ℕ → Option ℕ → Option ℕ
reserved_updates w none flushed = none
reserved_updates w (some u) none = some u
reserved_updates w (some u) (some f) =
    if (w.context u == w.context f) && not (w.is_later u f) then none else some u

-- The updates that another VMID has not flushed.
abbrev pub has_updates : Fences → Option ℕ → Option ℕ → Bool
has_updates w none flushed = false
has_updates w (some u) none = true
has_updates w (some u) (some f) = w.is_later u f

abbrev pub Grabbed : Type 0
Grabbed = Status × Ids × Sync × Job × Option ℕ

-- After the submission was added to the users of VMID `i`, which has the entry `v`: with an error `failed`
-- is the job, else the updates are noted as flushed.
pub claimed : Status → Ids → Sync → Job → ℕ → Slot → Option ℕ → Job → Grabbed
unfolding put_slot
claimed (err e) m sync failed i v flushed job =
    (err e, record m { ids = put_slot m.ids i v }, sync, failed, some i)
claimed ok m sync failed i v flushed job = (
  ok,
  record m { ids = put_slot m.ids i (record v { flushed_updates = flushed }) },
  sync,
  job,
  some i,
)

-- The submission is added to the users of VMID `i`.
pub claim : Kernel → Place → Ids → Sync → Job → ℕ → ℕ → Slot → Option ℕ → Job → Grabbed
unfolding claimed
claim k p m sync failed fence i v flushed job =
    let (r, active) = wait_on k p v.active fence in
    claimed r m sync failed i (record v { active = active }) flushed job

-- `flushed_updates` after a flush of `updates`.
abbrev pub later_updates : Option ℕ → Option ℕ → Option ℕ
later_updates none flushed = flushed
later_updates (some u) flushed = some u

-- The reserved VMID `i` is not as the job needs it: it is to be flushed, when nothing uses it. `tmp` is what
-- the set of its users gives to wait for.
pub flush_reserved :
    Kernel → Place → Ids → Sync → Job → ℕ → ℕ → Slot → Option ℕ → Option ℕ → Grabbed
unfolding put_slot claim
flush_reserved k p m sync job fence i v updates (some f) =
    let (r, sync') = wait_on k p sync f in
    (r, record m { ids = put_slot m.ids i v }, sync', job, none)
flush_reserved k p m sync job fence i v updates none =
    claim k p m sync job fence i v (later_updates updates v.flushed_updates)
      (record job { vm_needs_flush = true })

-- The test of `gsgpu_vmid_grab_reserved`.
abbrev pub is_stale : Fences → Place → Space → Job → Slot → Option ℕ → Bool
is_stale w p vm job v updates =
    not (v.owner == vm.owner)
    || (not (job.vm_pd_addr == v.pd_gpu_addr) || (is_some updates || unflushed w p v))

-- `gsgpu_vmid_grab_reserved`, for the reserved VMID `i`.
pub grab_reserved : Kernel → Place → Ids → Sync → Space → Job → ℕ → ℕ → Grabbed
unfolding flush_reserved claim
grab_reserved k p m sync vm job fence i =
    let v = m.ids i in
    let updates = reserved_updates k.fences sync.last_vm_update v.flushed_updates in
    let (tmp, active) = peek_fence k.fences (some p.idx) v.active in
    if is_stale k.fences p vm job v updates
    then flush_reserved k p m sync job fence i (record v { pd_gpu_addr = 0; active = active })
        updates tmp
    else claim k p m sync job fence i v (later_updates updates v.flushed_updates)
        (record job { vm_needs_flush = vm.use_cpu_for_update })

abbrev pub or_else : Option ℕ → Option ℕ → Option ℕ
or_else (some a) o = some a
or_else none o = o

-- The search of `gsgpu_vmid_grab_used`, from the end of the list.
pub find_used : ℕ → ℕ → (ℕ → Slot) → List ℕ → Option ℕ
find_used owner pd ids [] = none
find_used owner pd ids (i ∷ is) =
    or_else (find_used owner pd ids is)
      (if ((ids i).owner == owner) && ((ids i).pd_gpu_addr == pd) then some i else none)

-- VMID `i` is used again by its address space.
pub use_again : Kernel → Place → Ids → Sync → Space → Job → ℕ → ℕ → Grabbed
unfolding claim
use_again k p m sync vm job fence i =
    let v = m.ids i in
    let news = has_updates k.fences sync.last_vm_update v.flushed_updates in
    let needs_flush = vm.use_cpu_for_update || (unflushed k.fences p v || news) in
    claim k p m sync (record job { vm_needs_flush = vm.use_cpu_for_update }) fence i v
      (if news then sync.last_vm_update else v.flushed_updates)
      (record job { vm_needs_flush = vm.use_cpu_for_update || needs_flush })

-- The idle VMID `i` is used.
pub use_idle : Kernel → Place → Ids → Sync → Space → Job → ℕ → ℕ → Grabbed
unfolding claim
use_idle k p m sync vm job fence i =
    claim k p m sync (record job { vm_needs_flush = vm.use_cpu_for_update }) fence i (m.ids i)
      sync.last_vm_update (record job { vm_needs_flush = true })

-- `gsgpu_vmid_grab_used` and, where it finds none, the idle VMID. `found` is the VMID that its search finds.
pub use_found : Kernel → Place → Ids → Sync → Space → Job → ℕ → ℕ → Option ℕ → Grabbed
unfolding use_again use_idle
use_found k p m sync vm job fence idle (some i) = use_again k p m sync vm job fence i
use_found k p m sync vm job fence idle none = use_idle k p m sync vm job fence idle

pub grab_listed : Kernel → Place → Ids → Sync → Space → Job → ℕ → ℕ → Grabbed
unfolding find_used use_found
grab_listed k p m sync vm job fence idle =
    use_found k p m sync vm job fence idle (find_used vm.owner job.vm_pd_addr m.ids m.ids_lru)

-- `list_move_tail` on the list of VMIDs.
abbrev pub move_tail : ℕ → List ℕ → List ℕ
move_tail i is = keep (λ j. not (j == i)) is ++ (i ∷ [])

-- The end of `gsgpu_vmid_grab`: the VMID belongs to the address space.
pub assign : Ids → Sync → Space → Job → ℕ → Status × Ids × Sync × Job
unfolding put_slot
assign m sync vm job i =
    let v = m.ids i in
    let v' = record v {
      pd_gpu_addr = job.vm_pd_addr;
      owner = vm.owner;
      last_flush = if job.vm_needs_flush then none else v.last_flush;
    } in
    (ok, record m { ids = put_slot m.ids i v' }, sync, record job { vmid = i; pasid = vm.pasid })

-- What `gsgpu_vmid_grab` makes of its helpers' results: an error and no VMID end it.
pub finish : Space → Bool → Grabbed → Status × Ids × Sync × Job
unfolding assign
finish vm listed (err e, m, sync, job, i) = (err e, m, sync, job)
finish vm listed (ok, m, sync, job, none) = (ok, m, sync, job)
finish vm true (ok, m, sync, job, some i) =
    assign (record m { ids_lru = move_tail i m.ids_lru }) sync vm job i
finish vm false (ok, m, sync, job, some i) = assign m sync vm job i

-- `gsgpu_vmid_grab` where VMID `idle` is idle; the last argument is the reserved VMID, if there is one.
pub grab_for :
    Kernel → Place → Ids → Sync → Space → Job → ℕ → ℕ → Option ℕ → Status × Ids × Sync × Job
unfolding grab_reserved grab_listed finish
grab_for k p m sync vm job fence idle (some j) =
    finish vm false (grab_reserved k p m sync vm job fence j)
grab_for k p m sync vm job fence idle none =
    finish vm true (grab_listed k p m sync vm job fence idle)

-- What `gsgpu_vmid_grab` makes of the result of `gsgpu_vmid_grab_idle`.
pub go_on : Kernel → Place → Space → Job → ℕ → Idle → Status × Ids × Sync × Job
unfolding grab_for
go_on k p vm job fence (err e, m, sync, idle) = (err e, m, sync, job)
go_on k p vm job fence (ok, m, sync, none) = (ok, m, sync, job)
go_on k p vm job fence (ok, m, sync, some i) = grab_for k p m sync vm job fence i vm.reserved_vmid

-- `gsgpu_vmid_grab`.
unfoldable pub grab : Kernel → Place → Ids → Sync → Space → Job → ℕ → Status × Ids × Sync × Job
unfolding grab_idle go_on
grab k p m sync vm job fence = go_on k p vm job fence (grab_idle k p m sync)
