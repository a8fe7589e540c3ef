-- ===== src/Vmid/Choice.antt =====
-- The VMID that a job gets: it is free of the work of other address spaces.
use loongson_gsgpu_dkms_modu.Base.{
  ℕ, ◌≡◌, ◌≢◌, refl, sym, ap, ◌∙◌, subst, ◌⊎◌, inl, inr, Bool, true, false, not, List, [], ◌∷◌,
  Option, none, some, ◌==◌, ◌||◌, if◌then◌else◌, All, Bool-cases, Option-cases, is_some, Status, ok,
  err, arith,
}
use loongson_gsgpu_dkms_modu.Sync.{Fences, Sync, peek_fence}
use loongson_gsgpu_dkms_modu.Vmid.{
  Slot, Ids, Space, Job, Kernel, Place, Grabbed, put_slot, wait_on, unflushed, reserved_updates,
  has_updates, later_updates, is_stale, claimed, claim, flush_reserved, grab_reserved, find_used,
  use_again, use_idle, use_found, grab_listed,
}
use loongson_gsgpu_dkms_modu.Vmid.Steps.{IsIdle, peek-IsIdle, peek-waits, put_self}

-- The VMID belongs to the address space and to its page directory.
abbrev pub IsOwn : Space → Job → Slot → Type 0
IsOwn vm job v = (v.owner ≡ vm.owner) × (v.pd_gpu_addr ≡ job.vm_pd_addr)

-- No update of page tables that the job depends on is later than the last one that the VMID has flushed.
abbrev pub IsSeen : Fences → Option ℕ → Option ℕ → Type 0
IsSeen w none flushed = Unit {0}
IsSeen w (some u) none = ⊥
IsSeen w (some u) (some f) = w.is_later u f ≡ false

-- A job can use the VMID with no flush.
abbrev pub IsFresh : Fences → Place → Space → Job → Sync → Slot → Type 0
IsFresh w p vm job sync v =
    IsOwn vm job v × (unflushed w p v ≡ false) × IsSeen w sync.last_vm_update v.flushed_updates

-- Whatever is done, the VMIDs keep their owners.
abbrev pub KeepOwners : (ℕ → Slot) → (ℕ → Slot) → Type 0
KeepOwners ids ids' = (j : ℕ) → (ids' j).owner ≡ (ids j).owner

-- The job waits for a fence that is not signaled.
abbrev pub Waits : Kernel → Place → Sync → Sync → Status → Type 0
Waits k p sync sync' r = (f : ℕ) × (k.fences.signaled f ≡ false) × (wait_on k p sync f ≡ (r, sync'))

put_owners :
    (ids : ℕ → Slot) (i : ℕ) (v : Slot)
    → v.owner ≡ (ids i).owner
    → KeepOwners ids (put_slot ids i v)
unfolding put_slot
put_owners ids i v e j = elim (Bool-cases (j == i)) [
  | inl y ↦ let same : i ≡ j = ground arith in rw y (e ∙ ap (λ (n : ℕ). (ids n).owner) same)
  | inr n ↦ rw n refl
]

pub put_others : (ids : ℕ → Slot) (i j : ℕ) (v : Slot) → j ≢ i → put_slot ids i v j ≡ ids j
unfolding put_slot
put_others ids i j v ne = elim (Bool-cases (j == i)) [
  | inl y ↦ absurd (ne (ground arith))
  | inr n ↦ rw n refl
]

-- The tests for updates that are not flushed say what they mean.
IsSeen-of_reserved :
    (w : Fences) (updates flushed : Option ℕ)
    → is_some (reserved_updates w updates flushed) ≡ false
    → IsSeen w updates flushed
IsSeen-of_reserved w none flushed h = tt
IsSeen-of_reserved w (some u) none h = cc
IsSeen-of_reserved w (some u) (some f) h = ground arith

IsSeen-of_news :
    (w : Fences) (updates flushed : Option ℕ)
    → has_updates w updates flushed ≡ false
    → IsSeen w updates flushed
IsSeen-of_news w none flushed h = tt
IsSeen-of_news w (some u) none h = cc
IsSeen-of_news w (some u) (some f) h = h

or_false_parts : (a b : Bool) → (a || b) ≡ false → (a ≡ false) × (b ≡ false)
or_false_parts true b h = cc
or_false_parts false b h = (refl, h)

true_of_not : (b : Bool) → not b ≡ false → b ≡ true
true_of_not true h = refl
true_of_not false h = cc

fresh_of_test :
    (w : Fences) (p : Place) (vm : Space) (job : Job) (sync : Sync) (v : Slot)
    → is_stale w p vm job v (reserved_updates w sync.last_vm_update v.flushed_updates) ≡ false
    → IsFresh w p vm job sync v
fresh_of_test w p vm job sync v h =
    let updates = reserved_updates w sync.last_vm_update v.flushed_updates in
    let own =
      or_false_parts (not (v.owner == vm.owner))
        (not (job.vm_pd_addr == v.pd_gpu_addr) || (is_some updates || unflushed w p v)) h in
    let pd =
      or_false_parts (not (job.vm_pd_addr == v.pd_gpu_addr)) (is_some updates || unflushed w p v)
        own.1 in
    let rest = or_false_parts (is_some updates) (unflushed w p v) pd.1 in
    let same_owner = true_of_not (v.owner == vm.owner) own.0 in
    let same_pd = true_of_not (job.vm_pd_addr == v.pd_gpu_addr) pd.0 in
    (
      (ground arith, ground arith),
      rest.1,
      IsSeen-of_reserved w sync.last_vm_update v.flushed_updates rest.0,
    )

find_used_lem :
    (P : ℕ → Type 0) (vm : Space) (job : Job) (ids : ℕ → Slot) (is : List ℕ) (i : ℕ)
    → All P is
    → find_used vm.owner job.vm_pd_addr ids is ≡ some i
    → IsOwn vm job (ids i) × P i
unfolding find_used
find_used_lem P vm job ids [] i all e = cc
find_used_lem P vm job ids (x ∷ xs) i all e =
    elim (Option-cases (find_used vm.owner job.vm_pd_addr ids xs)) [
      | inr (j, q) ↦ find_used_lem P vm job ids xs i all.1 (ground arith)
      | inl q ↦
          let here : (x ≡ i) × ((ids x).owner ≡ vm.owner) × ((ids x).pd_gpu_addr ≡ job.vm_pd_addr) =
            ground arith in
          subst (λ (n : ℕ). IsOwn vm job (ids n) × P n) here.0 ((here.1, here.2), all.0)
    ]

-- `P` is what is known of the VMIDs in the list and of the reserved one.
module _ (P : ℕ → Type 0) where
  -- What VMID `i` is when the submission is among its users.
  pub record IsClaimed (k : Kernel) (p : Place) (vm : Space) (job : Job) (sync : Sync)
      (ids : ℕ → Slot) (fence i : ℕ) (ids' : ℕ → Slot) (job' : Job) : Type 0 where
    pub free : IsIdle k.fences p.idx (ids i) ⊎ IsOwn vm job (ids i)
    pub fresh : job'.vm_needs_flush ≡ false → IsFresh k.fences p vm job sync (ids i)
    pub flush : (ids' i).last_flush ≡ (ids i).last_flush
    pub users : (before : Sync) × (wait_on k p before fence ≡ (ok, (ids' i).active))
    pub listed : P i
    pub addr : job'.vm_pd_addr ≡ job.vm_pd_addr
    pub vmid : job'.vmid ≡ job.vmid

  abbrev pub Chosen : Kernel → Place → Space → Job → Sync → (ℕ → Slot) → ℕ → Grabbed → Type 0
  Chosen k p vm job sync ids fence (err e, m', sync', job', i) =
      (job'.vmid ≡ job.vmid) × KeepOwners ids m'.ids
  Chosen k p vm job sync ids fence (ok, m', sync', job', none) =
      Waits k p sync sync' ok × (job'.vmid ≡ job.vmid) × KeepOwners ids m'.ids
  Chosen k p vm job sync ids fence (ok, m', sync', job', some i) =
      (sync' ≡ sync)
      × IsClaimed k p vm job sync ids fence i m'.ids job'
      × KeepOwners ids m'.ids
      × ((j : ℕ) → j ≢ i → (m'.ids j).pd_gpu_addr ≡ (ids j).pd_gpu_addr)

  -- A claim of a VMID whose entry `v` keeps the owner and the last flush.
  module _ (k : Kernel) (p : Place) (m : Ids) (sync : Sync) (vm : Space) (job failed : Job)
      (fence i : ℕ) (v : Slot) (flushed : Option ℕ) (job' : Job) (owner : v.owner ≡ (m.ids i).owner)
      (flush : v.last_flush ≡ (m.ids i).last_flush)
      (free : IsIdle k.fences p.idx (m.ids i) ⊎ IsOwn vm job (m.ids i))
      (fresh : job'.vm_needs_flush ≡ false → IsFresh k.fences p vm job sync (m.ids i))
      (listed : P i) (addr : job'.vm_pd_addr ≡ job.vm_pd_addr) (vmid : job'.vmid ≡ job.vmid)
      (kept : failed.vmid ≡ job.vmid) where
    claimed-Chosen :
        (r : Status) (active : Sync)
        → wait_on k p v.active fence ≡ (r, active)
        → Chosen k p vm job sync m.ids fence
            (claimed r m sync failed i (record v { active = active }) flushed job')
    unfolding claimed
    claimed-Chosen (err e) active at =
        (kept, put_owners m.ids i (record v { active = active }) owner)
    claimed-Chosen ok active at =
        let v' : Slot = record v { active = active; flushed_updates = flushed } in
        let self = put_self m.ids i v' in
        (
          refl,
          record {
            free = free;
            fresh = fresh;
            flush = ap (λ (x : Slot). x.last_flush) self ∙ flush;
            users = (v.active, at ∙ ap (λ (x : Slot). (ok, x.active)) (sym self));
            listed = listed;
            addr = addr;
            vmid = vmid;
          },
          put_owners m.ids i v' owner,
          λ j ne. ap (λ (x : Slot). x.pd_gpu_addr) (put_others m.ids i j v' ne),
        )

    claim-Chosen :
        Chosen k p vm job sync m.ids fence (claim k p m sync failed fence i v flushed job')
    unfolding claim
    claim-Chosen = claimed-Chosen (wait_on k p v.active fence).0 (wait_on k p v.active fence).1 refl

  module _ (k : Kernel) (p : Place) (m : Ids) (sync : Sync) (vm : Space) (job : Job)
      (fence : ℕ) where
    waits-Chosen :
        (r : Status) (sync' : Sync) (f : ℕ) (ids : ℕ → Slot)
        → k.fences.signaled f ≡ false
        → wait_on k p sync f ≡ (r, sync')
        → KeepOwners m.ids ids
        → Chosen k p vm job sync m.ids fence (r, record m { ids = ids }, sync', job, none)
    waits-Chosen ok sync' f ids un at owners = ((f, un, at), refl, owners)
    waits-Chosen (err e) sync' f ids un at owners = (refl, owners)

    flush_reserved-Chosen :
        (i : ℕ) (updates : Option ℕ) (tmp : Option ℕ) (active : Sync)
        → P i
        → peek_fence k.fences (some p.idx) (m.ids i).active ≡ (tmp, active)
        → Chosen k p vm job sync m.ids fence (
            flush_reserved k p m sync job fence i
              (record (m.ids i) { pd_gpu_addr = 0; active = active })
              updates
              tmp)
    unfolding flush_reserved
    flush_reserved-Chosen i updates (some f) active listed at =
        waits-Chosen (wait_on k p sync f).0 (wait_on k p sync f).1 f
          (put_slot m.ids i (record (m.ids i) { pd_gpu_addr = 0; active = active }))
          (peek-waits k.fences p.idx (m.ids i) f (ap (λ (x : Option ℕ × Sync). x.0) at)) refl
          (put_owners m.ids i (record (m.ids i) { pd_gpu_addr = 0; active = active }) refl)
    flush_reserved-Chosen i updates none active listed at =
        claim-Chosen k p m sync vm job job fence i
          (record (m.ids i) { pd_gpu_addr = 0; active = active })
          (later_updates updates (m.ids i).flushed_updates) (record job { vm_needs_flush = true })
          refl refl
          (inl (peek-IsIdle k.fences p.idx (m.ids i) (ap (λ (x : Option ℕ × Sync). x.0) at)))
          (λ e. cc) listed refl refl refl

    pub grab_reserved-Chosen :
        (i : ℕ) → P i → Chosen k p vm job sync m.ids fence (grab_reserved k p m sync vm job fence i)
    unfolding grab_reserved
    grab_reserved-Chosen i listed =
        let v = m.ids i in
        let updates = reserved_updates k.fences sync.last_vm_update v.flushed_updates in
        elim (Bool-cases (is_stale k.fences p vm job v updates)) [
          | inl y ↦ rw y (
              flush_reserved-Chosen i updates (peek_fence k.fences (some p.idx) v.active).0
                (peek_fence k.fences (some p.idx) v.active).1 listed refl)
          | inr n ↦ rw n (
              let fresh = fresh_of_test k.fences p vm job sync v n in
              claim-Chosen k p m sync vm job job fence i v (later_updates updates v.flushed_updates)
                (record job { vm_needs_flush = vm.use_cpu_for_update }) refl refl (inr fresh.0)
                (λ e. fresh) listed refl refl refl)
        ]

    use_idle-Chosen :
        (i : ℕ)
        → P i
        → IsIdle k.fences p.idx (m.ids i)
        → Chosen k p vm job sync m.ids fence (use_idle k p m sync vm job fence i)
    unfolding use_idle
    use_idle-Chosen i listed idle =
        claim-Chosen k p m sync vm job (record job { vm_needs_flush = vm.use_cpu_for_update }) fence
          i (m.ids i) sync.last_vm_update (record job { vm_needs_flush = true }) refl refl
          (inl idle) (λ e. cc) listed refl refl refl

    use_again-Chosen :
        (i : ℕ)
        → P i
        → IsOwn vm job (m.ids i)
        → Chosen k p vm job sync m.ids fence (use_again k p m sync vm job fence i)
    unfolding use_again
    use_again-Chosen i listed own =
        let v = m.ids i in
        let news = has_updates k.fences sync.last_vm_update v.flushed_updates in
        let needs = vm.use_cpu_for_update || (unflushed k.fences p v || news) in
        claim-Chosen k p m sync vm job (record job { vm_needs_flush = vm.use_cpu_for_update }) fence
          i v (if news then sync.last_vm_update else v.flushed_updates)
          (record job { vm_needs_flush = vm.use_cpu_for_update || needs }) refl refl (inr own)
          (λ e.
            let outer = or_false_parts vm.use_cpu_for_update needs e in
            let inner =
              or_false_parts vm.use_cpu_for_update (unflushed k.fences p v || news) outer.1 in
            let tests = or_false_parts (unflushed k.fences p v) news inner.1 in
            (own, tests.0, IsSeen-of_news k.fences sync.last_vm_update v.flushed_updates tests.1))
          listed refl refl refl

    use_found-Chosen :
        (idle : ℕ) (found : Option ℕ)
        → P idle
        → IsIdle k.fences p.idx (m.ids idle)
        → ((i : ℕ) → found ≡ some i → IsOwn vm job (m.ids i) × P i)
        → Chosen k p vm job sync m.ids fence (use_found k p m sync vm job fence idle found)
    unfolding use_found
    use_found-Chosen idle none listed free own = use_idle-Chosen idle listed free
    use_found-Chosen idle (some i) listed free own =
        let h = own i refl in use_again-Chosen i h.1 h.0

    pub grab_listed-Chosen :
        (i : ℕ)
        → All P m.ids_lru
        → P i
        → IsIdle k.fences p.idx (m.ids i)
        → Chosen k p vm job sync m.ids fence (grab_listed k p m sync vm job fence i)
    unfolding grab_listed
    grab_listed-Chosen i all listed idle =
        use_found-Chosen i (find_used vm.owner job.vm_pd_addr m.ids m.ids_lru) listed idle
          (λ j. find_used_lem P vm job m.ids m.ids_lru j all)
