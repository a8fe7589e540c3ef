-- ===== src/Vmid/Outcome.antt =====
-- What becomes of a request for a VMID.
use loongson_gsgpu_dkms_modu.Base.{
  ℕ, u32_mod, ◌%◌, ◌+◌, ◌≡◌, ◌≢◌, refl, sym, ap, ◌∙◌, subst, ◌⊎◌, inl, inr, Bool, true, false, List,
  Option, none, some, ◌==◌, if◌then◌else◌, All, Bool-cases, Status, ok, err,
}
use loongson_gsgpu_dkms_modu.Sync.{Sync}
use loongson_gsgpu_dkms_modu.Vmid.{
  Slot, Ids, Space, Job, Kernel, Place, Idle, Grabbed, wait_on, find_idle, wait_any, idle_or_wait,
  look, grab_idle, unflushed_by, grab_reserved, grab_listed, wait_array, wait_or_look, grab_for,
  move_tail, assign, finish, go_on, grab,
}
use loongson_gsgpu_dkms_modu.Vmid.Steps.{
  IsIdle, Same, Found, find_idle-Found, put_self, find_idle_listed,
}
use loongson_gsgpu_dkms_modu.Vmid.Choice.{
  IsOwn, IsSeen, IsFresh, KeepOwners, Waits, Chosen, put_others, grab_listed-Chosen,
  grab_reserved-Chosen,
}

-- `P` is what is known of the VMIDs in the list and of the reserved one.
module _ (P : ℕ → Type 0) where
  -- What becomes of a request for a VMID, from `ids` on.
  abbrev pub Granted :
      Kernel → Place → Space → Job → Sync → (ℕ → Slot) → ℕ → Ids → Sync → Job → Type 0
  Granted k p vm job sync ids fence m' sync' job' =
      (job'.pasid ≡ vm.pasid)
      × (sync' ≡ sync)
      × P job'.vmid
      × ((m'.ids job'.vmid).owner ≡ vm.owner)
      × ((m'.ids job'.vmid).pd_gpu_addr ≡ job.vm_pd_addr)
      × (IsIdle k.fences p.idx (ids job'.vmid) ⊎ IsOwn vm job (ids job'.vmid))
      × ((job'.vm_needs_flush ≡ true) × ((m'.ids job'.vmid).last_flush ≡ none)
          ⊎ (job'.vm_needs_flush ≡ false)
            × ((m'.ids job'.vmid).last_flush ≡ (ids job'.vmid).last_flush)
            × IsFresh k.fences p vm job sync (ids job'.vmid))
      × ((before : Sync) × (wait_on k p before fence ≡ (ok, (m'.ids job'.vmid).active)))
      × ((j : ℕ)
          → j ≢ job'.vmid
          → ((m'.ids j).owner ≡ (ids j).owner) × ((m'.ids j).pd_gpu_addr ≡ (ids j).pd_gpu_addr))

  abbrev pub Outcome :
      Kernel → Place → Space → Job → Sync → (ℕ → Slot) → ℕ → Status × Ids × Sync × Job → Type 0
  Outcome k p vm job sync ids fence (err e, m', sync', job') =
      (job'.vmid ≡ job.vmid) × KeepOwners ids m'.ids
  Outcome k p vm job sync ids fence (ok, m', sync', job') =
      (Waits k p sync sync' ok × (job'.vmid ≡ job.vmid) × KeepOwners ids m'.ids)
      ⊎ Granted k p vm job sync ids fence m' sync' job'

  assign-Granted :
      (k : Kernel) (p : Place) (vm : Space) (job : Job) (sync : Sync) (ids : ℕ → Slot) (fence : ℕ)
      (m : Ids) (sync' : Sync) (job' : Job) (i : ℕ)
      → Chosen P k p vm job sync ids fence (ok, m, sync', job', some i)
      → Outcome k p vm job sync ids fence (assign m sync' vm job' i)
  unfolding assign
  assign-Granted k p vm job sync ids fence m sync' job' i (same, c, owners, others) =
      let v = m.ids i in
      let v' : Slot = record v {
        pd_gpu_addr = job'.vm_pd_addr;
        owner = vm.owner;
        last_flush = if job'.vm_needs_flush then none else v.last_flush;
      } in
      let self = put_self m.ids i v' in
      let flush = ap (λ (x : Slot). x.last_flush) self in
      let after = c.users in
      inr (
        refl,
        same,
        c.listed,
        ap (λ (x : Slot). x.owner) self,
        ap (λ (x : Slot). x.pd_gpu_addr) self ∙ c.addr,
        c.free,
        elim (Bool-cases job'.vm_needs_flush) [
          | inl y ↦ inl (y, flush ∙ ap (λ (b : Bool). if b then none else v.last_flush) y)
          | inr n ↦ inr (
            n,
            flush ∙ (ap (λ (b : Bool). if b then none else v.last_flush) n ∙ c.flush),
            c.fresh n,
          )
        ],
        (after.0, after.1 ∙ ap (λ (x : Slot). (ok, x.active)) (sym self)),
        λ j ne. (
          ap (λ (x : Slot). x.owner) (put_others m.ids i j v' ne) ∙ owners j,
          ap (λ (x : Slot). x.pd_gpu_addr) (put_others m.ids i j v' ne) ∙ others j ne,
        ),
      )

  finish-Outcome :
      (k : Kernel) (p : Place) (vm : Space) (job : Job) (sync : Sync) (ids : ℕ → Slot) (fence : ℕ)
      (listed : Bool) (g : Grabbed)
      → Chosen P k p vm job sync ids fence g
      → Outcome k p vm job sync ids fence (finish vm listed g)
  unfolding finish
  finish-Outcome k p vm job sync ids fence listed (err e, m, sync', job', i) h = h
  finish-Outcome k p vm job sync ids fence listed (ok, m, sync', job', none) h = inl h
  finish-Outcome k p vm job sync ids fence true (ok, m, sync', job', some i) h =
      assign-Granted k p vm job sync ids fence (record m { ids_lru = move_tail i m.ids_lru }) sync'
        job' i h
  finish-Outcome k p vm job sync ids fence false (ok, m, sync', job', some i) h =
      assign-Granted k p vm job sync ids fence m sync' job' i h

  grab_for-Outcome :
      (k : Kernel) (p : Place) (vm : Space) (job : Job) (fence : ℕ) (m : Ids) (sync : Sync) (i : ℕ)
      (reserved : Option ℕ)
      → All P m.ids_lru
      → ((j : ℕ) → reserved ≡ some j → P j)
      → P i
      → IsIdle k.fences p.idx (m.ids i)
      → Outcome k p vm job sync m.ids fence (grab_for k p m sync vm job fence i reserved)
  unfolding grab_for
  grab_for-Outcome k p vm job fence m sync i (some j) all own listed idle =
      finish-Outcome k p vm job sync m.ids fence false (grab_reserved k p m sync vm job fence j)
        (grab_reserved-Chosen P k p m sync vm job fence j (own j refl))
  grab_for-Outcome k p vm job fence m sync i none all own listed idle =
      finish-Outcome k p vm job sync m.ids fence true (grab_listed k p m sync vm job fence i)
        (grab_listed-Chosen P k p m sync vm job fence i all listed idle)

  -- A look at the sets of users changes nothing of this.
  transfer :
      (k : Kernel) (p : Place) (vm : Space) (job : Job) (sync : Sync) (ids ids' : ℕ → Slot)
      (fence : ℕ)
      → ((j : ℕ) → Same k.fences p.idx (ids j) (ids' j))
      → (r : Status × Ids × Sync × Job) → Outcome k p vm job sync ids' fence r
      → Outcome k p vm job sync ids fence r
  transfer k p vm job sync ids ids' fence same (err e, m, sync', job') (v, owners) =
      (v, λ j. owners j ∙ (same j).owner)
  transfer k p vm job sync ids ids' fence same (ok, m, sync', job') (inl (waits, v, owners)) =
      inl (waits, v, λ j. owners j ∙ (same j).owner)
  transfer k p vm job sync ids ids' fence same (ok, m, sync', job')
        (inr (pasid, s, listed, owner, pd, free, flush, users, others)) =
      let at = same job'.vmid in
      let own : IsOwn vm job (ids' job'.vmid) → IsOwn vm job (ids job'.vmid) =
        λ h. (sym at.owner ∙ h.0, sym at.pd ∙ h.1) in
      inr (
        pasid,
        s,
        listed,
        owner,
        pd,
        elim free [ inl idle ↦ inl (at.busy idle) | inr h ↦ inr (own h) ],
        elim flush [
          | inl h ↦ inl h
          | inr (n, kept, fresh) ↦ inr (
            n,
            kept ∙ at.flush,
            (
              own fresh.0,
              subst (λ (f : Option ℕ). unflushed_by k.fences p f ≡ false) at.flush fresh.1,
              subst (λ (f : Option ℕ). IsSeen k.fences sync.last_vm_update f) at.updates fresh.2,
            ),
          )
        ],
        users,
        λ j ne. let o = others j ne in (o.0 ∙ (same j).owner, o.1 ∙ (same j).pd),
      )

  module _ (k : Kernel) (p : Place) (m : Ids) (sync : Sync) (vm : Space) (job : Job) (fence : ℕ)
      (array : (fs : List ℕ) (context seq a : ℕ)
        → All (λ f. k.fences.signaled f ≡ false) fs
        → k.array fs context seq ≡ some a
        → k.fences.signaled a ≡ false)
      (all : All P m.ids_lru) (own : (j : ℕ) → vm.reserved_vmid ≡ some j → P j) where
    -- What `gsgpu_vmid_grab_idle` gives.
    abbrev Looked : Idle → Type 0
    Looked (err e, m', sync', i) = KeepOwners m.ids m'.ids
    Looked (ok, m', sync', none) = Waits k p sync sync' ok × KeepOwners m.ids m'.ids
    Looked (ok, m', sync', some i) =
        (sync' ≡ sync)
        × (m'.ids_lru ≡ m.ids_lru)
        × P i
        × IsIdle k.fences p.idx (m'.ids i)
        × ((j : ℕ) → Same k.fences p.idx (m.ids j) (m'.ids j))

    wait-Looked :
        (r : Status) (sync' : Sync) (f : ℕ) (m' : Ids)
        → k.fences.signaled f ≡ false
        → wait_on k p sync f ≡ (r, sync')
        → KeepOwners m.ids m'.ids
        → Looked (r, m', sync', none)
    wait-Looked ok sync' f m' un at owners = ((f, un, at), owners)
    wait-Looked (err e) sync' f m' un at owners = owners

    wait_array-Looked :
        (m' : Ids) (a : Option ℕ)
        → KeepOwners m.ids m'.ids
        → ((f : ℕ) → a ≡ some f → k.fences.signaled f ≡ false)
        → Looked (wait_array k p m' sync a)
    unfolding wait_array
    wait_array-Looked m' none owners un = owners
    wait_array-Looked m' (some a) owners un =
        wait-Looked (wait_on k p sync a).0 (wait_on k p sync a).1 a
          (record m' { vmid_wait = λ q. if q == p.idx then some a else m'.vmid_wait q }) (un a refl)
          refl owners

    walk-Looked :
        (r : Option ℕ × List ℕ × (ℕ → Slot))
        → Found k.fences p.idx m.ids r
        → ((i : ℕ) → r.0 ≡ some i → P i)
        → Looked (idle_or_wait k p m sync r)
    unfolding idle_or_wait wait_any
    walk-Looked (some i, fs, ids) h listed = (refl, refl, listed i refl, h.0, h.1)
    walk-Looked (none, fs, ids) h listed =
        let seq = (m.seqno p.idx + 1) % u32_mod in
        wait_array-Looked
          (record m { ids = ids; seqno = λ r. if r == p.idx then seq else m.seqno r })
          (k.array fs (p.vm_fence_context + p.idx) seq) (λ j. (h.1 j).owner)
          (λ f. array fs (p.vm_fence_context + p.idx) seq f h.0)

    look-Looked : Looked (look k p m sync)
    unfolding look
    look-Looked = elim (Bool-cases k.memory) [
      | inl y ↦ rw y (
          walk-Looked (find_idle k.fences p.idx m.ids m.ids_lru)
            (find_idle-Found k.fences p.idx m.ids m.ids_lru)
            (λ i. find_idle_listed P k.fences p.idx m.ids m.ids_lru i all))
      | inr n ↦ rw n (λ j. refl)
    ]

    wait_or_look-Looked : (f : Option ℕ) → Looked (wait_or_look k p m sync f)
    unfolding wait_or_look
    wait_or_look-Looked none = look-Looked
    wait_or_look-Looked (some f) = elim (Bool-cases (k.fences.signaled f)) [
      | inl y ↦ rw y look-Looked
      | inr n ↦
          rw n (wait-Looked (wait_on k p sync f).0 (wait_on k p sync f).1 f m n refl (λ j. refl))
    ]

    go_on-Outcome :
        (r : Idle) → Looked r → Outcome k p vm job sync m.ids fence (go_on k p vm job fence r)
    unfolding go_on
    go_on-Outcome (err e, m', sync', i) h = (refl, h)
    go_on-Outcome (ok, m', sync', none) h = inl (h.0, refl, h.1)
    go_on-Outcome (ok, m', sync', some i) h =
        transfer k p vm job sync m.ids m'.ids fence h.4
          (grab_for k p m' sync' vm job fence i vm.reserved_vmid)
          (subst
            (λ (s : Sync).
              Outcome k p vm job s m'.ids fence
                (grab_for k p m' sync' vm job fence i vm.reserved_vmid))
            h.0
            (grab_for-Outcome k p vm job fence m' sync' i vm.reserved_vmid
              (subst (All P) (sym h.1) all) own h.2 h.3))

    pub grab_outcome : Outcome k p vm job sync m.ids fence (grab k p m sync vm job fence)
    unfolding grab grab_idle
    grab_outcome = go_on-Outcome (grab_idle k p m sync) (wait_or_look-Looked (m.vmid_wait p.idx))
