-- ===== src/Job/Dependency.antt =====
-- The loop of `gsgpu_job_dependency` ends.
use loongson_gsgpu_dkms_modu.Base.{
  ℕ, ◌<◌, ◌≡◌, refl, sym, ap, ◌∙◌, subst, ◌⊎◌, inl, inr, Bool, true, false, List, [], ◌∷◌, ◌++◌,
  Option, none, some, ◌==◌, All, All-split, append_nil, get_or, zero, suc, Option-cases, Status, ok,
  err, arith,
}
use loongson_gsgpu_dkms_modu.Sync.{Fences, Entry, Sync, get_fence}
use loongson_gsgpu_dkms_modu.Sync.Laws.{
  IsTable, Added, lookup, merged, sync_fence_outcome, lookup-All, lookup_none,
}
use loongson_gsgpu_dkms_modu.Sync.Peek.{concat}
use loongson_gsgpu_dkms_modu.Sync.Get.{Taken, get_fence_outcome}
use loongson_gsgpu_dkms_modu.Vmid.{Ids, Space, Job, Kernel, Place, wait_on, grab}
use loongson_gsgpu_dkms_modu.Vmid.Outcome.{Outcome, grab_outcome}
use loongson_gsgpu_dkms_modu.Job.{Answer, Sets, turn, retry, with_first, dependency}

-- The buckets and the entries in them.
All-bucket :
    (P : Entry → Type 0) (bs : List (List Entry)) (i : ℕ)
    → All P (concat bs)
    → All P (get_or bs i [])
All-bucket P [] i h = tt
All-bucket P (b ∷ bs) zero h = (All-split P b (concat bs) h).0
All-bucket P (b ∷ bs) (suc i) h = All-bucket P bs i (All-split P b (concat bs) h).1

bucket_nil : (bs : List (List Entry)) (i : ℕ) → concat bs ≡ [] → get_or bs i [] ≡ []
bucket_nil [] i h = refl
bucket_nil (b ∷ bs) zero h = (append_nil b (concat bs) h).0
bucket_nil (b ∷ bs) (suc i) h = bucket_nil bs i (append_nil b (concat bs) h).1

-- What taking an entry gives.
Taken-none :
    (w : Fences) (es : List Entry) (r : Option Entry) (left : List Entry)
    → Taken w es (r, left)
    → r ≡ none
    → All (λ e. w.signaled e.fence ≡ true) es × (left ≡ [])
Taken-none w es none left h e = h
Taken-none w es (some x) left h e = cc

Taken-some :
    (w : Fences) (es : List Entry) (r : Option Entry) (left : List Entry) (x : Entry)
    → Taken w es (r, left)
    → r ≡ some x
    → w.signaled x.fence ≡ false
Taken-some w es none left x h e = cc
Taken-some w es (some y) left x (pre, at, all, un) e =
    let same : y ≡ x = cc in subst (λ (z : Entry). w.signaled z.fence ≡ false) same un

module _ (w : Fences) (s : Sync) where
  gives_none :
      (get_fence w s).0 ≡ none
      → All (λ e. w.signaled e.fence ≡ true) (concat s.buckets)
        × (concat (get_fence w s).1.buckets ≡ [])
  gives_none =
      Taken-none w (concat s.buckets) (get_fence w s).0 (concat (get_fence w s).1.buckets)
        (get_fence_outcome w s)

  gives_some : (e : Entry) → (get_fence w s).0 ≡ some e → w.signaled e.fence ≡ false
  gives_some e =
      Taken-some w (concat s.buckets) (get_fence w s).0 (concat (get_fence w s).1.buckets) e
        (get_fence_outcome w s)

added_ok :
    (w : Fences) (s s' : Sync) (f : ℕ) (mem : Bool)
    → Added w s f false mem (ok, s')
    → lookup w (w.context f) s' ≡ some (merged w (lookup w (w.context f) s) f false)
added_ok w s s' f mem (table, inl h) = h.1
added_ok w s s' f mem (table, inr h) = cc

-- A set that a fence was added to gives a fence that is not signaled, if that one is not and there was
-- nothing else.
gives_added :
    (k : Kernel) (p : Place) (s s' : Sync) (f : ℕ)
    → IsTable k.fences s
    → concat s.buckets ≡ []
    → k.fences.signaled f ≡ false
    → wait_on k p s f ≡ (ok, s')
    → (e : Entry) × ((get_fence k.fences s').0 ≡ some e) × (k.fences.signaled e.fence ≡ false)
gives_added k p s s' f table empty un at =
    let w = k.fences in
    let was = lookup_none w (w.context f) s (λ i. bucket_nil s.buckets i empty) in
    let new : Entry = record { fence = f; explicit = false } in
    let is : lookup w (w.context f) s' ≡ some new =
      added_ok w s s' f (k.mem f) (
        subst (Added w s f false (k.mem f)) at
          (sync_fence_outcome w p.dev s f false (k.mem f) table).0)
      ∙ ap (λ (o : Option Entry). some (merged w o f false)) was in
    elim (Option-cases (get_fence w s').0) [
      | inr (e, q) ↦ (e, q, gives_some w s' e q)
      | inl q ↦
          let over =
            lookup-All (λ e. w.signaled e.fence ≡ true) w (w.context f) s' new
              (λ i. All-bucket (λ e. w.signaled e.fence ≡ true) s'.buckets i (gives_none w s' q).0)
              is in
          absurd (ground arith)
    ]

Taken-nil : (w : Fences) (r : Option Entry) (left : List Entry) → Taken w [] (r, left) → r ≡ none
Taken-nil w none left h = refl
Taken-nil w (some x) left (pre, at, all, un) = absurd (nil_not pre at)
  where
    nil_not : (pre : List Entry) → [] ≡ pre ++ (x ∷ left) → ⊥
    nil_not [] e = cc
    nil_not (y ∷ ys) e = cc

empty_gives_none : (w : Fences) (s : Sync) → concat s.buckets ≡ [] → (get_fence w s).0 ≡ none
empty_gives_none w s empty = Taken-nil w (get_fence w s).0 (concat (get_fence w s).1.buckets) (
    subst (λ (es : List Entry). Taken w es ((get_fence w s).0, concat (get_fence w s).1.buckets))
      empty (get_fence_outcome w s))

-- A job that has a VMID asks for no more.
retry_done :
    (ks : List Kernel) (p : Place) (vm : Space) (finished : ℕ) (m : Ids) (sync : Sync) (job : Job)
    → 0 < job.vmid
    → retry ks p vm finished m sync job ≡ some (none, m, sync, job)
unfolding retry
retry_done [] p vm finished m sync job h =
    let more : (job.vmid == 0) ≡ false = ground arith in rw more refl
retry_done (k ∷ ks) p vm finished m sync job h =
    let more : (job.vmid == 0) ≡ false = ground arith in rw more refl

-- What the scheduler is told: a fence to wait for that is not signaled, or nothing, and then the job has a
-- VMID that belongs to its address space.
abbrev pub Answered : Fences → Space → Job → Answer → Type 0
Answered w vm job none = ⊥
Answered w vm job (some (some f, m', sync', job')) = w.signaled f ≡ false
Answered w vm job (some (none, m', sync', job')) =
    (0 < job'.vmid)
    × ((m'.ids job'.vmid).owner ≡ vm.owner)
    × ((m'.ids job'.vmid).pd_gpu_addr ≡ job.vm_pd_addr)

turn-some :
    (w : Fences) (vm : Space) (job : Job) (o : Option Entry) (e : Entry) (m' : Ids) (sync' : Sync)
    (job' : Job) (rest : Answer)
    → o ≡ some e
    → w.signaled e.fence ≡ false
    → Answered w vm job (turn o m' sync' job' rest)
unfolding turn
turn-some w vm job none e m' sync' job' rest q un = cc
turn-some w vm job (some x) e m' sync' job' rest q un =
    let same : e ≡ x = cc in subst (λ (z : Entry). w.signaled z.fence ≡ false) same un

turn-none :
    (w : Fences) (vm : Space) (job : Job) (o : Option Entry) (m' : Ids) (sync' : Sync) (job' : Job)
    (rest : Answer)
    → o ≡ none
    → Answered w vm job rest
    → Answered w vm job (turn o m' sync' job' rest)
unfolding turn
turn-none w vm job none m' sync' job' rest q h = h
turn-none w vm job (some x) m' sync' job' rest q h = cc

module _ (k : Kernel) (p : Place) (m : Ids) (sync : Sync) (vm : Space) (job : Job) (finished : ℕ)
    (table : IsTable k.fences sync) (empty : concat sync.buckets ≡ []) (ks : List Kernel) where
  -- A turn whose request for a VMID succeeds.
  turn-Answered :
      (r : Status × Ids × Sync × Job)
      → r.0 ≡ ok
      → Outcome (λ i. 0 < i) k p vm job sync m.ids finished r
      → Answered k.fences vm job (
          turn
            (get_fence k.fences r.2).0
            r.1
            (get_fence k.fences r.2).1
            r.3
            (retry ks p vm finished r.1 (get_fence k.fences r.2).1 r.3))
  turn-Answered (err e, m', sync', job') good h = cc
  turn-Answered (ok, m', sync', job') good (inl ((f, un, at), same, owners)) =
      let (e, q, unsignaled) = gives_added k p sync sync' f table empty un at in
      turn-some k.fences vm job (get_fence k.fences sync').0 e m' (get_fence k.fences sync').1 job'
        (retry ks p vm finished m' (get_fence k.fences sync').1 job') q unsignaled
  turn-Answered (ok, m', sync', job') good
        (inr (pasid, same, positive, owner, pd, free, flush, users, others)) =
      let sync'' = (get_fence k.fences sync').1 in
      turn-none k.fences vm job (get_fence k.fences sync').0 m' sync'' job'
        (retry ks p vm finished m' sync'' job')
        (empty_gives_none k.fences sync' (ap (λ (s : Sync). concat s.buckets) same ∙ empty))
        (subst (Answered k.fences vm job)
          (sym (retry_done ks p vm finished m' sync'' job' positive)) (positive, owner, pd))

  retry-Answered :
      ((fs : List ℕ) (context seq a : ℕ)
        → All (λ f. k.fences.signaled f ≡ false) fs
        → k.array fs context seq ≡ some a
        → k.fences.signaled a ≡ false)
      → All (λ i. 0 < i) m.ids_lru
      → ((j : ℕ) → vm.reserved_vmid ≡ some j → 0 < j)
      → job.vmid ≡ 0
      → (grab k p m sync vm job finished).0 ≡ ok
      → Answered k.fences vm job (retry (k ∷ ks) p vm finished m sync job)
  unfolding retry
  retry-Answered array all own fresh good =
      let more : (job.vmid == 0) ≡ true = ground arith in
      rw more (
        turn-Answered (grab k p m sync vm job finished) good
          (grab_outcome (λ i. 0 < i) k p m sync vm job finished array all own))

-- The answer as the scheduler gets it, of the moments `w` and `w'`.
abbrev pub Told : Fences → Fences → Space → Job → Option (Option ℕ × Ids × Sets × Job) → Type 0
Told w w' vm job none = ⊥
Told w w' vm job (some (some f, m', s', job')) = (w.signaled f ≡ false) ⊎ (w'.signaled f ≡ false)
Told w w' vm job (some (none, m', s', job')) =
    (0 < job'.vmid)
    × ((m'.ids job'.vmid).owner ≡ vm.owner)
    × ((m'.ids job'.vmid).pd_gpu_addr ≡ job.vm_pd_addr)

Told-later :
    (w w' : Fences) (vm : Space) (job : Job) (s : Sets) (a : Answer)
    → Answered w' vm job a
    → Told w w' vm job (elim a [
      | none ↦ none
      | some (f, m', sync', job') ↦ some (f, m', record s { sync = sync' }, job')
    ])
Told-later w w' vm job s none h = h
Told-later w w' vm job s (some (some f, m', sync', job')) h = inr h
Told-later w w' vm job s (some (none, m', sync', job')) h = h

with_first-Told :
    (k : Kernel) (w : Fences) (ks : List Kernel) (p : Place) (optimized : ℕ → Bool) (vm : Space)
    (finished : ℕ) (m : Ids) (s : Sets) (job : Job) (o : Option Entry)
    → ((e : Entry) → o ≡ some e → k.fences.signaled e.fence ≡ false)
    → (o ≡ none → Answered w vm job (retry ks p vm finished m s.sync job))
    → Told k.fences w vm job (with_first k ks p optimized (some vm) finished m s job o)
unfolding with_first
with_first-Told k w ks p optimized vm finished m s job none un later =
    Told-later k.fences w vm job s (retry ks p vm finished m s.sync job) (later refl)
with_first-Told k w ks p optimized vm finished m s job (some e) un later = inl (un e refl)

-- What `gsgpu_job_dependency` tells the scheduler of a job with an address space and no VMID, where its
-- first request for a VMID, if it makes one, succeeds: the loop ends after that request at the latest, with
-- a fence that is not signaled, or without one, and then the job has a VMID that is not 0 and belongs to its
-- address space and page directory. The hash gives one of the sixteen buckets, the VMIDs of the list and the reserved
-- one are not 0, and an array of fences, none of which is signaled, is not signaled.
pub dependency_ends :
    (k k' : Kernel) (ks : List Kernel) (p : Place) (optimized : ℕ → Bool) (vm : Space)
    (finished : ℕ) (m : Ids) (s : Sets) (job : Job)
    → IsTable k'.fences (get_fence k.fences s.sync).1
    → ((fs : List ℕ) (context seq a : ℕ)
        → All (λ f. k'.fences.signaled f ≡ false) fs
        → k'.array fs context seq ≡ some a
        → k'.fences.signaled a ≡ false)
    → All (λ i. 0 < i) m.ids_lru
    → ((j : ℕ) → vm.reserved_vmid ≡ some j → 0 < j)
    → job.vmid ≡ 0
    → (grab k' p m (get_fence k.fences s.sync).1 vm job finished).0 ≡ ok
    → Told k.fences k'.fences vm job (dependency k (k' ∷ ks) p optimized (some vm) finished m s job)
unfolding dependency
dependency_ends k k' ks p optimized vm finished m s job table array all own fresh good =
    let s' : Sets = record s { sync = (get_fence k.fences s.sync).1 } in
    with_first-Told k k'.fences (k' ∷ ks) p optimized vm finished m s' job
      (get_fence k.fences s.sync).0 (gives_some k.fences s.sync)
      (λ q.
        retry-Answered k' p m s'.sync vm job finished table (gives_none k.fences s.sync q).1 ks
          array all own fresh good)
