-- ===== src/Sync.antt =====
-- gsgpu/gpu/gsgpu_sync.c: the set of fences that a submission waits for, at most one for each fence
-- context, in a hash table of sixteen buckets. Fences are addresses; references are not counted.
pub mod Laws
pub mod Peek
pub mod Get
mod Tests
use loongson_gsgpu_dkms_modu.Base.{
  ℕ, zero, suc, ◌+◌, Bool, true, false, List, [], ◌∷◌, ◌++◌, Option, none, some, ◌==◌, ◌&&◌, ◌||◌,
  if◌then◌else◌, get_or, set, replicate, Status, ok, err, enomem, einval,
}

-- `struct drm_sched_fence`: the ring that its scheduler is part of, that ring's device, the owner, and
-- the fence that signals when the job is scheduled.
pub record Sched : Type 0 where
  pub ring : ℕ
  pub dev : ℕ
  pub owner : ℕ
  pub scheduled : ℕ

-- What the kernel says of fences at one moment: `dma_fence_is_signaled`, the context, which fences
-- belong to a scheduler, `dma_fence_is_later`, and the hash of a context.
pub record Fences : Type 0 where
  pub signaled : ℕ → Bool
  pub context : ℕ → ℕ
  pub sched : ℕ → Option Sched
  pub is_later : ℕ → ℕ → Bool
  pub bucket : ℕ → ℕ

-- `struct gsgpu_sync_entry`.
pub record Entry : Type 0 where
  pub fence : ℕ
  pub explicit : Bool

-- `struct gsgpu_sync`.
pub record Sync : Type 0 where
  pub buckets : List (List Entry)
  pub last_vm_update : Option ℕ

abbrev pub num_buckets : ℕ
num_buckets = 16

-- `gsgpu_sync_create`.
abbrev pub create : Sync
create = record { buckets = replicate num_buckets []; last_vm_update = none }

-- `GSGPU_FENCE_OWNER_UNDEFINED`, `_VM` and `_KFD`, as the numbers behind the pointers.
abbrev pub owner_undefined : ℕ
owner_undefined = 0

abbrev pub owner_vm : ℕ
owner_vm = 1

abbrev pub owner_kfd : ℕ
owner_kfd = 2

-- `gsgpu_sync_same_dev`.
abbrev pub same_dev : Fences → ℕ → ℕ → Bool
same_dev w dev f = elim (w.sched f) [ none ↦ false | some s ↦ s.dev == dev ]

-- `gsgpu_sync_get_owner`.
abbrev pub get_owner : Fences → ℕ → ℕ
get_owner w f = elim (w.sched f) [ none ↦ owner_undefined | some s ↦ s.owner ]

-- `gsgpu_sync_keep_later`.
abbrev pub keep_later : Fences → Option ℕ → ℕ → ℕ
keep_later w none f = f
keep_later w (some k) f = if w.is_later k f then k else f

-- `gsgpu_sync_add_later`, in one bucket. `none`: there is no entry of the context.
pub add_later : Fences → List Entry → ℕ → Bool → Option (List Entry)
add_later w [] f explicit = none
add_later w (e ∷ es) f explicit =
    let rest = add_later w es f explicit in
    if w.context e.fence == w.context f
    then some
        (record e { fence = keep_later w (some e.fence) f; explicit = e.explicit || explicit } ∷ es)
    else elim rest [ none ↦ none | some es' ↦ some (e ∷ es') ]

-- The part of `gsgpu_sync_fence` on the table. `mem`: whether there is memory for an entry.
pub add : Fences → Sync → ℕ → Bool → Bool → Status × Sync
unfolding add_later
add w s f explicit mem =
    let i = w.bucket (w.context f) in
    elim (add_later w (get_or s.buckets i []) f explicit) [
      | some es ↦ (ok, record s { buckets = set s.buckets i es })
      | none ↦ elim mem [
        | false ↦ (err enomem, s)
        | true ↦ (
          ok,
          record s {
            buckets =
                set s.buckets i (record { fence = f; explicit = explicit } ∷ get_or s.buckets i []);
          },
        )
      ]
    ]

-- `gsgpu_sync_fence`.
pub note_update : Fences → ℕ → Sync → ℕ → Sync
note_update w dev s f =
    if same_dev w dev f && (get_owner w f == owner_vm)
    then record s { last_vm_update = some (keep_later w s.last_vm_update f) }
    else s

unfoldable pub sync_fence : Fences → ℕ → Sync → Option ℕ → Bool → Bool → Status × Sync
unfolding add note_update
sync_fence w dev s none explicit mem = (ok, s)
sync_fence w dev s (some f) explicit mem = add w (note_update w dev s f) f explicit mem

-- Whether `gsgpu_sync_resv` passes over a shared fence.
pub skips : Fences → ℕ → ℕ → Bool → ℕ → Bool
skips w dev owner explicit_sync f =
    let fence_owner = get_owner w f in
    let undefined = owner == owner_undefined in
    if (fence_owner == owner_kfd) && (if undefined then false else true)
    then true
    else if same_dev w dev f
    then if undefined
      then false
      else if (if fence_owner == owner_undefined then false else true)
          && (if owner == owner_vm
              then (if fence_owner == owner_vm then false else true)
              else (fence_owner == owner_vm))
      then true
      else (fence_owner == owner) || explicit_sync
    else false

-- The loop of `gsgpu_sync_resv`. `mem` says for which fences there is memory.
pub sync_shared : Fences → ℕ → Sync → List ℕ → ℕ → Bool → (ℕ → Bool) → Status × Sync
unfolding skips
sync_shared w dev s [] owner explicit_sync mem = (ok, s)
sync_shared w dev s (f ∷ fs) owner explicit_sync mem = elim (skips w dev owner explicit_sync f) [
  | true ↦ sync_shared w dev s fs owner explicit_sync mem
  | false ↦
      let (r, s') = sync_fence w dev s (some f) false (mem f) in
      let rest = sync_shared w dev s' fs owner explicit_sync mem in
      elim r [ ok ↦ rest | err e ↦ (err e, s') ]
]

-- `struct reservation_object`: the exclusive fence and the shared ones.
pub record Resv : Type 0 where
  pub excl : Option ℕ
  pub shared : List ℕ

-- `gsgpu_sync_resv`.
pub sync_resv : Fences → ℕ → Sync → Option Resv → ℕ → Bool → (ℕ → Bool) → Status × Sync
unfolding sync_shared
sync_resv w dev s none owner explicit_sync mem = (err einval, s)
sync_resv w dev s (some v) owner explicit_sync mem =
    let (r, s') = sync_fence w dev s v.excl false (elim v.excl [ none ↦ true | some f ↦ mem f ]) in
    elim r [ ok ↦ sync_shared w dev s' v.shared owner explicit_sync mem | err e ↦ (err e, s') ]

-- What `gsgpu_sync_peek_fence` makes of an entry: it is signaled, it is no reason to wait, or there is a
-- fence to wait for. `ring` is the ring of the job, if there is one.
pub data Verdict : Type 0 where
  over harmless : Verdict
  wait_for : ℕ → Verdict

pub verdict : Fences → Option ℕ → ℕ → Verdict
verdict w ring f = if w.signaled f then over else elim ring [
  | none ↦ wait_for f
  | some r ↦ elim (w.sched f) [
    | none ↦ wait_for f
    | some s ↦
        if s.ring == r
        then (if w.signaled s.scheduled then harmless else wait_for s.scheduled)
        else wait_for f
  ]
]

-- `gsgpu_sync_peek_fence` in one bucket: the fence, and what is left of the bucket.
pub peek_bucket : Fences → Option ℕ → List Entry → Option ℕ × List Entry
unfolding verdict
peek_bucket w ring [] = (none, [])
peek_bucket w ring (e ∷ es) =
    let (r, es') = peek_bucket w ring es in
    elim (verdict w ring e.fence) [
      | over ↦ (r, es')
      | harmless ↦ (r, e ∷ es')
      | wait_for g ↦ (some g, e ∷ es)
    ]

pub peek_buckets : Fences → Option ℕ → List (List Entry) → Option ℕ × List (List Entry)
unfolding peek_bucket
peek_buckets w ring [] = (none, [])
peek_buckets w ring (b ∷ bs) =
    let (r, bs') = peek_buckets w ring bs in
    let (g, b') = peek_bucket w ring b in
    elim g [ none ↦ (r, b' ∷ bs') | some x ↦ (some x, b' ∷ bs) ]

unfoldable pub peek_fence : Fences → Option ℕ → Sync → Option ℕ × Sync
unfolding peek_buckets
peek_fence w ring s = let (g, bs) = peek_buckets w ring s.buckets in (g, record s { buckets = bs })

-- `gsgpu_sync_get_fence`, in one bucket and in the table.
pub get_bucket : Fences → List Entry → Option Entry × List Entry
get_bucket w [] = (none, [])
get_bucket w (e ∷ es) =
    let rest = get_bucket w es in if w.signaled e.fence then rest else (some e, es)

pub get_buckets : Fences → List (List Entry) → Option Entry × List (List Entry)
unfolding get_bucket
get_buckets w [] = (none, [])
get_buckets w (b ∷ bs) =
    let (r, bs') = get_buckets w bs in
    let (g, b') = get_bucket w b in elim g [ none ↦ (r, b' ∷ bs') | some x ↦ (some x, b' ∷ bs) ]

unfoldable pub get_fence : Fences → Sync → Option Entry × Sync
unfolding get_buckets
get_fence w s = let (g, bs) = get_buckets w s.buckets in (g, record s { buckets = bs })
