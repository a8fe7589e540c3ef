-- ===== src/Fence.antt =====
-- gsgpu/gpu/gsgpu_fence.c: the fences of a ring, by sequence numbers on 32 bits, in a table of slots
-- whose size is a power of two. Locks and reference counts are left out.
pub mod Process
mod Tests
use loongson_gsgpu_dkms_modu.Base.{
  ℕ, zero, suc, ◌+◌, ◌-◌, ◌*◌, ◌%◌, Bool, true, false, List, [], ◌∷◌, ◌++◌, Option, none, some,
  ◌==◌, if◌then◌else◌, bit_and, u32_mod, sub32, length, get_or, set, replicate, Status, ok, err,
  einval, enomem,
}

-- `struct gsgpu_fence_driver`. A slot holds the address of a fence. `memory` is what the GPU wrote at
-- `cpu_addr`; `signaled` lists the fences that were signaled, newest first.
pub record Driver : Type 0 where
  pub has_memory : Bool
  pub memory : ℕ
  pub sync_seq : ℕ
  pub last_seq : ℕ
  pub num_fences_mask : ℕ
  pub fences : List (Option ℕ)
  pub signaled : List ℕ

-- `gsgpu_fence_write` and `gsgpu_fence_read`.
pub fence_write : Driver → ℕ → Driver
fence_write d seq = if d.has_memory then record d { memory = seq % u32_mod } else d

unfoldable pub fence_read : Driver → ℕ
fence_read d = if d.has_memory then d.memory else d.last_seq

-- What `gsgpu_fence_emit` writes to the ring, `seq` with the interrupt flag, and the slot that it fills.
-- Where the slot is taken it first waits for the old fence, with `wait` as the result.
pub data Emitted : Type 0 where
  emitted : Driver → ℕ → Emitted
  failed : Driver → Status → Emitted

pub slot : Driver → ℕ → ℕ
slot d seq = bit_and seq d.num_fences_mask

pub fence_emit : Driver → Bool → ℕ → Status → Emitted
unfolding slot
fence_emit d mem fence wait =
    if mem
    then (let seq = (d.sync_seq + 1) % u32_mod in
        let d' = record d { sync_seq = seq } in
        let filled = record d' { fences = set d.fences (slot d seq) (some fence) } in
        elim (get_or d.fences (slot d seq) none) [
          | none ↦ emitted filled seq
          | some old ↦ elim wait [ ok ↦ emitted filled seq | err e ↦ failed d' (err e) ]
        ])
    else failed d (err enomem)

-- `gsgpu_fence_emit_polling`.
pub emit_polling : Driver → Driver × ℕ
emit_polling d = let seq = (d.sync_seq + 1) % u32_mod in (record d { sync_seq = seq }, seq)

-- One slot in the loop of `gsgpu_fence_process`: it is emptied, and its fence is signaled. No one else signals the
-- fences of a ring, so that the `BUG()` for one that is signaled already is not reached.
pub signal_slot : Driver → ℕ → Driver
signal_slot d i = elim (get_or d.fences i none) [
  | none ↦ record d { fences = set d.fences i none }
  | some f ↦ record d { fences = set d.fences i none; signaled = f ∷ d.signaled }
]

-- The loop, which does at least one round. `none`: it has not ended within the rounds.
pub walk : ℕ → Driver → ℕ → ℕ → Option Driver
unfolding signal_slot
walk zero d last seq = none
walk (suc n) d last seq =
    let next = bit_and ((last + 1) % u32_mod) d.num_fences_mask in
    let d' = signal_slot d next in
    let rest = walk n d' next seq in if next == seq then some d' else rest

-- `gsgpu_fence_process`; with no one else at work the exchange of `last_seq` succeeds at once. The flag
-- is whether the fallback timer is started.
unfoldable pub process : ℕ → Driver → Option (Bool × Driver)
unfolding fence_read slot walk
process n d =
    let seq = fence_read d in
    let timer = if seq == d.sync_seq then false else true in
    let d' = record d { last_seq = seq } in
    if seq == d.last_seq
    then some (timer, d')
    else elim (walk n d' (slot d d.last_seq) (slot d seq)) [
      | none ↦ none
      | some d'' ↦ some (timer, d'')
    ]

-- `gsgpu_fence_count_emitted`, after the processing.
pub count_emitted : Driver → ℕ
count_emitted d = (u32_mod - d.last_seq + d.sync_seq) % u32_mod

-- `gsgpu_fence_driver_init_ring`, up to the start of the scheduler, which is not part of it.
pub init_ring : Driver → ℕ → Bool → Status × Driver
init_ring d num_hw_submission mem =
    if bit_and num_hw_submission (sub32 num_hw_submission 1) == 0
    then (let slots = (num_hw_submission * 2) % u32_mod in
        let d' = record d {
          has_memory = false;
          sync_seq = 0;
          last_seq = 0;
          num_fences_mask = sub32 slots 1;
          fences = [];
        } in
        if mem then (ok, record d' { fences = replicate slots none }) else (err enomem, d'))
    else (err einval, d)
