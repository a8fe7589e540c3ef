-- ===== src/Ctx.antt =====
-- gsgpu/gpu/gsgpu_ctx.c and gsgpu/gpu/gsgpu_sched.c: the fences that a context remembers for a ring, the
-- priorities of contexts and what a process learns of resets. The number of fences remembered is a power
-- of two, which gsgpu_device_check_arguments sees to.
pub mod History
pub mod Resets
mod Tests
use loongson_gsgpu_dkms_modu.Base.{
  ℕ, ◌+◌, ◌-◌, ◌%◌, ◌^◌, bit_and, Bool, true, false, not, Option, none, some, List, ltb, leb, ◌==◌,
  if◌then◌else◌, get_or, set, replicate, u64_mod, sub64, low_mask, Errno, Status, einval, eacces,
  ok, err,
}

-- `struct gsgpu_ctx_ring`; an empty slot is NULL.
pub record CtxRing : Type 0 where
  pub sequence : ℕ
  pub fences : List (Option ℕ)

-- The start of a ring in `gsgpu_ctx_init`, for `2 ^ k` jobs.
unfoldable pub ring_init : ℕ → CtxRing
ring_init k = record { sequence = 1; fences = replicate (2 ^ k) none }

-- What `gsgpu_ctx_add_fence` leaves: the ring, the sequence number in `handler`, and the fence whose
-- reference it drops.
pub record Added : Type 0 where
  pub ring : CtxRing
  pub handler : ℕ
  pub dropped : Option ℕ

-- `BUG_ON(!dma_fence_is_signaled(other))`.
unfoldable pub is_bug : (ℕ → Bool) → Option ℕ → Bool
is_bug signaled none = false
is_bug signaled (some f) = not (signaled f)

-- `seq & (gsgpu_sched_jobs - 1)`.
abbrev pub slot_of : ℕ → ℕ → ℕ
slot_of k seq = bit_and seq (low_mask k)

-- `gsgpu_ctx_add_fence`; `none` where it stops the kernel.
unfoldable pub add_fence : ℕ → (ℕ → Bool) → CtxRing → ℕ → Option Added
unfolding is_bug
add_fence k signaled c fence =
    let idx = slot_of k c.sequence in
    let other = get_or c.fences idx none in
    if is_bug signaled other
    then none
    else some (record {
      ring = record {
        sequence = (c.sequence + 1) % u64_mod;
        fences = set c.fences idx (some fence);
      };
      handler = c.sequence;
      dropped = other;
    })

-- `gsgpu_ctx_wait_prev_fence`. `wait`: the error of `dma_fence_wait`, if it fails.
unfoldable pub wait_prev_fence : ℕ → (ℕ → Option Errno) → CtxRing → Status
wait_prev_fence k wait c = elim (get_or c.fences (slot_of k c.sequence) none) [
  | none ↦ ok
  | some f ↦ elim (wait f) [ none ↦ ok | some r ↦ err r ]
]

-- What `gsgpu_ctx_get_fence` returns: an error, or a fence, or NULL.
pub data Got : Type 0 where
  refused : Got
  got : Option ℕ → Got

-- `gsgpu_ctx_get_fence` from the number asked for on, which `~0ull` stands for the last of.
pub get_seq : ℕ → CtxRing → ℕ → Got
get_seq k c seq =
    if leb c.sequence seq
    then refused
    else if ltb ((seq + 2 ^ k) % u64_mod) c.sequence
    then got none
    else got (get_or c.fences (slot_of k seq) none)

pub get_fence : ℕ → CtxRing → ℕ → Got
unfolding get_seq
get_fence k c seq = get_seq k c (if seq == u64_mod - 1 then sub64 c.sequence 1 else seq)

-- `enum drm_sched_priority`, with its order, and `UNSET` and `INVALID` below it.
pub data Priority : Type 0 where
  invalid unset low normal high_sw high_hw : Priority

-- The values of `GSGPU_CTX_PRIORITY_...`, and any other.
pub data Asked : Type 0 where
  unset_asked very_low low_asked normal_asked high very_high other_value : Asked

-- `gsgpu_to_sched_priority`.
pub to_sched_priority : Asked → Priority
to_sched_priority very_high = high_hw
to_sched_priority high = high_sw
to_sched_priority normal_asked = normal
to_sched_priority low_asked = low
to_sched_priority very_low = low
to_sched_priority unset_asked = unset
to_sched_priority other_value = invalid

-- `priority <= DRM_SCHED_PRIORITY_NORMAL`, and `priority < 0 || priority >= DRM_SCHED_PRIORITY_MAX`.
abbrev pub at_most_normal : Priority → Bool
at_most_normal high_sw = false
at_most_normal high_hw = false
at_most_normal _ = true

abbrev pub is_out : Priority → Bool
is_out invalid = true
is_out unset = true
is_out _ = false

-- `gsgpu_ctx_priority_permit`. `nice`: the process has CAP_SYS_NICE; `master`: it is the current master.
pub priority_permit : Bool → Bool → Priority → Status
priority_permit nice master p =
    if at_most_normal p then ok else if nice then ok else if master then ok else err eacces

-- The priority that `gsgpu_ctx_ioctl` gives a new context, and the first checks of `gsgpu_ctx_init`.
abbrev pub asked_priority : Asked → Priority
asked_priority a = elim (to_sched_priority a) [ invalid ↦ normal | p ↦ p ]

pub init_check : Bool → Bool → Priority → Status
unfolding priority_permit
init_check nice master p = if is_out p then err einval else priority_permit nice master p

-- The counters of `struct gsgpu_ctx`, and those of the device.
pub record Ctx : Type 0 where
  pub reset_counter : ℕ
  pub reset_counter_query : ℕ
  pub vram_lost_counter : ℕ
  pub guilty : Bool

pub record Device : Type 0 where
  pub gpu_reset_counter : ℕ
  pub vram_losses : ℕ

-- The counters of a new context in `gsgpu_ctx_init`.
pub ctx_start : Device → Ctx
ctx_start dev = record {
  reset_counter = dev.gpu_reset_counter;
  reset_counter_query = dev.gpu_reset_counter;
  vram_lost_counter = dev.vram_losses;
  guilty = false;
}

-- `gsgpu_ctx_query` on a context that is there: whether it reports a reset, and the context after it.
pub query : Device → Ctx → Bool × Ctx
query dev c = (
  not (c.reset_counter_query == dev.gpu_reset_counter),
  record c { reset_counter_query = dev.gpu_reset_counter },
)

-- The flags of `gsgpu_ctx_query2`.
pub record Flags2 : Type 0 where
  pub was_reset : Bool
  pub vram_lost : Bool
  pub is_guilty : Bool

pub query2 : Device → Ctx → Flags2
query2 dev c = record {
  was_reset = not (c.reset_counter == dev.gpu_reset_counter);
  vram_lost = not (c.vram_lost_counter == dev.vram_losses);
  is_guilty = c.guilty;
}
