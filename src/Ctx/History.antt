-- ===== src/Ctx/History.antt =====
-- The fences that a context remembers for a ring, against the fences that were added.
use loongson_gsgpu_dkms_modu.Base.{
  ℕ, zero, suc, ◌+◌, ◌-◌, ◌%◌, ◌^◌, ◌≤◌, ◌<◌, ◌≡◌, refl, sym, ap, ◌∙◌, inl, inr, Bool, true, false,
  Option, none, some, arith, ltb, leb, ◌==◌, if◌then◌else◌, ==_iff, Bool-cases, Option-cases,
  is_some, length, get_or, set, replicate, length-set, length-replicate, get_or-set_self,
  get_or-set_ne, u64_mod, sub64, bit_and-low_mask, pow-pos, Errno, ok, apart,
}
use loongson_gsgpu_dkms_modu.Ctx.{
  CtxRing, ring_init, Added, is_bug, slot_of, add_fence, wait_prev_fence, Got, get_seq, get_fence,
  refused, got,
}
use native.Mathlib.Nat.{mod-lt, mod-eq_of_lt}

-- The fence with each sequence number; number zero was never given out.
abbrev pub Log : Type 0
Log = ℕ → Option ℕ

abbrev pub log_add : Log → ℕ → ℕ → Log
log_add l seq fence s = if s == seq then some fence else l s

-- The rings that a context comes to, with the fences that were added on the way, while the sequence
-- numbers fit 64 bits.
pub data Reached (k : ℕ) : CtxRing → Log → Type 0 where
  start : Reached k (ring_init k) (λ s. none)
  grow :
      (c : CtxRing) (l : Log) (signaled : ℕ → Bool) (fence : ℕ) (a : Added)
      → Reached k c l
      → add_fence k signaled c fence ≡ some a
      → c.sequence + 1 + 2 ^ k < u64_mod
      → Reached k a.ring (log_add l a.handler fence)

-- The last fences stand in their slots.
pub record Holds (k : ℕ) (c : CtxRing) (l : Log) : Type 0 where
  pub long : length c.fences ≡ 2 ^ k
  pub counts : 0 < c.sequence
  pub fits : c.sequence + 2 ^ k < u64_mod
  pub slots :
      (s : ℕ) → s < c.sequence → c.sequence ≤ s + 2 ^ k → get_or c.fences (s % 2 ^ k) none ≡ l s

added_lem :
    (k : ℕ) (signaled : ℕ → Bool) (c : CtxRing) (fence : ℕ) (a : Added)
    → add_fence k signaled c fence ≡ some a
    → (a.ring ≡ record {
      sequence = (c.sequence + 1) % u64_mod;
      fences = set c.fences (slot_of k c.sequence) (some fence);
    })
      × (a.handler ≡ c.sequence)
unfolding add_fence
added_lem k signaled c fence a e =
    elim (Bool-cases (is_bug signaled (get_or c.fences (slot_of k c.sequence) none))) [
      | inl y ↦ absurd (ground arith)
      | inr n ↦ ground arith
    ]

abbrev empty_slot : Option ℕ
empty_slot = none

get_or-replicate : (n i : ℕ) → get_or (replicate n empty_slot) i none ≡ none
get_or-replicate zero i = refl
get_or-replicate (suc n) zero = refl
get_or-replicate (suc n) (suc i) = get_or-replicate n i

add-Holds :
    (k : ℕ) (c : CtxRing) (l : Log) (fence : ℕ)
    → Holds k c l
    → c.sequence + 1 + 2 ^ k < u64_mod
    → Holds k
        (record {
          sequence = (c.sequence + 1) % u64_mod;
          fences = set c.fences (slot_of k c.sequence) (some fence);
        })
        (log_add l c.sequence fence)
add-Holds k c l fence h room =
    let next : (c.sequence + 1) % u64_mod ≡ c.sequence + 1 = mod-eq_of_lt (omega arith) in
    let slot = bit_and-low_mask c.sequence k in
    let pk = pow-pos k in
    rw (next, slot)
      (record {
        long = length-set c.fences (c.sequence % 2 ^ k) (some fence) ∙ h.long;
        counts = omega arith;
        fits = room;
        slots = λ s lt le. elim (Bool-cases (s == c.sequence)) [
          | inl y ↦
              rw (y, ap (λ (t : ℕ). t % 2 ^ k) ((==_iff s c.sequence).0 y))
                (get_or-set_self c.fences (c.sequence % 2 ^ k) (some fence) none
                  (omega (arith, mod-lt c.sequence pk, h.long)))
          | inr n ↦
              let gap : s + (c.sequence - s) ≡ c.sequence = ground arith in
              let off : (s % 2 ^ k == c.sequence % 2 ^ k) ≡ false =
                ap (λ (t : ℕ). s % 2 ^ k == t % 2 ^ k) (sym gap)
                ∙ apart (2 ^ k) s (c.sequence - s) (ground arith) (ground arith) in
              rw n (
                get_or-set_ne c.fences (c.sequence % 2 ^ k) (s % 2 ^ k) (some fence) none
                  (λ e. ground (arith, e))
                ∙ h.slots s (ground arith) (omega arith))
        ];
      })

Reached-Holds : (k : ℕ) (c : CtxRing) (l : Log) → 2 ^ k + 1 < u64_mod → Reached k c l → Holds k c l
unfolding ring_init
Reached-Holds k _ _ small start = record {
  long = length-replicate (2 ^ k) none;
  counts = omega arith;
  fits = omega arith;
  slots = λ s lt le. get_or-replicate (2 ^ k) (s % 2 ^ k);
}
Reached-Holds k _ _ small (grow c l signaled fence a r e room) =
    let (ring, handler) = added_lem k signaled c fence a e in
    rw (ring, handler) (add-Holds k c l fence (Reached-Holds k c l small r) room)

-- The answer that the comments promise: an error for a number not given out, NULL for a fence that is
-- too old, and else the fence that was added with this number.
abbrev pub answer : ℕ → ℕ → Log → ℕ → Got
answer k next l s =
    if leb next s then refused else if ltb (s + 2 ^ k) next then got none else got (l s)

get_seq_lem :
    (k : ℕ) (c : CtxRing) (l : Log) (s : ℕ) → Holds k c l → get_seq k c s ≡ answer k c.sequence l s
unfolding get_seq
get_seq_lem k c l s h = elim (Bool-cases (leb c.sequence s)) [
  | inl y ↦ rw y refl
  | inr n ↦
      let exact : (s + 2 ^ k) % u64_mod ≡ s + 2 ^ k = mod-eq_of_lt (ground (arith, h.fits)) in
      let slot = bit_and-low_mask s k in
      rw (n, exact, slot)
        (elim (Bool-cases (ltb (s + 2 ^ k) c.sequence)) [
          | inl z ↦ rw z refl
          | inr z ↦ rw (z, h.slots s (ground arith) (ground arith)) refl
        ])
]

last_seq : (n : ℕ) → 0 < n → n < u64_mod → sub64 n 1 ≡ n - 1
last_seq n pn lt = omega arith

-- On a ring that a context comes to from its start by adding fences, `gsgpu_ctx_get_fence` answers by the
-- fences that were added: `~0ull` asks for the last one.
pub get_fence_history :
    (k : ℕ) (c : CtxRing) (l : Log) (seq : ℕ)
    → 2 ^ k + 1 < u64_mod
    → Reached k c l
    → get_fence k c seq ≡ answer k c.sequence l (if seq == u64_mod - 1 then c.sequence - 1 else seq)
unfolding get_fence
get_fence_history k c l seq small r =
    let h = Reached-Holds k c l small r in
    let last : sub64 c.sequence 1 ≡ c.sequence - 1 =
      last_seq c.sequence h.counts (omega (arith, h.fits)) in
    rw last (get_seq_lem k c l (if seq == u64_mod - 1 then c.sequence - 1 else seq) h)

-- Where a wait without an error means that the fence is signaled, a fence can be added after
-- `gsgpu_ctx_wait_prev_fence` has succeeded: the kernel is not stopped.
pub add_fence-wait_prev_fence :
    (k : ℕ) (signaled : ℕ → Bool) (wait : ℕ → Option Errno) (c : CtxRing) (fence : ℕ)
    → ((f : ℕ) → wait f ≡ none → signaled f ≡ true)
    → wait_prev_fence k wait c ≡ ok
    → is_some (add_fence k signaled c fence) ≡ true
unfolding add_fence wait_prev_fence is_bug
add_fence-wait_prev_fence k signaled wait c fence done waited =
    elim (Option-cases (get_or c.fences (slot_of k c.sequence) none)) [
      | inl e ↦ rw e refl
      | inr (f, e) ↦ elim (Option-cases (wait f)) [
        | inl w ↦ rw (e, done f w) refl
        | inr (x, w) ↦ absurd (ground arith)
      ]
    ]
