-- ===== src/Fence/Process.antt =====
-- `gsgpu_fence_process` signals the fences of the sequence numbers that have passed, each once.
use loongson_gsgpu_dkms_modu.Base.{
  ℕ, zero, suc, ◌+◌, ◌-◌, ◌%◌, ◌^◌, ◌≤◌, ◌<◌, ◌≡◌, ◌≢◌, refl, sym, ap, ◌∙◌, inl, inr, true, false,
  List, [], ◌∷◌, ◌++◌, Option, none, some, ◌==◌, if◌then◌else◌, bit_and, low_mask, bit_and-low_mask,
  mod_pow-mod_pow, pow-pos, u32_mod, get_or, set, arith, length, get_or-set_self, get_or-set_ne,
  length-set, Option-cases, apart, ahead, leb, ==_iff,
}
use mathlib.Core.List.{append_assoc}
use native.Mathlib.Decide.{ℕ_discrete}
use native.Mathlib.Nat.{mod-eq_of_lt, mod-lt, mod-add-mod, add-mod_right}
use loongson_gsgpu_dkms_modu.Ring.Round.{pow-le-30}
use loongson_gsgpu_dkms_modu.Fence.{Driver, signal_slot, walk, slot, process, fence_read}

-- A table of `2 ^ k` slots.
pub record IsTable (k : ℕ) (d : Driver) : Type 0 where
  pub fits : k ≤ 30
  pub mask : d.num_fences_mask ≡ low_mask k
  pub storage : length d.fences ≡ 2 ^ k

-- The fences that a slot adds to those that are signaled.
abbrev pub cons : Option ℕ → List ℕ → List ℕ
cons none fs = fs
cons (some f) fs = f ∷ fs

-- The driver once the slots of the sequence numbers `last + 1` to `last + n` are emptied, in order.
abbrev pub emptied : ℕ → Driver → ℕ → ℕ → Driver
emptied k d last zero = d
emptied k d last (suc n) =
    emptied k
      (record d {
        fences = set d.fences ((last + 1) % 2 ^ k) none;
        signaled = cons (get_or d.fences ((last + 1) % 2 ^ k) none) d.signaled;
      })
      (last + 1) n

signal_slot_lem :
    (d : Driver) (i : ℕ)
    → signal_slot d i ≡ record d {
      fences = set d.fences i none;
      signaled = cons (get_or d.fences i none) d.signaled;
    }
unfolding signal_slot
signal_slot_lem d i = elim (Option-cases (get_or d.fences i none)) [
  | inl n ↦ rw (n, signal_slot) refl
  | inr (f, h) ↦ rw (h, signal_slot) refl
]

next_slot :
    {k : ℕ} (d : Driver) (last : ℕ)
    → IsTable k d
    → bit_and ((last % 2 ^ k + 1) % u32_mod) d.num_fences_mask ≡ (last + 1) % 2 ^ k
next_slot {k} d last t =
    let no_carry : (last % 2 ^ k + 1) % u32_mod ≡ last % 2 ^ k + 1 =
      mod-eq_of_lt (omega (arith, mod-lt last (pow-pos k), pow-le-30 {k = k} t.fits)) in
    rw (t.mask, no_carry) (bit_and-low_mask (last % 2 ^ k + 1) k ∙ mod-add-mod last (2 ^ k) 1)

walk_lem :
    {k : ℕ} (n : ℕ) (d : Driver) (last : ℕ)
    → IsTable k d
    → suc n ≤ 2 ^ k
    → walk (suc n) d (last % 2 ^ k) ((last + suc n) % 2 ^ k) ≡ some (emptied k d last (suc n))
unfolding walk
walk_lem {k} zero d last t le =
    let same : ((last + 1) % 2 ^ k == (last + 1) % 2 ^ k) ≡ true = ground arith in
    rw (next_slot d last t, same) (ap some (signal_slot_lem d ((last + 1) % 2 ^ k)))
walk_lem {k} (suc n) d last t le =
    let d' = emptied k d last 1 in
    let t' : IsTable k d' = record {
      fits = t.fits;
      mask = t.mask;
      storage = length-set d.fences ((last + 1) % 2 ^ k) none ∙ t.storage;
    } in
    let goal : last + suc (suc n) ≡ last + 1 + suc n = omega arith in
    let no : ((last + 1) % 2 ^ k == (last + 1 + suc n) % 2 ^ k) ≡ false =
      apart (2 ^ k) (last + 1) (suc n) (omega arith) (omega arith) in
    rw (goal, next_slot d last t, no, signal_slot_lem d ((last + 1) % 2 ^ k))
      (walk_lem n d' (last + 1) t' (omega arith))

-- The fences in the slots of the sequence numbers `last + 1` to `last + n`, the last one first.
abbrev pub passed : ℕ → List (Option ℕ) → ℕ → ℕ → List ℕ
passed k fs last zero = []
passed k fs last (suc n) = passed k fs (last + 1) n ++ cons (get_or fs ((last + 1) % 2 ^ k) none) []

slots_apart : (m a d : ℕ) → 0 < d → d < m → (a % m) ≢ ((a + d) % m)
slots_apart m a d p lt q = cc (sym (apart m a d p lt) ∙ (==_iff (a % m) ((a + d) % m)).1 q)

passed-set :
    (k : ℕ) (fs : List (Option ℕ)) (a e n : ℕ)
    → e + n < 2 ^ k
    → passed k (set fs (a % 2 ^ k) none) (a + e) n ≡ passed k fs (a + e) n
passed-set k fs a e zero h = refl
passed-set k fs a e (suc n) h =
    let to : a + (e + 1) ≡ a + e + 1 = omega arith in
    let ih = rw to at (passed-set k fs a (e + 1) n (omega arith)) in
    let ne : (a % 2 ^ k) ≢ ((a + e + 1) % 2 ^ k) =
      rw to at (slots_apart (2 ^ k) a (e + 1) (omega arith) (omega arith)) in
    rw (ih, get_or-set_ne fs (a % 2 ^ k) ((a + e + 1) % 2 ^ k) none none ne) refl

cons-append : (x : Option ℕ) (fs : List ℕ) → cons x fs ≡ cons x [] ++ fs
cons-append none fs = refl
cons-append (some f) fs = refl

emptied-signaled :
    (k n : ℕ) (d : Driver) (last : ℕ)
    → n ≤ 2 ^ k
    → (emptied k d last n).signaled ≡ passed k d.fences last n ++ d.signaled
emptied-signaled k zero d last h = refl
emptied-signaled k (suc n) d last h =
    let i = (last + 1) % 2 ^ k in
    let x = get_or d.fences i none in
    let at : last + 1 + 0 ≡ last + 1 = omega arith in
    let same = rw at at (passed-set k d.fences (last + 1) 0 n (omega arith)) in
    emptied-signaled k n (emptied k d last 1) (last + 1) (omega arith)
    ∙ rw same (
        ap (λ (fs : List ℕ). passed k d.fences (last + 1) n ++ fs) (cons-append x d.signaled)
        ∙ sym (append_assoc (passed k d.fences (last + 1) n) (cons x []) d.signaled))

emptied-fences :
    (k n : ℕ) (d : Driver) (last j : ℕ)
    → length d.fences ≡ 2 ^ k
    → 0 < j
    → j ≤ 2 ^ k
    → n ≤ 2 ^ k
    → get_or (emptied k d last n).fences ((last + j) % 2 ^ k) none
      ≡ (if leb j n then none else get_or d.fences ((last + j) % 2 ^ k) none)
emptied-fences k zero d last j t p le h = let no : leb j 0 ≡ false = ground arith in rw no refl
emptied-fences k (suc n) d last j t p le h =
    let m = 2 ^ k in
    let d' = emptied k d last 1 in
    let t' = length-set d.fences ((last + 1) % m) none ∙ t in
    elim (ℕ_discrete j 1) [
      | yes one ↦
          let turn : (last + j) % m ≡ (last + 1 + m) % m =
            rw one (sym (add-mod_right (last + 1) m)) in
          let ih = emptied-fences k n d' (last + 1) m t' (pow-pos k) (omega arith) (omega arith) in
          let early : leb m n ≡ false = ground arith in
          let in_range : leb j (suc n) ≡ true = ground arith in
          rw (in_range, turn)
            (ih
              ∙ rw (early, add-mod_right (last + 1) m)
                  (get_or-set_self d.fences ((last + 1) % m) none none
                    (omega (arith, t, mod-lt (last + 1) (pow-pos k)))))
      | no ne ↦
          let to : last + 1 + (j - 1) ≡ last + j = omega arith in
          let ih = rw to at (
            emptied-fences k n d' (last + 1) (j - 1) t' (omega arith) (omega arith)
              (omega arith)) in
          let off : ((last + 1) % m) ≢ ((last + j) % m) =
            rw to at (slots_apart m (last + 1) (j - 1) (omega arith) (omega arith)) in
          let shift : leb (j - 1) n ≡ leb j (suc n) = ground arith in
          ih
          ∙ rw (shift, get_or-set_ne d.fences ((last + 1) % m) ((last + j) % m) none none off) refl
    ]

emptied_seq :
    (k n : ℕ) (d : Driver) (last : ℕ)
    → ((emptied k d last n).last_seq ≡ d.last_seq) × ((emptied k d last n).sync_seq ≡ d.sync_seq)
emptied_seq k zero d last = (refl, refl)
emptied_seq k (suc n) d last = emptied_seq k n (emptied k d last 1) (last + 1)

-- Where the GPU has written a sequence number that is `n` further than the last one seen, at least one
-- and at most the number of slots, the processing ends within `n` rounds. It signals the fences of
-- exactly these sequence numbers, in order, each once, empties their slots, leaves the other slots
-- alone, and remembers the new number. The fallback timer is started unless it is the last one emitted.
pub process_signals :
    {k : ℕ} (n : ℕ) (d : Driver)
    → IsTable k d
    → d.last_seq < u32_mod
    → 0 < n
    → n ≤ 2 ^ k
    → fence_read d ≡ (d.last_seq + n) % u32_mod
    → (d' : Driver) × (process n d ≡ some (if fence_read d == d.sync_seq then false else true, d'))
      × (d'.last_seq ≡ fence_read d)
      × (d'.signaled ≡ passed k d.fences d.last_seq n ++ d.signaled)
      × ((j : ℕ)
          → 0 < j
          → j ≤ 2 ^ k
          → get_or d'.fences ((d.last_seq + j) % 2 ^ k) none
            ≡ (if leb j n then none else get_or d.fences ((d.last_seq + j) % 2 ^ k) none))
unfolding process slot
process_signals {k} zero d t lt p le e = absurd (omega arith)
process_signals {k} (suc n) d t lt p le e =
    let seq = fence_read d in
    let last = d.last_seq in
    let start = record d { last_seq = seq } in
    let d' = emptied k start last (suc n) in
    let t' : IsTable k start = record { fits = t.fits; mask = t.mask; storage = t.storage } in
    let from : bit_and last d.num_fences_mask ≡ last % 2 ^ k =
      rw t.mask (bit_and-low_mask last k) in
    let to : bit_and seq d.num_fences_mask ≡ (last + suc n) % 2 ^ k =
      rw (t.mask, e)
        (bit_and-low_mask ((last + suc n) % u32_mod) k
          ∙ mod_pow-mod_pow (last + suc n) k 32 (omega (arith, t.fits))) in
    let new : (seq == last) ≡ false =
      rw e (
        ground
          (arith, ahead u32_mod last (suc n) lt p (omega (arith, pow-le-30 {k = k} t.fits)))) in
    (
      d',
      rw (new, from, to, walk_lem n start last t' le, process) refl,
      (emptied_seq k (suc n) start last).0,
      emptied-signaled k (suc n) start last le,
      λ j pj lj. emptied-fences k (suc n) start last j t.storage pj lj le,
    )
