-- ===== src/Ring/Submit.antt =====
-- A submission: space is reserved, words are written, and the ring is committed or rolled back.
use loongson_gsgpu_dkms_modu.Base.{
  ℕ, ◌+◌, ◌-◌, ◌%◌, ◌^◌, ◌≤◌, ◌<◌, ◌≡◌, refl, sym, ap, ◌∙◌, ◌⊎◌, inl, inr, List, ◌∷◌, ◌++◌, ltb,
  length, replicate, pos, sub_ℤℕ, ok, err, enomem, low_mask, bit_and-low_mask, pow-pos,
  mod_pow-mod_pow, u32_mod, sub32, arith, length-append, length-replicate, Bool-cases,
}
use native.Mathlib.Nat.{add-mod, mod-lt, mod-mod, zero-add}
use loongson_gsgpu_dkms_modu.Ring.{
  Ring, Funcs, Event, note, set_wptr, begin_use, end_use, write_all, insert_nop, align_up, alloc,
  padding, commit, undo,
}
use loongson_gsgpu_dkms_modu.Ring.Lemmas.{Shape}
use loongson_gsgpu_dkms_modu.Ring.Copy.{wptr-write_all, buf-write_all, write_all-Shape}
use loongson_gsgpu_dkms_modu.Ring.Round.{
  round_up, le-round_up, round_up-mod, round_up_mono, add-missing, align_up-round_up, pow-le-30,
}
use loongson_gsgpu_dkms_modu.Ring.Contents.{
  count_dw-write_all, log-write_all, write_all_frame, write_all-append, insert_nop-eq-write_all,
}

-- The ring after a successful `gsgpu_ring_alloc` that reserves `m` dwords.
abbrev pub reserved : Ring → ℕ → Ring
reserved r m = record r {
  count_dw = pos m;
  wptr_old = r.wptr;
  log = note r.has_begin_use begin_use r.log;
}

-- `gsgpu_ring_alloc` rounds a request up to the padding unit. If the rounded request is within the
-- ring's limit it is reserved, the write pointer is remembered and the hook runs; otherwise the call
-- fails with -ENOMEM and the ring is as it was. The padding unit is a power of two, and the request
-- does not reach the end of the 32-bit range.
pub alloc_outcome :
    {k p a : ℕ} (r : Ring) (ndw : ℕ)
    → Shape k p a r
    → ndw + 2 ^ a ≤ u32_mod
    → let m = round_up (2 ^ a) ndw in
      ((m ≤ r.max_dw) × (alloc r ndw ≡ (ok, reserved r m)))
      ⊎ ((r.max_dw < m) × (alloc r ndw ≡ (err enomem, r)))
unfolding alloc
alloc_outcome {k} {p} {a} r ndw s fits =
    let up : align_up r.align_mask ndw ≡ round_up (2 ^ a) ndw =
      rw s.pad_ones (align_up-round_up a ndw (omega arith) fits) in
    rw up (elim (Bool-cases (ltb r.max_dw (round_up (2 ^ a) ndw))) [
      | inl big ↦ inr (ground arith, rw big)
      | inr fit ↦ inl (ground arith, rw fit)
    ])

-- What `gsgpu_ring_commit` adds: the number that is missing to the next multiple.
pub padding-missing :
    {k p a : ℕ} (r : Ring) → Shape k p a r → padding r ≡ (2 ^ a - r.wptr % 2 ^ a) % 2 ^ a
unfolding padding
padding-missing {a = a} r s =
    let x = r.wptr % 2 ^ a in
    let one : low_mask a + 1 ≡ 2 ^ a = omega (arith, pow-pos a) in
    let at : sub32 (2 ^ a) x ≡ 2 ^ a - x =
      omega (arith, mod-lt r.wptr (pow-pos a), pow-le-30 {k = a} (omega arith)) in
    rw (s.pad_ones, one, bit_and-low_mask, at)

-- The pointer's distance to the padding unit, after words are written from an aligned start.
wptr-mod :
    {k p a : ℕ} (r : Ring) (vs : List ℕ)
    → Shape k p a r
    → r.wptr % 2 ^ a ≡ 0
    → (write_all r vs).wptr % 2 ^ a ≡ length vs % 2 ^ a
wptr-mod {k} {p} {a} r vs s z =
    rw
      (
        wptr-write_all r vs s,
        mod_pow-mod_pow (r.wptr + length vs) a p (omega arith),
        add-mod,
        z,
        zero-add,
      )
      (mod-mod (length vs) (2 ^ a))

reserved-Shape : {k p a : ℕ} (r : Ring) (m : ℕ) → Shape k p a r → Shape k p a (reserved r m)
reserved-Shape r m s = record {
  buf_fits = s.buf_fits;
  ptr_fits = s.ptr_fits;
  pad_fits = s.pad_fits;
  small = s.small;
  storage = s.storage;
  buf_ones = s.buf_ones;
  ptr_ones = s.ptr_ones;
  pad_ones = s.pad_ones;
  in_range = s.in_range;
}

alloc_fits :
    {k p a : ℕ} (r : Ring) (ndw : ℕ)
    → Shape k p a r
    → ndw + 2 ^ a ≤ u32_mod
    → round_up (2 ^ a) ndw ≤ r.max_dw
    → alloc r ndw ≡ (ok, reserved r (round_up (2 ^ a) ndw))
alloc_fits r ndw s wrap fits = elim (alloc_outcome r ndw s wrap) [
  | inl done ↦ done.1
  | inr refused ↦ absurd (omega arith)
]

-- The words of a submission, with the NOPs that the commit adds.
abbrev padded : ℕ → ℕ → List ℕ → List ℕ
padded a nop vs = vs ++ replicate (round_up (2 ^ a) (length vs) - length vs) nop

length-padded : (a nop : ℕ) (vs : List ℕ) → length (padded a nop vs) ≡ round_up (2 ^ a) (length vs)
length-padded a nop vs = omega (
  arith,
  length-append {0} vs (replicate (round_up (2 ^ a) (length vs) - length vs) nop),
  length-replicate {0} (round_up (2 ^ a) (length vs) - length vs) nop,
  le-round_up (2 ^ a) (length vs) (pow-pos a),
)

-- Writing and padding is writing the padded words.
padded-write :
    {k p a : ℕ} (r : Ring) (vs : List ℕ)
    → Shape k p a r
    → r.wptr % 2 ^ a ≡ 0
    → let w = write_all r vs in insert_nop w (padding w) ≡ write_all r (padded a r.nop vs)
padded-write {k} {p} {a} r vs s z =
    let w = write_all r vs in
    let n = length vs in
    let pad : padding w ≡ round_up (2 ^ a) n - n =
      rw (padding-missing w (write_all-Shape r vs s), wptr-mod r vs s z)
        (omega (arith, add-missing (2 ^ a) n (pow-pos a))) in
    let nop : w.nop ≡ r.nop = ap (λ (f : Funcs). f.nop) (write_all_frame r vs).0 in
    rw pad (
      insert_nop-eq-write_all w (round_up (2 ^ a) n - n)
      ∙ ap (λ (v : ℕ). write_all w (replicate (round_up (2 ^ a) n - n) v)) nop
      ∙ sym (write_all-append r vs _))

-- The end of `gsgpu_ring_commit`, once the ring is padded.
abbrev closed : Ring → Ring
closed p = record p { log = note p.has_end_use end_use (set_wptr (p.wptr % u32_mod) ∷ p.log) }

commit-closed : (r : Ring) → commit r ≡ closed (insert_nop r (padding r))
unfolding commit
commit-closed r = refl

closed_log :
    (w r : Ring)
    → w.funcs ≡ r.funcs
    → w.log ≡ r.log
    → (closed w).log ≡ note r.has_end_use end_use (set_wptr (w.wptr % u32_mod) ∷ r.log)
closed_log w r f l =
    ap (λ (g : Funcs). note g.has_end_use end_use (set_wptr (w.wptr % u32_mod) ∷ w.log)) f
    ∙ ap (λ (m : List Event). note r.has_end_use end_use (set_wptr (w.wptr % u32_mod) ∷ m)) l

left_over : (n l : ℕ) → l ≤ n → sub_ℤℕ (pos n) l ≡ pos (n - l)
left_over n l h = ground arith

-- A submission of at most the requested number of dwords, from a write pointer on the padding unit:
-- after the reservation, the writes and the commit no overrun was printed, the reservation is not
-- exceeded, the write pointer is on the padding unit again, and it is what the WPTR register holds.
-- What is written is the words and then NOPs up to the next multiple of the unit.
pub submission :
    {k p a : ℕ} (r : Ring) (ndw : ℕ) (vs : List ℕ)
    → Shape k p a r
    → r.wptr % 2 ^ a ≡ 0
    → ndw + 2 ^ a ≤ u32_mod
    → round_up (2 ^ a) ndw ≤ r.max_dw
    → length vs ≤ ndw
    → let c = commit (write_all (alloc r ndw).1 vs) in
      let nops = replicate (round_up (2 ^ a) (length vs) - length vs) r.nop in
      (c.log
        ≡ note r.has_end_use end_use
            (set_wptr (c.wptr % u32_mod) ∷ note r.has_begin_use begin_use r.log))
      × (c.count_dw ≡ pos (round_up (2 ^ a) ndw - round_up (2 ^ a) (length vs)))
      × (c.wptr % 2 ^ a ≡ 0)
      × (c.buf ≡ (write_all r (vs ++ nops)).buf)
      × (c.wptr ≡ (r.wptr + round_up (2 ^ a) (length vs)) % 2 ^ p)
submission {k} {p} {a} r ndw vs s z wrap fits n =
    let r1 = reserved r (round_up (2 ^ a) ndw) in
    let s1 = reserved-Shape r (round_up (2 ^ a) ndw) s in
    let ws = padded a r.nop vs in
    let len = length-padded a r.nop vs in
    let within : length ws ≤ round_up (2 ^ a) ndw =
      omega (arith, len, round_up_mono (2 ^ a) (length vs) ndw (pow-pos a) n) in
    let frame = write_all_frame r1 ws in
    let to = wptr-write_all r1 ws s1 ∙ ap (λ (t : ℕ). (r.wptr + t) % 2 ^ p) len in
    rw (alloc_fits r ndw s wrap fits, commit-closed, padded-write r1 vs s1 z)
      (
        closed_log (write_all r1 ws) r1 frame.0
            (log-write_all r1 ws (round_up (2 ^ a) ndw) refl within),
        count_dw-write_all r1 ws
            ∙ left_over (round_up (2 ^ a) ndw) (length ws) within
            ∙ ap (λ (t : ℕ). pos (round_up (2 ^ a) ndw - t)) len,
        wptr-mod r1 ws s1 z ∙ ap (λ (t : ℕ). t % 2 ^ a) len ∙ round_up-mod (2 ^ a) (length vs),
        buf-write_all r1 ws s1 ∙ sym (buf-write_all r ws s),
        to,
      )

alloc_remembers : (r : Ring) (ndw : ℕ) → (alloc r ndw).0 ≡ ok → (alloc r ndw).1.wptr_old ≡ r.wptr
unfolding alloc
alloc_remembers r ndw e = ground arith

-- `gsgpu_ring_undo` takes back the write pointer of a reservation, whatever was written since.
undo-alloc :
    (r : Ring) (ndw : ℕ) (vs : List ℕ)
    → (alloc r ndw).0 ≡ ok
    → (undo (write_all (alloc r ndw).1 vs)).wptr ≡ r.wptr
unfolding undo
undo-alloc r ndw vs e = (write_all_frame (alloc r ndw).1 vs).1 ∙ alloc_remembers r ndw e
