-- ===== src/Ih/Drain.antt =====
-- The interrupt loop visits each entry between the read and the write pointer, once and in order.
use loongson_gsgpu_dkms_modu.Base.{
  ahead, ℕ, zero, suc, ◌+◌, ◌*◌, ◌/◌, ◌%◌, ◌^◌, ◌≤◌, ◌<◌, ◌≡◌, refl, sym, ap, subst, ◌∙◌, ◌-◌, ltb,
  inl, inr, Bool, true, false, List, [], ◌∷◌, Option, none, some, ◌==◌, if◌then◌else◌, bit_and,
  low_mask, bit_and-low_mask, mod_pow-mod_pow, pow-pos, u32_mod, arith, length, Bool-cases,
}
use native.Mathlib.Nat.{mod-eq_of_lt, mod-lt, mod-add-mod}
use loongson_gsgpu_dkms_modu.Ring.Round.{pow-le-30}
use loongson_gsgpu_dkms_modu.Ih.{
  Ih, Entry, Credits, take_credit, pasid_fault_credit, screened, dword, is_fault, prescreen, decode,
  round, add_to, drain,
}

-- A ring of `2 ^ k` dwords, the read pointer on an entry.
pub record IsRing (k : ℕ) (h : Ih) : Type 0 where
  pub room : 2 ≤ k
  pub fits : k ≤ 30
  pub mask : h.ptr_mask ≡ low_mask k
  pub storage : 2 ^ k ≤ length h.ring
  pub inside : h.rptr < 2 ^ k
  pub on_entry : h.rptr % 4 ≡ 0

-- The entry at a place of the ring, as the documentation lays it out.
abbrev pub entry_at : Ih → ℕ → Entry
entry_at h i = record {
  src_id = dword h i % 2 ^ 8;
  ring_id = dword h (i + 2) % 2 ^ 8;
  vmid = dword h (i + 2) / 2 ^ 8 % 2 ^ 8;
  pasid = dword h (i + 2) / 2 ^ 16 % 2 ^ 16;
  data0 = dword h (i + 1);
  data1 = dword h (i + 3);
}

-- The process whose credit an entry takes: that of a fault which names one.
abbrev pub charged : Ih → ℕ → Option ℕ
charged h i =
    if is_fault (dword h i % 2 ^ 8)
    then (if dword h (i + 2) / 2 ^ 16 == 0 then none else some (dword h (i + 2) / 2 ^ 16))
    else none

-- The faults of each process that have been visited, with one more.
abbrev pub count : (ℕ → ℕ) → Option ℕ → ℕ → ℕ
count seen none p = seen p
count seen (some q) p = if p == q then seen p + 1 else seen p

-- Whether a fault is dispatched, with this credit if there is one and after `n` faults.
abbrev pub covers : Option ℕ → ℕ → Bool
covers none n = true
covers (some c) n = ltb n c

-- Whether an entry is dispatched: a fault of a process with a credit only if fewer have been visited.
abbrev pub covered : Credits → (ℕ → ℕ) → Option ℕ → Bool
covered credits seen none = true
covered credits seen (some p) = covers (credits p) (seen p)

-- The entries that are dispatched, `n` of them visited from place `i`, after the faults `seen`.
abbrev pub wanted : Credits → (ℕ → ℕ) → Ih → ℕ → ℕ → ℕ → List Entry
wanted credits seen h k zero i = []
wanted credits seen h k (suc n) i =
    let rest = wanted credits (count seen (charged h i)) h k n ((i + 4) % 2 ^ k) in
    if covered credits seen (charged h i) then entry_at h i ∷ rest else rest

-- The faults of each process among them, with those of before.
abbrev pub faults : (ℕ → ℕ) → Ih → ℕ → ℕ → ℕ → ℕ → ℕ
faults seen h k zero i = seen
faults seen h k (suc n) i = faults (count seen (charged h i)) h k n ((i + 4) % 2 ^ k)

-- The credit after `n` faults, and the credits that the faults leave.
abbrev pub remaining : Option ℕ → ℕ → Option ℕ
remaining none n = none
remaining (some c) n = some (c - n)

abbrev pub left : Credits → (ℕ → ℕ) → Credits
left credits seen p = remaining (credits p) (seen p)

abbrev pub moved : Ih → ℕ → Ih
moved h i = record h { rptr = i }

abbrev AreLeft : Credits → (ℕ → ℕ) → Credits → Type 0
AreLeft credits seen now = (p : ℕ) → now p ≡ left credits seen p

-- A fault of a process, with a credit or without one.
take_credit_lem :
    (o : Option ℕ) (n : ℕ) (now : Credits) (p : ℕ)
    → now p ≡ remaining o n
    → (now' : Credits) × (take_credit (remaining o n) now p ≡ (covers o n, now'))
      × (now' p ≡ remaining o (n + 1))
      × ((q : ℕ) → (q == p) ≡ false → now' q ≡ now q)
unfolding take_credit
take_credit_lem none n now p h = (now, refl, h, λ q away. refl)
take_credit_lem (some c) n now p h = elim (Bool-cases (ltb n c)) [
  | inl y ↦
      let some_left : (c - n == 0) ≡ false = ground arith in
      let here : (p == p) ≡ true = ground arith in
      (
        λ q. if q == p then some (c - n - 1) else now q,
        rw (some_left, y) refl,
        rw here (ap some (omega arith)),
        λ q away. rw away refl,
      )
  | inr m ↦
      let none_left : (c - n == 0) ≡ true = ground arith in
      let over : c - n ≡ c - (n + 1) = ground arith in
      (now, rw (none_left, m) refl, h ∙ ap some over, λ q away. refl)
]

counted :
    (seen : ℕ → ℕ) (p : ℕ) (o : Option ℕ)
    → remaining o (seen p + 1) ≡ remaining o (count seen (some p) p)
counted seen p o = let here : (p == p) ≡ true = ground arith in rw here refl

uncounted :
    (seen : ℕ → ℕ) (p q : ℕ) (o : Option ℕ)
    → (q == p) ≡ false
    → remaining o (seen q) ≡ remaining o (count seen (some p) q)
uncounted seen p q o n = rw n refl

credit_lem :
    (credits now : Credits) (seen : ℕ → ℕ) (p : ℕ)
    → AreLeft credits seen now
    → (now' : Credits) × (pasid_fault_credit now p ≡ (covered credits seen (some p), now'))
      × AreLeft credits (count seen (some p)) now'
unfolding pasid_fault_credit
credit_lem credits now seen p h =
    let (now', run, here, others) = take_credit_lem (credits p) (seen p) now p (h p) in
    (
      now',
      ap (λ (o : Option ℕ). take_credit o now p) (h p) ∙ run,
      λ q. elim (Bool-cases (q == p)) [
        | inl y ↦
            let same : p ≡ q = ground arith in
            subst (λ (x : ℕ). now' x ≡ remaining (credits x) (count seen (some p) x)) same
              (here ∙ counted seen p (credits p))
        | inr n ↦ others q n ∙ (h q ∙ uncounted seen p q (credits q) n)
      ],
    )

abbrev passed : Ih → Bool → Ih
passed h w = if w then h else record h { rptr = (h.rptr + 4) % u32_mod }

screened_lem :
    (h : Ih) (w : Bool) (credits : Credits) → screened h (w, credits) ≡ (w, credits, passed h w)
unfolding screened
screened_lem h true credits = refl
screened_lem h false credits = refl

prescreen_lem :
    (credits now : Credits) (seen : ℕ → ℕ) (h : Ih)
    → AreLeft credits seen now
    → let w = covered credits seen (charged h h.rptr) in
      (now' : Credits) × (prescreen now h ≡ (w, now', passed h w))
      × AreLeft credits (count seen (charged h h.rptr)) now'
unfolding prescreen
prescreen_lem credits now seen h rel = elim (Bool-cases (is_fault (dword h h.rptr % 2 ^ 8))) [
  | inr n ↦ rw n (now, refl, rel)
  | inl y ↦ elim (Bool-cases (dword h (h.rptr + 2) / 2 ^ 16 == 0)) [
    | inl z ↦ rw (y, z) (now, refl, rel)
    | inr p ↦
        let pasid = dword h (h.rptr + 2) / 2 ^ 16 in
        let (now', run, rel') = credit_lem credits now seen pasid rel in
        rw (y, p)
          (
            now',
            ap (screened h) run ∙ screened_lem h (covered credits seen (some pasid)) now',
            rel',
          )
  ]
]

advance :
    {k : ℕ} (h : Ih)
    → IsRing k h
    → bit_and ((h.rptr + 4) % u32_mod) h.ptr_mask ≡ (h.rptr + 4) % 2 ^ k
advance {k} h r =
    let no_carry : (h.rptr + 4) % u32_mod ≡ h.rptr + 4 =
      mod-eq_of_lt (omega (arith, r.inside, pow-le-30 {k = k} r.fits)) in
    rw (r.mask, no_carry) (bit_and-low_mask (h.rptr + 4) k)

round_lem :
    {k : ℕ} (credits now : Credits) (seen : ℕ → ℕ) (h : Ih)
    → IsRing k h
    → AreLeft credits seen now
    → (now' : Credits) × (round now h ≡ (
      if covered credits seen (charged h h.rptr) then some (entry_at h h.rptr) else none,
      now',
      moved h ((h.rptr + 4) % 2 ^ k),
    ))
      × AreLeft credits (count seen (charged h h.rptr)) now'
unfolding round decode
round_lem {k} credits now seen h r rel =
    let (now', step, rel') = prescreen_lem credits now seen h rel in
    let next = ap (moved h) (advance h r) in
    (
      now',
      elim (Bool-cases (covered credits seen (charged h h.rptr))) [
        | inl y ↦
            let taken : prescreen now h ≡ (true, now', h) = step ∙ rw y refl in
            rw (taken, y) (ap (λ (x : Ih). (some (entry_at h h.rptr), now', x)) next)
        | inr n ↦
            let over : prescreen now h ≡ (false, now', record h { rptr = (h.rptr + 4) % u32_mod }) =
              step ∙ rw n refl in
            rw (over, n) (ap (λ (x : Ih). (none, now', x)) next)
      ],
      rel',
    )

moved-IsRing : {k : ℕ} (h : Ih) → IsRing k h → IsRing k (moved h ((h.rptr + 4) % 2 ^ k))
moved-IsRing {k} h r = record {
  room = r.room;
  fits = r.fits;
  mask = r.mask;
  storage = r.storage;
  inside = mod-lt (h.rptr + 4) (pow-pos k);
  on_entry = mod_pow-mod_pow (h.rptr + 4) 2 k r.room ∙ omega (arith, r.on_entry);
}

further : (m a n : ℕ) → ((a + 4) % m + 4 * n) % m ≡ (a + 4 * suc n) % m
further m a n = mod-add-mod (a + 4) m (4 * n) ∙ ap (λ (t : ℕ). t % m) (omega arith)

wanted-moved :
    (credits : Credits) (seen : ℕ → ℕ) (h : Ih) (k n i j : ℕ)
    → wanted credits seen (moved h j) k n i ≡ wanted credits seen h k n i
wanted-moved credits seen h k zero i j = refl
wanted-moved credits seen h k (suc n) i j =
    ap (λ (es : List Entry). if covered credits seen (charged h i) then entry_at h i ∷ es else es)
      (wanted-moved credits (count seen (charged h i)) h k n ((i + 4) % 2 ^ k) j)

faults-moved :
    (seen : ℕ → ℕ) (h : Ih) (k n i j : ℕ) → faults seen (moved h j) k n i ≡ faults seen h k n i
faults-moved seen h k zero i j = refl
faults-moved seen h k (suc n) i j =
    faults-moved (count seen (charged h i)) h k n ((i + 4) % 2 ^ k) j

nothing_seen : (o : Option ℕ) → o ≡ remaining o 0
nothing_seen none = refl
nothing_seen (some c) = ap some (omega arith)

-- The loop, with the credits that the faults before have left.
drain_lem :
    {k : ℕ} (n : ℕ) (credits now : Credits) (seen : ℕ → ℕ) (h : Ih)
    → IsRing k h
    → 4 * n < 2 ^ k
    → AreLeft credits seen now
    → let wptr = (h.rptr + 4 * n) % 2 ^ k in
      (now' : Credits) × (drain n now h wptr
        ≡ some (wanted credits seen h k n h.rptr, now', moved h wptr))
      × AreLeft credits (faults seen h k n h.rptr) now'
unfolding drain
drain_lem {k} zero credits now seen h r lt rel =
    let here : (h.rptr + 4 * 0) % 2 ^ k ≡ h.rptr =
      ap (λ (t : ℕ). t % 2 ^ k) (omega arith) ∙ mod-eq_of_lt r.inside in
    let same : (h.rptr == h.rptr) ≡ true = ground arith in (now, rw (here, same) refl, rel)
drain_lem {k} (suc n) credits now seen h r lt rel =
    let next = (h.rptr + 4) % 2 ^ k in
    let wptr = (h.rptr + 4 * suc n) % 2 ^ k in
    let apart : (h.rptr == wptr) ≡ false =
      ahead (2 ^ k) h.rptr (4 * suc n) r.inside (omega arith) lt in
    let (now', one, rel') = round_lem {k = k} credits now seen h r rel in
    let seen' = count seen (charged h h.rptr) in
    let later =
      drain_lem {k = k} n credits now' seen' (moved h next) (moved-IsRing h r) (omega (arith, lt))
        rel' in
    let w = covered credits seen (charged h h.rptr) in
    let rest = wanted credits seen' h k n next in
    let ih : drain n now' (moved h next) wptr ≡ some (rest, later.0, moved h wptr) =
      ap (drain n now' (moved h next)) (sym (further (2 ^ k) h.rptr n))
      ∙ later.1
      ∙ rw (wanted-moved credits seen' h k n next next, further (2 ^ k) h.rptr n) refl in
    let first : add_to (round now h).0 rest ≡ (if w then entry_at h h.rptr ∷ rest else rest) =
      ap (λ (t : Option Entry × Credits × Ih). add_to t.0 rest) one
      ∙ elim (Bool-cases w) [ inl y ↦ rw y refl | inr m ↦ rw m refl ] in
    (
      later.0,
      rw (apart, one, ih) (ap (λ (es : List Entry). some (es, later.0, moved h wptr)) first),
      λ p. later.2 p ∙ ap (λ (f : ℕ → ℕ). left credits f p) (faults-moved seen' h k n next next),
    )

-- The loop of the interrupt handler, started on an entry of a ring of `2 ^ k` dwords with the write
-- pointer `n` entries ahead, less than a turn: it ends within `n` rounds, dispatches in order the entries
-- on the way that are not screened out, decoded field by field, and leaves the read pointer at the write
-- pointer. Screened out are the faults of a process with a credit once as many of it have been visited as its
-- credit allows, and each credit is lessened by these faults, down to zero.
pub drain_ends :
    {k : ℕ} (n : ℕ) (credits : Credits) (h : Ih)
    → IsRing k h
    → 4 * n < 2 ^ k
    → let wptr = (h.rptr + 4 * n) % 2 ^ k in
      (credits' : Credits) × (drain n credits h wptr
        ≡ some (wanted credits (λ p. 0) h k n h.rptr, credits', moved h wptr))
      × ((p : ℕ) → credits' p ≡ left credits (faults (λ p. 0) h k n h.rptr) p)
drain_ends {k} n credits h r lt =
    drain_lem {k = k} n credits credits (λ p. 0) h r lt (λ p. nothing_seen (credits p))
