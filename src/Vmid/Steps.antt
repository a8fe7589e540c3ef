-- ===== src/Vmid/Steps.antt =====
-- What the steps of the choice of a VMID leave.
use loongson_gsgpu_dkms_modu.Base.{
  ℕ, ◌≡◌, refl, subst, ◌∙◌, inl, inr, true, false, List, [], ◌∷◌, Option, none, some, ◌==◌, All,
  All-split, Bool-cases, arith,
}
use loongson_gsgpu_dkms_modu.Sync.{Fences, Entry, peek_fence, wait_for, verdict}
use loongson_gsgpu_dkms_modu.Sync.Peek.{
  concat, unsignaled, IsPassed, Peeked, peek_fence_outcome, waits_unsignaled,
}
use loongson_gsgpu_dkms_modu.Vmid.{Slot, put_slot, pick, find_idle}

-- A job on the ring need not wait for anything that uses the VMID.
abbrev pub IsIdle : Fences → ℕ → Slot → Type 0
IsIdle w ring v = All (IsPassed w (some ring)) (concat v.active.buckets)

-- The VMID belongs to the same address space as before, and is no less in use.
pub record Same (w : Fences) (ring : ℕ) (v v' : Slot) : Type 0 where
  pub owner : v'.owner ≡ v.owner
  pub pd : v'.pd_gpu_addr ≡ v.pd_gpu_addr
  pub flush : v'.last_flush ≡ v.last_flush
  pub updates : v'.flushed_updates ≡ v.flushed_updates
  pub busy : IsIdle w ring v' → IsIdle w ring v

Same-refl : (w : Fences) (ring : ℕ) (v : Slot) → Same w ring v v
Same-refl w ring v = record { owner = refl; pd = refl; flush = refl; updates = refl; busy = λ h. h }

Same-trans :
    (w : Fences) (ring : ℕ) (u v x : Slot) → Same w ring u v → Same w ring v x → Same w ring u x
Same-trans w ring u v x s t = record {
  owner = t.owner ∙ s.owner;
  pd = t.pd ∙ s.pd;
  flush = t.flush ∙ s.flush;
  updates = t.updates ∙ s.updates;
  busy = λ h. s.busy (t.busy h);
}

-- What waits is not passed.
waits_not_passed :
    (w : Fences) (ring : Option ℕ) (e : Entry) (g : ℕ)
    → verdict w ring e.fence ≡ wait_for g
    → IsPassed w ring e
    → ⊥
waits_not_passed w ring e g h (inl q) = cc
waits_not_passed w ring e g h (inr q) = cc

IsPassed-of_left :
    (w : Fences) (ring : Option ℕ) (es : List Entry) (r : Option ℕ) (left : List Entry)
    → Peeked w ring es (r, left)
    → All (IsPassed w ring) left
    → All (IsPassed w ring) es
IsPassed-of_left w ring es none left h passed = h.0
IsPassed-of_left w ring es (some g) left (pre, e, post, at, before, stops, rest) passed =
    let tail = All-split (IsPassed w ring) (unsignaled w pre) (e ∷ post) (rw rest at passed) in
    absurd (waits_not_passed w ring e g stops tail.1.0)

idle_of_none :
    (w : Fences) (ring : Option ℕ) (es : List Entry) (r : Option ℕ) (left : List Entry)
    → Peeked w ring es (r, left)
    → r ≡ none
    → All (IsPassed w ring) es
idle_of_none w ring es none left h e = h.0
idle_of_none w ring es (some g) left h e = cc

waits_for :
    (w : Fences) (ring : Option ℕ) (es : List Entry) (r : Option ℕ) (left : List Entry) (g : ℕ)
    → Peeked w ring es (r, left)
    → r ≡ some g
    → w.signaled g ≡ false
waits_for w ring es none left g h e = cc
waits_for w ring es (some f) left g (pre, x, post, at, before, stops, rest) e =
    waits_unsignaled w ring x.fence g
      (let same : f ≡ g = cc in subst (λ (n : ℕ). verdict w ring x.fence ≡ wait_for n) same stops)

-- A slot whose set the job looked at.
module _ (w : Fences) (ring : ℕ) (v : Slot) where
  pub peek-Same : Same w ring v (record v { active = (peek_fence w (some ring) v.active).1 })
  peek-Same = record {
    owner = refl;
    pd = refl;
    flush = refl;
    updates = refl;
    busy =
        IsPassed-of_left w (some ring) (concat v.active.buckets)
          (peek_fence w (some ring) v.active).0
          (concat (peek_fence w (some ring) v.active).1.buckets)
          (peek_fence_outcome w (some ring) v.active);
  }

  pub peek-IsIdle : (peek_fence w (some ring) v.active).0 ≡ none → IsIdle w ring v
  peek-IsIdle =
      idle_of_none w (some ring) (concat v.active.buckets) (peek_fence w (some ring) v.active).0
        (concat (peek_fence w (some ring) v.active).1.buckets)
        (peek_fence_outcome w (some ring) v.active)

  pub peek-waits : (g : ℕ) → (peek_fence w (some ring) v.active).0 ≡ some g → w.signaled g ≡ false
  peek-waits g =
      waits_for w (some ring) (concat v.active.buckets) (peek_fence w (some ring) v.active).0
        (concat (peek_fence w (some ring) v.active).1.buckets) g
        (peek_fence_outcome w (some ring) v.active)

All-unsignaled :
    (w : Fences) (ring : Option ℕ) (es : List Entry)
    → All (IsPassed w ring) es
    → All (IsPassed w ring) (unsignaled w es)
All-unsignaled w ring [] h = tt
All-unsignaled w ring (e ∷ es) h = elim (Bool-cases (w.signaled e.fence)) [
  | inl y ↦ rw y (All-unsignaled w ring es h.1)
  | inr n ↦ rw n (h.0, All-unsignaled w ring es h.1)
]

left_of_none :
    (w : Fences) (ring : Option ℕ) (es : List Entry) (r : Option ℕ) (left : List Entry)
    → Peeked w ring es (r, left)
    → r ≡ none
    → All (IsPassed w ring) left
left_of_none w ring es none left h e = rw h.1 (All-unsignaled w ring es h.0)
left_of_none w ring es (some g) left h e = cc

-- An idle VMID is idle when its set was looked at.
peeked_idle :
    (w : Fences) (ring : ℕ) (v : Slot)
    → (peek_fence w (some ring) v.active).0 ≡ none
    → IsIdle w ring (record v { active = (peek_fence w (some ring) v.active).1 })
peeked_idle w ring v =
    left_of_none w (some ring) (concat v.active.buckets) (peek_fence w (some ring) v.active).0
      (concat (peek_fence w (some ring) v.active).1.buckets)
      (peek_fence_outcome w (some ring) v.active)

pub put_self : (ids : ℕ → Slot) (i : ℕ) (v : Slot) → put_slot ids i v i ≡ v
unfolding put_slot
put_self ids i v = let same : (i == i) ≡ true = ground arith in rw same refl

-- A slot that is put where the same one was.
put-Same :
    (w : Fences) (ring : ℕ) (ids : ℕ → Slot) (i : ℕ) (v : Slot)
    → Same w ring (ids i) v
    → (j : ℕ) → Same w ring (ids j) (put_slot ids i v j)
unfolding put_slot
put-Same w ring ids i v same j = elim (Bool-cases (j == i)) [
  | inl y ↦
      let same_slot : i ≡ j = ground arith in
      rw y (subst (λ (n : ℕ). Same w ring (ids n) v) same_slot same)
  | inr n ↦ rw n (Same-refl w ring (ids j))
]

-- What the walk of `gsgpu_vmid_grab_idle` finds: a VMID that is idle, or fences that are not signaled.
abbrev pub Found : Fences → ℕ → (ℕ → Slot) → Option ℕ × List ℕ × (ℕ → Slot) → Type 0
Found w ring ids (none, fs, ids') =
    All (λ f. w.signaled f ≡ false) fs × ((j : ℕ) → Same w ring (ids j) (ids' j))
Found w ring ids (some i, fs, ids') =
    IsIdle w ring (ids' i) × ((j : ℕ) → Same w ring (ids j) (ids' j))

-- A turn of the walk.
pick-Found :
    (w : Fences) (ring : ℕ) (ids ids' : ℕ → Slot) (i : ℕ) (f : Option ℕ)
    → ((j : ℕ) → Same w ring (ids j) (ids' j))
    → (f ≡ none → IsIdle w ring (ids' i))
    → ((g : ℕ) → f ≡ some g → w.signaled g ≡ false)
    → (r : Option ℕ × List ℕ × (ℕ → Slot)) → Found w ring ids' r
    → Found w ring ids (pick i f ids' r)
unfolding pick
pick-Found w ring ids ids' i none same idle waits r h = (idle refl, same)
pick-Found w ring ids ids' i (some g) same idle waits (none, fs, ids'') h =
    ((waits g refl, h.0), λ j. Same-trans w ring (ids j) (ids' j) (ids'' j) (same j) (h.1 j))
pick-Found w ring ids ids' i (some g) same idle waits (some k, fs, ids'') h =
    (h.0, λ j. Same-trans w ring (ids j) (ids' j) (ids'' j) (same j) (h.1 j))

pub find_idle-Found :
    (w : Fences) (ring : ℕ) (ids : ℕ → Slot) (is : List ℕ)
    → Found w ring ids (find_idle w ring ids is)
unfolding find_idle
find_idle-Found w ring ids [] = (tt, λ j. Same-refl w ring (ids j))
find_idle-Found w ring ids (i ∷ is) =
    let peeked = peek_fence w (some ring) (ids i).active in
    let v : Slot = record (ids i) { active = peeked.1 } in
    pick-Found w ring ids (put_slot ids i v) i peeked.0
      (put-Same w ring ids i v (peek-Same w ring (ids i)))
      (λ e. rw (put_self ids i v) (peeked_idle w ring (ids i) e)) (peek-waits w ring (ids i))
      (find_idle w ring (put_slot ids i v) is) (find_idle-Found w ring (put_slot ids i v) is)

-- It is one of the list.
pick_listed :
    (P : ℕ → Type 0) (ids : ℕ → Slot) (i j : ℕ) (f : Option ℕ) (r : Option ℕ × List ℕ × (ℕ → Slot))
    → P i
    → (r.0 ≡ some j → P j)
    → (pick i f ids r).0 ≡ some j
    → P j
unfolding pick
pick_listed P ids i j none r here rest e = let same : i ≡ j = cc in subst P same here
pick_listed P ids i j (some g) (found, fs, ids') here rest e = rest e

pub find_idle_listed :
    (P : ℕ → Type 0) (w : Fences) (ring : ℕ) (ids : ℕ → Slot) (is : List ℕ) (j : ℕ)
    → All P is
    → (find_idle w ring ids is).0 ≡ some j
    → P j
unfolding find_idle
find_idle_listed P w ring ids [] j all e = cc
find_idle_listed P w ring ids (i ∷ is) j all e =
    let peeked = peek_fence w (some ring) (ids i).active in
    let ids' = put_slot ids i (record (ids i) { active = peeked.1 }) in
    pick_listed P ids' i j peeked.0 (find_idle w ring ids' is) all.0
      (find_idle_listed P w ring ids' is j all.1) e
