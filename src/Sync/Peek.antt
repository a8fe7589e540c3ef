-- ===== src/Sync/Peek.antt =====
-- The fence that the set gives to wait for, and what stays in the set.
use loongson_gsgpu_dkms_modu.Base.{
  ℕ, ◌≡◌, refl, sym, ap, ◌∙◌, subst, ◌==◌, ◌⊎◌, inl, inr, true, false, List, [], ◌∷◌, ◌++◌, Option,
  none, some, if◌then◌else◌, arith, All, Bool-cases, Option-cases,
}
use loongson_gsgpu_dkms_modu.Sync.{
  Fences, Entry, Sync, over, harmless, wait_for, verdict, peek_bucket, peek_buckets, peek_fence,
}

-- The entries in the order in which the code walks them.
abbrev pub concat : List (List Entry) → List Entry
concat [] = []
concat (b ∷ bs) = b ++ concat bs

-- What is left of entries that were passed: those whose fence is not signaled.
abbrev pub unsignaled : Fences → List Entry → List Entry
unsignaled w [] = []
unsignaled w (e ∷ es) = if w.signaled e.fence then unsignaled w es else e ∷ unsignaled w es

-- The job need not wait for the entry.
abbrev pub IsPassed : Fences → Option ℕ → Entry → Type 0
IsPassed w ring e = (verdict w ring e.fence ≡ over) ⊎ (verdict w ring e.fence ≡ harmless)

-- What a walk over `es` finds and leaves.
abbrev pub Peeked : Fences → Option ℕ → List Entry → Option ℕ × List Entry → Type 0
Peeked w ring es (none, left) = All (IsPassed w ring) es × (left ≡ unsignaled w es)
Peeked w ring es (some g, left) =
    (pre : List Entry) × (e : Entry) × (post : List Entry) × (es ≡ pre ++ (e ∷ post))
    × All (IsPassed w ring) pre
    × (verdict w ring e.fence ≡ wait_for g)
    × (left ≡ unsignaled w pre ++ (e ∷ post))

verdict-cases :
    (w : Fences) (ring : Option ℕ) (f : ℕ)
    → ((verdict w ring f ≡ over) × (w.signaled f ≡ true))
      ⊎ ((verdict w ring f ≡ harmless) × (w.signaled f ≡ false))
      ⊎ ((g : ℕ) × (verdict w ring f ≡ wait_for g) × (w.signaled f ≡ false))
unfolding verdict
verdict-cases w none f = elim (Bool-cases (w.signaled f)) [
  | inl y ↦ inl (rw y refl, y)
  | inr n ↦ inr (inr (f, rw n refl, n))
]
verdict-cases w (some r) f = elim (Bool-cases (w.signaled f)) [
  | inl y ↦ inl (rw y refl, y)
  | inr n ↦ elim (Option-cases (w.sched f)) [
    | inl q ↦ inr (inr (f, rw (n, q) refl, n))
    | inr (s, q) ↦ elim (Bool-cases (s.ring == r)) [
      | inr other ↦ inr (inr (f, rw (n, q, other) refl, n))
      | inl same ↦ elim (Bool-cases (w.signaled s.scheduled)) [
        | inl h ↦ inr (inl (rw (n, q, same, h) refl, n))
        | inr h ↦ inr (inr (s.scheduled, rw (n, q, same, h) refl, n))
      ]
    ]
  ]
]

-- A fence to wait for is not signaled.
pub waits_unsignaled :
    (w : Fences) (ring : Option ℕ) (f g : ℕ) → verdict w ring f ≡ wait_for g → w.signaled g ≡ false
unfolding verdict
waits_unsignaled w none f g h = ground arith
waits_unsignaled w (some r) f g h = elim (Option-cases (w.sched f)) [
  | inl q ↦ ground arith
  | inr (s, q) ↦ ground arith
]

pass_one :
    (w : Fences) (ring : Option ℕ) (e : Entry) (es : List Entry) (r : Option ℕ) (left : List Entry)
    → IsPassed w ring e
    → Peeked w ring es (r, left)
    → Peeked w ring (e ∷ es) (r, if w.signaled e.fence then left else e ∷ left)
pass_one w ring e es none left p (all, k) = ((p, all), rw k refl)
pass_one w ring e es (some g) left p (pre, x, post, at, all, v, k) = (
  e ∷ pre,
  x,
  post,
  ap (◌∷◌ e) at,
  (p, all),
  v,
  elim (Bool-cases (w.signaled e.fence)) [ inl y ↦ rw y k | inr n ↦ rw n (ap (◌∷◌ e) k) ],
)

peek_bucket-Peeked :
    (w : Fences) (ring : Option ℕ) (es : List Entry) → Peeked w ring es (peek_bucket w ring es)
unfolding peek_bucket
peek_bucket-Peeked w ring [] = (tt, refl)
peek_bucket-Peeked w ring (e ∷ es) =
    let q = peek_bucket w ring es in
    let ih = peek_bucket-Peeked w ring es in
    elim (verdict-cases w ring e.fence) [
      | inl (v, y) ↦ rw (v, peek_bucket) (rw y at (pass_one w ring e es q.0 q.1 (inl v) ih))
      | inr (inl (v, n)) ↦ rw (v, peek_bucket) (rw n at (pass_one w ring e es q.0 q.1 (inr v) ih))
      | inr (inr (g, v, n)) ↦ rw (v, peek_bucket) ([], e, es, refl, tt, v, refl)
    ]

peek_bucket_nil : (w : Fences) (ring : Option ℕ) → peek_bucket w ring [] ≡ (none, [])
unfolding peek_bucket
peek_bucket_nil w ring = refl

-- Two lists walked one after the other.
abbrev after : Option ℕ × List Entry → List Entry → Option ℕ × List Entry → Option ℕ × List Entry
after (none, xs') ys (r, ys') = (r, xs' ++ ys')
after (some g, xs') ys q = (some g, xs' ++ ys)

after_cons :
    (e : Entry) (p q : Option ℕ × List Entry) (ys : List Entry)
    → after (p.0, e ∷ p.1) ys q ≡ ((after p ys q).0, e ∷ (after p ys q).1)
after_cons e (none, xs') (r, ys') ys = refl
after_cons e (some g, xs') q ys = refl

peek_bucket-append :
    (w : Fences) (ring : Option ℕ) (xs ys : List Entry)
    → peek_bucket w ring (xs ++ ys) ≡ after (peek_bucket w ring xs) ys (peek_bucket w ring ys)
unfolding peek_bucket
peek_bucket-append w ring [] ys = refl
peek_bucket-append w ring (e ∷ xs) ys =
    let p = peek_bucket w ring xs in
    let q = peek_bucket w ring ys in
    let ih = peek_bucket-append w ring xs ys in
    elim (verdict-cases w ring e.fence) [
      | inl (v, y) ↦ rw (v, peek_bucket) ih
      | inr (inl (v, n)) ↦
          rw (v, peek_bucket)
            (ap (λ (t : Option ℕ × List Entry). (t.0, e ∷ t.1)) ih ∙ sym (after_cons e p q ys))
      | inr (inr (g, v, n)) ↦ rw (v, peek_bucket) refl
    ]

-- The walk over the buckets is the walk over their entries.
abbrev flat : Option ℕ × List (List Entry) → Option ℕ × List Entry
flat (r, bs) = (r, concat bs)

join :
    (p : Option ℕ × List Entry) (bs : List (List Entry)) (q : Option ℕ × List (List Entry))
    → after p (concat bs) (flat q)
      ≡ flat (elim p.0 [ none ↦ (q.0, p.1 ∷ q.1) | some x ↦ (some x, p.1 ∷ bs) ])
join (none, left) bs q = refl
join (some g, left) bs q = refl

peek_buckets-concat :
    (w : Fences) (ring : Option ℕ) (bs : List (List Entry))
    → peek_bucket w ring (concat bs) ≡ flat (peek_buckets w ring bs)
unfolding peek_buckets
peek_buckets-concat w ring [] = peek_bucket_nil w ring
peek_buckets-concat w ring (b ∷ bs) =
    let p = peek_bucket w ring b in
    peek_bucket-append w ring b (concat bs)
    ∙ ap (after p (concat bs)) (peek_buckets-concat w ring bs)
    ∙ join p bs (peek_buckets w ring bs)

pub peek_fence_outcome :
    (w : Fences) (ring : Option ℕ) (s : Sync)
    → let (r, s') = peek_fence w ring s in Peeked w ring (concat s.buckets) (r, concat s'.buckets)
unfolding peek_fence
peek_fence_outcome w ring s =
    subst (Peeked w ring (concat s.buckets)) (peek_buckets-concat w ring s.buckets)
      (peek_bucket-Peeked w ring (concat s.buckets))
