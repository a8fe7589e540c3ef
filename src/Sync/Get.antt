-- ===== src/Sync/Get.antt =====
-- Taking fences out of the set, as the scheduler does before a job runs.
use loongson_gsgpu_dkms_modu.Base.{
  ◌≡◌, refl, ap, ◌∙◌, inl, inr, true, false, List, [], ◌∷◌, ◌++◌, Option, none, some, All,
  Bool-cases, subst,
}
use loongson_gsgpu_dkms_modu.Sync.{Fences, Entry, Sync, get_bucket, get_buckets, get_fence}
use loongson_gsgpu_dkms_modu.Sync.Peek.{concat}

-- What taking an entry out of `es` gives and leaves.
abbrev pub Taken : Fences → List Entry → Option Entry × List Entry → Type 0
Taken w es (none, left) = All (λ e. w.signaled e.fence ≡ true) es × (left ≡ [])
Taken w es (some x, left) =
    (pre : List Entry) × (es ≡ pre ++ (x ∷ left))
    × All (λ e. w.signaled e.fence ≡ true) pre
    × (w.signaled x.fence ≡ false)

pass :
    (w : Fences) (e : Entry) (es left : List Entry) (r : Option Entry)
    → w.signaled e.fence ≡ true
    → Taken w es (r, left)
    → Taken w (e ∷ es) (r, left)
pass w e es left none y (all, h) = ((y, all), h)
pass w e es left (some x) y (pre, at, all, n) = (e ∷ pre, ap (◌∷◌ e) at, (y, all), n)

get_bucket-Taken : (w : Fences) (es : List Entry) → Taken w es (get_bucket w es)
unfolding get_bucket
get_bucket-Taken w [] = (tt, refl)
get_bucket-Taken w (e ∷ es) =
    let q = get_bucket w es in
    elim (Bool-cases (w.signaled e.fence)) [
      | inl y ↦ rw (y, get_bucket) (pass w e es q.1 q.0 y (get_bucket-Taken w es))
      | inr n ↦ rw (n, get_bucket) ([], refl, tt, n)
    ]

-- Two lists walked one after the other.
abbrev after :
    Option Entry × List Entry → List Entry → Option Entry × List Entry → Option Entry × List Entry
after (none, xs') ys (r, ys') = (r, xs' ++ ys')
after (some x, xs') ys q = (some x, xs' ++ ys)

abbrev flat : Option Entry × List (List Entry) → Option Entry × List Entry
flat (r, bs) = (r, concat bs)

get_bucket-append :
    (w : Fences) (xs ys : List Entry)
    → get_bucket w (xs ++ ys) ≡ after (get_bucket w xs) ys (get_bucket w ys)
unfolding get_bucket
get_bucket-append w [] ys = refl
get_bucket-append w (e ∷ xs) ys = elim (Bool-cases (w.signaled e.fence)) [
  | inl y ↦ rw (y, get_bucket) (get_bucket-append w xs ys)
  | inr n ↦ rw (n, get_bucket) refl
]

join :
    (p : Option Entry × List Entry) (bs : List (List Entry)) (q : Option Entry × List (List Entry))
    → after p (concat bs) (flat q)
      ≡ flat (elim p.0 [ none ↦ (q.0, p.1 ∷ q.1) | some x ↦ (some x, p.1 ∷ bs) ])
join (none, left) bs q = refl
join (some g, left) bs q = refl

get_bucket_nil : (w : Fences) → get_bucket w [] ≡ (none, [])
unfolding get_bucket
get_bucket_nil w = refl

get_buckets-concat :
    (w : Fences) (bs : List (List Entry)) → get_bucket w (concat bs) ≡ flat (get_buckets w bs)
unfolding get_buckets
get_buckets-concat w [] = get_bucket_nil w
get_buckets-concat w (b ∷ bs) =
    let p = get_bucket w b in
    get_bucket-append w b (concat bs)
    ∙ ap (after p (concat bs)) (get_buckets-concat w bs)
    ∙ join p bs (get_buckets w bs)

-- The set gives the first entry whose fence is not signaled and keeps what stands behind it; the
-- signaled entries before it are dropped. If every fence is signaled it gives none and is empty.
pub get_fence_outcome :
    (w : Fences) (s : Sync)
    → let (r, s') = get_fence w s in Taken w (concat s.buckets) (r, concat s'.buckets)
unfolding get_fence
get_fence_outcome w s =
    subst (Taken w (concat s.buckets)) (get_buckets-concat w s.buckets)
      (get_bucket-Taken w (concat s.buckets))
