-- ===== src/Sync/Laws.antt =====
-- The table holds for each fence context the latest fence that was added.
use loongson_gsgpu_dkms_modu.Base.{
  ℕ, ◌<◌, ◌≡◌, refl, sym, ap, ◌∙◌, ◌⊎◌, inl, inr, ◌≢◌, Bool, true, false, List, [], ◌∷◌, Option,
  none, some, ◌==◌, ◌||◌, ◌&&◌, if◌then◌else◌, length, get_or, set, All, subst, Status, ok, err,
  enomem, arith, Bool-cases, Option-cases, get_or-set_self, get_or-set_ne, length-set,
}
use native.Mathlib.Decide.{ℕ_discrete}
use loongson_gsgpu_dkms_modu.Sync.{
  Fences, Entry, Sync, num_buckets, keep_later, add_later, same_dev, get_owner, owner_vm,
  owner_undefined, Sched, add, note_update, sync_fence,
}

-- The entry of a context in a bucket, and in the table.
pub find : Fences → ℕ → List Entry → Option Entry
find w c [] = none
find w c (e ∷ es) = if w.context e.fence == c then some e else find w c es

pub lookup : Fences → ℕ → Sync → Option Entry
unfolding find
lookup w c s = find w c (get_or s.buckets (w.bucket c) [])

-- Of a fence that may be there and one that is added, the later one; the added one if neither is.
abbrev pub later_of : Fences → Option ℕ → ℕ → ℕ
later_of w none f = f
later_of w (some k) f = if w.is_later k f then k else f

-- What a context's entry becomes when a fence is added.
abbrev pub merged : Fences → Option Entry → ℕ → Bool → Entry
merged w none f explicit = record { fence = f; explicit = explicit }
merged w (some e) f explicit = record {
  fence = if w.is_later e.fence f then e.fence else f;
  explicit = e.explicit || explicit;
}

-- The fence is that of an update of the page tables by the device.
abbrev pub is_vm_update : Fences → ℕ → ℕ → Bool
is_vm_update w dev f = elim (w.sched f) [
  | none ↦ false
  | some t ↦ t.dev == dev && t.owner == owner_vm
]

-- The hash gives one of the buckets.
pub record IsTable (w : Fences) (s : Sync) : Type 0 where
  pub size : length s.buckets ≡ num_buckets
  pub hash : (c : ℕ) → w.bucket c < num_buckets

kept_context :
    (w : Fences) (e : Entry) (f : ℕ)
    → w.context e.fence ≡ w.context f
    → w.context (keep_later w (some e.fence) f) ≡ w.context f
kept_context w e f h = elim (Bool-cases (w.is_later e.fence f)) [
  | inl y ↦ rw y h
  | inr n ↦ rw n refl
]

find_hit :
    (w : Fences) (c : ℕ) (e : Entry) (es : List Entry)
    → w.context e.fence ≡ c
    → find w c (e ∷ es) ≡ some e
unfolding find
find_hit w c e es h = ground arith

find_miss :
    (w : Fences) (c : ℕ) (e : Entry) (es : List Entry)
    → w.context e.fence ≢ c
    → find w c (e ∷ es) ≡ find w c es
unfolding find
find_miss w c e es h = ground arith

find_nil : (w : Fences) (c : ℕ) → find w c [] ≡ none
unfolding find
find_nil w c = refl

find_under :
    (w : Fences) (c : ℕ) (e : Entry) (es es' : List Entry)
    → find w c es ≡ find w c es'
    → find w c (e ∷ es) ≡ find w c (e ∷ es')
unfolding find
find_under w c e es es' h = ground (arith, h)

-- In a bucket: the context has no entry, or it has one and that is replaced by the merged one.
add_later_lem :
    (w : Fences) (es : List Entry) (f : ℕ) (explicit : Bool)
    → ((add_later w es f explicit ≡ none) × (find w (w.context f) es ≡ none))
      ⊎ ((e : Entry) × (es' : List Entry) × (add_later w es f explicit ≡ some es')
          × (find w (w.context f) es ≡ some e)
          × (find w (w.context f) es' ≡ some (merged w (some e) f explicit))
          × ((c : ℕ) → c ≢ w.context f → find w c es' ≡ find w c es))
unfolding add_later
add_later_lem w [] f explicit = inl (refl, find_nil w (w.context f))
add_later_lem w (e ∷ es) f explicit =
    let k = w.context f in
    let new = merged w (some e) f explicit in
    elim (ℕ_discrete (w.context e.fence) k) [
      | yes same ↦
          let at = kept_context w e f same in
          inr (
            e,
            new ∷ es,
            ground (arith, same),
            find_hit w k e es same,
            find_hit w k new es at,
            λ c ne.
                find_miss w c new es (λ q. ne (sym q ∙ at))
                ∙ sym (find_miss w c e es (λ q. ne (sym q ∙ same))),
          )
      | no other ↦ elim (add_later_lem w es f explicit) [
        | inl (a, b) ↦ inl (ground (arith, a), find_miss w k e es other ∙ b)
        | inr (x, es', a, b, c, d) ↦ inr (
          x,
          e ∷ es',
          ground (arith, a),
          find_miss w k e es other ∙ b,
          find_miss w k e es' other ∙ c,
          λ j ne. find_under w j e es' es (d j ne),
        )
      ]
    ]

set_other :
    (w : Fences) (bs : List (List Entry)) (i c : ℕ) (es : List Entry)
    → i < length bs
    → find w c es ≡ find w c (get_or bs i [])
    → find w c (get_or (set bs i es) (w.bucket c) []) ≡ find w c (get_or bs (w.bucket c) [])
set_other w bs i c es lt h = elim (ℕ_discrete i (w.bucket c)) [
  | yes q ↦ rw (← q, get_or-set_self bs i es [] lt) h
  | no ne ↦ ap (λ b. find w c b) (get_or-set_ne bs i (w.bucket c) es [] ne)
]

note_update-buckets :
    (w : Fences) (dev : ℕ) (s : Sync) (f : ℕ) → (note_update w dev s f).buckets ≡ s.buckets
unfolding note_update
note_update-buckets w dev s f =
    elim (Bool-cases (same_dev w dev f && (get_owner w f == owner_vm))) [
      | inl y ↦ rw y refl
      | inr n ↦ rw n refl
    ]

lookup-note_update :
    (w : Fences) (dev : ℕ) (s : Sync) (f c : ℕ) → lookup w c (note_update w dev s f) ≡ lookup w c s
unfolding lookup
lookup-note_update w dev s f c =
    ap (λ (bs : List (List Entry)). find w c (get_or bs (w.bucket c) []))
      (note_update-buckets w dev s f)

-- What an added fence leaves.
abbrev pub Added : Fences → Sync → ℕ → Bool → Bool → Status × Sync → Type 0
Added w s f explicit mem (r, s') =
    IsTable w s'
    × (((r ≡ ok)
          × (lookup w (w.context f) s' ≡ some (merged w (lookup w (w.context f) s) f explicit))
          × ((c : ℕ) → c ≢ w.context f → lookup w c s' ≡ lookup w c s))
        ⊎ ((r ≡ err enomem)
            × (mem ≡ false)
            × (lookup w (w.context f) s ≡ none)
            × (s'.buckets ≡ s.buckets)))

put_bucket :
    (w : Fences) (s : Sync) (f : ℕ) (explicit mem : Bool) (es : List Entry) (o : Option Entry)
    → IsTable w s
    → lookup w (w.context f) s ≡ o
    → find w (w.context f) es ≡ some (merged w o f explicit)
    → ((c : ℕ)
        → c ≢ w.context f
        → find w c es ≡ find w c (get_or s.buckets (w.bucket (w.context f)) []))
    → Added w s f explicit mem
        (ok, record s { buckets = set s.buckets (w.bucket (w.context f)) es })
unfolding lookup
put_bucket w s f explicit mem es o t was at off =
    let i = w.bucket (w.context f) in
    let lt : i < length s.buckets = omega (arith, t.size, t.hash (w.context f)) in
    (
      record { size = length-set s.buckets i es ∙ t.size; hash = t.hash },
      inl (
        refl,
        ap (λ b. find w (w.context f) b) (get_or-set_self s.buckets i es [] lt)
            ∙ at
            ∙ ap (λ (x : Option Entry). some (merged w x f explicit)) (sym was),
        λ c ne. set_other w s.buckets i c es lt (off c ne),
      ),
    )

add-Added :
    (w : Fences) (s : Sync) (f : ℕ) (explicit mem : Bool)
    → IsTable w s
    → Added w s f explicit mem (add w s f explicit mem)
unfolding add lookup
add-Added w s f explicit mem t =
    let i = w.bucket (w.context f) in
    let old = get_or s.buckets i [] in
    elim (add_later_lem w old f explicit) [
      | inr (e, es, a, b, c, d) ↦ rw (a, add) (put_bucket w s f explicit mem es (some e) t b c d)
      | inl (a, b) ↦ elim (Bool-cases mem) [
        | inr m ↦ rw (a, m, add) (t, inr (refl, refl, b, refl))
        | inl m ↦
            let new : Entry = record { fence = f; explicit = explicit } in
            rw (a, m, add)
              (put_bucket w s f explicit true (new ∷ old) none t b
                (find_hit w (w.context f) new old refl)
                (λ c ne. find_miss w c new old (λ q. ne (sym q))))
      ]
    ]

last_vm_update-add :
    (w : Fences) (s : Sync) (f : ℕ) (explicit mem : Bool)
    → (add w s f explicit mem).1.last_vm_update ≡ s.last_vm_update
unfolding add
last_vm_update-add w s f explicit mem =
    elim (Option-cases (add_later w (get_or s.buckets (w.bucket (w.context f)) []) f explicit)) [
      | inl e ↦ elim (Bool-cases mem) [ inl m ↦ rw (e, m, add) refl | inr m ↦ rw (e, m, add) refl ]
      | inr (es, e) ↦ rw (e, add) refl
    ]

of_update :
    (dev : ℕ) (o : Option Sched)
    → (elim o [ none ↦ false | some t ↦ t.dev == dev ])
        && ((elim o [ none ↦ owner_undefined | some t ↦ t.owner ]) == owner_vm)
      ≡ (elim o [ none ↦ false | some t ↦ t.dev == dev && t.owner == owner_vm ])
of_update dev none = refl
of_update dev (some t) = refl

keep_later-later_of : (w : Fences) (o : Option ℕ) (f : ℕ) → keep_later w o f ≡ later_of w o f
keep_later-later_of w none f = refl
keep_later-later_of w (some k) f = refl

last_vm_update-note_update :
    (w : Fences) (dev : ℕ) (s : Sync) (f : ℕ)
    → (note_update w dev s f).last_vm_update
      ≡ (if is_vm_update w dev f then some (later_of w s.last_vm_update f) else s.last_vm_update)
unfolding note_update
last_vm_update-note_update w dev s f =
    let test : same_dev w dev f && (get_owner w f == owner_vm) ≡ is_vm_update w dev f =
      of_update dev (w.sched f) in
    let kept = keep_later-later_of w s.last_vm_update f in
    elim (Bool-cases (same_dev w dev f && (get_owner w f == owner_vm))) [
      | inl y ↦ rw (← test, y) (ap some kept)
      | inr n ↦ rw (← test, n) refl
    ]

-- What an added fence leaves, with the last update of the page tables.
abbrev pub Synced : Fences → ℕ → Sync → ℕ → Bool → Bool → Status × Sync → Type 0
Synced w dev s f explicit mem (r, s') =
    Added w s f explicit mem (r, s')
    × (s'.last_vm_update
        ≡ (if is_vm_update w dev f then some (later_of w s.last_vm_update f) else s.last_vm_update))

-- A fence that is added to the set, where the hash gives one of the sixteen buckets: unless memory for a new
-- entry runs out, its context then has an entry with the later of the fence that it had and the new one, which
-- is explicit if either was, and every other context has the entry that it had. Out of memory the context had
-- no entry and the table is as it was. In both cases the last update of the page tables is the later of the
-- old one and the fence where this is of an update by the device, and the old one otherwise.
pub sync_fence_outcome :
    (w : Fences) (dev : ℕ) (s : Sync) (f : ℕ) (explicit mem : Bool)
    → IsTable w s
    → Synced w dev s f explicit mem (sync_fence w dev s (some f) explicit mem)
unfolding sync_fence
sync_fence_outcome w dev s f explicit mem t =
    let s' = note_update w dev s f in
    let t' : IsTable w s' = record {
      size = ap length (note_update-buckets w dev s f) ∙ t.size;
      hash = t.hash;
    } in
    let same = lookup-note_update w dev s f in
    let (table, got) = add-Added w s' f explicit mem t' in
    (
      (
        table,
        elim got [
          | inl (r, at, off) ↦ inl (r, rw (← same (w.context f)) at, λ c ne. off c ne ∙ same c)
          | inr (r, m, at, bs) ↦
              inr (r, m, sym (same (w.context f)) ∙ at, bs ∙ note_update-buckets w dev s f)
        ],
      ),
      last_vm_update-add w s' f explicit mem ∙ last_vm_update-note_update w dev s f,
    )

find-All :
    (P : Entry → Type 0) (w : Fences) (c : ℕ) (es : List Entry) (e : Entry)
    → All P es
    → find w c es ≡ some e
    → P e
unfolding find
find-All P w c [] e h q = cc
find-All P w c (x ∷ xs) e h q = elim (Bool-cases (w.context x.fence == c)) [
  | inl y ↦ let same : x ≡ e = ground arith in subst P same h.0
  | inr n ↦ find-All P w c xs e h.1 (ground arith)
]

-- What holds of all entries holds of the entry of a context.
pub lookup-All :
    (P : Entry → Type 0) (w : Fences) (c : ℕ) (s : Sync) (e : Entry)
    → ((i : ℕ) → All P (get_or s.buckets i []))
    → lookup w c s ≡ some e
    → P e
unfolding lookup
lookup-All P w c s e h = find-All P w c (get_or s.buckets (w.bucket c) []) e (h (w.bucket c))

pub lookup_none :
    (w : Fences) (c : ℕ) (s : Sync) → ((i : ℕ) → get_or s.buckets i [] ≡ []) → lookup w c s ≡ none
unfolding lookup find
lookup_none w c s h = rw (h (w.bucket c)) refl
