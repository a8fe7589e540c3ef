-- ===== src/Ring/Priority.antt =====
-- `gsgpu_ring_priority_get` and `gsgpu_ring_priority_put` of gsgpu/gpu/gsgpu_ring.c: a ring runs at
-- the highest priority for which a job is queued. Each call is taken as one step.
use loongson_gsgpu_dkms_modu.Base.{
  ℕ, zero, suc, ◌+◌, ◌-◌, ◌≤◌, ◌<◌, ◌≡◌, ap, ◌∙◌, ◌⊎◌, inl, inr, List, ◌∷◌, Bool, true, false,
  if◌then◌else◌, not, ltb, leb, ◌==◌, ◌||◌, ℤ, pos, negsuc, add_ℤℕ, sub_ℤℕ, leb_ℤℕ, Bool-cases,
  ==_iff, ltb→lt, arith,
}

-- `DRM_SCHED_PRIORITY_NORMAL` and `DRM_SCHED_PRIORITY_MAX`; `MIN` is zero.
abbrev pub normal : ℕ
normal = 1

abbrev pub priority_max : ℕ
priority_max = 5

-- The priority fields of `struct gsgpu_ring`. `num_jobs` has an entry for each priority below
-- `priority_max`. `calls` lists the arguments of `funcs->set_priority`, newest first.
pub record Prio : Type 0 where
  pub has_set_priority : Bool
  pub num_jobs : ℕ → ℤ
  pub priority : ℕ
  pub calls : List ℕ

update : (ℕ → ℤ) → ℕ → ℤ → ℕ → ℤ
update f p v q = if p == q then v else f q

raise : Prio → ℕ → Prio
raise s p = record s { priority = p; calls = p ∷ s.calls }

-- `gsgpu_ring_priority_get`.
pub get : Prio → ℕ → Prio
unfolding update raise
get s p =
    let n = add_ℤℕ (s.num_jobs p) 1 in
    let t = record s { num_jobs = update s.num_jobs p n } in
    if not s.has_set_priority
    then s
    else if leb_ℤℕ n 0
    then t
    else if leb p s.priority
    then t
    else raise t p

-- The loop of `gsgpu_ring_priority_put`, downwards from `i`.
nonzero : ℤ → Bool
nonzero (pos zero) = false
nonzero (pos (suc n)) = true
nonzero (negsuc n) = true

pub decay : Prio → ℕ → Prio
unfolding raise nonzero
decay s zero = if nonzero (s.num_jobs 0) then raise s 0 else s
decay s (suc i) =
    let below = decay s i in
    if suc i == normal || nonzero (s.num_jobs (suc i)) then raise s (suc i) else below

-- `gsgpu_ring_priority_put`, behind the test that there is a hook.
pub put_job : Prio → ℕ → Prio
unfolding update
put_job s p =
    let n = sub_ℤℕ (s.num_jobs p) 1 in
    let t = record s { num_jobs = update s.num_jobs p n } in
    if not (leb_ℤℕ n 0)
    then t
    else if p == normal
    then t
    else if ltb p s.priority
    then t
    else decay t p

pub put : Prio → ℕ → Prio
put s p = if not s.has_set_priority then s else put_job s p

-- What the two calls keep: counts are numbers, the ring runs at least at the normal priority, no job
-- is queued above its priority, and above the normal one there is a job at its priority.
pub record IsPrio (jobs : ℕ → ℕ) (s : Prio) : Type 0 where
  pub counts : (p : ℕ) → s.num_jobs p ≡ pos (jobs p)
  pub at_least : normal ≤ s.priority
  pub covers : (p : ℕ) → 0 < jobs p → p ≤ s.priority
  pub needed : (s.priority ≡ normal) ⊎ (0 < jobs s.priority)

abbrev pub more : (ℕ → ℕ) → ℕ → ℕ → ℕ
more jobs p q = if p == q then jobs q + 1 else jobs q

abbrev pub fewer : (ℕ → ℕ) → ℕ → ℕ → ℕ
fewer jobs p q = if p == q then jobs q - 1 else jobs q

-- What the downward loop finds from `i` on.
record Found (jobs : ℕ → ℕ) (i : ℕ) (s : Prio) : Type 0 where
  least : normal ≤ s.priority
  most : s.priority ≤ i
  top : (q : ℕ) → q ≤ i → 0 < jobs q → q ≤ s.priority
  reason : (s.priority ≡ normal) ⊎ (0 < jobs s.priority)

num_jobs-decay : (s : Prio) (i : ℕ) → (decay s i).num_jobs ≡ s.num_jobs
unfolding decay
num_jobs-decay s zero = ground arith
num_jobs-decay s (suc i) = ground (arith, num_jobs-decay s i)

decay-Found :
    (jobs : ℕ → ℕ) (s : Prio) (i : ℕ)
    → ((q : ℕ) → s.num_jobs q ≡ pos (jobs q))
    → normal ≤ i
    → Found jobs i (decay s i)
unfolding decay raise nonzero
decay-Found jobs s zero e h = absurd (omega arith)
decay-Found jobs s (suc i) e h =
    elim (Bool-cases (suc i == normal || nonzero (s.num_jobs (suc i)))) [
      | inl hit ↦ rw hit (record {
        least = h;
        most = omega arith;
        top = λ q le b. le;
        reason = ground (arith, e (suc i));
      })
      | inr miss ↦
          let found = decay-Found jobs s i e (ground arith) in
          rw miss (record {
            least = found.least;
            most = omega (arith, found.most);
            top = λ q le b. ground (arith, e (suc i), found.top q);
            reason = found.reason;
          })
    ]

lowered :
    {jobs : ℕ → ℕ} (s : Prio) (p q : ℕ)
    → 0 < jobs p
    → IsPrio jobs s
    → update s.num_jobs p (sub_ℤℕ (s.num_jobs p) 1) q ≡ pos (fewer jobs p q)
unfolding update
lowered s p q h v = ground (arith, v.counts q, v.counts p)

-- A request raises the count of its priority and keeps the invariant: the ring runs at the highest
-- priority with a job, or at the normal one. The ring has a hook to set priorities.
get-IsPrio :
    {jobs : ℕ → ℕ} (s : Prio) (p : ℕ)
    → s.has_set_priority ≡ true
    → IsPrio jobs s
    → IsPrio (more jobs p) (get s p)
unfolding get
get-IsPrio {jobs} s p on v = record {
  counts = λ q. ground (arith, v.counts q, v.counts p);
  at_least = ground (arith, v.counts p);
  covers = λ q b. ground (arith, v.counts p, v.covers q);
  needed = ground (arith, v.counts p);
}

put_job-IsPrio :
    {jobs : ℕ → ℕ} (s : Prio) (p : ℕ)
    → 0 < jobs p
    → IsPrio jobs s
    → IsPrio (fewer jobs p) (put_job s p)
unfolding put_job
put_job-IsPrio {jobs} s p h v =
    let n = sub_ℤℕ (s.num_jobs p) 1 in
    let t : Prio = record s { num_jobs = update s.num_jobs p n } in
    let here = v.counts p in
    let cov = v.covers p h in
    let kept : ((p ≡ normal) ⊎ (p < s.priority) ⊎ (1 < jobs p)) → IsPrio (fewer jobs p) t = λ c.
      record {
        counts = λ q. lowered s p q h v;
        at_least = v.at_least;
        covers = λ q b. ground (arith, v.covers q);
        needed = ground arith;
      } in
    elim (Bool-cases (leb_ℤℕ n 0)) [
      | inr some_left ↦ rw some_left (kept (inr (inr (ground arith))))
      | inl last ↦ rw last (elim (Bool-cases (p == normal)) [
        | inl usual ↦ rw usual (kept (inl ((==_iff p normal).0 usual)))
        | inr unusual ↦ rw unusual (elim (Bool-cases (ltb p s.priority)) [
          | inl above ↦ rw above (kept (inr (inl (ltb→lt p s.priority above))))
          | inr top ↦
              let found = decay-Found (fewer jobs p) t p (λ q. lowered s p q h v) (ground arith) in
              rw top (record {
                counts = λ q. ap (λ (f : ℕ → ℤ). f q) (num_jobs-decay t p) ∙ lowered s p q h v;
                at_least = found.least;
                covers = λ q b. ground (arith, v.covers q, found.top q);
                needed = found.reason;
              })
        ])
      ])
    ]

-- The release of a request that was made lowers the count of its priority and keeps the invariant.
put-IsPrio :
    {jobs : ℕ → ℕ} (s : Prio) (p : ℕ)
    → s.has_set_priority ≡ true
    → 0 < jobs p
    → IsPrio jobs s
    → IsPrio (fewer jobs p) (put s p)
unfolding put
put-IsPrio s p on h v = simp on (put_job-IsPrio s p h v)
