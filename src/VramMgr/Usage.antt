-- ===== src/VramMgr/Usage.antt =====
-- The bytes of VRAM in use.
use loongson_gsgpu_dkms_modu.Base.{
  ℕ, zero, suc, ◌+◌, ◌-◌, ◌*◌, ◌/◌, ◌^◌, ◌≤◌, ◌<◌, min, max, ◌≡◌, refl, sym, ap, ◌∙◌, subst, ◌⊎◌,
  inl, inr, Bool, Option, none, some, List, [], ◌∷◌, ◌++◌, arith, ◌==◌, if◌then◌else◌, Bool-cases,
  Option-cases, Errno, Status, ok, err, einval, enomem, enospc, eacces, enodata, enoent, enodev,
  eperm, efault, true, false, u64_mod, ◌≢◌,
}
use native.Mathlib.Nat.{add-mul, div-add-mod, mod-eq_of_lt, mod-lt, mul_comm}
use loongson_gsgpu_dkms_modu.VramMgr.{
  Range, Mgr, Device, Place, Mem, bytes, vis_size, div_round_up, pages_per_node, num_nodes,
  Inserted, Insert, Turn, take_node, next_pages, alignment_of, Looped, take_nodes, remove_node,
  unless_full, give_back, finish, first_turn, vram_new, at, failed, complete, stopped,
}

abbrev pub sum_pages : List Range → ℕ
sum_pages [] = 0
sum_pages (n ∷ nodes) = n.size + sum_pages nodes

abbrev pub sum_vis : Device → List Range → ℕ
sum_vis dev [] = 0
sum_vis dev (n ∷ nodes) = vis_size dev n + sum_vis dev nodes

pub bytes_add : (dev : Device) (a b : ℕ) → bytes dev a + bytes dev b ≡ bytes dev (a + b)
bytes_add dev a b = sym (add-mul a b (2 ^ dev.page_shift))

-- Of a range that ends below 2 ^ 64 bytes, the bytes below the end of visible VRAM are counted, although the
-- code subtracts on 64 bits: no more than the range has, all of them where it ends there or before, and none
-- where it starts there or after.
pub vis_size_lem :
    (dev : Device) (n : Range)
    → bytes dev (n.size + n.start) < u64_mod
    → (vis_size dev n
        ≡ min (bytes dev (n.size + n.start)) dev.visible_vram_size - bytes dev n.start)
      × (vis_size dev n ≤ bytes dev n.size)
unfolding vis_size
vis_size_lem dev n fits =
    let sum = bytes_add dev n.size n.start in
    let low : bytes dev n.start < u64_mod = omega (arith, sum) in
    rw (mod-eq_of_lt low, mod-eq_of_lt fits) (ground (arith, sum))

-- A range without pages has no bytes.
pub vis_size_zero : (dev : Device) (n : Range) → n.size ≡ 0 → vis_size dev n ≡ 0
unfolding vis_size
vis_size_zero dev n e =
    let same : n.size + n.start ≡ n.start = omega arith in rw same (ground arith)

sum_pages_snoc :
    (nodes : List Range) (n : Range) → sum_pages (nodes ++ n ∷ []) ≡ sum_pages nodes + n.size
sum_pages_snoc [] n = omega arith
sum_pages_snoc (x ∷ nodes) n = omega (arith, sum_pages_snoc nodes n)

sum_vis_snoc :
    (dev : Device) (nodes : List Range) (n : Range)
    → sum_vis dev (nodes ++ n ∷ []) ≡ sum_vis dev nodes + vis_size dev n
sum_vis_snoc dev [] n = omega arith
sum_vis_snoc dev (x ∷ nodes) n = omega (arith, sum_vis_snoc dev nodes n)

remove_head : (n : Range) (mm : List Range) → remove_node n (n ∷ mm) ≡ mm
unfolding remove_node
remove_head n mm = ground arith

give_back_snoc :
    (nodes : List Range) (n : Range) (mm : List Range)
    → give_back (nodes ++ n ∷ []) (n ∷ mm) ≡ give_back nodes mm
unfolding give_back
give_back_snoc [] n mm = remove_head n mm
give_back_snoc (x ∷ nodes) n mm = ap (remove_node x) (give_back_snoc nodes n mm)

-- What the turns of `gsgpu_vram_mgr_new` keep.
record Inv (dev : Device) (mm : List Range) (total : ℕ) (t : Turn) : Type 0 where
  pub restores : give_back t.nodes t.mm ≡ mm
  pub splits : sum_pages t.nodes + t.pages_left ≡ total
  pub counts : t.used ≡ bytes dev (sum_pages t.nodes)
  pub sees : t.vis_used ≡ sum_vis dev t.nodes

take_node-Inv :
    (dev : Device) (mem : Mem) (mm : List Range) (total : ℕ) (t : Turn) (pages from : ℕ)
    → pages ≤ t.pages_left
    → Inv dev mm total t
    → Inv dev mm total (take_node dev mem t pages from)
unfolding take_node
take_node-Inv dev mem mm total t pages from le h =
    let n : Range = record { start = from; size = pages } in
    record {
      restores = give_back_snoc t.nodes n t.mm ∙ h.restores;
      splits = omega (arith, sum_pages_snoc t.nodes n, h.splits);
      counts =
          ap (λ (x : ℕ). x + bytes dev pages) h.counts
          ∙ bytes_add dev (sum_pages t.nodes) pages
          ∙ ap (bytes dev) (sym (sum_pages_snoc t.nodes n));
      sees = omega (arith, sum_vis_snoc dev t.nodes n, h.sees);
    }

-- The pages left after `n` turns.
abbrev left_after : Option ℕ → ℕ → ℕ → ℕ
left_after none zero left = left
left_after none (suc n) left = 0
left_after (some per) n left = left - n * per

-- `drm_mm` has refused a range with this error.
abbrev pub Refused : Insert → Errno → Type 0
Refused insert r =
    (mm : List Range) × (pages : ℕ) × (alignment : ℕ) × (fpfn : ℕ) × (lpfn : ℕ) × (topdown : Bool)
    × (insert mm pages alignment fpfn lpfn topdown ≡ failed r)

abbrev Ended : Insert → Device → List Range → ℕ → ℕ → Looped → Type 0
Ended insert dev mm total left (complete t) = Inv dev mm total t × (t.pages_left ≡ left)
Ended insert dev mm total left (stopped r t) = Inv dev mm total t × Refused insert r

Inserted-cases : (i : Inserted) → ((r : Errno) × (i ≡ failed r)) ⊎ ((a : ℕ) × (i ≡ at a))
Inserted-cases (at a) = inr (a, refl)
Inserted-cases (failed r) = inl (r, refl)

next_le : (per : Option ℕ) (left : ℕ) → next_pages per left ≤ left
next_le none left = omega arith
next_le (some per) left = omega arith

left_step :
    (per : Option ℕ) (n left : ℕ)
    → left_after per n (left - next_pages per left) ≡ left_after per (suc n) left
left_step none zero left = omega arith
left_step none (suc n) left = refl
left_step (some per) n left = omega arith

take_nodes-Ended :
    (insert : Insert) (dev : Device) (per : Option ℕ) (fpfn lpfn : ℕ) (topdown : Bool) (mem : Mem)
    (mm : List Range) (total n : ℕ) (t : Turn)
    → Inv dev mm total t
    → Ended insert dev mm total
        (left_after per n t.pages_left)
        (take_nodes insert dev per fpfn lpfn topdown mem n t)
unfolding take_nodes take_node
take_nodes-Ended insert dev none fpfn lpfn topdown mem mm total zero t h = (h, refl)
take_nodes-Ended insert dev (some per) fpfn lpfn topdown mem mm total zero t h = (h, omega arith)
take_nodes-Ended insert dev per fpfn lpfn topdown mem mm total (suc n) t h =
    elim (Inserted-cases (
      insert t.mm (next_pages per t.pages_left) (alignment_of per mem (next_pages per t.pages_left))
        fpfn lpfn topdown)) [
          | inl (r, e) ↦
              rw (e, take_nodes)
                (
                  h,
                  (
                    t.mm,
                    next_pages per t.pages_left,
                    alignment_of per mem (next_pages per t.pages_left),
                    fpfn,
                    lpfn,
                    topdown,
                    e,
                  ),
                )
          | inr (a, e) ↦
              let pages = next_pages per t.pages_left in
              rw (e, take_nodes)
                (subst
                  (λ l. Ended insert dev mm total l (
                    take_nodes insert dev per fpfn lpfn topdown mem n
                      (take_node dev mem t pages a)))
                  (left_step per n t.pages_left)
                  (take_nodes-Ended insert dev per fpfn lpfn topdown mem mm total n
                    (take_node dev mem t pages a)
                    (take_node-Inv dev mem mm total t pages a (next_le per t.pages_left) h)))
        ]

div_up_lem : (a d : ℕ) → 0 < d → a - div_round_up a d * d ≡ 0
div_up_lem a d pd =
    omega (arith, div-add-mod (a + d - 1) d, mod-lt (a + d - 1) pd, mul_comm d ((a + d - 1) / d))

-- A device splits allocations at 16 pages or more, as `gsgpu_device_check_arguments` sees to, or not at all.
abbrev pub SplitsFrom : Option ℕ → Type 0
SplitsFrom none = Unit {0}
SplitsFrom (some split) = 16 ≤ split

abbrev pub IsChecked : Device → Type 0
IsChecked dev = SplitsFrom dev.vram_page_split

-- The ranges are as many as the pages need.
none_left :
    (dev : Device) (place : Place) (mem : Mem)
    → IsChecked dev
    → left_after
        (pages_per_node dev place mem)
        (num_nodes (pages_per_node dev place mem) mem.num_pages)
        mem.num_pages
      ≡ 0
unfolding pages_per_node num_nodes
none_left dev place mem aligned = elim (Bool-cases place.contiguous) [
  | inl y ↦ rw y refl
  | inr n ↦ elim (Option-cases dev.vram_page_split) [
    | inl e ↦ rw (n, e) refl
    | inr (split, e) ↦
        let large : 16 ≤ split = subst SplitsFrom e aligned in
        rw (n, e) (div_up_lem mem.num_pages (max split mem.page_alignment) (omega arith))
  ]
]

-- The status of a request that gets no ranges: there is no memory for them, or `drm_mm` refuses one; that it is
-- full is no error.
abbrev pub Failed : Insert → Bool → Status → Type 0
Failed insert memory r =
    ((memory ≡ false) × (r ≡ err enomem))
    ⊎ ((memory ≡ true)
        × ((e : Errno) × Refused insert e × (e ≡ enospc → r ≡ ok) × (e ≢ enospc → r ≡ err e)))

abbrev pub NewOutcome : Insert → Device → Bool → Mgr → Mem → Status × Mgr × Mem → Type 0
NewOutcome insert dev memory mgr mem (r, mgr', mem') =
    (Failed insert memory r × (mgr' ≡ mgr) × (mem'.mm_node ≡ mem.mm_node))
    ⊎ ((nodes : List Range) × (r ≡ ok)
        × (mem'.mm_node ≡ some nodes)
        × (mem'.num_pages ≡ mem.num_pages)
        × (sum_pages nodes ≡ mem.num_pages)
        × (mgr'.usage ≡ mgr.usage + bytes dev mem.num_pages)
        × (mgr'.vis_usage ≡ mgr.vis_usage + sum_vis dev nodes))

unless_full_lem :
    (e : Errno) → (e ≡ enospc → unless_full e ≡ ok) × (e ≢ enospc → unless_full e ≡ err e)
unless_full_lem enospc = (λ q. refl, λ ne. absurd (ne refl))
unless_full_lem einval = (λ q. cc, λ ne. refl)
unless_full_lem enomem = (λ q. cc, λ ne. refl)
unless_full_lem eacces = (λ q. cc, λ ne. refl)
unless_full_lem enodata = (λ q. cc, λ ne. refl)
unless_full_lem enoent = (λ q. cc, λ ne. refl)
unless_full_lem enodev = (λ q. cc, λ ne. refl)
unless_full_lem eperm = (λ q. cc, λ ne. refl)
unless_full_lem efault = (λ q. cc, λ ne. refl)

finish_lem :
    (insert : Insert) (dev : Device) (mgr : Mgr) (mem : Mem) (l : Looped)
    → Ended insert dev mgr.mm mem.num_pages 0 l
    → NewOutcome insert dev true mgr mem (finish mgr mem l)
unfolding finish
finish_lem insert dev mgr mem (stopped r t) (h, refused) = inl (
  inr (refl, (r, refused, (unless_full_lem r).0, (unless_full_lem r).1)),
  ap (λ l. record mgr { mm = l }) h.restores,
  refl,
)
finish_lem insert dev mgr mem (complete t) (h, done) =
    let whole : sum_pages t.nodes ≡ mem.num_pages = omega (arith, h.splits) in
    inr (
      t.nodes,
      refl,
      refl,
      refl,
      whole,
      ap (λ (x : ℕ). mgr.usage + x) (h.counts ∙ ap (bytes dev) whole),
      ap (λ (x : ℕ). mgr.vis_usage + x) h.sees,
    )

-- A request for VRAM, on a device that splits allocations at 16 pages or more or not at all, has one of two
-- outcomes. Either it gets no ranges, and the ranges and the counts are the old ones: then the status is
-- -ENOMEM for want of memory, or the error of `drm_mm`, but 0 where that is -ENOSPC. Or it succeeds, its ranges
-- have as many pages as it asked for, and the counts grow by its bytes and by those of them that are visible.
pub vram_new_outcome :
    (insert : Insert) (dev : Device) (size : ℕ) (memory : Bool) (mgr : Mgr) (place : Place)
    (mem : Mem)
    → IsChecked dev
    → NewOutcome insert dev memory mgr mem (vram_new insert dev size memory mgr place mem)
unfolding vram_new
vram_new_outcome insert dev size memory mgr place mem aligned =
    let per = pages_per_node dev place mem in
    elim (Bool-cases memory) [
      | inr n ↦ rw n (inl (inl (refl, refl), refl, refl))
      | inl y ↦ rw y (
          finish_lem insert dev mgr mem
            (take_nodes insert dev per place.fpfn (if place.lpfn == 0 then size else place.lpfn)
              place.topdown mem (num_nodes per mem.num_pages) (first_turn mgr mem))
            (subst
              (λ l. Ended insert dev mgr.mm mem.num_pages l (
                take_nodes insert dev per place.fpfn (if place.lpfn == 0 then size else place.lpfn)
                  place.topdown mem (num_nodes per mem.num_pages) (first_turn mgr mem)))
              (none_left dev place mem aligned)
              (take_nodes-Ended insert dev per place.fpfn
                (if place.lpfn == 0 then size else place.lpfn) place.topdown mem mgr.mm
                mem.num_pages (num_nodes per mem.num_pages) (first_turn mgr mem)
                (record {
                  restores = refl;
                  splits = omega arith;
                  counts = omega arith;
                  sees = refl;
                }))))
    ]
