-- ===== src/Sa.antt =====
-- gsgpu/gpu/gsgpu_sa.c: the sub-allocator that cuts one buffer object into pieces. The list `olist` is
-- kept as the two halves on either side of the hole: `left` goes down from the hole, `right` goes up, so
-- `hole` is the head of `left`, or the list head where `left` is empty. Offsets are `unsigned`.
pub mod Arena
pub mod Place
pub mod Search
mod Tests
use loongson_gsgpu_dkms_modu.Base.{
  ℕ, zero, suc, ◌+◌, ◌-◌, ◌*◌, ◌%◌, ◌≡◌, Bool, true, false, List, [], ◌∷◌, ◌++◌, Option, none, some,
  u32_mod, sub32, ◌==◌, ltb, leb, ◌&&◌, not, if◌then◌else◌, is_some, Status, ok, err, einval,
  enomem,
}

-- `struct gsgpu_sa_bo`, by its address `id`.
pub record SaBo : Type 0 where
  pub id : ℕ
  pub soffset : ℕ
  pub eoffset : ℕ
  pub fence : Option ℕ

-- `struct gsgpu_sa_manager`. A freed piece whose fence is out stands in `flist` too, with the value
-- that it has in `olist`; nothing changes it until it is removed from both.
pub record Manager : Type 0 where
  pub size : ℕ
  pub align : ℕ
  pub left : List SaBo
  pub right : List SaBo
  pub flist : ℕ → List SaBo

-- `GSGPU_SA_NUM_FENCE_LISTS`.
abbrev pub num_fence_lists : ℕ
num_fence_lists = 32

-- What the code asks of a fence at one moment: whether it is signaled, and its context.
pub record Fences : Type 0 where
  pub signaled : ℕ → Bool
  pub context : ℕ → ℕ

-- `list_del_init`, by address.
pub unlink : ℕ → List SaBo → List SaBo
unlink id [] = []
unlink id (b ∷ bs) = if b.id == id then bs else b ∷ unlink id bs

-- `gsgpu_sa_bo_remove_locked`. Where the piece is the hole, the hole moves to the piece before it.
pub remove_locked : Manager → ℕ → Manager
remove_locked m id = record m {
  left = unlink id m.left;
  right = unlink id m.right;
  flist = λ i. unlink id (m.flist i);
}

-- Whether a piece can be reclaimed: it was freed and its fence is signaled.
pub is_done : Fences → SaBo → Bool
is_done f b = elim b.fence [ none ↦ false | some g ↦ f.signaled g ]

-- The loop of `gsgpu_sa_bo_try_free`, over what stands after the hole.
pub free_run : Fences → Manager → List SaBo → Manager
free_run f m [] = m
free_run f m (b ∷ bs) = elim (is_done f b) [
  | false ↦ m
  | true ↦ free_run f (record m { right = bs; flist = λ i. unlink b.id (m.flist i) }) bs
]

pub try_free : Fences → Manager → Manager
unfolding free_run is_done
try_free f m = free_run f m m.right

-- `gsgpu_sa_bo_hole_soffset` and `gsgpu_sa_bo_hole_eoffset`.
pub hole_soffset : List SaBo → ℕ
hole_soffset [] = 0
hole_soffset (b ∷ bs) = b.eoffset

pub hole_eoffset : ℕ → List SaBo → ℕ
hole_eoffset size [] = size
hole_eoffset size (b ∷ bs) = b.soffset

-- The bytes that alignment wastes at the start of the hole.
pub wasted_at : ℕ → ℕ → ℕ
wasted_at soffset align = sub32 align (soffset % align) % align

-- Whether the hole takes `size` bytes.
pub fits : Manager → ℕ → ℕ → Bool
unfolding hole_soffset hole_eoffset wasted_at
fits m size align =
    let s = hole_soffset m.left in
    leb ((size + wasted_at s align) % u32_mod) (sub32 (hole_eoffset m.size m.right) s)

-- `gsgpu_sa_bo_try_alloc`: the new piece `id` becomes the hole.
pub try_alloc : Manager → ℕ → ℕ → ℕ → Option Manager
unfolding fits
try_alloc m id size align =
    let s = hole_soffset m.left in
    let start = (s + wasted_at s align) % u32_mod in
    if fits m size align
    then some (record m {
      left =
          record { id = id; soffset = start; eoffset = (start + size) % u32_mod; fence = none }
          ∷ m.left;
    })
    else none

-- `gsgpu_sa_event`: whether a sleeper can go on.
pub any_listed : (ℕ → List SaBo) → ℕ → Bool
any_listed flist zero = false
any_listed flist (suc n) = elim (flist n) [ [] ↦ any_listed flist n | b ∷ bs ↦ true ]

pub event : Manager → ℕ → ℕ → Bool
unfolding any_listed fits
event m size align = if any_listed m.flist num_fence_lists then true else fits m size align

-- What the loop of `gsgpu_sa_bo_next_hole` carries: the closest piece so far with its distance, and the
-- fences to wait for, newest first.
pub record Scan : Type 0 where
  pub best : ℕ
  pub best_bo : Option SaBo
  pub fences : ℕ → Option ℕ

update {ℓ} : {A : Type ℓ} → (ℕ → A) → ℕ → A → ℕ → A
update f i v j = if i == j then v else f j

-- How far a piece starts after the hole, round the end.
distance : ℕ → ℕ → ℕ → ℕ
distance size soffset at =
    let tmp = if ltb at soffset then (at + size) % u32_mod else at in sub32 tmp soffset

-- One fence list in the loop.
scan_list : Fences → ℕ → ℕ → (ℕ → ℕ) → ℕ → List SaBo → Scan → Scan
scan_list f size soffset tries i [] c = c
scan_list f size soffset tries i (b ∷ bs) c =
    let d = distance size soffset b.soffset in
    if not (is_done f b)
    then record c { fences = update c.fences i b.fence }
    else if ltb 2 (tries i)
    then c
    else if ltb d c.best
    then record c { best = d; best_bo = some b }
    else c

pub scan : Fences → Manager → (ℕ → ℕ) → ℕ → ℕ → Scan → Scan
unfolding scan_list distance update
scan f m tries i zero c = c
scan f m tries i (suc n) c =
    scan f m tries (i + 1) n (scan_list f m.size (hole_soffset m.left) tries i (m.flist i) c)

-- The hole goes to just before a piece of the list.
split_before : ℕ → List SaBo → List SaBo → List SaBo × List SaBo
split_before id acc [] = (acc, [])
split_before id acc (b ∷ bs) = if b.id == id then (acc, b ∷ bs) else split_before id (b ∷ acc) bs

-- The list upwards, from the pieces below a point and those above it.
abbrev pub onto : List SaBo → List SaBo → List SaBo
onto [] up = up
onto (b ∷ bs) up = onto bs (b ∷ up)

abbrev pub olist : Manager → List SaBo
olist m = onto m.left m.right

pub hole_before : Manager → ℕ → Manager
unfolding split_before
hole_before m id = let (l, r) = split_before id [] (olist m) in record m { left = l; right = r }

-- `gsgpu_sa_bo_next_hole`: `none` if there is no other hole to try; and the fences found.
pub record Hop : Type 0 where
  pub moved : Option (Manager × (ℕ → ℕ))
  pub waits : ℕ → Option ℕ

pub next_hole : Fences → Manager → (ℕ → ℕ) → (ℕ → Option ℕ) → Hop
unfolding scan hole_before remove_locked
next_hole f m tries fences = elim m.right [
  | [] ↦ record { moved = some (record m { left = []; right = olist m }, tries); waits = fences }
  | b ∷ bs ↦
      let c =
        scan f m tries 0 num_fence_lists
          (record { best = (m.size * 2) % u32_mod; best_bo = none; fences = fences }) in
      elim c.best_bo [
        | none ↦ record { moved = none; waits = c.fences }
        | some x ↦
            let idx : ℕ = elim x.fence [
              | none ↦ 0
              | some g ↦ f.context g % u32_mod % num_fence_lists
            ] in
            record {
              moved =
                  some (remove_locked (hole_before m x.id) x.id, update tries idx (tries idx + 1));
              waits = c.fences;
            }
      ]
]

-- The inner loop of `gsgpu_sa_bo_new`: a manager with the piece in it, or one where nothing is left to
-- try, with the fences to wait for. `none`: more than the given rounds.
pub data Outcome : Type 0 where
  placed : Manager → Outcome
  stuck : Manager → (ℕ → Option ℕ) → Outcome

pub hunt : ℕ → Fences → ℕ → ℕ → ℕ → Manager → (ℕ → ℕ) → (ℕ → Option ℕ) → Option Outcome
hunt zero f id size align m tries fences = none
hunt (suc n) f id size align m tries fences =
    let t = try_free f m in
    elim (try_alloc t id size align) [
      | some t' ↦ some (placed t')
      | none ↦
          let h = next_hole f t tries fences in
          elim h.moved [
            | none ↦ some (stuck t h.waits)
            | some (t', tries') ↦ hunt n f id size align t' tries' h.waits
          ]
    ]

-- `gsgpu_sa_bo_free`: a piece whose fence is not signaled waits in the list of its fence's context.
pub hold : ℕ → Option ℕ → List SaBo → List SaBo
hold id fence [] = []
hold id fence (b ∷ bs) =
    if b.id == id then record b { fence = fence } ∷ bs else b ∷ hold id fence bs

pub bo_free : Fences → Manager → SaBo → Option ℕ → Manager
unfolding update hold remove_locked
bo_free f m b none = remove_locked m b.id
bo_free f m b (some g) =
    let idx = f.context g % num_fence_lists in
    if f.signaled g then remove_locked m b.id else record m {
      left = hold b.id (some g) m.left;
      right = hold b.id (some g) m.right;
      flist = update m.flist idx (m.flist idx ++ (record b { fence = some g } ∷ []));
    }

-- The checks of `gsgpu_sa_bo_new`, and its rounds up to the first sleep.
pub bo_new : ℕ → Fences → Manager → ℕ → ℕ → ℕ → Status × Option Outcome
unfolding hunt
bo_new n f m id size align =
    if ltb m.align align
    then (err einval, none)
    else if ltb m.size size
    then (err einval, none)
    else (ok, hunt n f id size align m (λ i. 0) (λ i. none))
