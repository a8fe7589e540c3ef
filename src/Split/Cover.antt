-- ===== src/Split/Cover.antt =====
-- The pieces of a mapping, against the memory behind it.
pub mod Loop
use loongson_gsgpu_dkms_modu.Base.{
  ℕ, suc, ◌+◌, ◌-◌, ◌^◌, ◌≤◌, ◌<◌, ◌/◌, min, ◌≡◌, refl, ap, inl, inr, Bool, true, false, ◌&&◌,
  Option, none, some, List, [], ◌∷◌, arith, ltb, leb, ◌==◌, if◌then◌else◌, Bool-cases, is_some, All,
  ◌∙◌, u64_mod, sub64, Errno, Status, ok,
}
use native.Mathlib.Nat.{add-mul}
use loongson_gsgpu_dkms_modu.VramMgr.{Range}
use loongson_gsgpu_dkms_modu.Vm.{add64}
use loongson_gsgpu_dkms_modu.Split.{
  Source, Device, Update, shifted, max_update_size, piece_of, advance, split_loop, joined, system,
  vram, nowhere,
}

-- The address of page `n` of the memory.
unfoldable pub target : Device → Source → ℕ → Option ℕ
target dev system n = some (shifted dev n)
target dev (nowhere e) n = none
target dev (vram []) n = none
target dev (vram (r ∷ rs)) n =
    let rest = target dev (vram rs) (n - r.size) in
    if ltb n r.size then some (shifted dev (r.start + n) + dev.vram_base_offset) else rest

-- Where the updates send a page.
pub sent : Device → List Update → ℕ → Option ℕ
sent dev [] q = none
sent dev (u ∷ us) q =
    let rest = sent dev us q in
    if leb u.start q && leb q u.last then some (u.addr + shifted dev (q - u.start)) else rest

-- A position that a turn can start from: within its range, and no sum leaves 64 bits.
abbrev pub IsReady : ℕ → Source → ℕ → Type 0
IsReady end system pfn = end + max_update_size < u64_mod
IsReady end (nowhere e) pfn = ⊥
IsReady end (vram []) pfn = ⊥
IsReady end (vram (r ∷ rs)) pfn =
    (pfn < r.size) × All (λ (x : Range). (0 < x.size) × (end + x.size < u64_mod)) (r ∷ rs)

-- A piece is contiguous memory.
piece_lem :
    (dev : Device) (src : Source) (pfn end : ℕ)
    → dev.per_cpu ≡ 1
    → IsReady end src pfn
    → (addr : ℕ) × (k : ℕ) × (piece_of dev src pfn ≡ some (addr, k))
      × (0 < k)
      × (end + k < u64_mod)
      × ((j : ℕ) → j < k → target dev src (pfn + j) ≡ some (addr + shifted dev j))
      × ((r : Range) (rs : List Range) → src ≡ vram (r ∷ rs) → pfn + k ≡ r.size)
unfolding piece_of target
piece_lem dev system pfn end one h = (
  shifted dev pfn,
  max_update_size,
  refl,
  omega arith,
  h,
  λ j lt. ap some (add-mul pfn j (2 ^ dev.page_shift)),
  λ r rs e. cc,
)
piece_lem dev (vram (r ∷ rs)) pfn end one h = (
  shifted dev r.start + shifted dev pfn + dev.vram_base_offset,
  r.size - pfn,
  rw one (
      ap (λ (k : ℕ). some (shifted dev r.start + shifted dev pfn + dev.vram_base_offset, k))
        (omega arith)),
  omega (arith, h.0),
  omega (arith, h.1.0.1),
  λ j lt.
      let inside : ltb (pfn + j) r.size ≡ true = ground arith in
      rw inside (
        ap some (
          omega (
            arith,
            add-mul r.start (pfn + j) (2 ^ dev.page_shift),
            add-mul pfn j (2 ^ dev.page_shift),
          ))),
  λ r' rs' e. let same : r ≡ r' = cc in omega (arith, h.0, ap (λ (x : Range). x.size) same),
)
piece_lem dev (vram []) pfn end one h = absurd h
piece_lem dev (nowhere e) pfn end one h = absurd h

-- The end of a turn keeps the place in the memory.
target-advance :
    (dev : Device) (src : Source) (pfn j : ℕ)
    → target dev (advance src pfn).0 ((advance src pfn).1 + j) ≡ target dev src (pfn + j)
unfolding advance target
target-advance dev system pfn j = refl
target-advance dev (nowhere e) pfn j = refl
target-advance dev (vram []) pfn j = refl
target-advance dev (vram (r ∷ rs)) pfn j = elim (Bool-cases (r.size == pfn)) [
  | inl y ↦
      let past : ltb (pfn + j) r.size ≡ false = ground arith in
      let same : pfn + j - r.size ≡ 0 + j = ground arith in rw (y, past, same) refl
  | inr n ↦ rw n refl
]

-- And is a place to go on from, where there is memory.
advance-IsReady :
    (dev : Device) (src : Source) (pfn end n : ℕ)
    → IsReady end src pfn
    → ((r : Range) (rs : List Range) → src ≡ vram (r ∷ rs) → pfn + n ≤ r.size)
    → is_some (target dev (advance src (pfn + n)).0 ((advance src (pfn + n)).1)) ≡ true
    → IsReady end (advance src (pfn + n)).0 (advance src (pfn + n)).1
unfolding advance target
advance-IsReady dev system pfn end n h within some_memory = h
advance-IsReady dev (vram []) pfn end n h within some_memory = absurd h
advance-IsReady dev (nowhere e) pfn end n h within some_memory = absurd h
advance-IsReady dev (vram (r ∷ [])) pfn end n h within some_memory =
    elim (Bool-cases (r.size == pfn + n)) [
      | inl y ↦ absurd (ground arith)
      | inr z ↦ rw z (let w = within r [] refl in (ground arith, h.1))
    ]
advance-IsReady dev (vram (r ∷ s ∷ rs)) pfn end n h within some_memory =
    elim (Bool-cases (r.size == pfn + n)) [
      | inl y ↦ rw y (h.1.1.0.0, h.1.1)
      | inr z ↦ rw z (let w = within r (s ∷ rs) refl in (ground arith, h.1))
    ]

-- A turn whose update does not fail.
turn_lem :
    (fuel : ℕ) (dev : Device) (update : Update → Option Errno) (src : Source)
    (pfn start end addr k last : ℕ)
    → dev.per_cpu ≡ 1
    → ((u : Update) → update u ≡ none)
    → piece_of dev src pfn ≡ some (addr, k)
    → min end (sub64 (add64 start k) 1) ≡ last
    → split_loop (suc fuel) dev update src pfn start end
      ≡ joined
          (last + 1 == end + 1)
          (record { start = start; last = last; addr = addr })
          (split_loop fuel dev update
            (advance src (pfn + (last + 1 - start))).0
            (advance src (pfn + (last + 1 - start))).1
            (last + 1)
            end)
unfolding split_loop
turn_lem fuel dev update src pfn start end addr k last one good piece ends =
    let whole : (last + 1 - start) / dev.per_cpu ≡ last + 1 - start =
      ap (λ (m : ℕ). (last + 1 - start) / m) one ∙ omega arith in
    rw
      (
        split_loop,
        piece,
        good (record { start = start; last = min end (sub64 (add64 start k) 1); addr = addr }),
        ends,
        whole,
      )
      refl
