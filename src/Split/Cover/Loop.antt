-- ===== src/Split/Cover/Loop.antt =====
-- The loop of `gsgpu_vm_bo_split_mapping`, from a place in the memory on.
use loongson_gsgpu_dkms_modu.Base.{
  ℕ, zero, suc, ◌+◌, ◌-◌, ◌^◌, ◌≤◌, ◌<◌, min, ◌≡◌, refl, ap, inl, inr, true, false, Option, none,
  some, List, [], ◌∷◌, arith, ltb, leb, ◌==◌, Bool-cases, is_some, ◌∙◌, sym, u64_mod, sub64, Errno,
  ok,
}
use loongson_gsgpu_dkms_modu.Base.{All, ◌/◌}
use loongson_gsgpu_dkms_modu.VramMgr.{Range}
use loongson_gsgpu_dkms_modu.Vm.{add64}
use loongson_gsgpu_dkms_modu.Split.{
  Source, Device, Update, shifted, advance, split_loop, joined, system, vram, nowhere, seek,
  split_mapping, max_update_size,
}
use loongson_gsgpu_dkms_modu.Split.Cover.{
  target, sent, IsReady, piece_lem, target-advance, advance-IsReady, turn_lem,
}

-- The last page of a turn, where no sum leaves 64 bits.
last_lem :
    (start end k : ℕ)
    → start ≤ end
    → 0 < k
    → end + k < u64_mod
    → min end (sub64 (add64 start k) 1) ≡ min end (start + k - 1)
last_lem start end k le positive fits = omega arith

-- A page within the first update, and one after it.
sent_first :
    (dev : Device) (u : Update) (us : List Update) (q : ℕ)
    → u.start ≤ q
    → q ≤ u.last
    → sent dev (u ∷ us) q ≡ some (u.addr + shifted dev (q - u.start))
unfolding sent
sent_first dev u us q ge le =
    let above : leb u.start q ≡ true = ground arith in
    let below : leb q u.last ≡ true = ground arith in rw (above, below) refl

sent_later :
    (dev : Device) (u : Update) (us : List Update) (q : ℕ)
    → u.last < q
    → sent dev (u ∷ us) q ≡ sent dev us q
unfolding sent
sent_later dev u us q gt = elim (Bool-cases (leb u.start q)) [
  | inl y ↦ let past : leb q u.last ≡ false = ground arith in rw (y, past) refl
  | inr z ↦ rw z refl
]

-- The updates of the loop send each page of the mapping to the memory behind it.
split_loop_lem :
    (fuel : ℕ) (dev : Device) (update : Update → Option Errno) (src : Source) (pfn start end : ℕ)
    → dev.per_cpu ≡ 1
    → ((u : Update) → update u ≡ none)
    → IsReady end src pfn
    → start ≤ end
    → end - start < fuel
    → ((j : ℕ) → start + j ≤ end → is_some (target dev src (pfn + j)) ≡ true)
    → (us : List Update) × (split_loop fuel dev update src pfn start end ≡ some (ok, us))
      × ((j : ℕ) → start + j ≤ end → sent dev us (start + j) ≡ target dev src (pfn + j))
unfolding joined
split_loop_lem zero dev update src pfn start end one good ready le enough memory =
    absurd (omega arith)
split_loop_lem (suc fuel) dev update src pfn start end one good ready le enough memory =
    let (addr, k, piece, positive, fits, covers, within) = piece_lem dev src pfn end one ready in
    let clamp = last_lem start end k le positive fits in
    elim (Bool-cases (leb end (start + k - 1))) [
      | inl y ↦
          let last : min end (start + k - 1) ≡ end = ground arith in
          let u : Update = record { start = start; last = end; addr = addr } in
          let done : (end + 1 == end + 1) ≡ true = ground arith in
          (
            u ∷ [],
            turn_lem fuel dev update src pfn start end addr k end one good piece (clamp ∙ last)
                ∙ rw done refl,
            λ j in_range.
                let place : start + j - start ≡ j = omega arith in
                sent_first dev u [] (start + j) (omega arith) in_range
                ∙ (ap (λ (n : ℕ). some (addr + shifted dev n)) place
                    ∙ sym (covers j (ground arith))),
          )
      | inr z ↦
          let last : min end (start + k - 1) ≡ start + k - 1 = ground arith in
          let u : Update = record { start = start; last = start + k - 1; addr = addr } in
          let src' = (advance src (pfn + k)).0 in
          let pfn' = (advance src (pfn + k)).1 in
          let memory' : (j : ℕ)
              → start + k + j ≤ end
              → is_some (target dev src' (pfn' + j)) ≡ true =
            λ j in_range.
              let place : pfn + k + j ≡ pfn + (k + j) = omega arith in
              ap is_some (target-advance dev src (pfn + k) j)
              ∙ (ap (λ (n : ℕ). is_some (target dev src n)) place ∙ memory (k + j) (omega arith)) in
          let here : is_some (target dev src' pfn') ≡ true =
            let place : pfn' + 0 ≡ pfn' = omega arith in
            ap (λ (n : ℕ). is_some (target dev src' n)) (sym place) ∙ memory' 0 (ground arith) in
          let ready' : IsReady end src' pfn' =
            advance-IsReady dev src pfn end k ready
              (λ r rs e. let all = within r rs e in omega arith) here in
          let (us, run, rest) =
            split_loop_lem fuel dev update src' pfn' (start + k) end one good ready' (ground arith)
              (ground arith) memory' in
          (
            u ∷ us,
            (let done : (start + k - 1 + 1 == end + 1) ≡ false = ground arith in
                let used : start + k - 1 + 1 - start ≡ k = omega arith in
                let next : start + k - 1 + 1 ≡ start + k = omega arith in
                turn_lem fuel dev update src pfn start end addr k (start + k - 1) one good piece
                  (clamp ∙ last)
                ∙ rw (done, used, next, run) refl),
            λ j in_range. elim (Bool-cases (ltb j k)) [
              | inl first ↦
                  let place : start + j - start ≡ j = omega arith in
                  sent_first dev u us (start + j) (omega arith) (ground arith)
                  ∙ (ap (λ (n : ℕ). some (addr + shifted dev n)) place
                      ∙ sym (covers j (ground arith)))
              | inr later ↦
                  let place : start + k + (j - k) ≡ start + j = ground arith in
                  let there : pfn + k + (j - k) ≡ pfn + j = ground arith in
                  sent_later dev u us (start + j) (ground arith)
                  ∙ (ap (sent dev us) (sym place)
                      ∙ (rest (j - k) (ground arith)
                          ∙ (target-advance dev src (pfn + k) (j - k) ∙ ap (target dev src) there)))
            ],
          )
    ]

-- What the memory of a mapping up to page `end` satisfies: its ranges are not empty, and no sum leaves 64
-- bits.
abbrev pub IsBacked : ℕ → Source → Type 0
IsBacked end system = end + max_update_size < u64_mod
IsBacked end (nowhere e) = ⊥
IsBacked end (vram rs) = All (λ (x : Range). (0 < x.size) × (end + x.size < u64_mod)) rs

-- The search keeps the place in the memory.
target-seek :
    (dev : Device) (src : Source) (pfn j : ℕ)
    → target dev (seek src pfn).0 ((seek src pfn).1 + j) ≡ target dev src (pfn + j)
unfolding seek target
target-seek dev system pfn j = refl
target-seek dev (nowhere e) pfn j = refl
target-seek dev (vram []) pfn j = refl
target-seek dev (vram (r ∷ rs)) pfn j = elim (Bool-cases (leb r.size pfn)) [
  | inl y ↦
      let past : ltb (pfn + j) r.size ≡ false = ground arith in
      let same : pfn + j - r.size ≡ pfn - r.size + j = ground arith in
      rw (y, past, same) (target-seek dev (vram rs) (pfn - r.size) j)
  | inr z ↦ rw z refl
]

-- And finds a place to start from, where there is memory.
seek-IsReady :
    (dev : Device) (src : Source) (pfn end : ℕ)
    → IsBacked end src
    → is_some (target dev src pfn) ≡ true
    → IsReady end (seek src pfn).0 (seek src pfn).1
unfolding seek target
seek-IsReady dev system pfn end backed memory = backed
seek-IsReady dev (nowhere e) pfn end backed memory = absurd backed
seek-IsReady dev (vram []) pfn end backed memory = absurd (cc)
seek-IsReady dev (vram (r ∷ rs)) pfn end backed memory = elim (Bool-cases (leb r.size pfn)) [
  | inl y ↦
      let past : ltb pfn r.size ≡ false = ground arith in
      rw y (seek-IsReady dev (vram rs) (pfn - r.size) end backed.1 (rw past at memory))
  | inr z ↦ rw z (ground arith, backed)
]

-- Where memory stands behind a mapping and no update fails, `gsgpu_vm_bo_split_mapping` returns 0 within as
-- much fuel as the mapping has pages, and its updates send each page `start + j` to the address of the page
-- that lies `j` after the offset in the memory. The CPU's pages are as large as the GPU's.
pub split_mapping_lem :
    (fuel : ℕ) (dev : Device) (update : Update → Option Errno) (src : Source) (start end offset : ℕ)
    → dev.per_cpu ≡ 1
    → ((u : Update) → update u ≡ none)
    → IsBacked end src
    → start ≤ end
    → end - start < fuel
    → ((j : ℕ)
        → start + j ≤ end
        → is_some (target dev src (offset / 2 ^ dev.page_shift + j)) ≡ true)
    → (us : List Update) × (split_mapping fuel dev update src start end offset ≡ some (ok, us))
      × ((j : ℕ)
          → start + j ≤ end
          → sent dev us (start + j) ≡ target dev src (offset / 2 ^ dev.page_shift + j))
unfolding split_mapping
split_mapping_lem fuel dev update src start end offset one good backed le enough memory =
    let first : ℕ = offset / 2 ^ dev.page_shift in
    let here : is_some (target dev src first) ≡ true =
      let place : first + 0 ≡ first = omega arith in
      ap (λ (n : ℕ). is_some (target dev src n)) (sym place) ∙ memory 0 (omega arith) in
    let (us, run, rest) =
      split_loop_lem fuel dev update (seek src first).0 (seek src first).1 start end one good
        (seek-IsReady dev src first end backed here) le enough
        (λ j in_range. ap is_some (target-seek dev src first j) ∙ memory j in_range) in
    (us, run, λ j in_range. rest j in_range ∙ target-seek dev src first j)
