-- ===== src/Gart/Backend.antt =====
-- gsgpu/gpu/gsgpu_ttm.c: the pages of an object are bound and unbound for TTM.
use loongson_gsgpu_dkms_modu.Base.{
  ℕ, ◌*◌, ◌%◌, ◌≡◌, refl, ap, ◌∙◌, sym, subst, ◌⊎◌, Bool, true, false, Option, none, some,
  if◌then◌else◌, inl, inr, Bool-cases, u64_mod, Status, ok, err,
}
use loongson_gsgpu_dkms_modu.Gart.Bind.{IsBounded, Alike, unbind-bind}
use loongson_gsgpu_dkms_modu.Gart.{Gart, gpu_page_size, unbind, bind}

-- `struct gsgpu_ttm_tt`: whether the pages are a process's, whether these are pinned, and the offset in the
-- aperture, if it is not `GSGPU_BO_INVALID_OFFSET`.
pub record Tt : Type 0 where
  pub userptr : Bool
  pub pinned : Bool
  pub num_pages : ℕ
  pub offset : Option ℕ

-- `start << PAGE_SHIFT`.
abbrev pub byte_offset : Gart → ℕ → ℕ
byte_offset g start = start * (g.gpu_pages * gpu_page_size) % u64_mod

module _ (start : Option ℕ) (dma : ℕ → ℕ) (flags : ℕ) (g : Gart) where
  -- With the start of the memory in the aperture, if it has one.
  pub bind_placed : Option ℕ → Tt → Status × Gart × Tt
  bind_placed none ttm = (ok, g, record ttm { offset = none })
  bind_placed (some s) ttm =
      let r = bind g (byte_offset g s) ttm.num_pages dma flags in
      (r.0, r.1, record ttm { offset = some (byte_offset g s) })

  pub pin_and_place : Status → Tt → Status × Gart × Tt
  unfolding bind_placed
  pin_and_place (err e) ttm = (err e, g, ttm)
  pin_and_place ok ttm = bind_placed start (record ttm { pinned = true })

  -- `gsgpu_ttm_backend_bind`; `pin` is what `gsgpu_ttm_tt_pin_userptr` returns.
  unfoldable pub backend_bind : Status → Tt → Status × Gart × Tt
  unfolding pin_and_place
  backend_bind pin ttm = if ttm.userptr then pin_and_place pin ttm else bind_placed start ttm

pub unbind_placed : Gart → Option ℕ → Tt → Status × Gart × Tt
unbind_placed g none ttm = (ok, g, ttm)
unbind_placed g (some offset) ttm = let r = unbind g offset ttm.num_pages in (r.0, r.1, ttm)

-- `gsgpu_ttm_backend_unbind`.
pub backend_unbind : Gart → Tt → Status × Gart × Tt
unfolding unbind_placed
backend_unbind g ttm =
    unbind_placed g ttm.offset (if ttm.userptr then record ttm { pinned = false } else ttm)

-- The outcome of an unbinding after a binding in the table of `g`.
abbrev pub Clean : Gart → ℕ → Option ℕ → Status × Gart × Tt → Type 0
Clean g pages none (r, g', ttm) = (r ≡ ok) × (g' ≡ g) × (ttm.pinned ≡ false)
Clean g pages (some s) (r, g', ttm) =
    Alike (r, g') (unbind g (byte_offset g s) pages) × (ttm.pinned ≡ false)

abbrev pub FitsAt : Gart → ℕ → Option ℕ → Type 0
FitsAt g pages none = Unit {0}
FitsAt g pages (some s) = IsBounded g (byte_offset g s) pages

unpinned_lem :
    (ttm : Tt)
    → (ttm.userptr ≡ true) ⊎ (ttm.pinned ≡ false)
    → (if ttm.userptr then record ttm { pinned = false } else ttm).pinned ≡ false
unpinned_lem ttm (inl y) =
    ap (λ (b : Bool). (if b then record ttm { pinned = false } else ttm).pinned) y
unpinned_lem ttm (inr n) = elim (Bool-cases ttm.userptr) [
  | inl y ↦ ap (λ (b : Bool). (if b then record ttm { pinned = false } else ttm).pinned) y
  | inr u ↦ ap (λ (b : Bool). (if b then record ttm { pinned = false } else ttm).pinned) u ∙ n
]

pages_kept :
    (ttm : Tt)
    → (if ttm.userptr then record ttm { pinned = false } else ttm).num_pages ≡ ttm.num_pages
pages_kept ttm = elim (Bool-cases ttm.userptr) [
  | inl y ↦ ap (λ (b : Bool). (if b then record ttm { pinned = false } else ttm).num_pages) y
  | inr n ↦ ap (λ (b : Bool). (if b then record ttm { pinned = false } else ttm).num_pages) n
]

bind_placed-Clean :
    (start : Option ℕ) (dma : ℕ → ℕ) (flags : ℕ) (g : Gart) (ttm : Tt)
    → FitsAt g ttm.num_pages start
    → (ttm.userptr ≡ true) ⊎ (ttm.pinned ≡ false)
    → Clean g ttm.num_pages start (
        backend_unbind
          (bind_placed start dma flags g start ttm).1
          (bind_placed start dma flags g start ttm).2)
unfolding bind_placed backend_unbind unbind_placed
bind_placed-Clean none dma flags g ttm fits held =
    (refl, refl, unpinned_lem (record ttm { offset = none }) held)
bind_placed-Clean (some s) dma flags g ttm fits held =
    let offset = byte_offset g s in
    let ttm' : Tt = record ttm { offset = some offset } in
    let g' = (bind g offset ttm.num_pages dma flags).1 in
    (
      subst
          (λ (n : ℕ).
            Alike ((unbind g' offset n).0, (unbind g' offset n).1) (unbind g offset ttm.num_pages))
          (sym (pages_kept ttm')) (unbind-bind g offset ttm.num_pages dma flags fits),
      unpinned_lem ttm' held,
    )

abbrev Undone : Option ℕ → Gart → Tt → Status × Gart × Tt → Type 0
Undone start g ttm r = Clean g ttm.num_pages start (backend_unbind r.1 r.2)

pinned_first :
    (pin : Status) (start : Option ℕ) (dma : ℕ → ℕ) (flags : ℕ) (g : Gart) (ttm : Tt)
    → ttm.userptr ≡ true
    → pin ≡ ok
    → backend_bind start dma flags g pin ttm
      ≡ bind_placed start dma flags g start (record ttm { pinned = true })
unfolding backend_bind pin_and_place
pinned_first pin start dma flags g ttm y works =
    ap
      (λ (b : Bool).
        if b
        then pin_and_place start dma flags g pin ttm
        else bind_placed start dma flags g start ttm)
      y
    ∙ ap (λ (p : Status). pin_and_place start dma flags g p ttm) works

-- The pages of an object are bound for TTM and then unbound, where their pinning, if they are of a process,
-- succeeds, and no others are pinned: with a place in the aperture the status and the table are those of an
-- unbinding alone, without one nothing has changed, and no page is pinned.
pub backend_unbind-backend_bind :
    (pin : Status) (start : Option ℕ) (dma : ℕ → ℕ) (flags : ℕ) (g : Gart) (ttm : Tt)
    → (ttm.userptr ≡ true → pin ≡ ok)
    → ttm.userptr ≡ true ⊎ ttm.pinned ≡ false
    → FitsAt g ttm.num_pages start
    → Clean g ttm.num_pages start (
        backend_unbind
          (backend_bind start dma flags g pin ttm).1
          (backend_bind start dma flags g pin ttm).2)
unfolding backend_bind
backend_unbind-backend_bind pin start dma flags g ttm works held fits =
    elim (Bool-cases ttm.userptr) [
      | inl y ↦
          subst (Undone start g ttm) (sym (pinned_first pin start dma flags g ttm y (works y)))
            (bind_placed-Clean start dma flags g (record ttm { pinned = true }) fits (inl y))
      | inr n ↦
          subst (Undone start g ttm)
            (sym (
              ap
                (λ (b : Bool).
                  if b
                  then pin_and_place start dma flags g pin ttm
                  else bind_placed start dma flags g start ttm)
                n))
            (bind_placed-Clean start dma flags g ttm fits held)
    ]
