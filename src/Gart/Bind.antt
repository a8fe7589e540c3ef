-- ===== src/Gart/Bind.antt =====
-- Pages that are bound, and pages that are taken out again.
use loongson_gsgpu_dkms_modu.Base.{
  ℕ, ◌+◌, ◌*◌, ◌%◌, ◌≤◌, ◌<◌, ◌≡◌, refl, sym, ap, ◌∙◌, subst, ◌⊎◌, inl, inr, Bool, true, false, not,
  Bool-cases, Option, none, some, Option-cases, if◌then◌else◌, ltb, u32_mod, u64_mod, arith, Status,
  ok, err, einval,
}
use loongson_gsgpu_dkms_modu.Gart.Table.{fill_pages_out, fill_pages_in, fill_pages_congr}
use loongson_gsgpu_dkms_modu.Gart.{
  Gart, gpu_page_size, entry, fill_pages, first_entry, flushed, unbind_at, unbind, map, mapped,
  bind_at, bind,
}

-- The range ends before the last index that 32 bits hold.
abbrev pub IsBounded : Gart → ℕ → ℕ → Type 0
IsBounded g offset pages = first_entry offset + pages * g.gpu_pages < u32_mod

-- The range holds the pages at `dma`, and what is outside it is as in `table`.
abbrev pub Holds : ℕ → ℕ → ℕ → (ℕ → ℕ) → ℕ → (ℕ → ℕ) → (ℕ → ℕ) → Type 0
Holds k t pages dma flags table table' =
    ((p n : ℕ)
      → p < pages
      → n < k
      → table' (t + (p * k + n)) ≡ entry ((dma p + n * gpu_page_size) % u64_mod) flags)
    × ((j : ℕ) → (j < t) ⊎ (t + pages * k ≤ j) → table' j ≡ table j)

-- The table of a result holds the pages; the TLB has been flushed.
abbrev pub Filled : Gart → ℕ → ℕ → (ℕ → ℕ) → ℕ → (ℕ → ℕ) → Status × Gart → Type 0
Filled g offset pages dma flags table (r, g') =
    (r ≡ ok)
    × ((table' : ℕ → ℕ) × (g' ≡ flushed (record g { table = some table' }))
        × Holds g.gpu_pages (first_entry offset) pages dma flags table table')

fill_pages-Holds :
    (k t pages : ℕ) (dma : ℕ → ℕ) (flags : ℕ) (table : ℕ → ℕ)
    → t + pages * k < u32_mod
    → ((m : ℕ) → dma m < u64_mod)
    → Holds k t pages dma flags table (fill_pages k pages dma flags 0 t table)
fill_pages-Holds k t pages dma flags table h b = (
  λ p n lp ln.
      fill_pages_in k dma flags pages 0 t table p n h b lp ln
      ∙ ap (λ (i : ℕ). entry ((dma i + n * gpu_page_size) % u64_mod) flags) (omega arith),
  λ j out. fill_pages_out k dma flags pages 0 t table j h out,
)

-- The three cases of a binding and of an unbinding.
module _ (g : Gart) (offset pages : ℕ) where
  abbrev after : (ℕ → ℕ) → Gart
  after table = flushed (record g { table = some table })

  abbrev pages_in : (ℕ → ℕ) → ℕ → (ℕ → ℕ) → ℕ → ℕ
  pages_in dma flags table = fill_pages g.gpu_pages pages dma flags 0 (first_entry offset) table

  unbind_off : g.ready ≡ false → unbind g offset pages ≡ (err einval, g)
  unfolding unbind
  unbind_off n =
      ap (λ (r : Bool). if not r then (err einval, g) else unbind_at g.table g offset pages) n

  unbind-none : g.ready ≡ true → g.table ≡ none → unbind g offset pages ≡ (ok, flushed g)
  unfolding unbind
  unbind-none y e =
      ap (λ (r : Bool). if not r then (err einval, g) else unbind_at g.table g offset pages) y
      ∙ ap (λ (x : Option (ℕ → ℕ)). unbind_at x g offset pages) e

  unbind-some :
      (table : ℕ → ℕ)
      → g.ready ≡ true
      → g.table ≡ some table
      → unbind g offset pages ≡ (ok, after (pages_in (λ i. g.dummy_page_addr) 0 table))
  unfolding unbind
  unbind-some table y e =
      ap (λ (r : Bool). if not r then (err einval, g) else unbind_at g.table g offset pages) y
      ∙ ap (λ (x : Option (ℕ → ℕ)). unbind_at x g offset pages) e

  module _ (dma : ℕ → ℕ) (flags : ℕ) where
    bind_off : g.ready ≡ false → bind g offset pages dma flags ≡ (err einval, g)
    unfolding bind
    bind_off n =
        ap
          (λ (r : Bool).
            if not r then (err einval, g) else bind_at g.table g offset pages dma flags)
          n

    bind-none : g.ready ≡ true → g.table ≡ none → bind g offset pages dma flags ≡ (ok, g)
    unfolding bind
    bind-none y e =
        ap
          (λ (r : Bool).
            if not r then (err einval, g) else bind_at g.table g offset pages dma flags)
          y
        ∙ ap (λ (x : Option (ℕ → ℕ)). bind_at x g offset pages dma flags) e

    bind-some :
        (table : ℕ → ℕ)
        → g.ready ≡ true
        → g.table ≡ some table
        → bind g offset pages dma flags ≡ (ok, after (pages_in dma flags table))
    unfolding bind map mapped
    bind-some table y e =
        ap
          (λ (r : Bool).
            if not r then (err einval, g) else bind_at g.table g offset pages dma flags)
          y
        ∙ (ap (λ (x : Option (ℕ → ℕ)). bind_at x g offset pages dma flags) e
            ∙ ap
                (λ (r : Bool).
                  mapped g (if not r then (err einval, table) else (ok, pages_in dma flags table)))
                y)

-- The binding of pages with the table mapped: the entries of the range point to the parts of the pages, in
-- their order, with the flags; the others are as they were, and the TLB is flushed.
pub bind_outcome :
    (g : Gart) (offset pages : ℕ) (dma : ℕ → ℕ) (flags : ℕ) (table : ℕ → ℕ)
    → g.ready ≡ true
    → g.table ≡ some table
    → IsBounded g offset pages
    → ((m : ℕ) → dma m < u64_mod)
    → Filled g offset pages dma flags table (bind g offset pages dma flags)
bind_outcome g offset pages dma flags table r at h b =
    subst (Filled g offset pages dma flags table)
      (sym (bind-some g offset pages dma flags table r at))
      (
        refl,
        (
          pages_in g offset pages dma flags table,
          refl,
          fill_pages-Holds g.gpu_pages (first_entry offset) pages dma flags table h b,
        ),
      )

pub unbind_outcome :
    (g : Gart) (offset pages : ℕ) (table : ℕ → ℕ)
    → g.ready ≡ true
    → g.table ≡ some table
    → IsBounded g offset pages
    → g.dummy_page_addr < u64_mod
    → Filled g offset pages (λ i. g.dummy_page_addr) 0 table (unbind g offset pages)
unbind_outcome g offset pages table r at h b =
    subst (Filled g offset pages (λ i. g.dummy_page_addr) 0 table)
      (sym (unbind-some g offset pages table r at))
      (
        refl,
        (
          pages_in g offset pages (λ i. g.dummy_page_addr) 0 table,
          refl,
          fill_pages-Holds g.gpu_pages (first_entry offset) pages (λ i. g.dummy_page_addr) 0 table h
              (λ m. b),
        ),
      )

abbrev pub Agree : Option (ℕ → ℕ) → Option (ℕ → ℕ) → Type 0
Agree none none = Unit {0}
Agree (some f) (some f') = (j : ℕ) → f j ≡ f' j
Agree none (some f) = ⊥
Agree (some f) none = ⊥

inside_or_same :
    (g : Gart) (offset pages : ℕ) (dma : ℕ → ℕ) (flags : ℕ) (table : ℕ → ℕ)
    → IsBounded g offset pages
    → (j : ℕ)
    → ((first_entry offset ≤ j) × (j < first_entry offset + pages * g.gpu_pages))
      ⊎ (fill_pages g.gpu_pages pages dma flags 0 (first_entry offset) table j ≡ table j)
inside_or_same g offset pages dma flags table h j =
    let t = first_entry offset in
    let k = g.gpu_pages in
    let outside = fill_pages_out k dma flags pages 0 t table j h in
    elim (Bool-cases (ltb j t)) [
      | inl y ↦ inr (outside (inl (ground arith)))
      | inr n ↦ elim (Bool-cases (ltb j (t + pages * k))) [
        | inl y ↦ inl (ground arith, ground arith)
        | inr m ↦ inr (outside (inr (ground arith)))
      ]
    ]

-- Two results with the same status and the same table.
abbrev pub Alike : Status × Gart → Status × Gart → Type 0
Alike (r, g) (r', g') = (r ≡ r') × Agree g.table g'.table

Agree-refl : (x : Option (ℕ → ℕ)) → Agree x x
Agree-refl none = tt
Agree-refl (some f) = λ j. refl

Alike-refl : (r : Status × Gart) → Alike r r
Alike-refl (r, g) = (refl, Agree-refl g.table)

-- What is bound leaves no trace once it is unbound, whether the GART is ready and its table mapped or not: the
-- status and the table are those of an unbinding alone.
pub unbind-bind :
    (g : Gart) (offset pages : ℕ) (dma : ℕ → ℕ) (flags : ℕ)
    → IsBounded g offset pages
    → Alike (unbind (bind g offset pages dma flags).1 offset pages) (unbind g offset pages)
unbind-bind g offset pages dma flags h = elim (Bool-cases g.ready) [
  | inr n ↦
      subst (λ (r : Status × Gart). Alike (unbind r.1 offset pages) (unbind g offset pages))
        (sym (bind_off g offset pages dma flags n)) (Alike-refl (unbind g offset pages))
  | inl y ↦ elim (Option-cases g.table) [
    | inl e ↦
        subst (λ (r : Status × Gart). Alike (unbind r.1 offset pages) (unbind g offset pages))
          (sym (bind-none g offset pages dma flags y e)) (Alike-refl (unbind g offset pages))
    | inr (table, e) ↦
        let table' = pages_in g offset pages dma flags table in
        subst (λ (r : Status × Gart). Alike (unbind r.1 offset pages) (unbind g offset pages))
          (sym (bind-some g offset pages dma flags table y e))
          (subst (λ (r : Status × Gart). Alike r (unbind g offset pages))
            (sym (unbind-some (after g offset pages table') offset pages table' y refl))
            (subst
              (λ (r : Status × Gart).
                Alike
                  (
                    ok,
                    after g offset pages
                        (pages_in g offset pages (λ i. g.dummy_page_addr) 0 table'),
                  )
                  r)
              (sym (unbind-some g offset pages table y e))
              (
                refl,
                λ j.
                    fill_pages_congr g.gpu_pages (λ i. g.dummy_page_addr) 0 pages 0
                      (first_entry offset) table' table j h
                      (inside_or_same g offset pages dma flags table h j),
              )))
  ]
]
