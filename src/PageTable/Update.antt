-- ===== src/PageTable/Update.antt =====
-- One turn of the loop of `gsgpu_vm_update_ptes`.
pub mod Range
use loongson_gsgpu_dkms_modu.Base.{
  ℕ, ◌+◌, ◌*◌, ◌/◌, ◌%◌, ◌≤◌, ◌<◌, ◌≡◌, refl, sym, ap, ◌∙◌, ◌≢◌, ◌⊎◌, inl, inr, Bool, true, false,
  ◌^◌, Option, none, arith, ◌==◌, if◌then◌else◌, Bool-cases, Option-cases, u64_mod,
  bit_and-low_mask, bit_and-high_mask, pow-pos,
}
use loongson_gsgpu_dkms_modu.Vm.{page_size, add64}
use loongson_gsgpu_dkms_modu.PageTable.{
  Flags, Pte, Tables, Params, resolve, update, pte_count, set_ptes, huge_flags, handle_huge_pages,
  update_chunk, chunk,
}
use loongson_gsgpu_dkms_modu.PageTable.Blocks.{
  same_block_mod, same_block_div, past_block, block_diff,
}
use loongson_gsgpu_dkms_modu.PageTable.Write.{set_ptes_in, set_ptes_out}
use native.Mathlib.Nat.{mod-lt, mod-le, mod-eq_of_lt, pow-le-pow_right}
use native.Mathlib.Decide.{ℕ_discrete}

-- Where a page points and with which access: by the directory entry where the block is one huge page.
pub seen : Params → Tables → ℕ → ℕ × ℕ
seen p tables q =
    if tables.huge (q / pte_count p)
    then (
      add64 (tables.pdes (q / pte_count p)).addr (q % pte_count p * page_size),
      (tables.pdes (q / pte_count p)).flags.access,
    )
    else (
      (tables.ptes (q / pte_count p) (q % pte_count p)).addr,
      (tables.ptes (q / pte_count p) (q % pte_count p)).flags.access,
    )

-- A turn writes at least one entry, stays in the block and in the range, and ends at the end of one.
pub chunk_lem :
    (p : Params) (addr end : ℕ)
    → p.block_size ≤ 17
    → addr < end
    → end < u64_mod
    → (0 < chunk p addr end)
      × (addr + chunk p addr end ≤ end)
      × (addr % pte_count p + chunk p addr end ≤ pte_count p)
      × ((addr + chunk p addr end ≡ end) ⊎ (addr % pte_count p + chunk p addr end ≡ pte_count p))
unfolding chunk
chunk_lem p addr end kl lt le =
    let d = pte_count p in
    let pd = pow-pos p.block_size in
    let la = mod-lt addr pd in
    let lend = mod-lt end pd in
    let small : d ≤ 2 ^ 17 = pow-le-pow_right (omega arith) kl in
    rw
      (
        bit_and-high_mask addr p.block_size 64 (omega arith) (omega arith),
        bit_and-high_mask end p.block_size 64 le (omega arith),
        bit_and-low_mask addr p.block_size,
      )
      (elim (ℕ_discrete (addr / d) (end / d)) [
        | yes e ↦ let diff = block_diff d addr end e in ground (arith, mod-le addr d, mod-le end d)
        | no n ↦
            let past = past_block d addr end pd (omega arith) n in
            ground (arith, mod-le addr d, mod-le end d)
      ])

-- A block becomes one huge page only where all of it is written, to memory that is not resolved by page.
huge_flags_lem :
    (p : Params) (nptes : ℕ) (flags : Flags)
    → flags.huge_page ≡ false
    → ((huge_flags p nptes flags).access ≡ flags.access)
      × (((huge_flags p nptes flags).huge_page ≡ false)
          ⊎ ((p.map_gart ≡ none) × (nptes ≡ pte_count p)))
unfolding huge_flags
huge_flags_lem p nptes flags small = elim (Option-cases p.map_gart) [
  | inl e ↦ rw e (ground arith)
  | inr (f, e) ↦ rw e (refl, inl small)
]

bool_clash : {b : Bool} → b ≡ true → b ≡ false → ⊥
bool_clash y n = ground arith

-- What a turn does to its own table: one huge page, or entries.
pub own_table :
    (p : Params) (tables : Tables) (t i n dst : ℕ) (flags : Flags)
    → flags.huge_page ≡ false
    → p.kmaps t ≡ true
    → p.kmaps_dir t ≡ true
    → let after = update_chunk p tables t i n dst flags in
      ((p.map_gart ≡ none)
        × (n ≡ pte_count p)
        × (after.huge t ≡ true)
        × ((after.pdes t).addr ≡ dst)
        × ((after.pdes t).flags.access ≡ flags.access))
      ⊎ ((after.huge t ≡ false)
          × (after.ptes ≡ set_ptes p.map_gart n t i dst page_size flags tables.ptes))
unfolding update_chunk handle_huge_pages
own_table p tables t i n dst flags small km kd =
    let (access, kind) = huge_flags_lem p n flags small in
    let self : (t == t) ≡ true = ground arith in
    elim (Bool-cases (huge_flags p n flags).huge_page) [
      | inl y ↦ elim kind [
        | inl x ↦ absurd (bool_clash y x)
        | inr (e, c) ↦
            inl (rw y (rw (self, kd) (rw self (e, c, refl, ap (λ g. resolve g dst) e, access))))
      ]
      | inr x ↦ elim (Bool-cases (tables.huge t)) [
        | inl h ↦ inr (rw x (rw h (rw self (rw (self, km) (refl, refl)))))
        | inr h ↦ inr (rw x (rw h (rw (h, km) (h, refl))))
      ]
    ]

-- What is mapped for the CPU or not, other tables and other entries of a directory are not written.
unwritten :
    (gart : Option (ℕ → ℕ)) (k : Bool) (n t i dst : ℕ) (flags : Flags) (ptes : ℕ → ℕ → Pte)
    (t' i' : ℕ)
    → (t' == t) ≡ false
    → (if k then set_ptes gart n t i dst page_size flags ptes else ptes) t' i' ≡ ptes t' i'
unwritten gart true n t i dst flags ptes t' i' e =
    set_ptes_out gart n t i dst page_size flags ptes t' i' (inl e)
unwritten gart false n t i dst flags ptes t' i' e = refl

unpointed :
    (k : Bool) (t t' : ℕ) (v : Pte) (pdes : ℕ → Pte)
    → (t' == t) ≡ false
    → (if k then update pdes t v else pdes) t' ≡ pdes t'
unpointed true t t' v pdes e = rw e refl
unpointed false t t' v pdes e = refl

-- A turn leaves the other tables alone.
pub other_table :
    (p : Params) (tables : Tables) (t i n dst : ℕ) (flags : Flags) (t' i' : ℕ)
    → (t' == t) ≡ false
    → let after = update_chunk p tables t i n dst flags in
      (after.huge t' ≡ tables.huge t')
      × (after.pdes t' ≡ tables.pdes t')
      × (after.ptes t' i' ≡ tables.ptes t' i')
unfolding update_chunk handle_huge_pages
other_table p tables t i n dst flags t' i' elsewhere =
    let self : (t == t) ≡ true = ground arith in
    let out = unwritten p.map_gart (p.kmaps t) n t i dst flags tables.ptes t' i' elsewhere in
    let dir =
      unpointed (p.kmaps_dir t) t t'
        (record { addr = resolve p.map_gart dst; flags = huge_flags p n flags }) tables.pdes
        elsewhere in
    elim (Bool-cases (huge_flags p n flags).huge_page) [
      | inl y ↦ rw y (rw self (rw elsewhere (refl, dir, refl)))
      | inr x ↦ elim (Bool-cases (tables.huge t)) [
        | inl h ↦ rw x (rw h (rw self (rw elsewhere (refl, refl, out))))
        | inr h ↦ rw x (rw h (rw h (refl, refl, out)))
      ]
    ]

-- The pages of a turn.
pub chunk_in :
    (p : Params) (tables : Tables) (a n dst : ℕ) (flags : Flags) (j : ℕ)
    → flags.huge_page ≡ false
    → dst < u64_mod
    → a % pte_count p + n ≤ pte_count p
    → j < n
    → p.kmaps (a / pte_count p) ≡ true
    → p.kmaps_dir (a / pte_count p) ≡ true
    → seen p (update_chunk p tables (a / pte_count p) (a % pte_count p) n dst flags) (a + j)
      ≡ (resolve p.map_gart (add64 dst (j * page_size)), flags.access)
unfolding seen
chunk_in p tables a n dst flags j small ld fits lt km kd =
    let d = pte_count p in
    rw (same_block_div d a j (omega arith), same_block_mod d a j (omega arith))
      (elim (own_table p tables (a / d) (a % d) n dst flags small km kd) [
        | inl (e, c, h, to, access) ↦
            let first : a % d + j ≡ j = omega arith in rw (h, to, access, first, e) refl
        | inr (h, written) ↦
            rw (h, written)
              (rw (set_ptes_in p.map_gart n (a / d) (a % d) dst page_size flags tables.ptes j ld lt)
                refl)
      ])

-- The other pages, but those that one huge page of the block mapped, stay as they are.
pub chunk_out :
    (p : Params) (tables : Tables) (a n dst : ℕ) (flags : Flags) (q : ℕ)
    → flags.huge_page ≡ false
    → a % pte_count p + n ≤ pte_count p
    → (q < a) ⊎ (a + n ≤ q)
    → (tables.huge (q / pte_count p) ≡ false) ⊎ (q / pte_count p ≢ a / pte_count p)
    → p.kmaps (a / pte_count p) ≡ true
    → p.kmaps_dir (a / pte_count p) ≡ true
    → let after = update_chunk p tables (a / pte_count p) (a % pte_count p) n dst flags in
      (seen p after q ≡ seen p tables q)
      × (after.huge (q / pte_count p) ≡ tables.huge (q / pte_count p))
unfolding seen
chunk_out p tables a n dst flags q small fits away kept km kd =
    let d = pte_count p in
    elim (ℕ_discrete (q / d) (a / d)) [
      | no ne ↦
          let (hu, pd, pt) =
            other_table p tables (a / d) (a % d) n dst flags (q / d) (q % d) (ground arith) in
          (rw (hu, pd, pt) refl, hu)
      | yes e ↦
          let plain : tables.huge (q / d) ≡ false = elim kept [
            | inl h ↦ h
            | inr ne ↦ absurd (ne e)
          ] in
          let diff = block_diff d a q (sym e) in
          elim (own_table p tables (a / d) (a % d) n dst flags small km kd) [
            | inl (g, c, h, to, access) ↦ absurd (ground (arith, mod-lt q (pow-pos p.block_size)))
            | inr (h, written) ↦
                let here : (update_chunk p tables (a / d) (a % d) n dst flags).huge (q / d)
                    ≡ false =
                  rw e h in
                let same =
                  set_ptes_out p.map_gart n (a / d) (a % d) dst page_size flags tables.ptes (q / d)
                    (q % d) (inr (ground arith)) in
                (rw (here, plain, written, same) refl, here ∙ sym plain)
          ]
    ]
