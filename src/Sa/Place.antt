-- ===== src/Sa/Place.antt =====
-- Where `gsgpu_sa_bo_try_alloc` puts a piece.
use loongson_gsgpu_dkms_modu.Base.{
  ℕ, ◌+◌, ◌-◌, ◌%◌, ◌≤◌, ◌<◌, ◌≡◌, refl, ◌∙◌, ◌⊎◌, inl, inr, List, [], ◌∷◌, ◌^◌, none, some,
  u32_mod, sub32, leb, leb→le, arith, Bool-cases,
}
use native.Mathlib.Nat.{mod-eq_of_lt, mod-lt}
use loongson_gsgpu_dkms_modu.Ring.Round.{round_up, le-round_up, round_up-mod, add-missing}
use loongson_gsgpu_dkms_modu.Sa.{
  SaBo, Manager, hole_soffset, hole_eoffset, wasted_at, fits, try_alloc,
}
use loongson_gsgpu_dkms_modu.Sa.Arena.{Ups, IsArena, Ups-le}

-- Sizes for which the code's `unsigned` sums do not wrap.
pub record IsSmall (m : Manager) (size align : ℕ) : Type 0 where
  pub arena : m.size ≤ 2 ^ 31
  pub piece : size ≤ m.size
  pub unit : 0 < align
  pub unit_small : align ≤ 2 ^ 31

-- The alignment loss leads to the next multiple.
pub add-wasted_at :
    (s align : ℕ) → 0 < align → align ≤ 2 ^ 31 → s + wasted_at s align ≡ round_up align s
unfolding wasted_at
add-wasted_at s align p h =
    let low = mod-lt s p in
    let e : sub32 align (s % align) ≡ align - s % align = omega arith in
    rw e (add-missing align s p)

pub wasted_at-lt : (s align : ℕ) → 0 < align → wasted_at s align < align
unfolding wasted_at
wasted_at-lt s align p = mod-lt (sub32 align (s % align)) p

hole_end :
    (right : List SaBo) (lo hi : ℕ)
    → Ups lo right hi
    → (lo ≤ hole_eoffset hi right) × (hole_eoffset hi right ≤ hi)
unfolding hole_eoffset
hole_end [] lo hi u = (u, omega arith)
hole_end (b ∷ bs) lo hi u = (u.0, omega (arith, u.1, Ups-le bs b.eoffset hi u.2))

Ups-raise :
    (right : List SaBo) (lo lo' hi : ℕ)
    → Ups lo right hi
    → lo' ≤ hole_eoffset hi right
    → Ups lo' right hi
unfolding hole_eoffset
Ups-raise [] lo lo' hi u h = h
Ups-raise (b ∷ bs) lo lo' hi u h = (h, u.1, u.2)

-- Whether the hole takes a piece: from the next multiple of the alignment, up to the end of the hole.
fits_lem :
    (m : Manager) (size align : ℕ)
    → IsArena m
    → IsSmall m size align
    → fits m size align
      ≡ leb (round_up align (hole_soffset m.left) + size) (hole_eoffset m.size m.right)
unfolding fits
fits_lem m size align a k =
    let s = hole_soffset m.left in
    let e = hole_eoffset m.size m.right in
    let w = wasted_at s align in
    let bound = hole_end m.right s m.size a.up in
    let at = add-wasted_at s align k.unit k.unit_small in
    let small = wasted_at-lt s align k.unit in
    let sum : (size + w) % u32_mod ≡ size + w =
      mod-eq_of_lt (omega (arith, k.arena, k.piece, k.unit_small)) in
    let room : sub32 e s ≡ e - s = omega (arith, bound.0, bound.1, k.arena) in
    rw (sum, room) (ground (arith, bound.0, at))

abbrev pub placed_at : ℕ → ℕ → ℕ → SaBo
placed_at id at size = record { id = id; soffset = at; eoffset = at + size; fence = none }

-- A piece is put at the first multiple of its alignment in the hole, if it ends there before the next
-- piece: it then is the hole, the list still stands in order without overlaps, and nothing else changes.
-- Otherwise the call fails. The manager's size and the alignment are at most 2 ^ 31, the alignment is not
-- zero, and the piece is no larger than the manager.
pub try_alloc_outcome :
    (m : Manager) (id size align : ℕ)
    → IsArena m
    → IsSmall m size align
    → let at = round_up align (hole_soffset m.left) in
      let m' = record m { left = placed_at id at size ∷ m.left } in
      ((at + size ≤ hole_eoffset m.size m.right)
        × (try_alloc m id size align ≡ some m')
        × (at % align ≡ 0)
        × IsArena m')
      ⊎ ((hole_eoffset m.size m.right < at + size) × (try_alloc m id size align ≡ none))
unfolding try_alloc hole_soffset
try_alloc_outcome m id size align a k =
    let s = hole_soffset m.left in
    let e = hole_eoffset m.size m.right in
    let at = round_up align s in
    let m' = record m { left = placed_at id at size ∷ m.left } in
    elim (Bool-cases (leb (at + size) e)) [
      | inl y ↦
          let le = leb→le (at + size) e y in
          let sum = add-wasted_at s align k.unit k.unit_small in
          let bound = hole_end m.right s m.size a.up in
          let start : (s + wasted_at s align) % u32_mod ≡ at =
            mod-eq_of_lt (omega (arith, k.arena)) ∙ sum in
          let end : (at + size) % u32_mod ≡ at + size = mod-eq_of_lt (omega (arith, k.arena)) in
          let arena : IsArena m' = record {
            down = (le-round_up align s k.unit, omega arith, a.down);
            up = Ups-raise m.right s (at + size) m.size a.up le;
          } in
          inl (le, rw (fits_lem m size align a k, y, start, end) refl, round_up-mod align s, arena)
      | inr n ↦ inr (ground arith, rw (fits_lem m size align a k, n) refl)
    ]
