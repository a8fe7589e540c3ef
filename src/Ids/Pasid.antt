-- ===== src/Ids/Pasid.antt =====
-- The search for a PASID takes large numbers first and fails only where none is left.
use loongson_gsgpu_dkms_modu.Base.{
  ℕ, suc, ◌^◌, ◌≤◌, ◌<◌, ◌≡◌, inl, inr, Bool, true, false, List, [], ◌∷◌, ◌==◌, ◌||◌, ltb, arith,
  Bool-cases, ltb→lt,
}
use loongson_gsgpu_dkms_modu.Ids.{id, no_space, Ida}

abbrev pub is_used : ℕ → List ℕ → Bool
is_used n [] = false
is_used n (m ∷ ms) = (n == m) || is_used n ms

-- What the kernel documents of `ida_simple_get`: a number that it gives is in the range and not in use,
-- and it reports -ENOSPC only where the whole range is in use.
pub record IsIda (get : Ida) : Type 0 where
  pub fresh :
      (used : List ℕ) (lo hi n : ℕ)
      → get used lo hi ≡ id n
      → (lo ≤ n) × (n < hi) × (is_used n used ≡ false)
  pub full :
      (used : List ℕ) (lo hi n : ℕ)
      → get used lo hi ≡ no_space
      → lo ≤ n
      → n < hi
      → is_used n used ≡ true

-- Every number from `2 ^ lo` to below `2 ^ hi` is in use.
abbrev pub AllUsed : List ℕ → ℕ → ℕ → Type 0
AllUsed used lo hi = (m : ℕ) → 2 ^ lo ≤ m → m < 2 ^ hi → is_used m used ≡ true

-- A number of `b + 1` bits that is free, where all of more bits are in use.
pub record Found (used : List ℕ) (bits n : ℕ) : Type 0 where
  pub level : ℕ
  pub at_least : 2 ^ level ≤ n
  pub below : n < 2 ^ suc level
  pub inside : suc level ≤ bits
  pub free : is_used n used ≡ false
  pub above : AllUsed used (suc level) bits

raise :
    (used : List ℕ) (get : Ida) (b m : ℕ)
    → IsIda get
    → get used (2 ^ b) (2 ^ suc b) ≡ no_space
    → (lo : ℕ) → AllUsed used lo b
    → 2 ^ lo ≤ m
    → m < 2 ^ suc b
    → is_used m used ≡ true
raise used get b m k e lo all le lt = elim (Bool-cases (ltb m (2 ^ b))) [
  | inl y ↦ all m le (ltb→lt m (2 ^ b) y)
  | inr n ↦ k.full used (2 ^ b) (2 ^ suc b) m e (ground arith) lt
]
