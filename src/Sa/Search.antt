-- ===== src/Sa/Search.antt =====
-- The search of `gsgpu_sa_bo_new` for a hole ends: every hop takes a piece from the fence lists, or goes
-- to the start of the buffer, where the last hop from the end leads.
use loongson_gsgpu_dkms_modu.Base.{
  ℕ, zero, suc, ◌+◌, ◌*◌, ◌%◌, ◌<◌, ◌≡◌, List, [], ◌∷◌, Option, none, some, length,
}
use loongson_gsgpu_dkms_modu.Sa.{SaBo, Manager, Outcome, placed, stuck, num_fence_lists}
use loongson_gsgpu_dkms_modu.Sa.Arena.{IsArena}
use loongson_gsgpu_dkms_modu.Sa.Place.{placed_at}

-- How many pieces the first `n` fence lists hold.
abbrev pub total : (ℕ → List SaBo) → ℕ → ℕ
total fl zero = 0
total fl (suc n) = length (fl n) + total fl n

-- A piece that a scan found is the head of a fence list.
abbrev Headed : (ℕ → List SaBo) → Option SaBo → Type 0
Headed fl none = Unit
Headed fl (some x) = (i : ℕ) × (rest : List SaBo) × (i < num_fence_lists) × (fl i ≡ x ∷ rest)

-- What is left to try: twice the pieces that wait, and one if the hole is not at the start.
abbrev is_inside : List SaBo → ℕ
is_inside [] = 0
is_inside (b ∷ bs) = 1

abbrev pub measure : Manager → ℕ
measure m = 2 * total m.flist num_fence_lists + is_inside m.left

-- What the search ends with: the piece is the hole, aligned and of its size, and the pieces stand in
-- order; or nothing is left to try, and they do.
abbrev pub Good : ℕ → ℕ → ℕ → Outcome → Type 0
Good id size align (placed m) =
    IsArena m
    × (at : ℕ) × (rest : List SaBo) × (m.left ≡ placed_at id at size ∷ rest)
    × (at % align ≡ 0)
Good id size align (stuck m waits) = IsArena m
