-- ===== src/BoList/Sort.antt =====
-- `gsgpu_bo_list_get_list` sorts by descending priority and keeps the order of equal priorities.
use loongson_gsgpu_dkms_modu.Base.{
  ℕ, zero, suc, ◌+◌, ◌≤◌, ◌<◌, List, [], ◌∷◌, ◌++◌, ◌==◌, ◌&&◌, if◌then◌else◌, All,
}
use loongson_gsgpu_dkms_modu.BoList.{Env, Entry, listed, num_buckets}

-- The listed entries of one priority, in order.
abbrev pub select : Env → ℕ → List Entry → List Entry
select v p [] = []
select v p (e ∷ es) = if listed v e && (p == e.priority) then e ∷ select v p es else select v p es

abbrev pub Descending : List Entry → Type 0
Descending [] = Unit
Descending (e ∷ es) = All (λ x. x.priority ≤ e.priority) es × Descending es

abbrev pub IsBounded : List Entry → Type 0
IsBounded es = All (λ e. e.priority < num_buckets) es

-- Buckets from `i` on, `n` of them, the highest first.
abbrev stacked : (ℕ → List Entry) → ℕ → ℕ → List Entry
stacked bucket i zero = []
stacked bucket i (suc n) = stacked bucket (i + 1) n ++ bucket i
