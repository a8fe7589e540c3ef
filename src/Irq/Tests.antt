-- ===== src/Irq/Tests.antt =====
-- The display controller's interrupts 1, 3 and 16, and a source of two types of which one is held twice.
use loongson_gsgpu_dkms_modu.Base.{
  none, ℕ, ◌%◌, ◌^◌, ◌<◌, ◌≡◌, zero, suc, refl, true, false, [], ◌∷◌, some, pos, ok, arith, not,
  ◌==◌, get_or,
}
use loongson_gsgpu_dkms_modu.Irq.{Source, Irq, get, put, dc_handler, assign}
use loongson_gsgpu_dkms_modu.Irq.Table.{bits, dc_handler_lem}
use loongson_gsgpu_dkms_modu.Irq.Counts.{IsSynced, get-IsSynced, put-IsSynced}

dispatches : dc_handler 16 32773 ≡ some (1 ∷ 3 ∷ 16 ∷ [])
unfolding dc_handler
dispatches = refl

dc_handler_lem_example : dc_handler 16 32773 ≡ some (bits 16 (32773 % 2 ^ 16) 1)
dc_handler_lem_example = dc_handler_lem 32773

abbrev source : Source
source = record {
  num_types = 2;
  has_funcs = true;
  has_set = true;
  enabled_types = some (pos 0 ∷ pos 2 ∷ []);
  hw = false ∷ true ∷ [];
}

agreement :
    (t : ℕ)
    → t < 2
    → (n : ℕ) × (get_or (pos 0 ∷ pos 2 ∷ []) t (pos 0) ≡ pos n)
      × (get_or (false ∷ true ∷ []) t false ≡ not (n == 0))
agreement zero lt = (0, refl, refl)
agreement (suc zero) lt = (2, refl, refl)
agreement (suc (suc t)) lt = absurd (omega arith)

source-IsSynced : IsSynced source
source-IsSynced = record { types = refl; size = refl; hw_size = refl; agrees = agreement }

get-IsSynced_example : IsSynced (get true source 0 ok).1
get-IsSynced_example = get-IsSynced true source 0 ok source-IsSynced

put-IsSynced_example : IsSynced (put true source 1 ok).1
put-IsSynced_example = put-IsSynced true source 1 1 ok source-IsSynced refl

abbrev empty : Irq
empty = record { client = λ c. none; sources = λ a. source }

abbrev registered : Irq
registered = record {
  client = assign (λ c. none) 4 (some (assign (λ i. none) 14 (some 900)));
  sources = λ a. source;
}
