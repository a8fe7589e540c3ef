-- ===== src/Fence/Tests.antt =====
-- A table of four slots near the wrap of the sequence numbers: two of three fences have passed.
use loongson_gsgpu_dkms_modu.Base.{
  ℕ, ◌+◌, ◌%◌, ◌^◌, ◌≤◌, ◌<◌, ◌≡◌, refl, true, false, [], ◌∷◌, ◌++◌, none, some, ◌==◌,
  if◌then◌else◌, leb, get_or, arith,
}
use loongson_gsgpu_dkms_modu.Fence.{Driver, process, fence_read}
use loongson_gsgpu_dkms_modu.Fence.Process.{IsTable, passed, process_signals}

abbrev driver : Driver
driver = record {
  has_memory = true;
  memory = 0;
  sync_seq = 1;
  last_seq = 4294967294;
  num_fences_mask = 3;
  fences = some 80 ∷ some 81 ∷ none ∷ some 79 ∷ [];
  signaled = [];
}

driver-IsTable : IsTable 2 driver
driver-IsTable = record { fits = omega arith; mask = refl; storage = refl }

signals_two :
    process 2 driver
    ≡ some (
      true,
      record driver {
        last_seq = 0;
        fences = none ∷ some 81 ∷ none ∷ none ∷ [];
        signaled = 80 ∷ 79 ∷ [];
      },
    )
unfolding process
signals_two = refl

abbrev seen : ℕ
seen = 4294967294

process_signals_example :
    (d' : Driver) × (process 2 driver ≡ some (if fence_read driver == 1 then false else true, d'))
    × (d'.last_seq ≡ fence_read driver)
    × (d'.signaled ≡ passed 2 driver.fences seen 2 ++ [])
    × ((j : ℕ)
        → 0 < j
        → j ≤ 2 ^ 2
        → get_or d'.fences ((seen + j) % 2 ^ 2) none
          ≡ (if leb j 2 then none else get_or driver.fences ((seen + j) % 2 ^ 2) none))
unfolding fence_read
process_signals_example =
    process_signals 2 driver driver-IsTable (omega arith) (omega arith) (omega arith) refl
