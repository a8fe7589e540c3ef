-- ===== src/Split/Tests.antt =====
-- Runs of `gsgpu_vm_bo_split_mapping`.
use loongson_gsgpu_dkms_modu.Base.{
  ℕ, ◌+◌, ◌/◌, ◌^◌, ◌≤◌, ◌≡◌, zero, suc, refl, Option, some, none, List, [], ◌∷◌, arith, true,
  is_some, ok, Errno,
}
use loongson_gsgpu_dkms_modu.VramMgr.{Range}
use loongson_gsgpu_dkms_modu.Split.{Device, Update, vram, split_mapping}
use loongson_gsgpu_dkms_modu.Split.Cover.{target, sent}
use loongson_gsgpu_dkms_modu.Split.Cover.Loop.{IsBacked, split_mapping_lem}

abbrev device : Device
device = record { page_shift = 14; per_cpu = 1; vram_base_offset = 4096 }

-- Three ranges; the mapping starts in the second.
abbrev ranges : List Range
ranges =
    record { start = 100; size = 2 }
    ∷ record { start = 10; size = 3 }
    ∷ record { start = 50; size = 4 }
    ∷ []

abbrev fine : Update → Option Errno
fine u = none

two_pieces :
    split_mapping 5 device fine (vram ranges) 7 10 49152
    ≡ some (
      ok,
      record { start = 7; last = 8; addr = 184320 }
          ∷ record { start = 9; last = 10; addr = 823296 }
          ∷ [],
    )
unfolding split_mapping
two_pieces = refl

backed : IsBacked 10 (vram ranges)
backed =
    ((omega arith, omega arith), ((omega arith, omega arith), ((omega arith, omega arith), tt)))

memory : (j : ℕ) → 7 + j ≤ 10 → is_some (target device (vram ranges) (49152 / 2 ^ 14 + j)) ≡ true
unfolding target
memory zero le = refl
memory (suc zero) le = refl
memory (suc (suc zero)) le = refl
memory (suc (suc (suc zero))) le = refl
memory (suc (suc (suc (suc j)))) le = absurd (omega arith)

split_mapping_example :
    (us : List Update) × (split_mapping 5 device fine (vram ranges) 7 10 49152 ≡ some (ok, us))
    × ((j : ℕ)
        → 7 + j ≤ 10
        → sent device us (7 + j) ≡ target device (vram ranges) (49152 / 2 ^ device.page_shift + j))
split_mapping_example =
    split_mapping_lem 5 device fine (vram ranges) 7 10 49152 refl (λ u. refl) backed (omega arith)
      (omega arith) memory
