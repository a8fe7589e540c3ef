-- ===== src/Sa/Tests.antt =====
-- The sub-allocator at a buffer of 256 bytes with two pieces, the hole after the first.
use loongson_gsgpu_dkms_modu.Base.{
  if◌then◌else◌, ◌==◌, ◌+◌, ◌%◌, ◌≤◌, ◌<◌, ◌≡◌, ◌⊎◌, [], ◌∷◌, none, some, true, false, arith,
}
use loongson_gsgpu_dkms_modu.Ring.Round.{round_up}
use loongson_gsgpu_dkms_modu.Sa.{SaBo, Manager, Fences, hole_soffset, hole_eoffset, try_alloc}
use loongson_gsgpu_dkms_modu.Sa.Arena.{IsArena}
use loongson_gsgpu_dkms_modu.Sa.Place.{IsSmall, placed_at, try_alloc_outcome}

abbrev low : SaBo
low = record { id = 1; soffset = 0; eoffset = 40; fence = none }

abbrev high : SaBo
high = record { id = 2; soffset = 128; eoffset = 192; fence = some 9 }

abbrev manager : Manager
manager = record { size = 256; align = 64; left = low ∷ []; right = high ∷ []; flist = λ i. [] }

abbrev idle : Fences
idle = record { signaled = λ g. true; context = λ g. 3 }

abbrev busy : Fences
busy = record { signaled = λ g. false; context = λ g. 3 }

manager-IsArena : IsArena manager
unfolding hole_soffset
manager-IsArena = record {
  down = (omega arith, omega arith, tt);
  up = (omega arith, omega arith, omega arith);
}

small : IsSmall manager 64 64
small = record {
  arena = omega arith;
  piece = omega arith;
  unit = omega arith;
  unit_small = omega arith;
}

try_alloc_outcome_example :
    let at = round_up 64 (hole_soffset manager.left) in
    let m' = record manager { left = placed_at 3 at 64 ∷ manager.left } in
    ((at + 64 ≤ hole_eoffset manager.size manager.right)
      × (try_alloc manager 3 64 64 ≡ some m')
      × (at % 64 ≡ 0)
      × IsArena m')
    ⊎ ((hole_eoffset manager.size manager.right < at + 64) × (try_alloc manager 3 64 64 ≡ none))
try_alloc_outcome_example = try_alloc_outcome manager 3 64 64 manager-IsArena small

abbrev full : SaBo
full = record { id = 1; soffset = 0; eoffset = 256; fence = some 9 }

abbrev waiting : Manager
waiting = record {
  size = 256;
  align = 64;
  left = full ∷ [];
  right = [];
  flist = λ i. if i == 3 then full ∷ [] else [];
}
