-- ===== src/Ih/Tests.antt =====
-- Two interrupts in a ring of 16 dwords, round its end: the first is a fault without credit.
use loongson_gsgpu_dkms_modu.Base.{
  ℕ, ◌+◌, ◌*◌, ◌%◌, ◌^◌, ◌≡◌, refl, true, if◌then◌else◌, ◌==◌, none, ◌∷◌, [], ◌++◌, some, replicate,
  arith,
}
use loongson_gsgpu_dkms_modu.Ih.{Ih, Credits, drain}
use loongson_gsgpu_dkms_modu.Ih.Drain.{IsRing, wanted, faults, left, moved, drain_ends}

-- Process 1 has used up its credit.
abbrev broke : Credits
broke pasid = if pasid == 1 then some 0 else none

abbrev ih : Ih
ih = record {
  ring = (181 ∷ 5 ∷ 66051 ∷ 9 ∷ []) ++ (replicate 8 0 ++ (146 ∷ 1 ∷ 65536 ∷ 2 ∷ []));
  ptr_mask = 15;
  rptr = 12;
  enabled = true;
}

ih-IsRing : IsRing 4 ih
ih-IsRing = record {
  room = omega arith;
  fits = omega arith;
  mask = refl;
  storage = omega arith;
  inside = omega arith;
  on_entry = refl;
}

-- The fault is screened out; the other entry is source 181, ring 3, VMID 2 and process 1.
decodes :
    drain 2 broke ih 4
    ≡ some (
      record { src_id = 181; ring_id = 3; vmid = 2; pasid = 1; data0 = 5; data1 = 9 } ∷ [],
      broke,
      record ih { rptr = 4 },
    )
unfolding drain
decodes = refl

drain_ends_example :
    (credits' : Credits) × (drain 2 broke ih ((12 + 4 * 2) % 2 ^ 4)
      ≡ some (wanted broke (λ p. 0) ih 4 2 12, credits', moved ih ((12 + 4 * 2) % 2 ^ 4)))
    × ((p : ℕ) → credits' p ≡ left broke (faults (λ p. 0) ih 4 2 12) p)
drain_ends_example = drain_ends 2 broke ih ih-IsRing (omega arith)
