-- ===== src/Ids/Tests.antt =====
-- A search for numbers from below, and the PASIDs of three bits where 4 and 5 are in use.
use loongson_gsgpu_dkms_modu.Base.{ℕ, zero, suc, ◌+◌, ◌-◌, ◌≡◌, refl, List, [], ◌∷◌, if◌then◌else◌}
use loongson_gsgpu_dkms_modu.Ids.{Got, id, no_space, Ida, pasid, pasid_alloc, Mgr}
use loongson_gsgpu_dkms_modu.Ids.Pasid.{is_used}

-- The least number that is not in use, among `n` from `lo`.
abbrev lowest : List ℕ → ℕ → ℕ → Got
lowest used lo zero = no_space
lowest used lo (suc n) =
    let rest = lowest used (lo + 1) n in if is_used lo used then rest else id lo

abbrev ida : Ida
ida used lo hi = lowest used lo (hi - lo)

abbrev used : List ℕ
used = 4 ∷ 5 ∷ []

takes_six : pasid_alloc ida used 3 ≡ (pasid 6, 6 ∷ 4 ∷ 5 ∷ [])
unfolding pasid_alloc
takes_six = refl

abbrev mgr : Mgr
mgr = record { ids_lru = 2 ∷ 3 ∷ 1 ∷ []; owner = λ i. 0; reserved_vmid_num = 0 }
