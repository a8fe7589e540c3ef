-- ===== src/HwSema/Tests.antt =====
-- The semaphore theorems at a table whose first entry is taken.
use loongson_gsgpu_dkms_modu.Base.{
  ℕ, ◌-◌, ◌≡◌, refl, ◌⊎◌, inl, true, false, List, ◌∷◌, some, u64_mod, get_elem?, set, replicate,
  All, take, ok, err, enodata,
}
use loongson_gsgpu_dkms_modu.HwSema.{Sema, Vm, Request, cleared, op_ioctl}
use loongson_gsgpu_dkms_modu.HwSema.Laws.{granted, IsOwned, IsTable, replicate-IsClean, get_outcome}

abbrev vm : Vm
vm = record { addr = 500; pasid = 7 }

abbrev get_request : Request
get_request = record { id = 0; ctx_id = 3; ops = 1 }

abbrev put_request : Request
put_request = record { id = 40; ctx_id = 3; ops = 2 }

abbrev taken : Sema
taken = record { own = true; pasid = 9; ctx = 1; vm = some 400 }

abbrev table : List Sema
table = taken ∷ replicate 31 cleared

table-IsTable : IsTable table
table-IsTable = record { size = refl; clean = (inl refl, replicate-IsClean 31) }

get_outcome_example :
    (All IsOwned table
      × (op_ioctl table vm get_request
          ≡ some (err enodata, record get_request { id = u64_mod - 1 }, table)))
    ⊎ ((i : ℕ) × (s : Sema) × (get_elem? table i ≡ some s)
        × (s.own ≡ false)
        × All IsOwned (take i table)
        × (op_ioctl table vm get_request
            ≡ some (ok, record get_request { id = i }, set table i (granted vm get_request))))
get_outcome_example = get_outcome table vm get_request refl
