-- ===== src/Ids.antt =====
-- gsgpu/gpu/gsgpu_ids.c: numbers of address spaces. PASIDs come from an IDA of the kernel, which is an
-- argument; VMIDs from a list in the order of their last use.
pub mod Pasid
pub mod Reserve
mod Tests
use loongson_gsgpu_dkms_modu.Base.{
  ℕ, zero, suc, ◌+◌, ◌-◌, ◌^◌, min, Bool, true, false, List, [], ◌∷◌, ◌++◌, Option, none, some,
  ◌==◌, ltb, if◌then◌else◌, Status, ok, err, Errno, einval, enospc, enomem,
}

-- `ida_simple_get`: a number of a range that is not in use, or -ENOSPC or -ENOMEM.
pub data Got : Type 0 where
  id : ℕ → Got
  no_space no_memory : Got

abbrev pub Ida : Type 0
Ida = List ℕ → ℕ → ℕ → Got

-- What `gsgpu_pasid_alloc` returns.
pub data Result : Type 0 where
  pasid : ℕ → Result
  failed : Errno → Result

-- The loop of `gsgpu_pasid_alloc`, with the result so far.
pub alloc_loop : Ida → List ℕ → ℕ → Result → Result
alloc_loop get used zero r = r
alloc_loop get used (suc b) r =
    let rest = alloc_loop get used b (failed enospc) in
    elim (get used (2 ^ b) (2 ^ suc b)) [
      | id n ↦ pasid n
      | no_memory ↦ failed enomem
      | no_space ↦ rest
    ]

-- `gsgpu_pasid_alloc`, and the numbers that are in use after it.
pub in_use : List ℕ → Result → List ℕ
in_use used (pasid n) = n ∷ used
in_use used (failed e) = used

unfoldable pub pasid_alloc : Ida → List ℕ → ℕ → Result × List ℕ
unfolding alloc_loop in_use
pasid_alloc get used bits =
    let r = alloc_loop get used (min bits 31) (failed einval) in (r, in_use used r)

-- `gsgpu_pasid_free`.
pub pasid_free : List ℕ → ℕ → List ℕ
pasid_free [] n = []
pasid_free (m ∷ ms) n = if m == n then ms else m ∷ pasid_free ms n

-- `struct gsgpu_vmid_mgr`: the list `ids_lru` of VMIDs, the owner of each, and the count of reserved ones.
pub record Mgr : Type 0 where
  pub ids_lru : List ℕ
  pub owner : ℕ → ℕ
  pub reserved_vmid_num : ℕ

-- `GSGPU_VM_MAX_RESERVED_VMID`.
abbrev pub max_reserved : ℕ
max_reserved = 1

-- `gsgpu_vmid_alloc_reserved`, for a process that may hold a reserved VMID. `none`: the list is empty,
-- and the code takes its head for an entry.
unfoldable pub alloc_reserved : Mgr → Option ℕ → Option (Status × Mgr × Option ℕ)
alloc_reserved m (some vmid) = some (ok, m, some vmid)
alloc_reserved m none =
    if ltb max_reserved (m.reserved_vmid_num + 1)
    then some (err einval, m, none)
    else elim m.ids_lru [
      | [] ↦ none
      | i ∷ rest ↦
          some
            (ok, record m { ids_lru = rest; reserved_vmid_num = m.reserved_vmid_num + 1 }, some i)
    ]

-- `gsgpu_vmid_free_reserved`.
unfoldable pub free_reserved : Mgr → Option ℕ → Mgr × Option ℕ
free_reserved m none = (m, none)
free_reserved m (some i) =
    (record m { ids_lru = i ∷ m.ids_lru; reserved_vmid_num = m.reserved_vmid_num - 1 }, none)

-- `gsgpu_vmid_reset`.
pub vmid_reset : Mgr → ℕ → Mgr
vmid_reset m vmid = record m { owner = λ i. if i == vmid then 0 else m.owner i }

-- The loop of `gsgpu_vmid_reset_all`, from `i` on.
pub reset_from : Mgr → ℕ → ℕ → Mgr
unfolding vmid_reset
reset_from m i zero = m
reset_from m i (suc n) = reset_from (vmid_reset m i) (i + 1) n

pub vmid_reset_all : Mgr → ℕ → Mgr
unfolding reset_from
vmid_reset_all m num_ids = reset_from m 1 (num_ids - 1)

-- `gsgpu_vmid_mgr_init`: the number 0 is the system's.
pub init_from : Mgr → ℕ → ℕ → Mgr
unfolding vmid_reset
init_from m i zero = m
init_from m i (suc n) =
    let r = vmid_reset m i in init_from (record r { ids_lru = r.ids_lru ++ (i ∷ []) }) (i + 1) n

pub vmid_mgr_init : Mgr → ℕ → Mgr
unfolding init_from
vmid_mgr_init m num_ids =
    init_from (record m { ids_lru = []; reserved_vmid_num = 0 }) 1 (num_ids - 1)
