-- ===== src/HwSema.antt =====
-- gsgpu/gpu/gsgpu_hw_sema.c: the table of hardware semaphores that processes hold. The list that the
-- code walks links the entries of the array in the order of their indices, from `mgr_init` on, and is
-- never changed, so the array stands for both. The mutex makes each operation one step.
pub mod Laws
mod Spans
mod Tests
use loongson_gsgpu_dkms_modu.Base.{
  ℕ, zero, suc, ◌+◌, ◌-◌, ◌%◌, ◌≡◌, Bool, true, false, List, [], ◌∷◌, Option, none, some, u32_mod,
  u64_mod, ◌==◌, ltb, if◌then◌else◌, length, get_elem?, set, replicate, Status, ok, err, einval,
  enodata,
}

-- `struct gsgpu_hw_sema`, less its list link. `vm` is the address of a `struct gsgpu_vm`.
pub record Sema : Type 0 where
  pub own : Bool
  pub pasid : ℕ
  pub ctx : ℕ
  pub vm : Option ℕ

-- `GSGPU_NUM_SEMA`.
abbrev pub num_sema : ℕ
num_sema = 32

abbrev pub cleared : Sema
cleared = record { own = false; pasid = 0; ctx = 0; vm = none }

-- `gsgpu_sema_reset`. `none`: the index is outside the array, and the code writes there.
pub reset : List Sema → ℕ → Option (List Sema)
reset sema id = if ltb id (length sema) then some (set sema id cleared) else none

-- The first entry of the list that nobody owns, by its index.
pub find_idle : List Sema → Option ℕ
find_idle [] = none
find_idle (s ∷ rest) = elim s.own [
  | false ↦ some 0
  | true ↦ elim (find_idle rest) [ none ↦ none | some i ↦ some (suc i) ]
]

-- The fields of `struct gsgpu_vm` that are read here.
pub record Vm : Type 0 where
  pub addr : ℕ
  pub pasid : ℕ

-- `struct drm_gsgpu_hw_sema`, the ioctl's argument.
pub record Request : Type 0 where
  pub id : ℕ
  pub ctx_id : ℕ
  pub ops : ℕ

-- `GSGPU_HW_SEMA_GET` and `GSGPU_HW_SEMA_PUT`.
abbrev pub op_get : ℕ
op_get = 1

abbrev pub op_put : ℕ
op_put = 2

-- `gsgpu_sema_grab_new`: the status, the argument as the caller gets it back, and the table. The name of the task,
-- which `gsgpu_vm_set_task_info` notes, is left out.
pub grab_new : List Sema → Vm → Request → Status × Request × List Sema
grab_new sema vm req = elim (find_idle sema) [
  | none ↦ (err enodata, record req { id = u64_mod - 1 }, sema)
  | some i ↦ (
    ok,
    record req { id = i },
    set sema i (record { own = true; pasid = vm.pasid; ctx = req.ctx_id; vm = some vm.addr }),
  )
]

-- `gsgpu_hw_sema_op_ioctl`. The semaphore's number is cut to `unsigned` on its way to the reset.
-- `none`: a write outside the array.
unfoldable pub op_ioctl : List Sema → Vm → Request → Option (Status × Request × List Sema)
unfolding grab_new reset find_idle
op_ioctl sema vm req =
    if req.ops == op_get
    then some (grab_new sema vm req)
    else if req.ops == op_put
    then elim (reset sema (req.id % u32_mod)) [ none ↦ none | some sema' ↦ some (ok, req, sema') ]
    else some (err einval, req, sema)

pub holds : Option ℕ → ℕ → Bool
holds none vm = false
holds (some a) vm = a == vm

-- The loop of `gsgpu_sema_free`: `rest` is what is left of the list, `i` the index of its head.
pub free_from : List Sema → ℕ → List Sema → ℕ → Option (List Sema)
unfolding holds
free_from sema vm [] i = some sema
free_from sema vm (s ∷ rest) i = elim (holds s.vm vm) [
  | true ↦ elim (reset sema i) [ none ↦ none | some sema' ↦ free_from sema' vm rest (suc i) ]
  | false ↦ free_from sema vm rest (suc i)
]

-- `gsgpu_sema_free`, when a process's address space goes away.
pub sema_free : List Sema → ℕ → Option (List Sema)
sema_free sema vm = free_from sema vm sema 0

-- `gsgpu_hw_sema_mgr_init`: every entry is reset and linked.
pub init_from : List Sema → ℕ → ℕ → Option (List Sema)
init_from sema i zero = some sema
init_from sema i (suc n) = elim (reset sema i) [
  | none ↦ none
  | some sema' ↦ init_from sema' (i + 1) n
]

pub mgr_init : List Sema → Option (List Sema)
mgr_init sema = init_from sema 0 num_sema
