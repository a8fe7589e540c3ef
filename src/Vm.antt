-- ===== src/Vm.antt =====
-- gsgpu/gpu/gsgpu_vm.c: the mappings of buffer objects in the address space of a process. The interval
-- tree that holds them is the kernel's, a record of operations and of what they are documented to do.
-- The lists `valids` and `invalids` of a `bo_va` are the mappings of the tree that name it, by their
-- `valid` mark; the order of such a list is left out. Allocations answer with an argument.
pub mod Cut
pub mod Pages
pub mod Clear
pub mod Laws
pub mod Fit
pub mod Place
pub mod Mapped
pub mod Undo
pub mod Remove
mod Tests
use loongson_gsgpu_dkms_modu.Base.{
  ℕ, ◌+◌, ◌*◌, ◌/◌, ◌%◌, bit_and, ◌≡◌, Bool, true, false, ◌&&◌, ◌||◌, not, Option, none, some, List,
  ◌∷◌, ◌++◌, ltb, leb, ◌==◌, if◌then◌else◌, is_some, take, drop, u64_mod, sub64, low_mask, Status,
  einval, enomem, enoent, ok, err, keep, head?,
}

-- `struct gsgpu_bo_va_mapping`: pages `start` to `last`, from the byte `offset` of the buffer object of
-- `bo_va`. `valid`: on the list `valids` of its `bo_va`.
pub record Mapping : Type 0 where
  pub start : ℕ
  pub last : ℕ
  pub offset : ℕ
  pub flags : ℕ
  pub bo_va : Option ℕ
  pub valid : Bool

-- The list that `vm_status` is on.
pub data Listed : Type 0 where
  nowhere evicted relocated moved idle : Listed

-- What the module reads of a `struct gsgpu_bo`; `per_vm`: it shares the reservation object of the root.
pub record Bo : Type 0 where
  pub size : ℕ
  pub per_vm : Bool

-- `struct gsgpu_bo_va`.
pub record BoVa : Type 0 where
  pub bo : Option Bo
  pub was_moved : Bool
  pub vm_status : Listed

-- `struct gsgpu_vm`: the mappings in the interval tree, those to clear from the page tables, and the
-- `bo_va` at each address.
pub record Vm : Type 0 where
  pub va : List Mapping
  pub freed : List Mapping
  pub bo_vas : ℕ → BoVa

-- A mapping has a page from `s` to `e`.
abbrev pub overlaps : ℕ → ℕ → Mapping → Bool
overlaps s e m = leb m.start e && leb s m.last

abbrev pub starts_at : ℕ → Mapping → Bool
starts_at s m = m.start == s

-- `gsgpu_vm_it_insert`, `gsgpu_vm_it_remove`, and what `gsgpu_vm_it_iter_first` and then
-- `gsgpu_vm_it_iter_next` return, as the kernel documents its interval tree: a new mapping finds some
-- place in the order, an iteration meets the mappings that overlap in this order, and a removed
-- mapping, known by its start, leaves the others where they are.
pub record IntervalTree : Type 0 where
  pub insert : Mapping → List Mapping → List Mapping
  pub remove : Mapping → List Mapping → List Mapping
  pub iter : List Mapping → ℕ → ℕ → List Mapping
  pub insert_lem :
      (m : Mapping) (va : List Mapping) → (k : ℕ) × (insert m va ≡ take k va ++ m ∷ drop k va)
  pub remove_lem :
      (m : Mapping) (va : List Mapping) → remove m va ≡ keep (λ x. not (starts_at m.start x)) va
  pub iter_lem : (va : List Mapping) (s e : ℕ) → iter va s e ≡ keep (overlaps s e) va

-- `GSGPU_GPU_PAGE_SIZE` and `GSGPU_GPU_PAGE_MASK`.
abbrev pub page_size : ℕ
page_size = 16 * 1024

abbrev pub page_mask : ℕ
page_mask = low_mask 14

abbrev pub add64 : ℕ → ℕ → ℕ
add64 a b = (a + b) % u64_mod

-- `eaddr`, in bytes.
abbrev pub end_of : ℕ → ℕ → ℕ
end_of saddr size = sub64 (add64 saddr size) 1

-- `bo && offset + size > gsgpu_bo_size(bo)`.
unfoldable pub exceeds : Option Bo → ℕ → ℕ → Bool
exceeds none offset size = false
exceeds (some bo) offset size = ltb bo.size (add64 offset size)

-- The parameters that `gsgpu_vm_bo_map` and `gsgpu_vm_bo_replace_map` refuse.
unfoldable pub rejects : Option Bo → ℕ → ℕ → ℕ → Bool
unfolding exceeds
rejects bo saddr offset size =
    not (bit_and saddr page_mask == 0)
    || not (bit_and offset page_mask == 0)
    || size == 0
    || not (bit_and size page_mask == 0)
    || leb (end_of saddr size) saddr
    || exceeds bo offset size

abbrev pub set_bo_va : (ℕ → BoVa) → ℕ → BoVa → ℕ → BoVa
set_bo_va f b x a = if a == b then x else f a

-- The move to the list `moved` in `gsgpu_vm_bo_insert_map`.
pub note_moved : BoVa → BoVa
note_moved x = elim x.bo [
  | none ↦ x
  | some bo ↦ if bo.per_vm && not x.was_moved then record x { vm_status = moved } else x
]

-- The list of a `bo_va` holds a mapping.
abbrev pub owns : ℕ → Bool → Mapping → Bool
owns b v m = elim m.bo_va [ none ↦ false | some c ↦ b == c ] && (if v then m.valid else not m.valid)

module _ (tree : IntervalTree) where
  -- `gsgpu_vm_bo_insert_map`.
  pub insert_map : Vm → ℕ → Mapping → Vm
  unfolding note_moved
  insert_map vm b m = record vm {
    va = tree.insert (record m { bo_va = some b; valid = false }) vm.va;
    bo_vas = set_bo_va vm.bo_vas b (note_moved (vm.bo_vas b));
  }

  abbrev pub new_mapping : ℕ → ℕ → ℕ → ℕ → Mapping
  new_mapping s e offset flags = record {
    start = s;
    last = e;
    offset = offset;
    flags = flags;
    bo_va = none;
    valid = false;
  }

  -- `gsgpu_vm_bo_map`. `mem`: whether there is memory.
  unfoldable pub bo_map : Bool → Vm → ℕ → ℕ → ℕ → ℕ → ℕ → Status × Vm
  unfolding rejects insert_map
  bo_map mem vm b saddr offset size flags =
      let s = saddr / page_size in
      let e = end_of saddr size / page_size in
      if rejects (vm.bo_vas b).bo saddr offset size
      then (err einval, vm)
      else if is_some (head? (tree.iter vm.va s e))
      then (err einval, vm)
      else if mem
      then (ok, insert_map vm b (new_mapping s e offset flags))
      else (err enomem, vm)

  -- `gsgpu_vm_bo_lookup_mapping`.
  pub lookup_mapping : Vm → ℕ → Option Mapping
  lookup_mapping vm addr = head? (tree.iter vm.va addr addr)

  -- The search of one list of `gsgpu_vm_bo_unmap`.
  abbrev pub find_start : Vm → ℕ → Bool → ℕ → Option Mapping
  find_start vm b v s = head? (keep (λ m. owns b v m && starts_at s m) vm.va)

  -- `gsgpu_vm_bo_unmap` after its searches of `valids` and `invalids`: a valid mapping waits on `freed`,
  -- an invalid one is freed.
  pub take_out : Vm → Option Mapping → Option Mapping → Status × Vm
  take_out vm (some m) invalid =
      (ok, record vm { va = tree.remove m vm.va; freed = record m { bo_va = none } ∷ vm.freed })
  take_out vm none (some m) = (ok, record vm { va = tree.remove m vm.va })
  take_out vm none none = (err enoent, vm)

  -- `gsgpu_vm_bo_unmap`.
  pub bo_unmap : Vm → ℕ → ℕ → Status × Vm
  unfolding take_out
  bo_unmap vm b saddr =
      take_out vm (find_start vm b true (saddr / page_size))
        (find_start vm b false (saddr / page_size))
