-- ===== src/Ids/Reserve.antt =====
-- A process may keep one VMID for itself.
use loongson_gsgpu_dkms_modu.Base.{ℕ, ◌≡◌, refl, sym, ap, ◌∙◌, List, ◌∷◌, none, some, ok}
use loongson_gsgpu_dkms_modu.Ids.{Mgr, alloc_reserved, free_reserved}

-- A reservation that is given back at once leaves the manager as it was: the VMID is again the next to be
-- taken. No VMID was reserved, and the list has one.
free-alloc_reserved :
    (m : Mgr) (i : ℕ) (rest : List ℕ)
    → m.ids_lru ≡ i ∷ rest
    → m.reserved_vmid_num ≡ 0
    → (m' : Mgr) × (alloc_reserved m none ≡ some (ok, m', some i))
      × (m'.reserved_vmid_num ≡ 1)
      × (free_reserved m' (some i) ≡ (m, none))
unfolding alloc_reserved free_reserved
free-alloc_reserved m i rest e z = (
  record m { ids_lru = rest; reserved_vmid_num = 1 },
  rw (e, z) refl,
  refl,
  ap (λ (l : List ℕ). (record { ids_lru = l; owner = m.owner; reserved_vmid_num = 0 }, none))
        (sym e)
      ∙ ap
          (λ (c : ℕ).
            (record { ids_lru = m.ids_lru; owner = m.owner; reserved_vmid_num = c }, none))
          (sym z),
)
