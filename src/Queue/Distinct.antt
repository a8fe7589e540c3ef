-- ===== src/Queue/Distinct.antt =====
-- The rings behind the ring numbers of a process.
use loongson_gsgpu_dkms_modu.Base.{
  ℕ, zero, suc, ◌<◌, ◌≡◌, refl, sym, ap, ◌∙◌, subst, ◌⊎◌, inl, inr, Bool, true, false, ◌&&◌, not,
  Option, none, some, List, [], ◌∷◌, arith, leb, ◌==◌, Bool-cases, Option-cases, is_some, get_or,
  set, einval, err, keep, head?, head_keep, List-cases,
}
use loongson_gsgpu_dkms_modu.Queue.{
  HwRing, max_rings, max_ip_num, hw_ip_gfx, hw_ip_dma, Mapper, Device, is_blacklisted, lru_find,
  lru_take, lru_get, cached, update_cached_map, Mapped, blacklist, map_found, lru_map, ip_num_rings,
  map_ring, queue_mgr_map,
}

-- A ring that may be had: of the type, and not on the list.
abbrev pub is_free : ℕ → List ℕ → HwRing → Bool
is_free type bl r = r.type == type && not (is_blacklisted r bl)

-- The search finds the first such ring of the list.
pub lru_find_lem :
    (type : ℕ) (bl : List ℕ) (lru : List HwRing)
    → lru_find type bl lru ≡ head? (keep (is_free type bl) lru)
unfolding lru_find
lru_find_lem type bl [] = refl
lru_find_lem type bl (r ∷ lru) = ground (arith, lru_find_lem type bl lru)

-- No two numbers of a process have the same ring.
unfoldable pub IsDistinct : List (Option HwRing) → Type 0
IsDistinct rings =
    (i j : ℕ) (r s : HwRing)
    → get_or rings i none ≡ some r
    → get_or rings j none ≡ some s
    → r.idx ≡ s.idx
    → i ≡ j

-- A ring that stands in the map is on the list.
blacklist_lem :
    (rings : List (Option HwRing)) (j : ℕ) (r s : HwRing)
    → get_or rings j none ≡ some s
    → r.idx ≡ s.idx
    → is_blacklisted r (blacklist rings) ≡ true
unfolding blacklist
blacklist_lem [] j r s e same = cc
blacklist_lem (none ∷ rings) zero r s e same = cc
blacklist_lem (some x ∷ rings) zero r s e same = ground arith
blacklist_lem (none ∷ rings) (suc j) r s e same = blacklist_lem rings j r s e same
blacklist_lem (some x ∷ rings) (suc j) r s e same = ground (arith, blacklist_lem rings j r s e same)

set_cases :
    (rings : List (Option HwRing)) (i : ℕ) (r : HwRing) (j : ℕ) (x : HwRing)
    → get_or (set rings i (some r)) j none ≡ some x
    → ((j ≡ i) × (x ≡ r)) ⊎ (get_or rings j none ≡ some x)
set_cases [] i r j x e = inr e
set_cases (o ∷ rings) zero r zero x e = inl (refl, cc)
set_cases (o ∷ rings) zero r (suc j) x e = inr e
set_cases (o ∷ rings) (suc i) r zero x e = inr e
set_cases (o ∷ rings) (suc i) r (suc j) x e = elim (set_cases rings i r j x e) [
  | inl (a, b) ↦ inl (ap suc a, b)
  | inr a ↦ inr a
]

set-IsDistinct :
    (rings : List (Option HwRing)) (i : ℕ) (r : HwRing)
    → IsDistinct rings
    → is_blacklisted r (blacklist rings) ≡ false
    → IsDistinct (set rings i (some r))
unfolding IsDistinct
set-IsDistinct rings i r distinct free j k x y ex ey same = elim (set_cases rings i r j x ex) [
  | inl (a, b) ↦ elim (set_cases rings i r k y ey) [
    | inl (c, d) ↦ a ∙ sym c
    | inr h ↦ absurd (
        ground
          (arith, free, blacklist_lem rings k r y h (ap (λ (t : HwRing). t.idx) (sym b) ∙ same)))
  ]
  | inr g ↦ elim (set_cases rings i r k y ey) [
    | inl (c, d) ↦ absurd (
        ground (
          arith,
          free,
          blacklist_lem rings j r x g (ap (λ (t : HwRing). t.idx) (sym d) ∙ sym same),
        ))
    | inr h ↦ distinct j k x y g h same
  ]
]

found-IsDistinct :
    (dev : Device) (m : Mapper) (ring : ℕ) (o : Option HwRing)
    → IsDistinct m.queue_map
    → ((r : HwRing) → o ≡ some r → is_blacklisted r (blacklist m.queue_map) ≡ false)
    → IsDistinct (map_found m ring (lru_take dev false o)).mapper.queue_map
unfolding lru_take map_found update_cached_map
found-IsDistinct dev m ring none distinct free = distinct
found-IsDistinct dev m ring (some r) distinct free = elim (Bool-cases (is_some (cached m ring))) [
  | inl y ↦ rw y distinct
  | inr n ↦ rw n (set-IsDistinct m.queue_map ring r distinct (free r refl))
]

found_is_free :
    (type : ℕ) (bl : List ℕ) (lru : List HwRing) (r : HwRing)
    → lru_find type bl lru ≡ some r
    → is_blacklisted r bl ≡ false
found_is_free type bl lru r e =
    let h : head? (keep (is_free type bl) lru) ≡ some r = sym (lru_find_lem type bl lru) ∙ e in
    elim (List-cases (keep (is_free type bl) lru)) [
      | inl n ↦ absurd (ground arith)
      | inr (x, xs, c) ↦ let passes = head_keep (is_free type bl) lru x xs c in ground arith
    ]

abbrev pub refused_map : Device → Mapper → Mapped
refused_map dev m = record { status = err einval; out_ring = none; mapper = m; device = dev }

-- A request is refused, or passes the checks.
pub queue_mgr_map_cases :
    (dev : Device) (m : Mapper) (hw_ip instance_number ring : ℕ)
    → (queue_mgr_map dev m hw_ip instance_number ring ≡ refused_map dev m)
      ⊎ ((queue_mgr_map dev m hw_ip instance_number ring ≡ map_ring dev m ring)
          × (ring < max_rings)
          × ((dev' : Device) (m' : Mapper)
              → ip_num_rings dev' hw_ip ≡ ip_num_rings dev hw_ip
              → queue_mgr_map dev' m' hw_ip instance_number ring ≡ map_ring dev' m' ring))
unfolding queue_mgr_map
queue_mgr_map_cases dev m hw_ip instance_number ring = elim (Bool-cases (leb max_ip_num hw_ip)) [
  | inl y ↦ inl (rw y refl)
  | inr n ↦ elim (Bool-cases (leb max_rings ring)) [
    | inl y ↦ inl (rw (n, y) refl)
    | inr k ↦ elim (Bool-cases (instance_number == 0)) [
      | inr y ↦ inl (rw (n, k, y) refl)
      | inl z ↦ elim (Option-cases (ip_num_rings dev hw_ip)) [
        | inl e ↦ inl (rw (n, k, z, e) refl)
        | inr (c, e) ↦ elim (Bool-cases (leb c ring)) [
          | inl y ↦ inl (rw (n, k, z, e, y) refl)
          | inr l ↦
              inr (
                rw (n, k, z, e, l) refl,
                ground arith,
                λ dev' m' same. rw (n, k, z, same, e, l) refl,
              )
        ]
      ]
    ]
  ]
]

map_ring-IsDistinct :
    (dev : Device) (m : Mapper) (ring : ℕ)
    → m.hw_ip ≡ hw_ip_dma
    → IsDistinct m.queue_map
    → IsDistinct (map_ring dev m ring).mapper.queue_map
unfolding map_ring lru_map lru_get
map_ring-IsDistinct dev m ring dma distinct = elim (Bool-cases (is_some (cached m ring))) [
  | inl y ↦ rw y distinct
  | inr n ↦
      let other : (m.hw_ip == hw_ip_gfx) ≡ false = ap (λ (t : ℕ). t == hw_ip_gfx) dma in
      let here : (m.hw_ip == hw_ip_dma) ≡ true = ap (λ (t : ℕ). t == hw_ip_dma) dma in
      rw (n, other, here)
        (found-IsDistinct dev m ring (lru_find dev.type_xdma (blacklist m.queue_map) dev.lru)
          distinct (λ r e. found_is_free dev.type_xdma (blacklist m.queue_map) dev.lru r e))
]

-- A map of the numbers of a process to DMA rings that gives no two numbers the same ring does so after
-- every request for a ring, whatever its outcome.
pub queue_mgr_map-IsDistinct :
    (dev : Device) (m : Mapper) (hw_ip instance_number ring : ℕ)
    → m.hw_ip ≡ hw_ip_dma
    → IsDistinct m.queue_map
    → IsDistinct (queue_mgr_map dev m hw_ip instance_number ring).mapper.queue_map
queue_mgr_map-IsDistinct dev m hw_ip instance_number ring dma distinct =
    elim (queue_mgr_map_cases dev m hw_ip instance_number ring) [
      | inl e ↦ subst (λ t. IsDistinct t.mapper.queue_map) (sym e) distinct
      | inr (e, lt, again) ↦
          subst (λ t. IsDistinct t.mapper.queue_map) (sym e)
            (map_ring-IsDistinct dev m ring dma distinct)
    ]
