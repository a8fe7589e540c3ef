-- ===== src/Queue/Again.antt =====
-- A number of a process keeps its ring.
use loongson_gsgpu_dkms_modu.Base.{
  ℕ, ◌<◌, ◌≡◌, refl, sym, ap, ◌∙◌, subst, inl, inr, false, Option, none, some, arith, ◌==◌,
  Bool-cases, Option-cases, is_some, length, get_elem?, get_or-set_self, Status, einval, ok, err,
}
use loongson_gsgpu_dkms_modu.Queue.{
  HwRing, max_rings, hw_ip_gfx, hw_ip_dma, Mapper, Device, lru_get, cached, update_cached_map,
  Mapped, identity_map, blacklist, map_found, lru_map, ip_num_rings, map_ring, queue_mgr_map,
}
use loongson_gsgpu_dkms_modu.Queue.Distinct.{queue_mgr_map_cases}

update_lem :
    (m : Mapper) (ring : ℕ) (r : HwRing)
    → ring < length m.queue_map
    → (update_cached_map m ring r).0 ≡ ok
    → cached (update_cached_map m ring r).1 ring ≡ some r
unfolding update_cached_map
update_lem m ring r lt h = elim (Bool-cases (is_some (cached m ring))) [
  | inl y ↦ absurd (ground arith)
  | inr n ↦ rw n (get_or-set_self m.queue_map ring (some r) none lt)
]

-- A ring that is returned without an error stands in the map.
abbrev Kept : ℕ → HwRing → Mapped → Type 0
Kept ring r g = g.status ≡ ok → g.out_ring ≡ some r → cached g.mapper ring ≡ some r

found_lem :
    (m : Mapper) (ring : ℕ) (got : Status × Option HwRing × Device) (r : HwRing)
    → ring < length m.queue_map
    → Kept ring r (map_found m ring got)
unfolding map_found
found_lem m ring (ok, some x, dev) r lt h e = update_lem m ring x lt h ∙ e
found_lem m ring (ok, none, dev) r lt h e = cc
found_lem m ring (err x, out, dev) r lt h e = cc

identity_lem :
    (dev : Device) (m : Mapper) (ring : ℕ) (r : HwRing)
    → ring < length m.queue_map
    → Kept ring r (identity_map dev m ring)
unfolding identity_map
identity_lem dev m ring r lt = elim (Option-cases (get_elem? dev.gfx_ring ring)) [
  | inl n ↦ rw (n, identity_map) (λ h e. cc)
  | inr (x, y) ↦ rw (y, identity_map) (λ h e. update_lem m ring x lt h ∙ e)
]

map_ring_lem :
    (dev : Device) (m : Mapper) (ring : ℕ) (r : HwRing)
    → ring < length m.queue_map
    → Kept ring r (map_ring dev m ring)
unfolding map_ring lru_map
map_ring_lem dev m ring r lt = elim (Bool-cases (is_some (cached m ring))) [
  | inl y ↦ rw y (λ h e. e)
  | inr n ↦ elim (Bool-cases (m.hw_ip == hw_ip_gfx)) [
    | inl g ↦ rw (n, g) (identity_lem dev m ring r lt)
    | inr o ↦ elim (Bool-cases (m.hw_ip == hw_ip_dma)) [
      | inl d ↦
          rw (n, o, d)
            (found_lem m ring (lru_get dev dev.type_xdma (blacklist m.queue_map) false) r lt)
      | inr u ↦ rw (n, o, u) (λ h e. cc)
    ]
  ]
]

err-ne-ok : err einval ≡ ok → ⊥
err-ne-ok e = cc

cached_map :
    (dev : Device) (m : Mapper) (ring : ℕ) (r : HwRing)
    → cached m ring ≡ some r
    → map_ring dev m ring ≡ record { status = ok; out_ring = some r; mapper = m; device = dev }
unfolding map_ring
cached_map dev m ring r e = rw e refl

-- A number of a process that has got a ring gets the same one at every later request of the same block,
-- from a device with as many rings, and nothing is changed by it.
pub queue_mgr_map_again :
    (dev dev' : Device) (m : Mapper) (hw_ip instance_number ring : ℕ) (r : HwRing)
    → length m.queue_map ≡ max_rings
    → ip_num_rings dev' hw_ip ≡ ip_num_rings dev hw_ip
    → (queue_mgr_map dev m hw_ip instance_number ring).status ≡ ok
    → (queue_mgr_map dev m hw_ip instance_number ring).out_ring ≡ some r
    → let m' = (queue_mgr_map dev m hw_ip instance_number ring).mapper in
      queue_mgr_map dev' m' hw_ip instance_number ring
      ≡ record { status = ok; out_ring = some r; mapper = m'; device = dev' }
unfolding map_ring
queue_mgr_map_again dev dev' m hw_ip instance_number ring r long same h e =
    elim (queue_mgr_map_cases dev m hw_ip instance_number ring) [
      | inl x ↦ absurd (err-ne-ok (sym (ap (λ (t : Mapped). t.status) x) ∙ h))
      | inr (x, lt, again) ↦
          let kept =
            map_ring_lem dev m ring r (omega (arith, long)) (subst (λ t. t.status ≡ ok) x h)
              (subst (λ t. t.out_ring ≡ some r) x e) in
          rw x (
            again dev' (map_ring dev m ring).mapper same
            ∙ cached_map dev' (map_ring dev m ring).mapper ring r kept)
    ]
