-- ===== src/VramMgr/Free.antt =====
-- `gsgpu_vram_mgr_del` after `gsgpu_vram_mgr_new`.
use loongson_gsgpu_dkms_modu.Base.{
  ℕ, zero, suc, ◌+◌, ◌-◌, ◌%◌, ◌<◌, ◌≡◌, refl, sym, ap, ◌∙◌, inl, inr, Bool, none, some, List, [],
  ◌∷◌, arith, u32_mod, sub32,
}
use native.Mathlib.Nat.{mod-eq_of_lt}
use loongson_gsgpu_dkms_modu.VramMgr.{
  Range, Mgr, Device, Place, Mem, bytes, vis_size, Insert, Turn, remove_node, vram_new, free_nodes,
  del_turn, released, del_nodes, vram_del,
}
use loongson_gsgpu_dkms_modu.VramMgr.Usage.{
  sum_pages, sum_vis, vis_size_zero, bytes_add, IsChecked, vram_new_outcome,
}

sum_vis_zero : (dev : Device) (nodes : List Range) → sum_pages nodes ≡ 0 → sum_vis dev nodes ≡ 0
sum_vis_zero dev [] e = refl
sum_vis_zero dev (n ∷ nodes) e =
    omega (arith, vis_size_zero dev n (omega arith), sum_vis_zero dev nodes (omega arith))

counted :
    (dev : Device) (used a b total : ℕ)
    → a + b ≡ total
    → used + bytes dev a + bytes dev b ≡ used + bytes dev total
counted dev used a b total e = omega (arith, bytes_add dev a b, ap (bytes dev) e)

-- The loop counts the bytes of all ranges.
free_nodes_lem :
    (dev : Device) (nodes : List Range) (pages : ℕ) (t : Turn)
    → pages < u32_mod
    → sum_pages nodes ≡ pages
    → (t' : Turn) × (free_nodes dev nodes pages t ≡ some t')
      × (t'.used ≡ t.used + bytes dev pages)
      × (t'.vis_used ≡ t.vis_used + sum_vis dev nodes)
unfolding free_nodes
free_nodes_lem dev nodes zero t small e =
    let none_seen : sum_vis dev nodes ≡ 0 = sum_vis_zero dev nodes e in
    (t, refl, omega arith, omega arith)
free_nodes_lem dev [] (suc pages) t small e = absurd (omega arith)
free_nodes_lem dev (n ∷ nodes) (suc pages) t small e =
    let left : sub32 (suc pages) n.size ≡ sum_pages nodes = omega arith in
    let (t', run, used, vis) =
      free_nodes_lem dev nodes (sum_pages nodes)
        (record t {
          mm = remove_node n t.mm;
          used = t.used + bytes dev n.size;
          vis_used = t.vis_used + vis_size dev n;
        })
        (omega arith) refl in
    (
      t',
      ap
            (λ p. free_nodes dev nodes p (record t {
              mm = remove_node n t.mm;
              used = t.used + bytes dev n.size;
              vis_used = t.vis_used + vis_size dev n;
            }))
            left
          ∙ run,
      used ∙ counted dev t.used n.size (sum_pages nodes) (suc pages) e,
      vis ∙ omega arith,
    )

del_empty :
    (dev : Device) (mgr : Mgr) (mem : Mem)
    → mem.mm_node ≡ none
    → vram_del dev mgr mem ≡ some (mgr, mem)
unfolding vram_del del_nodes
del_empty dev mgr mem e = ap (del_nodes dev mgr mem) e

del_lem :
    (dev : Device) (mgr : Mgr) (mem : Mem) (nodes : List Range)
    → mem.mm_node ≡ some nodes
    → sum_pages nodes ≡ mem.num_pages
    → mem.num_pages < u32_mod
    → (mgr' : Mgr) × (mem' : Mem) × (vram_del dev mgr mem ≡ some (mgr', mem'))
      × (mem'.mm_node ≡ none)
      × (mgr'.usage ≡ mgr.usage - bytes dev mem.num_pages)
      × (mgr'.vis_usage ≡ mgr.vis_usage - sum_vis dev nodes)
unfolding vram_del del_nodes released
del_lem dev mgr mem nodes e whole small =
    let word : mem.num_pages % u32_mod ≡ mem.num_pages = mod-eq_of_lt small in
    let (t, run, used, vis) = free_nodes_lem dev nodes mem.num_pages (del_turn mgr) small whole in
    (
      record { mm = t.mm; usage = mgr.usage - t.used; vis_usage = mgr.vis_usage - t.vis_used },
      record mem { mm_node = none },
      ap (del_nodes dev mgr mem) e
          ∙ ap (released mgr mem) (ap (λ p. free_nodes dev nodes p (del_turn mgr)) word ∙ run),
      refl,
      omega (arith, used),
      omega (arith, vis),
    )

-- For an object of fewer than 2 ^ 32 pages that has no memory, on a device that splits allocations at 16 pages
-- or more or not at all, a request for VRAM and the release of what
-- it got leave both counts as they were, whatever the outcome of the request.
pub vram_del-vram_new :
    (insert : Insert) (dev : Device) (size : ℕ) (memory : Bool) (mgr : Mgr) (place : Place)
    (mem : Mem)
    → IsChecked dev
    → mem.num_pages < u32_mod
    → mem.mm_node ≡ none
    → let (r, mgr', mem') = vram_new insert dev size memory mgr place mem in
      (mgr'' : Mgr) × (mem'' : Mem) × (vram_del dev mgr' mem' ≡ some (mgr'', mem''))
      × (mem''.mm_node ≡ none)
      × (mgr''.usage ≡ mgr.usage)
      × (mgr''.vis_usage ≡ mgr.vis_usage)
vram_del-vram_new insert dev size memory mgr place mem aligned small empty =
    let (r, mgr', mem') = vram_new insert dev size memory mgr place mem in
    elim (vram_new_outcome insert dev size memory mgr place mem aligned) [
      | inl (why, same, kept) ↦ (
        mgr',
        mem',
        del_empty dev mgr' mem' (kept ∙ empty),
        kept ∙ empty,
        ap (λ (m : Mgr). m.usage) same,
        ap (λ (m : Mgr). m.vis_usage) same,
      )
      | inr (nodes, good, holds, pages, whole, used, vis) ↦
          let (mgr'', mem'', run, gone, u, v) =
            del_lem dev mgr' mem' nodes holds (whole ∙ sym pages) (omega (arith, pages)) in
          (
            mgr'',
            mem'',
            run,
            gone,
            omega (arith, u, used, ap (bytes dev) pages),
            omega (arith, v, vis),
          )
    ]
