-- ===== src/Vm/Undo.antt =====
-- `gsgpu_vm_bo_unmap` after `gsgpu_vm_bo_map`, and `gsgpu_vm_bo_replace_map`.
use loongson_gsgpu_dkms_modu.Base.{
  ℕ, ◌<◌, u64_mod, ◌≤◌, ◌≡◌, refl, ap, ◌∙◌, inl, inr, Bool, true, false, ◌&&◌, not, some, List, [],
  ◌∷◌, arith, if◌then◌else◌, Bool-cases, is_some, All, ok, keep, head?, keep_congr, keep_none,
  All-weaken,
}
use loongson_gsgpu_dkms_modu.Vm.Cut.{clear_mappings, replace_map}
use loongson_gsgpu_dkms_modu.Vm.{
  Mapping, Vm, overlaps, starts_at, IntervalTree, rejects, owns, insert_map, new_mapping, bo_map,
  lookup_mapping, take_out, bo_unmap,
}
use loongson_gsgpu_dkms_modu.Vm.Fit.{IsFit, rejects_iff}
use loongson_gsgpu_dkms_modu.Vm.Pages.{keep-insert_out, keep-insert_in, IsProper, IsSound}
use loongson_gsgpu_dkms_modu.Vm.Laws.{map_some, side, clear_pages_outcome}
use loongson_gsgpu_dkms_modu.Vm.Place.{
  first_page, last_page, placed, rejects_le, free_range, range_free,
}
use loongson_gsgpu_dkms_modu.Vm.Mapped.{insert_map-IsSound, lookup-insert_map, tested_ok}
use loongson_gsgpu_dkms_modu.Vm.Clear.{keep-true}
use loongson_gsgpu_dkms_modu.Vm.Clear.Outcome.{inside}

-- Where a page maps nothing, no mapping starts there.
and_false : (a b : Bool) → b ≡ false → a && b ≡ false
and_false true b h = h
and_false false b h = refl

none_starts :
    (s : ℕ) (va : List Mapping)
    → All IsProper va
    → keep (overlaps s s) va ≡ []
    → All (λ x. starts_at s x ≡ false) va
none_starts s [] proper h = tt
none_starts s (x ∷ va) proper h = ground (arith, none_starts s va proper.1)

-- The searches of `gsgpu_vm_bo_unmap` for a mapping just inserted.
unmap-insert_map :
    (tree : IntervalTree) (vm : Vm) (b saddr : ℕ) (offset size flags : ℕ)
    → first_page saddr ≤ last_page saddr size
    → IsSound vm.va
    → is_some (head? (tree.iter vm.va (first_page saddr) (last_page saddr size))) ≡ false
    → let vm1 =
        insert_map tree vm b
          (new_mapping tree (first_page saddr) (last_page saddr size) offset flags) in
      let (r, vm') = bo_unmap tree vm1 b saddr in
      (r ≡ ok) × (vm'.va ≡ vm.va) × (vm'.freed ≡ vm.freed)
unfolding insert_map bo_unmap take_out
unmap-insert_map tree vm b saddr offset size flags le sound free =
    let s = first_page saddr in
    let new = placed tree b saddr offset size flags in
    let none_here =
      none_starts s vm.va sound.proper
        (free_range tree vm s (last_page saddr size) sound s free (ground arith)) in
    let quiet : (v : Bool) → keep (λ x. owns b v x && starts_at s x) vm.va ≡ [] = λ v.
      keep_none (λ x. owns b v x && starts_at s x) vm.va
        (All-weaken vm.va (λ x t. and_false (owns b v x) (starts_at s x) t) none_here) in
    let not_valid : keep (λ x. owns b true x && starts_at s x) (tree.insert new vm.va) ≡ [] =
      keep-insert_out tree (λ x. owns b true x && starts_at s x) new vm.va (ground arith)
      ∙ quiet true in
    let found : keep (λ x. owns b false x && starts_at s x) (tree.insert new vm.va) ≡ new ∷ [] =
      keep-insert_in tree (λ x. owns b false x && starts_at s x) new vm.va (ground arith)
        (quiet false) in
    let back : tree.remove new (tree.insert new vm.va) ≡ vm.va =
      tree.remove_lem new (tree.insert new vm.va)
      ∙ keep-insert_out tree (λ x. not (starts_at s x)) new vm.va (ground arith)
      ∙ keep_congr (λ x. not (starts_at s x)) (λ x. true) vm.va
          (All-weaken vm.va (λ x t. ap not t) none_here)
      ∙ keep-true vm.va in
    rw (not_valid, found) (refl, back, refl)

-- Where no page has two mappings, a request to map that is granted and then undone leaves the tree and
-- the list of mappings to clear as they were.
pub unmap-map :
    (tree : IntervalTree) (mem : Bool) (vm : Vm) (b saddr offset size flags : ℕ)
    → IsSound vm.va
    → (bo_map tree mem vm b saddr offset size flags).0 ≡ ok
    → let (r, vm') = bo_unmap tree (bo_map tree mem vm b saddr offset size flags).1 b saddr in
      (r ≡ ok) × (vm'.va ≡ vm.va) × (vm'.freed ≡ vm.freed)
unfolding bo_map bo_unmap insert_map
unmap-map tree mem vm b saddr offset size flags sound h =
    let m = new_mapping tree (first_page saddr) (last_page saddr size) offset flags in
    let new = placed tree b saddr offset size flags in
    let rej = rejects (vm.bo_vas b).bo saddr offset size in
    let met = is_some (head? (tree.iter vm.va (first_page saddr) (last_page saddr size))) in
    let (r, f, y) = tested_ok rej met mem vm (insert_map tree vm b m) h in
    rw (r, f, y)
      (unmap-insert_map tree vm b saddr offset size flags
        (rejects_le (vm.bo_vas b).bo saddr offset size r) sound f)

-- Where no page has two mappings, a request to replace what its pages map, with an address and a size below
-- 2 ^ 64, whole pages, at least one, an end in 64 bits and in the buffer object, if there is one, and memory for
-- all it makes, is granted, and no page has two mappings afterwards: the pages of the
-- request map the buffer object, and another page what is left on its side of what it mapped. A part behind the
-- request starts right behind it, and its offset has grown by the number of pages cut off.
pub replace_map_outcome :
    (tree : IntervalTree) (vm : Vm) (b saddr offset size flags : ℕ)
    → IsSound vm.va
    → saddr < u64_mod
    → size < u64_mod
    → IsFit (vm.bo_vas b).bo saddr offset size
    → (vm' : Vm) × (replace_map tree true true true vm b saddr offset size flags ≡ some (ok, vm'))
      × IsSound vm'.va
      × ((p : ℕ)
          → lookup_mapping tree vm' p ≡ (
              if inside (first_page saddr) (last_page saddr size) p
              then some (placed tree b saddr offset size flags)
              else map_some
                  (side (first_page saddr) (last_page saddr size) p)
                  (lookup_mapping tree vm p)))
unfolding replace_map clear_mappings
replace_map_outcome tree vm b saddr offset size flags sound la ls fit =
    let rej = (rejects_iff (vm.bo_vas b).bo saddr offset size la ls).1 fit in
    let s = first_page saddr in
    let e = last_page saddr size in
    let le = rejects_le (vm.bo_vas b).bo saddr offset size rej in
    let (vm1, run, sound1, seen) = clear_pages_outcome tree vm s e sound le in
    let m = new_mapping tree s e offset flags in
    let free = range_free tree vm1 s e sound1 le (λ p within. seen p ∙ rw within refl) in
    (
      insert_map tree vm1 b m,
      rw (rej, run) refl,
      insert_map-IsSound tree vm1 m b sound1 le free,
      λ p. lookup-insert_map tree vm1 m b sound1 le free p ∙ elim (Bool-cases (inside s e p)) [
        | inl y ↦ rw y refl
        | inr n ↦ rw n (seen p ∙ rw n refl)
      ],
    )
