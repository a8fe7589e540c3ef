-- ===== src/Vm/Laws.antt =====
-- `gsgpu_vm_bo_clear_mappings`: the range maps nothing afterwards, and each page outside of it is mapped
-- by what is left of its mapping.
use loongson_gsgpu_dkms_modu.Base.{
  ℕ, ◌≤◌, ◌≡◌, refl, sym, ap, ◌∙◌, subst, inl, inr, Bool, true, not, Option, none, some, List, [],
  ◌∷◌, ◌+◌, ◌-◌, ◌%◌, false, ◌&&◌, leb, ltb, u64_mod, map, arith, if◌then◌else◌, Bool-cases, length,
  take, drop, All, take-append-drop, ok, keep, head?, All-append, All-keep, All-split, length-map,
  head_keep, List-cases,
}
use loongson_gsgpu_dkms_modu.Vm.Cut.{
  cut_before, cut_after, gather, free_up, insert_part, free_gathered, clear_pages,
}
use loongson_gsgpu_dkms_modu.Vm.{Mapping, Vm, overlaps, IntervalTree, lookup_mapping}
use loongson_gsgpu_dkms_modu.Vm.Pages.{IsDisjoint, IsProper, IsSound, insert_list, map_head}
use loongson_gsgpu_dkms_modu.Vm.Clear.{reverse_onto, early, late, gather_lem}
use loongson_gsgpu_dkms_modu.Vm.Clear.Range.{free_up-gathered}
use loongson_gsgpu_dkms_modu.Vm.Clear.Outcome.{
  piece, inside, part_before, part_after, rest, one_early, one_late, cleared, keep-cleared,
}

pub All-insert :
    (tree : IntervalTree) (m : Mapping) (va : List Mapping)
    → IsProper m
    → All IsProper va
    → All IsProper (tree.insert m va)
All-insert tree m va pm h =
    let at = tree.insert_lem m va in
    let parts =
      All-split IsProper (take at.0 va) (drop at.0 va)
        (subst (All IsProper) (sym (take-append-drop at.0 va)) h) in
    subst (All IsProper) (sym at.1)
      (All-append IsProper (take at.0 va) (m ∷ drop at.0 va) parts.0 (pm, parts.1))

All-part :
    (tree : IntervalTree) (q : Mapping → Bool) (f : Mapping → Mapping) (xs va : List Mapping)
    → ((x : Mapping) → q x ≡ true → IsProper (f x))
    → All IsProper va
    → All IsProper (insert_list tree (map_head f (keep q xs)) va)
All-part tree q f xs va h proper = elim (List-cases (keep q xs)) [
  | inl e ↦ rw e proper
  | inr (m, ms, e) ↦ rw e (All-insert tree (f m) va (h m (head_keep q xs m ms e)) proper)
]

insert_part_va :
    (tree : IntervalTree) (part : Option Mapping) (vm : Vm)
    → (insert_part tree part vm).va ≡ insert_list tree part vm.va
insert_part_va tree none vm = refl
insert_part_va tree (some m) vm = refl

cleared-IsSound :
    (tree : IntervalTree) (s e : ℕ) (va : List Mapping) (sound : IsSound va)
    → s ≤ e
    → IsSound (cleared tree s e va sound)
unfolding IsDisjoint
cleared-IsSound tree s e va sound le = record {
  disjoint = λ p. ground (
    arith,
    ap length (keep-cleared tree s e va sound p le),
    length-map (piece s e p) (keep (overlaps p p) va),
    sound.disjoint p,
  );
  proper =
      All-part tree (late e) (cut_after e) (keep (overlaps s e) va)
        (insert_list tree (part_before tree s e va) (rest tree s e va)) (λ x t. ground arith)
        (All-part tree (early s) (cut_before s) (keep (overlaps s e) va) (rest tree s e va)
          (λ x t. ground arith) (All-keep IsProper (λ x. not (overlaps s e x)) va sound.proper));
}

-- The loops end with the parts in the tree in place of what overlapped the range.
clear_pages_lem :
    (tree : IntervalTree) (vm : Vm) (s e : ℕ) (sound : IsSound vm.va)
    → (vm' : Vm) × (clear_pages tree vm s e ≡ some (ok, vm'))
      × (vm'.va ≡ cleared tree s e vm.va sound)
unfolding clear_pages free_gathered
clear_pages_lem tree vm s e sound =
    let ms = keep (overlaps s e) vm.va in
    let gathered =
      gather_lem s e ms none none [] (omega (arith, one_early tree s e vm.va sound.disjoint))
        (omega (arith, one_late tree s e vm.va sound.disjoint)) in
    let freed = free_up tree s e vm (reverse_onto ms []) in
    let before = part_before tree s e vm.va in
    let after = part_after tree s e vm.va in
    (
      insert_part tree after (insert_part tree before freed),
      ap (free_gathered tree vm s e) (
          ap (gather s e (record { before = none; after = none; removed = [] }))
            (tree.iter_lem vm.va s e)
          ∙ gathered),
      insert_part_va tree after (insert_part tree before freed)
          ∙ ap (insert_list tree after) (
              insert_part_va tree before freed
              ∙ ap (insert_list tree before)
                  (free_up-gathered tree s e vm sound.disjoint sound.proper)),
    )

abbrev pub map_some : (Mapping → Mapping) → Option Mapping → Option Mapping
map_some f none = none
map_some f (some m) = some (f m)

head?-map : (f : Mapping → Mapping) (xs : List Mapping) → head? (map f xs) ≡ map_some f (head? xs)
head?-map f [] = refl
head?-map f (x ∷ xs) = refl

-- The mapping of page `p`, outside of the range `s` to `e`, after the range is cleared: one that has no page of
-- the range stays; of another a page before the range keeps the part that ends there, with its offset, and a
-- page behind it the part that starts there, with an offset that has grown by the number of pages cut off. That
-- number is not a number of bytes, which the offset is.
abbrev pub side : ℕ → ℕ → ℕ → Mapping → Mapping
side s e p m =
    if leb m.start e && leb s m.last
    then (if ltb p s
        then record {
          start = m.start;
          last = s - 1;
          offset = m.offset;
          flags = m.flags;
          bo_va = m.bo_va;
          valid = false;
        }
        else record {
          start = e + 1;
          last = m.last;
          offset = (m.offset + (e + 1 - m.start)) % u64_mod;
          flags = m.flags;
          bo_va = m.bo_va;
          valid = false;
        })
    else m

piece-side : (s e p : ℕ) (m : Mapping) → piece s e p m ≡ side s e p m
piece-side s e p m = elim (Bool-cases (leb m.start e && leb s m.last)) [
  | inr n ↦ rw n refl
  | inl y ↦ elim (Bool-cases (ltb p s)) [
    | inl b ↦ rw (y, b) refl
    | inr b ↦
        let start : m.start ≤ e = ground arith in
        let moved : (m.offset + (e + 1 + u64_mod - m.start) % u64_mod) % u64_mod
            ≡ (m.offset + (e + 1 - m.start)) % u64_mod =
          omega arith in
        rw (y, b) (ap (λ (o : ℕ). record m { start = e + 1; offset = o; valid = false }) moved)
  ]
]

map_some-side :
    (s e p : ℕ) (o : Option Mapping) → map_some (piece s e p) o ≡ map_some (side s e p) o
map_some-side s e p none = refl
map_some-side s e p (some m) = ap some (piece-side s e p m)

-- What page `p` maps after the range `s` to `e` is cleared, where it mapped `o`.
abbrev pub cleared_page : ℕ → ℕ → ℕ → Option Mapping → Option Mapping
cleared_page s e p o = if inside s e p then none else map_some (side s e p) o

pub lookup-cleared :
    (tree : IntervalTree) (vm vm' : Vm) (s e : ℕ) (sound : IsSound vm.va)
    → vm'.va ≡ cleared tree s e vm.va sound
    → s ≤ e
    → (p : ℕ) → lookup_mapping tree vm' p ≡ cleared_page s e p (lookup_mapping tree vm p)
unfolding lookup_mapping
lookup-cleared tree vm vm' s e sound same le p =
    ap head? (
      tree.iter_lem vm'.va p p
      ∙ ap (keep (overlaps p p)) same
      ∙ keep-cleared tree s e vm.va sound p le)
    ∙ elim (Bool-cases (inside s e p)) [
      | inl y ↦ rw y refl
      | inr n ↦ rw n (
          head?-map (piece s e p) (keep (overlaps p p) vm.va)
          ∙ ap (λ l. map_some (piece s e p) (head? l)) (sym (tree.iter_lem vm.va p p))
          ∙ map_some-side s e p (head? (tree.iter vm.va p p)))
    ]

-- Where no page has two mappings, every mapping has a page and the range has one, the clearing of pages
-- ends well with both lists in order: again no page has two mappings, a page of the range maps nothing,
-- and another page maps what is left on its side of what it mapped. A part behind the range starts right behind
-- it, and its offset has grown by the number of pages cut off.
pub clear_pages_outcome :
    (tree : IntervalTree) (vm : Vm) (s e : ℕ)
    → IsSound vm.va
    → s ≤ e
    → (vm' : Vm) × (clear_pages tree vm s e ≡ some (ok, vm'))
      × IsSound vm'.va
      × ((p : ℕ) → lookup_mapping tree vm' p ≡ cleared_page s e p (lookup_mapping tree vm p))
clear_pages_outcome tree vm s e sound le =
    let (vm', run, same) = clear_pages_lem tree vm s e sound in
    (
      vm',
      run,
      subst IsSound (sym same) (cleared-IsSound tree s e vm.va sound le),
      lookup-cleared tree vm vm' s e sound same le,
    )
