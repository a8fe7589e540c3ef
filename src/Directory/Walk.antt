-- ===== src/Directory/Walk.antt =====
-- Where a walk through the directories leads.
use loongson_gsgpu_dkms_modu.Base.{
  ℕ, zero, suc, ◌+◌, ◌/◌, ◌%◌, ◌^◌, ◌≡◌, refl, ap, subst, inl, inr, true, Option, none, some, ◌==◌,
  if◌then◌else◌, arith, Bool-cases, Option-cases, is_some,
}
use loongson_gsgpu_dkms_modu.Directory.{
  Pt, leaf, dir, bo_of, with_bo, put, Manager, level_shift, dir2, get_from, get_entry,
}

-- The buffer object of the table for a page, from an entry at `level` on.
unfoldable pub table_at : Manager → Pt → ℕ → ℕ → Option ℕ
table_at g (leaf bo) level q = if level == dir2 then bo else none
table_at g (dir bo f) level q =
    table_at g (f (q / 2 ^ level_shift g level)) (level + 1) (q % 2 ^ level_shift g level)

-- The tree has tables only `depth` levels further down.
unfoldable pub IsTree : ℕ → Pt → Type 0
IsTree zero (leaf bo) = Unit {0}
IsTree zero (dir bo f) = ⊥
IsTree (suc depth) (leaf bo) = Unit {0}
IsTree (suc depth) (dir bo f) = (i : ℕ) → IsTree depth (f i)

-- A table that is there stays.
abbrev pub Keeps : Manager → ℕ → Pt → Pt → Type 0
Keeps g level t t' = (q b : ℕ) → table_at g t level q ≡ some b → table_at g t' level q ≡ some b

-- `gsgpu_vm_get_entry` gives that table.
abbrev pub bo_of_entry : Option Pt → Option ℕ
bo_of_entry none = none
bo_of_entry (some t) = bo_of t

get_from-table_at :
    (g : Manager) (depth level : ℕ) (t : Pt) (parent : Option Pt) (q : ℕ)
    → IsTree depth t
    → level + depth ≡ dir2
    → bo_of_entry (get_from g t parent level q).0 ≡ table_at g t level q
unfolding IsTree get_from table_at
get_from-table_at g zero level (leaf bo) parent q h e = elim (Bool-cases (level == dir2)) [
  | inl y ↦ rw y refl
  | inr n ↦ rw n refl
]
get_from-table_at g zero level (dir bo f) parent q h e = absurd h
get_from-table_at g (suc depth) level (leaf bo) parent q h e = elim (Bool-cases (level == dir2)) [
  | inl y ↦ rw y refl
  | inr n ↦ rw n refl
]
get_from-table_at g (suc depth) level (dir bo f) parent q h e =
    get_from-table_at g depth (level + 1) (f (q / 2 ^ level_shift g level)) (some (dir bo f))
      (q % 2 ^ level_shift g level) (h (q / 2 ^ level_shift g level)) (omega arith)

pub get_entry-table_at :
    (g : Manager) (root : Pt) (q : ℕ)
    → IsTree dir2 root
    → bo_of_entry (get_entry g root q).0 ≡ table_at g root 0 q
unfolding get_entry
get_entry-table_at g root q h = get_from-table_at g dir2 0 root none q h refl

-- An entry without a buffer object gets one.
pub with_bo-IsTree :
    (depth : ℕ) (t : Pt) (bo : Option ℕ) → IsTree depth t → IsTree depth (with_bo t bo)
unfolding IsTree
with_bo-IsTree zero (leaf b) bo h = tt
with_bo-IsTree zero (dir b f) bo h = absurd h
with_bo-IsTree (suc depth) (leaf b) bo h = tt
with_bo-IsTree (suc depth) (dir b f) bo h = h

pub with_bo-Keeps :
    (g : Manager) (level : ℕ) (t : Pt) (bo : Option ℕ)
    → bo_of t ≡ none
    → Keeps g level t (with_bo t bo)
unfolding table_at
with_bo-Keeps g level (leaf b) bo e = λ q c h. absurd (cut level b e c h)
  where
    cut : (l : ℕ) (b : Option ℕ) → b ≡ none → (c : ℕ) → (if l == dir2 then b else none) ≡ some c → ⊥
    cut l b e c h = ground arith
with_bo-Keeps g level (dir b f) bo e = λ q c h. h

pub Keeps-refl : (g : Manager) (level : ℕ) (t : Pt) → Keeps g level t t
Keeps-refl g level t = λ q b h. h

-- With an entry put in place.
pub put_self : (f : ℕ → Pt) (i : ℕ) (t : Pt) → put f i t i ≡ t
put_self f i t = let same : (i == i) ≡ true = ground arith in rw same refl

pub put-Keeps :
    (g : Manager) (level : ℕ) (f : ℕ → Pt) (i : ℕ) (t : Pt)
    → Keeps g level (f i) t
    → (j : ℕ) → Keeps g level (f j) (put f i t j)
put-Keeps g level f i t h j = elim (Bool-cases (j == i)) [
  | inl y ↦
      let same : i ≡ j = ground arith in rw y (subst (λ (n : ℕ). Keeps g level (f n) t) same h)
  | inr n ↦ rw n (Keeps-refl g level (f j))
]

pub put-IsTree :
    (depth : ℕ) (f : ℕ → Pt) (i : ℕ) (t : Pt)
    → IsTree depth t
    → ((j : ℕ) → IsTree depth (f j))
    → (j : ℕ) → IsTree depth (put f i t j)
put-IsTree depth f i t h all j = elim (Bool-cases (j == i)) [
  | inl y ↦ rw y h
  | inr n ↦ rw n (all j)
]

-- There is a table.
pub some_kept :
    (g : Manager) (level q : ℕ) (t t' : Pt)
    → Keeps g level t t'
    → is_some (table_at g t level q) ≡ true
    → is_some (table_at g t' level q) ≡ true
some_kept g level q t t' keeps h = elim (Option-cases (table_at g t level q)) [
  | inl n ↦ absurd (cc)
  | inr (b, e) ↦ ap is_some (keeps q b e)
]
