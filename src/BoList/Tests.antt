-- ===== src/BoList/Tests.antt =====
-- Lists of buffer objects at three handles, the second of them user memory.
use loongson_gsgpu_dkms_modu.Base.{
  ℕ, ◌≡◌, refl, inl, inr, List, [], ◌∷◌, ◌++◌, none, some, true, ◌==◌, if◌then◌else◌, length, arith,
}
use loongson_gsgpu_dkms_modu.BoList.{
  Env, Info, Entry, Build, Created, list, error, create, free, entry_of,
}
use loongson_gsgpu_dkms_modu.BoList.Create.{front, back, free-create}

-- Handle 0 is unknown; the object of handle 2 is the caller's memory.
abbrev env : Env
env = record {
  lookup = λ h. if h == 0 then none else some h;
  usermm = λ bo. if bo == 2 then some 77 else none;
  prime_shared_count = λ bo. 0;
  has_parent = λ bo. bo == 9;
  mm = 77;
}

abbrev request : ℕ → ℕ → Info
request h p = record { bo_handle = h; bo_priority = p }

abbrev infos : List Info
infos = request 1 5 ∷ request 2 40 ∷ request 3 7 ∷ []

abbrev refs : ℕ → ℕ
refs x = 1

free-create_example :
    (b : Build) × (create env refs infos 10 true ≡ list b)
    × (b.array ≡ front env infos ++ back env infos [])
    × (b.first_userptr ≡ length (front env infos))
    × ((x : ℕ) → free b.array b.refs x ≡ refs x)
free-create_example =
    free-create env refs infos 10
      ((1, refl, inl refl), ((2, refl, inr refl), ((3, refl, inl refl), tt))) (omega arith)

abbrev count_after : Created → ℕ → ℕ
count_after (error e r) x = r x
count_after (list b) x = b.refs x

-- The error path drops the references of the first entries of the array, not of those that were
-- filled: the reference to user memory stays.
leaks_user_memory : count_after (create env refs (request 2 0 ∷ request 0 0 ∷ []) 10 true) 2 ≡ 2
unfolding create
leaks_user_memory = refl

abbrev entries : List Entry
entries =
    entry_of env 1 (request 1 5)
    ∷ entry_of env 3 (request 3 7)
    ∷ entry_of env 9 (request 9 7)
    ∷ entry_of env 4 (request 4 5)
    ∷ []
