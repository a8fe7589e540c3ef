-- ===== src/BoList.antt =====
-- gsgpu/gpu/gsgpu_bo_list.c: the lists of buffer objects that a submission names, and their order by
-- priority.
pub mod Sort
pub mod Create
mod Tests
use loongson_gsgpu_dkms_modu.Base.{
  ℕ, zero, suc, ◌+◌, ◌-◌, min, Bool, true, false, List, [], ◌∷◌, ◌++◌, Option, none, some, ◌==◌,
  ltb, if◌then◌else◌, length, get_or, set, replicate, Errno, enoent, eperm, enomem, einval,
}

-- What the driver asks of its surroundings: the buffer object of a handle, the address space of a user
-- memory object, how often an object is shared, whether it has a parent, and the caller's address space.
pub record Env : Type 0 where
  pub lookup : ℕ → Option ℕ
  pub usermm : ℕ → Option ℕ
  pub prime_shared_count : ℕ → ℕ
  pub has_parent : ℕ → Bool
  pub mm : ℕ

-- `struct drm_gsgpu_bo_list_entry`.
pub record Info : Type 0 where
  pub bo_handle : ℕ
  pub bo_priority : ℕ

-- `struct gsgpu_bo_list_entry`. `robj` is `none` where the memory is zero.
pub record Entry : Type 0 where
  pub robj : Option ℕ
  pub priority : ℕ
  pub shared : Bool

abbrev pub blank : Entry
blank = record { robj = none; priority = 0; shared = false }

-- `GSGPU_BO_LIST_MAX_PRIORITY` and `GSGPU_BO_LIST_NUM_BUCKETS`.
abbrev pub max_priority : ℕ
max_priority = 32

abbrev pub num_buckets : ℕ
num_buckets = 33

-- The loop's state in `gsgpu_bo_list_create`. `refs` counts the references to each buffer object.
pub record Build : Type 0 where
  pub array : List Entry
  pub last_entry : ℕ
  pub first_userptr : ℕ
  pub refs : ℕ → ℕ

-- `gsgpu_bo_ref` and `gsgpu_bo_unref`.
pub ref : ℕ → (ℕ → ℕ) → ℕ → ℕ
ref bo refs b = if b == bo then refs b + 1 else refs b

pub unref : Option ℕ → (ℕ → ℕ) → ℕ → ℕ
unref none refs = refs
unref (some bo) refs = λ b. if b == bo then refs b - 1 else refs b

abbrev pub entry_of : Env → ℕ → Info → Entry
entry_of v bo info = record {
  robj = some bo;
  priority = min info.bo_priority max_priority;
  shared = v.prime_shared_count bo == 0;
}

-- One round of the loop: the error that ends it, or the next state.
pub data Round : Type 0 where
  failed : Errno → Build → Round
  went_on : Build → Round

pub fill_one : Env → Build → Info → Round
unfolding ref unref
fill_one v b info = elim (v.lookup info.bo_handle) [
  | none ↦ failed enoent b
  | some bo ↦
      let held = record b { refs = ref bo b.refs } in
      elim (v.usermm bo) [
        | none ↦ went_on (record held {
          array = set b.array b.last_entry (entry_of v bo info);
          last_entry = b.last_entry + 1;
        })
        | some mm ↦
            if mm == v.mm
            then went_on (record held {
              array = set b.array (b.first_userptr - 1) (entry_of v bo info);
              first_userptr = b.first_userptr - 1;
            })
            else failed eperm (record held { refs = unref (some bo) held.refs })
      ]
]

-- The clean-up: `while (i--) gsgpu_bo_unref(&array[i].robj)`.
pub release : List Entry → ℕ → (ℕ → ℕ) → ℕ → ℕ
unfolding unref
release array zero refs = refs
release array (suc i) refs = release array i (unref ((get_or array i blank).robj) refs)

-- What `gsgpu_bo_list_create` ends with: an error and the counts that it leaves, or the list.
pub data Created : Type 0 where
  error : Errno → (ℕ → ℕ) → Created
  list : Build → Created

-- The loop, at round `i`.
pub fill : Env → Build → ℕ → List Info → Created
unfolding fill_one release
fill v b i [] = list b
fill v b i (info ∷ infos) = elim (fill_one v b info) [
  | failed e b' ↦ error e (release b'.array i b'.refs)
  | went_on b' ↦ fill v b' (i + 1) infos
]

-- `gsgpu_bo_list_create`. `limit` is the number of entries whose size does not overflow, `mem` whether
-- there is memory for the list.
unfoldable pub create : Env → (ℕ → ℕ) → List Info → ℕ → Bool → Created
unfolding fill
create v refs infos limit mem =
    let n = length infos in
    if ltb limit n
    then error einval refs
    else if mem
    then fill v
        (record { array = replicate n blank; last_entry = 0; first_userptr = n; refs = refs }) 0
        infos
    else error enomem refs

-- `gsgpu_bo_list_free`: every entry gives its reference back.
pub free : List Entry → (ℕ → ℕ) → ℕ → ℕ
unfolding unref
free [] refs = refs
free (e ∷ es) refs = free es (unref e.robj refs)

-- The first loop of `gsgpu_bo_list_get_list`: an entry goes to the end of its priority's bucket, unless
-- its buffer object has a parent.
pub listed : Env → Entry → Bool
listed v e = elim e.robj [ none ↦ true | some bo ↦ if v.has_parent bo then false else true ]

pub distribute : Env → List Entry → (ℕ → List Entry) → ℕ → List Entry
unfolding listed
distribute v [] bucket = bucket
distribute v (e ∷ es) bucket = distribute v es (λ p.
    if listed v e then (if p == e.priority then bucket p ++ (e ∷ []) else bucket p) else bucket p)

-- The second loop: each bucket is put in front of what is there.
pub splice : (ℕ → List Entry) → ℕ → ℕ → List Entry → List Entry
splice bucket i zero validated = validated
splice bucket i (suc n) validated = splice bucket (i + 1) n (bucket i ++ validated)

-- `gsgpu_bo_list_get_list`.
unfoldable pub get_list : Env → List Entry → List Entry → List Entry
unfolding distribute splice
get_list v es validated = splice (distribute v es (λ p. [])) 0 num_buckets validated
