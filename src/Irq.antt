-- ===== src/Irq.antt =====
-- gsgpu/gpu/gsgpu_irq.c: the table of interrupt sources, the dispatch of interrupts, and the reference
-- counts by which the types of an interrupt are switched on and off.
pub mod Counts
pub mod Table
mod Tests
use loongson_gsgpu_dkms_modu.Base.{
  ℕ, zero, suc, ◌+◌, ◌-◌, ◌*◌, ◌/◌, ◌%◌, ◌^◌, Bool, true, false, List, [], ◌∷◌, ◌++◌, Option, none,
  some, ◌==◌, ltb, leb, not, ◌&&◌, ◌||◌, if◌then◌else◌, is_some, get_or, set, replicate, ℤ, pos,
  negsuc, add_ℤℕ, sub_ℤℕ, Status, ok, err, einval, enoent, enomem,
}

-- `struct gsgpu_irq_src`: `enabled_types` is an array of `atomic_t`, or not allocated. `hw` is the
-- state that `funcs->set` gave to each type.
pub record Source : Type 0 where
  pub num_types : ℕ
  pub has_funcs : Bool
  pub has_set : Bool
  pub enabled_types : Option (List ℤ)
  pub hw : List Bool

abbrev pub counts : Source → List ℤ
counts s = elim s.enabled_types [ none ↦ [] | some cs ↦ cs ]

-- The guards that `gsgpu_irq_get`, `_put` and `_enabled` share.
abbrev pub has_types : Source → Bool
has_types s = is_some s.enabled_types && s.has_set

abbrev pub is_nonzero : ℤ → Bool
is_nonzero (pos zero) = false
is_nonzero (pos (suc n)) = true
is_nonzero (negsuc n) = true

-- `gsgpu_irq_enabled`.
pub enabled : Bool → Source → ℕ → Bool
enabled irq_enabled s type =
    if not irq_enabled
    then false
    else if leb s.num_types type
    then false
    else if not (has_types s)
    then false
    else is_nonzero (get_or (counts s) type (pos 0))

-- `gsgpu_irq_update`. `r` is what `funcs->set` returns; `hw` is the state that it was last asked for, also where
-- it fails.
pub update : Bool → Source → ℕ → Status → Status × Source
unfolding enabled
update irq_enabled s type r = (r, record s { hw = set s.hw type (enabled irq_enabled s type) })

abbrev pub with_count : Source → ℕ → ℤ → Source
with_count s type c = record s { enabled_types = some (set (counts s) type c) }

abbrev pub is_one : ℤ → Bool
is_one (pos n) = n == 1
is_one (negsuc n) = false

-- `gsgpu_irq_get`.
pub get : Bool → Source → ℕ → Status → Status × Source
get irq_enabled s type r =
    let c = add_ℤℕ (get_or (counts s) type (pos 0)) 1 in
    if not irq_enabled
    then (err enoent, s)
    else if leb s.num_types type
    then (err einval, s)
    else if not (has_types s)
    then (err einval, s)
    else if is_one c
    then update irq_enabled (with_count s type c) type r
    else (ok, with_count s type c)

-- `gsgpu_irq_put`.
pub put : Bool → Source → ℕ → Status → Status × Source
put irq_enabled s type r =
    let c = sub_ℤℕ (get_or (counts s) type (pos 0)) 1 in
    if not irq_enabled
    then (err enoent, s)
    else if leb s.num_types type
    then (err einval, s)
    else if not (has_types s)
    then (err einval, s)
    else if is_nonzero c
    then (ok, with_count s type c)
    else update irq_enabled (with_count s type c) type r

-- `GSGPU_IH_CLIENTID_MAX`, `GSGPU_MAX_IRQ_SRC_ID` and `DC_INT_ID_MAX`.
abbrev pub client_max : ℕ
client_max = 32

abbrev pub src_max : ℕ
src_max = 256

abbrev pub dc_max : ℕ
dc_max = 17

-- `adev->irq.client`: for each client the sources by their numbers, if the table is there. A source is
-- an address; `sources` is what stands there.
pub record Irq : Type 0 where
  pub client : ℕ → Option (ℕ → Option ℕ)
  pub sources : ℕ → Source

abbrev pub assign {ℓ} : {A : Type ℓ} → (ℕ → A) → ℕ → A → ℕ → A
assign f i v j = if i == j then v else f j

abbrev pub table_of : Option (ℕ → Option ℕ) → ℕ → Option ℕ
table_of none src = none
table_of (some t) src = t src

-- The last steps of `gsgpu_irq_add_id`, with the client's table in place.
pub add_source : Irq → ℕ → (ℕ → Option ℕ) → ℕ → ℕ → Bool → Status × Irq
add_source q client t src source mem =
    let q' = record q { client = assign q.client client (some t) } in
    let s = q.sources source in
    let linked = record q' {
      client = assign q.client client (some (assign t src (some source)));
    } in
    elim (t src) [
      | some other ↦ (err einval, q')
      | none ↦
          if not (s.num_types == 0) && not (is_some s.enabled_types)
          then (if mem
              then (
                ok,
                record linked {
                  sources =
                      assign q.sources source
                        (record s { enabled_types = some (replicate s.num_types (pos 0)) });
                },
              )
              else (err enomem, q'))
          else (ok, linked)
    ]

-- `gsgpu_irq_add_id`. `table_mem` and `mem`: whether there is memory for a table and for the counts.
unfoldable pub add_id : Irq → ℕ → ℕ → ℕ → Bool → Bool → Status × Irq
unfolding add_source
add_id q client src source table_mem mem =
    if leb client_max client
    then (err einval, q)
    else if leb src_max src
    then (err einval, q)
    else if not (q.sources source).has_funcs
    then (err einval, q)
    else elim (q.client client) [
      | some t ↦ add_source q client t src source mem
      | none ↦ if table_mem then add_source q client (λ i. none) src source mem else (err enomem, q)
    ]

-- `gsgpu_irq_dispatch`: the source whose `process` is called.
unfoldable pub dispatch : Irq → ℕ → ℕ → Option ℕ
dispatch q client src =
    if leb client_max client
    then none
    else if leb src_max src
    then none
    else table_of (q.client client) src

-- `gsgpu_dc_irq_handler`: the numbers that are dispatched, in order. `none`: the loop has not ended
-- within the rounds.
pub dc_loop : ℕ → ℕ → ℕ → Option (List ℕ)
dc_loop zero int_reg i = if not (int_reg == 0) && ltb i dc_max then none else some []
dc_loop (suc n) int_reg i =
    let rest = dc_loop n (int_reg / 2) (i + 1) in
    if not (int_reg == 0) && ltb i dc_max
    then elim rest [ none ↦ none | some is ↦ some (if int_reg % 2 == 0 then is else i ∷ is) ]
    else some []

unfoldable pub dc_handler : ℕ → ℕ → Option (List ℕ)
unfolding dc_loop
dc_handler n int_reg = dc_loop n (int_reg % 2 ^ 16) 1
