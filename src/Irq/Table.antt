-- ===== src/Irq/Table.antt =====
-- Registration and dispatch, and the interrupts of the display controller, one for each bit of its
-- register.
use loongson_gsgpu_dkms_modu.Base.{
  ℕ, zero, suc, ◌+◌, ◌/◌, ◌%◌, ◌^◌, ◌<◌, ◌≡◌, refl, sym, ap, ◌∙◌, inl, inr, Bool, true, false, List,
  [], ◌∷◌, Option, none, some, ◌==◌, ltb, leb, not, ◌&&◌, if◌then◌else◌, arith, Bool-cases,
  Option-cases, is_some, Status, ok, ==_iff,
}
use native.Mathlib.Decide.{ℕ_discrete}
use native.Mathlib.Nat.{pow-suc}
use loongson_gsgpu_dkms_modu.Irq.{
  dc_loop, dc_handler, dc_max, Irq, add_id, add_source, dispatch, client_max, src_max, table_of,
  assign,
}

-- The numbers `i`, `i + 1`, ... of the set bits of `reg`, for `n` bits.
abbrev pub bits : ℕ → ℕ → ℕ → List ℕ
bits zero reg i = []
bits (suc n) reg i = if reg % 2 == 0 then bits n (reg / 2) (i + 1) else i ∷ bits n (reg / 2) (i + 1)

no_bits : (n i : ℕ) → bits n 0 i ≡ []
no_bits zero i = refl
no_bits (suc n) i = no_bits n (i + 1)

dc_loop_lem : (n reg i : ℕ) → reg < 2 ^ n → i + n ≡ dc_max → dc_loop n reg i ≡ some (bits n reg i)
unfolding dc_loop
dc_loop_lem zero reg i lt e = let z : reg ≡ 0 = omega arith in rw z refl
dc_loop_lem (suc n) reg i lt e = elim (ℕ_discrete reg 0) [
  | yes z ↦ rw (z, no_bits n (i + 1)) refl
  | no nz ↦
      let go : (not (reg == 0) && ltb i dc_max) ≡ true = ground arith in
      rw (go, dc_loop_lem n (reg / 2) (i + 1) (omega (arith, pow-suc 2 n)) (omega arith))
        (ground arith)
]

-- The handler of the display controller's interrupts ends within sixteen rounds, and dispatches exactly
-- the numbers of the set bits among the low sixteen of the register, counted from one, in ascending
-- order.
pub dc_handler_lem : (int_reg : ℕ) → dc_handler 16 int_reg ≡ some (bits 16 (int_reg % 2 ^ 16) 1)
unfolding dc_handler
dc_handler_lem int_reg = dc_loop_lem 16 (int_reg % 2 ^ 16) 1 (omega arith) refl

status_of :
    {r r' : Status} {q q' : Irq} → ◌≡◌ {A = Status × Irq} (r, q) (r', q') → (r ≡ r') × (q ≡ q')
status_of e = ground arith

-- What an added source changes: the entry of its own numbers.
linked :
    (q : Irq) (client : ℕ) (t : ℕ → Option ℕ) (src source : ℕ) (mem : Bool) (q' : Irq)
    → add_source q client t src source mem ≡ (ok, q')
    → (t src ≡ none) × (q'.client ≡ assign q.client client (some (assign t src (some source))))
unfolding add_source
linked q client t src source mem q' e = elim (Option-cases (t src)) [
  | inr (other, o) ↦ cc (status_of (rw (o, add_source) at e)).0
  | inl o ↦
      let s = q.sources source in
      elim (Bool-cases (not (s.num_types == 0) && not (is_some s.enabled_types))) [
        | inr n ↦ (o, sym (ap (λ (x : Irq). x.client) (status_of (rw (o, n, add_source) at e)).1))
        | inl y ↦ elim (Bool-cases mem) [
          | inl m ↦
              (o, sym (ap (λ (x : Irq). x.client) (status_of (rw (o, y, m, add_source) at e)).1))
          | inr m ↦ cc (status_of (rw (o, y, m, add_source) at e)).0
        ]
      ]
]

table_lem :
    (f : ℕ → Option (ℕ → Option ℕ)) (t : ℕ → Option ℕ) (client src source c i : ℕ)
    → ((j : ℕ) → t j ≡ table_of (f client) j)
    → table_of (assign f client (some (assign t src (some source))) c) i
      ≡ (if (client == c) && (src == i) then some source else table_of (f c) i)
table_lem f t client src source c i h = elim (Bool-cases (client == c)) [
  | inr n ↦ rw n refl
  | inl y ↦
      let q : client ≡ c = (==_iff client c).0 y in
      elim (Bool-cases (src == i)) [
        | inl z ↦ rw (y, z) refl
        | inr z ↦ rw (y, z) (h i ∙ ap (λ (d : ℕ). table_of (f d) i) q)
      ]
]

dispatch_new :
    (q q' : Irq) (client src source c i : ℕ) (t : ℕ → Option ℕ)
    → leb client_max client ≡ false
    → leb src_max src ≡ false
    → ((j : ℕ) → t j ≡ table_of (q.client client) j)
    → q'.client ≡ assign q.client client (some (assign t src (some source)))
    → dispatch q' c i ≡ (if (client == c) && (src == i) then some source else dispatch q c i)
unfolding dispatch
dispatch_new q q' client src source c i t lc ls h e = elim (Bool-cases (leb client_max c)) [
  | inl out ↦ let off : (client == c) ≡ false = ground arith in rw (out, off) refl
  | inr in_clients ↦ elim (Bool-cases (leb src_max i)) [
    | inl out ↦
        let off : (src == i) ≡ false = ground arith in
        elim (Bool-cases (client == c)) [
          | inl y ↦ rw (in_clients, out, y, off) refl
          | inr n ↦ rw (in_clients, out, n) refl
        ]
    | inr in_srcs ↦
        rw (in_clients, in_srcs)
          (ap (λ (g : ℕ → Option (ℕ → Option ℕ)). table_of (g c) i) e
            ∙ table_lem q.client t client src source c i h)
  ]
]

-- Where a source is registered with success, the interrupts of its client and number go to it from then
-- on, and had gone nowhere; every other interrupt goes where it went.
pub dispatch-add_id :
    (q q' : Irq) (client src source c i : ℕ) (table_mem mem : Bool)
    → add_id q client src source table_mem mem ≡ (ok, q')
    → (dispatch q client src ≡ none)
      × (dispatch q' c i ≡ (if (client == c) && (src == i) then some source else dispatch q c i))
unfolding add_id dispatch
dispatch-add_id q q' client src source c i table_mem mem e =
    elim (Bool-cases (leb client_max client)) [
      | inl out ↦ cc (status_of (rw (out, add_id) at e)).0
      | inr lc ↦ elim (Bool-cases (leb src_max src)) [
        | inl out ↦ cc (status_of (rw (lc, out, add_id) at e)).0
        | inr ls ↦ elim (Bool-cases (q.sources source).has_funcs) [
          | inr no_funcs ↦ cc (status_of (rw (lc, ls, no_funcs, add_id) at e)).0
          | inl funcs ↦ elim (Option-cases (q.client client)) [
            | inr (t, o) ↦
                let (free, at) =
                  linked q client t src source mem q' (rw (lc, ls, funcs, o, add_id) at e) in
                (
                  rw (lc, ls, o) free,
                  dispatch_new q q' client src source c i t lc ls
                      (λ j. sym (ap (λ (x : Option (ℕ → Option ℕ)). table_of x j) o)) at,
                )
            | inl o ↦ elim (Bool-cases table_mem) [
              | inr m ↦ cc (status_of (rw (lc, ls, funcs, o, m, add_id) at e)).0
              | inl m ↦
                  let (free, at) =
                    linked q client (λ j. none) src source mem q'
                      (rw (lc, ls, funcs, o, m, add_id) at e) in
                  (
                    rw (lc, ls, o) refl,
                    dispatch_new q q' client src source c i (λ j. none) lc ls
                        (λ j. sym (ap (λ (x : Option (ℕ → Option ℕ)). table_of x j) o)) at,
                  )
            ]
          ]
        ]
      ]
    ]
