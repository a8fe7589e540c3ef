-- ===== src/Ih.antt =====
-- gsgpu/gpu/gsgpu_ih.c: the ring in which the GPU reports interrupts, four dwords each. The read and
-- write pointers count dwords. The credits of `gsgpu_vm_pasid_fault_credit` in gsgpu_vm.c are passed on.
pub mod Drain
mod Tests
use loongson_gsgpu_dkms_modu.Base.{
  ℕ, zero, suc, ◌+◌, ◌-◌, ◌*◌, ◌/◌, ◌%◌, ◌^◌, Bool, true, false, List, [], ◌∷◌, ◌++◌, Option, none,
  some, ◌==◌, ◌||◌, if◌then◌else◌, bit_and, u32_mod, get_or,
}

-- `struct gsgpu_iv_entry`, less its client, which is always the legacy one.
pub record Entry : Type 0 where
  pub src_id : ℕ
  pub ring_id : ℕ
  pub vmid : ℕ
  pub pasid : ℕ
  pub data0 : ℕ
  pub data1 : ℕ

-- `struct gsgpu_ih_ring`.
pub record Ih : Type 0 where
  pub ring : List ℕ
  pub ptr_mask : ℕ
  pub rptr : ℕ
  pub enabled : Bool

-- `VISLANDS30_IV_SRCID_GFX_PAGE_INV_FAULT` and `VISLANDS30_IV_SRCID_GFX_MEM_PROT_FAULT`.
abbrev pub page_inv_fault : ℕ
page_inv_fault = 146

abbrev pub mem_prot_fault : ℕ
mem_prot_fault = 147

-- `ring[i]`, on 32 bits. Out of the buffer the model reads zero; `Drain` shows that the code stays inside.
abbrev pub dword : Ih → ℕ → ℕ
dword h i = get_or h.ring i 0 % u32_mod

-- The `fault_credit` of the address space of each process that has one.
abbrev pub Credits : Type 0
Credits = ℕ → Option ℕ

-- The process has this credit, if its address space is found.
pub take_credit : Option ℕ → Credits → ℕ → Bool × Credits
take_credit none credits pasid = (true, credits)
take_credit (some c) credits pasid =
    if c == 0 then (false, credits) else (true, λ p. if p == pasid then some (c - 1) else credits p)

-- `gsgpu_vm_pasid_fault_credit`.
pub pasid_fault_credit : Credits → ℕ → Bool × Credits
unfolding take_credit
pasid_fault_credit credits pasid = take_credit (credits pasid) credits pasid

pub is_fault : ℕ → Bool
is_fault src = (src == page_inv_fault) || (src == mem_prot_fault)

-- Where the credit is used up the read pointer moves on.
pub screened : Ih → Bool × Credits → Bool × Credits × Ih
screened h (true, credits) = (true, credits, h)
screened h (false, credits) = (false, credits, record h { rptr = (h.rptr + 4) % u32_mod })

-- `ih_func_prescreen_iv`: whether the entry at the read pointer is worth processing.
pub prescreen : Credits → Ih → Bool × Credits × Ih
unfolding is_fault pasid_fault_credit screened
prescreen credits h =
    let pasid = dword h (h.rptr + 2) / 2 ^ 16 in
    if is_fault (dword h h.rptr % 2 ^ 8)
    then (if pasid == 0 then (true, credits, h) else screened h (pasid_fault_credit credits pasid))
    else (true, credits, h)

-- `ih_func_decode_iv`.
pub decode : Ih → Entry × Ih
decode h =
    let dw2 = dword h (h.rptr + 2) in
    (
      record {
        src_id = dword h h.rptr % 2 ^ 8;
        ring_id = dw2 % 2 ^ 8;
        vmid = dw2 / 2 ^ 8 % 2 ^ 8;
        pasid = dw2 / 2 ^ 16 % 2 ^ 16;
        data0 = dword h (h.rptr + 1);
        data1 = dword h (h.rptr + 3);
      },
      record h { rptr = (h.rptr + 4) % u32_mod },
    )

-- `adev->irq.ih.rptr &= adev->irq.ih.ptr_mask`.
abbrev pub wrap : Ih → Ih
wrap h = record h { rptr = bit_and h.rptr h.ptr_mask }

-- One round of the loop of `gsgpu_ih_process`: the entry that is dispatched, if it is not screened out.
pub round : Credits → Ih → Option Entry × Credits × Ih
unfolding prescreen decode
round credits h =
    let (take, credits', h') = prescreen credits h in
    let (entry, h'') = decode h' in
    if take then (some entry, credits', wrap h'') else (none, credits', wrap h')

abbrev pub add_to : Option Entry → List Entry → List Entry
add_to none es = es
add_to (some e) es = e ∷ es

-- The loop, up to a write pointer: the entries in the order of their dispatch. `none`: it has not ended
-- within the rounds.
pub drain : ℕ → Credits → Ih → ℕ → Option (List Entry × Credits × Ih)
unfolding round
drain zero credits h wptr = if h.rptr == wptr then some ([], credits, h) else none
drain (suc n) credits h wptr =
    let (e, credits', h') = round credits h in
    let rest = drain n credits' h' wptr in
    if h.rptr == wptr
    then some ([], credits, h)
    else elim rest [ none ↦ none | some (es, credits'', h'') ↦ some (add_to e es, credits'', h'') ]
