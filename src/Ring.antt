-- ===== src/Ring.antt =====
-- gsgpu/gpu/gsgpu_ring.c with the inline writers of gsgpu/include/gsgpu_ring.h: a command ring, the
-- space that a submission reserves in it, and the words that go into it. Pointers count dwords.
pub mod Lemmas
pub mod Copy
pub mod Round
pub mod Contents
pub mod Submit
pub mod Priority
pub mod Pad
mod Tests
use loongson_gsgpu_dkms_modu.Base.{
  ℕ, zero, suc, ◌+◌, ◌-◌, ◌*◌, ◌%◌, ◌^◌, ◌≡◌, Bool, true, false, List, [], ◌∷◌, ◌++◌, Option, none,
  some, bit_and, u32_mod, u64_mod, sub32, ltb, leb, ◌==◌, if◌then◌else◌, length, set, take, drop, ℤ,
  pos, sub_ℤℕ, ltb_ℤℕ, leb_ℤℕ, Status, ok, err, enomem,
}

-- What the ring code does to the world outside its own state, newest first in `log`: the optional
-- hooks of `struct gsgpu_ring_funcs`, the WPTR register, and the error that is printed where more is
-- written than was reserved.
pub data Event : Type 0 where
  begin_use end_use overrun : Event
  set_wptr : ℕ → Event

-- `struct gsgpu_ring_funcs`: the constants, and whether the optional hooks are there.
pub record Funcs : Type 0 where
  pub align_mask : ℕ
  pub nop : ℕ
  pub has_begin_use : Bool
  pub has_end_use : Bool

-- `struct gsgpu_ring`: the fields that the command path reads and writes. `buf` is the memory at
-- `ring->ring`.
pub record Ring : Type 0 where
  pub funcs : Funcs
  pub open funcs use *
  pub buf : List ℕ
  pub wptr : ℕ
  pub wptr_old : ℕ
  pub max_dw : ℕ
  pub count_dw : ℤ
  pub ptr_mask : ℕ
  pub buf_mask : ℕ
  pub log : List Event

pub note : Bool → Event → List Event → List Event
note true e log = e ∷ log
note false e log = log

-- `gsgpu_ring_write`.
pub write : Ring → ℕ → Ring
unfolding note
write r v = record r {
  buf = set r.buf (bit_and r.wptr r.buf_mask) v;
  wptr = bit_and ((r.wptr + 1) % u64_mod) r.ptr_mask;
  count_dw = sub_ℤℕ r.count_dw 1;
  log = note (leb_ℤℕ r.count_dw 0) overrun r.log;
}

-- Several calls of `gsgpu_ring_write`, as the packet emitters make them.
pub write_all : Ring → List ℕ → Ring
write_all r [] = r
write_all r (v ∷ vs) = write_all (write r v) vs

-- `gsgpu_ring_insert_nop`.
pub insert_nop : Ring → ℕ → Ring
insert_nop r zero = r
insert_nop r (suc n) = insert_nop (write r r.nop) n

-- `memcpy` of whole dwords to the dword `at`.
unfoldable pub memcpy : List ℕ → ℕ → List ℕ → List ℕ
memcpy buf i [] = buf
memcpy buf i (v ∷ vs) = memcpy (set buf i v) (i + 1) vs

-- `gsgpu_ring_write_multiple`: at most two copies, the second from the start of the buffer.
pub write_multiple : Ring → List ℕ → Ring
unfolding note
write_multiple r src =
    let count = length src in
    let occupied = bit_and r.wptr r.buf_mask in
    let room = (r.buf_mask + 1 - occupied) % u32_mod in
    let chunk1 = if leb count room then count else room in
    record r {
      buf = memcpy (memcpy r.buf occupied (take chunk1 src)) 0 (drop chunk1 src);
      wptr = bit_and ((r.wptr + count) % u64_mod) r.ptr_mask;
      count_dw = sub_ℤℕ r.count_dw count;
      log = note (ltb_ℤℕ r.count_dw count) overrun r.log;
    }

-- `gsgpu_ring_alloc`. The sum and the complement are on `unsigned`.
pub align_up : ℕ → ℕ → ℕ
align_up mask ndw = bit_and ((ndw + mask) % u32_mod) (u32_mod - 1 - mask)

pub alloc : Ring → ℕ → Status × Ring
unfolding note align_up
alloc r ndw =
    let n = align_up r.align_mask ndw in
    if ltb r.max_dw n then (err enomem, r) else (
      ok,
      record r { count_dw = pos n; wptr_old = r.wptr; log = note r.has_begin_use begin_use r.log },
    )

-- The padding that `gsgpu_ring_commit` computes, on `uint32_t`.
pub padding : Ring → ℕ
padding r = sub32 (r.align_mask + 1) (bit_and r.wptr r.align_mask) % (r.align_mask + 1)

-- `gsgpu_ring_commit`, less the move of the ring in the device's list. Both implementations of
-- `set_wptr` write the low half of the pointer to the WPTR register.
pub commit : Ring → Ring
unfolding note padding insert_nop
commit r =
    let p = insert_nop r (padding r) in
    record p { log = note p.has_end_use end_use (set_wptr (p.wptr % u32_mod) ∷ p.log) }

-- `gsgpu_ring_undo`.
pub undo : Ring → Ring
unfolding note
undo r = record r { wptr = r.wptr_old; log = note r.has_end_use end_use r.log }

-- `gsgpu_ring_clear_ring`: `buf_mask + 1` rounds.
pub fill_nop : List ℕ → ℕ → ℕ → ℕ → List ℕ
fill_nop buf nop i zero = buf
fill_nop buf nop i (suc n) = fill_nop (set buf i nop) nop (i + 1) n

pub clear_ring : Ring → Ring
unfolding fill_nop
clear_ring r = record r { buf = fill_nop r.buf r.nop 0 (r.buf_mask + 1) }
