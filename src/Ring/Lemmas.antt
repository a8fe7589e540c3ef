-- ===== src/Ring/Lemmas.antt =====
-- The shape of a ring: its masks are powers of two, and its memory is as long as they say. What one
-- write does to a ring of that shape.
use loongson_gsgpu_dkms_modu.Base.{
  ℕ, ◌+◌, ◌%◌, ◌^◌, ◌≤◌, ◌<◌, ◌≡◌, sym, ◌∙◌, bit_and, u64_mod, low_mask, bit_and-low_mask, pow-pos,
  mod_pow-mod_pow, length, length-set,
}
use native.Mathlib.Nat.{mod-add-mod, mod-lt}
use loongson_gsgpu_dkms_modu.Ring.{Ring, write}

-- The buffer has `2 ^ k` dwords, pointers have `p` bits, and submissions are padded to `2 ^ a`.
pub record Shape (k p a : ℕ) (r : Ring) : Type 0 where
  pub buf_fits : k ≤ p
  pub ptr_fits : p ≤ 64
  pub pad_fits : a ≤ k
  pub small : k ≤ 30
  pub storage : length r.buf ≡ 2 ^ k
  pub buf_ones : r.buf_mask ≡ low_mask k
  pub ptr_ones : r.ptr_mask ≡ low_mask p
  pub pad_ones : r.align_mask ≡ low_mask a
  pub in_range : r.wptr < 2 ^ p

module _ {k p a : ℕ} {r : Ring} (s : Shape k p a r) where
  -- The slot that the next word goes to.
  pub slot : bit_and r.wptr r.buf_mask ≡ r.wptr % 2 ^ k
  slot = rw (s.buf_ones) (bit_and-low_mask r.wptr k)

  pub slot-lt : r.wptr % 2 ^ k < length r.buf
  slot-lt = rw s.storage (mod-lt r.wptr (pow-pos k))

  -- The pointer after `n` words.
  pub advance : (n : ℕ) → bit_and ((r.wptr + n) % u64_mod) r.ptr_mask ≡ (r.wptr + n) % 2 ^ p
  advance n =
      rw (s.ptr_ones) (bit_and-low_mask ((r.wptr + n) % u64_mod) p)
      ∙ mod_pow-mod_pow (r.wptr + n) p 64 s.ptr_fits

  pub wptr-write : (v : ℕ) → (write r v).wptr ≡ (r.wptr + 1) % 2 ^ p
  unfolding write
  wptr-write v = advance 1

  pub write-Shape : (v : ℕ) → Shape k p a (write r v)
  unfolding write
  write-Shape v = record {
    buf_fits = s.buf_fits;
    ptr_fits = s.ptr_fits;
    pad_fits = s.pad_fits;
    small = s.small;
    storage = length-set r.buf _ v ∙ s.storage;
    buf_ones = s.buf_ones;
    ptr_ones = s.ptr_ones;
    pad_ones = s.pad_ones;
    in_range = rw (advance 1) (mod-lt (r.wptr + 1) (pow-pos p));
  }

-- The position that follows a slot of the buffer is the slot of the position that follows.
pub slot-next : {k p : ℕ} (w n : ℕ) → k ≤ p → (w + n) % 2 ^ p % 2 ^ k ≡ (w % 2 ^ k + n) % 2 ^ k
slot-next {k} {p} w n le = mod_pow-mod_pow (w + n) k p le ∙ sym (mod-add-mod w (2 ^ k) n)
