-- ===== src/Ring/Contents.antt =====
-- What the buffer holds after words are written, one by one or by `gsgpu_ring_write_multiple`.
use loongson_gsgpu_dkms_modu.Base.{
  ℕ, zero, suc, ◌+◌, ◌-◌, ◌%◌, ◌^◌, ◌≤◌, ◌<◌, ◌≡◌, refl, sym, ◌∙◌, List, [], ◌∷◌, ◌++◌, Bool, false,
  if◌then◌else◌, ltb, length, get_or, replicate, ℤ, pos, sub_ℤℕ, ltb_ℤℕ, arith, pow-pos,
}
use native.Mathlib.Nat.{mod-add-mod, mod-lt}
use loongson_gsgpu_dkms_modu.Ring.{
  Ring, Event, note, overrun, write, write_all, write_multiple, insert_nop,
}
use loongson_gsgpu_dkms_modu.Ring.Lemmas.{Shape, advance}
use loongson_gsgpu_dkms_modu.Ring.Copy.{
  get_or-cyclic, buf-write_all, wptr-write_all, buf-write_multiple,
}

-- After words are written one by one to a ring whose masks are powers of two and which holds that
-- many, the slot `j` places after the old write pointer holds word `j`, every other slot holds what
-- it held, and the write pointer has gone on by the number of words, on its own width.
pub write_all_contents :
    {k p a : ℕ} (r : Ring) (vs : List ℕ) (j : ℕ)
    → Shape k p a r
    → length vs ≤ 2 ^ k
    → j < 2 ^ k
    → (get_or (write_all r vs).buf ((r.wptr + j) % 2 ^ k) 0
        ≡ (if ltb j (length vs) then get_or vs j 0 else get_or r.buf ((r.wptr + j) % 2 ^ k) 0))
      × ((write_all r vs).wptr ≡ (r.wptr + length vs) % 2 ^ p)
write_all_contents {k} r vs j s n h =
    let at =
      get_or-cyclic (2 ^ k) r.buf (r.wptr % 2 ^ k) j 0 vs s.storage (mod-lt r.wptr (pow-pos k)) n
        h in
    (rw (buf-write_all r vs s) (rw mod-add-mod at at), wptr-write_all r vs s)

sub_ℤℕ_twice : (i : ℤ) (n : ℕ) → sub_ℤℕ (sub_ℤℕ i 1) n ≡ sub_ℤℕ i (suc n)
sub_ℤℕ_twice i n = ground arith

sub_ℤℕ_zero : (i : ℤ) → i ≡ sub_ℤℕ i 0
sub_ℤℕ_zero i = ground arith

pub count_dw-write_all :
    (r : Ring) (vs : List ℕ) → (write_all r vs).count_dw ≡ sub_ℤℕ r.count_dw (length vs)
unfolding write_all write
count_dw-write_all r [] = sub_ℤℕ_zero r.count_dw
count_dw-write_all r (v ∷ vs) =
    count_dw-write_all (write r v) vs ∙ sub_ℤℕ_twice r.count_dw (length vs)

-- No error is printed while the reservation lasts.
pub log-write_all :
    (r : Ring) (vs : List ℕ) (n : ℕ)
    → r.count_dw ≡ pos n
    → length vs ≤ n
    → (write_all r vs).log ≡ r.log
unfolding write_all write note
log-write_all r [] n e h = refl
log-write_all r (v ∷ vs) n e h = ground (arith, log-write_all (write r v) vs (n - 1))

-- The fields that writing leaves alone.
pub write_all_frame :
    (r : Ring) (vs : List ℕ)
    → let w = write_all r vs in
      (w.funcs ≡ r.funcs)
      × (w.wptr_old ≡ r.wptr_old)
      × (w.max_dw ≡ r.max_dw)
      × (w.ptr_mask ≡ r.ptr_mask)
      × (w.buf_mask ≡ r.buf_mask)
unfolding write_all write
write_all_frame r [] = (refl, refl, refl, refl, refl)
write_all_frame r (v ∷ vs) = write_all_frame (write r v) vs

pub write_all-append :
    (r : Ring) (xs ys : List ℕ) → write_all r (xs ++ ys) ≡ write_all (write_all r xs) ys
unfolding write_all
write_all-append r [] ys = refl
write_all-append r (x ∷ xs) ys = write_all-append (write r x) xs ys

pub insert_nop-eq-write_all : (r : Ring) (n : ℕ) → insert_nop r n ≡ write_all r (replicate n r.nop)
unfolding insert_nop write_all write
insert_nop-eq-write_all r zero = refl
insert_nop-eq-write_all r (suc n) = insert_nop-eq-write_all (write r r.nop) n

enough : (i : ℤ) (n l : ℕ) → i ≡ pos n → l ≤ n → ltb_ℤℕ i l ≡ false
enough i n l e h = ground arith

quiet_of : (b : Bool) (log : List Event) → b ≡ false → note b overrun log ≡ log
unfolding note
quiet_of b log e = rw e

-- `gsgpu_ring_write_multiple` leaves the ring in every field as one call of `gsgpu_ring_write` for
-- each dword does, where the masks are powers of two, the buffer holds that many dwords and at least
-- that many are reserved.
pub write_multiple-eq-write_all :
    {k p a : ℕ} (r : Ring) (vs : List ℕ) (n : ℕ)
    → Shape k p a r
    → length vs ≤ 2 ^ k
    → r.count_dw ≡ pos n
    → length vs ≤ n
    → write_multiple r vs ≡ write_all r vs
unfolding write_multiple note
write_multiple-eq-write_all r vs n s fits e h =
    let w = write_all r vs in
    let f = write_all_frame r vs in
    let at = buf-write_multiple r vs s fits ∙ sym (buf-write_all r vs s) in
    let to = advance s (length vs) ∙ sym (wptr-write_all r vs s) in
    let left = sym (count_dw-write_all r vs) in
    let quiet =
      quiet_of (ltb_ℤℕ r.count_dw (length vs)) r.log (enough r.count_dw n (length vs) e h)
      ∙ sym (log-write_all r vs n e h) in
    λ i. record {
      funcs = sym f.0 i;
      buf = unfold write_multiple in at i;
      wptr = to i;
      wptr_old = sym f.1 i;
      max_dw = sym f.2 i;
      count_dw = left i;
      ptr_mask = sym f.3 i;
      buf_mask = sym f.4 i;
      log = quiet i;
    }
