-- ===== src/Ring/Copy.antt =====
-- Words written one by one round the buffer against the two copies of `gsgpu_ring_write_multiple`.
use loongson_gsgpu_dkms_modu.Base.{
  ℕ, zero, suc, ◌+◌, ◌-◌, ◌%◌, ◌^◌, ◌≤◌, ◌<◌, ◌≡◌, ◌≢◌, refl, sym, ap, ◌∙◌, inl, inr, List, [], ◌∷◌,
  ◌++◌, if◌then◌else◌, leb, ltb, u32_mod, pow-pos, length, set, take, drop, get_or, length-set,
  get_or-set_self, get_or-set_ne, take-append-drop, length-take, length-drop, take-length,
  drop-length, Bool-cases, arith,
}
use native.Mathlib.Nat.{mod-add-mod, mod-eq_of_lt, mod-lt, mod_self, add-zero, pow-le-pow_right}
use loongson_gsgpu_dkms_modu.Ring.{Ring, write, write_all, write_multiple, memcpy}
use loongson_gsgpu_dkms_modu.Ring.Lemmas.{Shape, slot, wptr-write, write-Shape, slot-next}

-- The buffer after words are written from slot `i` on, going round at `size`.
pub cyclic : ℕ → List ℕ → ℕ → List ℕ → List ℕ
cyclic size buf i [] = buf
cyclic size buf i (v ∷ vs) = cyclic size (set buf i v) ((i + 1) % size) vs

pub length-cyclic :
    (size : ℕ) (buf : List ℕ) (i : ℕ) (vs : List ℕ) → length (cyclic size buf i vs) ≡ length buf
unfolding cyclic
length-cyclic size buf i [] = refl
length-cyclic size buf i (v ∷ vs) =
    length-cyclic size (set buf i v) ((i + 1) % size) vs ∙ length-set buf i v

pub buf-write_all :
    {k p a : ℕ} (r : Ring) (vs : List ℕ)
    → Shape k p a r
    → (write_all r vs).buf ≡ cyclic (2 ^ k) r.buf (r.wptr % 2 ^ k) vs
unfolding write_all cyclic
buf-write_all r [] s = refl
buf-write_all {k} {p} r (v ∷ vs) s =
    buf-write_all (write r v) vs (write-Shape s v)
    ∙ rw (wptr-write s v, slot-next {p = p} r.wptr 1 s.buf_fits) (unfold write in rw (slot s))

pub wptr-write_all :
    {k p a : ℕ} (r : Ring) (vs : List ℕ)
    → Shape k p a r
    → (write_all r vs).wptr ≡ (r.wptr + length vs) % 2 ^ p
unfolding write_all
wptr-write_all {p = p} r [] s = rw add-zero (sym (mod-eq_of_lt s.in_range))
wptr-write_all {p = p} r (v ∷ vs) s =
    let sum : r.wptr + 1 + length vs ≡ r.wptr + suc (length vs) = omega arith in
    wptr-write_all (write r v) vs (write-Shape s v) ∙ rw (wptr-write s v, mod-add-mod, sum)

pub write_all-Shape :
    {k p a : ℕ} (r : Ring) (vs : List ℕ) → Shape k p a r → Shape k p a (write_all r vs)
unfolding write_all
write_all-Shape r [] s = s
write_all-Shape r (v ∷ vs) s = write_all-Shape (write r v) vs (write-Shape s v)

-- Words that fit before the end are one copy.
pub cyclic-memcpy :
    (size : ℕ) (buf : List ℕ) (i : ℕ) (vs : List ℕ)
    → i + length vs ≤ size
    → cyclic size buf i vs ≡ memcpy buf i vs
unfolding cyclic memcpy
cyclic-memcpy size buf i [] h = refl
cyclic-memcpy size buf i (v ∷ []) h = refl
cyclic-memcpy size buf i (v ∷ w ∷ vs) h =
    rw (mod-eq_of_lt {n = i + 1} {m = size} (omega arith))
      (cyclic-memcpy size (set buf i v) (i + 1) (w ∷ vs) (omega arith))

pub cyclic-append :
    (size : ℕ) (buf : List ℕ) (i : ℕ) (xs ys : List ℕ)
    → i < size
    → cyclic size buf i (xs ++ ys) ≡ cyclic size (cyclic size buf i xs) ((i + length xs) % size) ys
unfolding cyclic
cyclic-append size buf i [] ys h = rw (add-zero, mod-eq_of_lt h)
cyclic-append size buf i (x ∷ xs) ys h =
    cyclic-append size (set buf i x) ((i + 1) % size) xs ys (mod-lt (i + 1) (omega arith))
    ∙ rw (mod-add-mod (i + 1) size (length xs)) (
        ap (λ t. cyclic size (cyclic size (set buf i x) ((i + 1) % size) xs) (t % size) ys)
          (omega arith))

-- Fewer than `size` places on is another slot, and `size` places on is the same.
slot_ne : (size i j : ℕ) → i < size → suc j < size → (i + suc j) % size ≢ i
slot_ne size i j h g = grind arith

slot_round : (size i : ℕ) → i < size → ((i + 1) % size + (size - 1)) % size ≡ i
slot_round size i h = rw mod-add-mod (grind arith)

-- The slot `j` places after slot `i` holds word `j`, if there is one, and else what it held.
pub get_or-cyclic :
    (size : ℕ) (buf : List ℕ) (i j d : ℕ) (vs : List ℕ)
    → length buf ≡ size
    → i < size
    → length vs ≤ size
    → j < size
    → get_or (cyclic size buf i vs) ((i + j) % size) d
      ≡ (if ltb j (length vs) then get_or vs j d else get_or buf ((i + j) % size) d)
unfolding cyclic
get_or-cyclic size buf i j d [] e h n g = ground arith
get_or-cyclic size buf i zero d (v ∷ vs) e h n g =
    let first : (i + 0) % size ≡ i = rw add-zero (mod-eq_of_lt h) in
    let next =
      get_or-cyclic size (set buf i v) ((i + 1) % size) (size - 1) d vs (length-set buf i v ∙ e)
        (mod-lt (i + 1) (omega arith)) (omega arith) (omega arith) in
    let round = rw (slot_round size i h) at next in
    rw first (ground (arith, round, get_or-set_self buf i v d))
get_or-cyclic size buf i (suc j) d (v ∷ vs) e h n g =
    let step : ((i + 1) % size + j) % size ≡ (i + suc j) % size =
      rw mod-add-mod (ap (λ (t : ℕ). t % size) (omega arith)) in
    let next =
      get_or-cyclic size (set buf i v) ((i + 1) % size) j d vs (length-set buf i v ∙ e)
        (mod-lt (i + 1) (omega arith)) (omega arith) (omega arith) in
    let here = rw step at next in
    let other = get_or-set_ne buf i ((i + suc j) % size) v d (λ q. slot_ne size i j h g (sym q)) in
    ground (arith, here, other)

-- Copying what fits before the end and the rest from the start is writing round the buffer.
two_chunks :
    (size : ℕ) (buf : List ℕ) (i : ℕ) (vs : List ℕ)
    → i < size
    → length vs ≤ size
    → let c = if leb (length vs) (size - i) then length vs else size - i in
      memcpy (memcpy buf i (take c vs)) 0 (drop c vs) ≡ cyclic size buf i vs
unfolding memcpy
two_chunks size buf i vs h n = elim (Bool-cases (leb (length vs) (size - i))) [
  | inl fits ↦
      rw (fits, take-length, drop-length) (sym (cyclic-memcpy size buf i vs (ground arith)))
  | inr more ↦
      let c : ℕ = size - i in
      let front : length (take c vs) ≡ c = ground (arith, length-take c vs) in
      let back : 0 + length (drop c vs) ≤ size = omega (arith, length-drop c vs) in
      let wrap : (i + length (take c vs)) % size ≡ 0 =
        rw (front) (ap (λ (t : ℕ). t % size) (omega arith) ∙ mod_self size) in
      let split = cyclic-append size buf i (take c vs) (drop c vs) h in
      rw more (
        sym (
          ap (cyclic size buf i) (sym (take-append-drop c vs))
          ∙ split
          ∙ rw (wrap, cyclic-memcpy size buf i (take c vs) (omega (arith, front)))
              (cyclic-memcpy size (memcpy buf i (take c vs)) 0 (drop c vs) back)))
]

-- The mask keeps the slot, so `chunk1` of the source is what fits before the end.
pub buf-write_multiple :
    {k p a : ℕ} (r : Ring) (vs : List ℕ)
    → Shape k p a r
    → length vs ≤ 2 ^ k
    → (write_multiple r vs).buf ≡ cyclic (2 ^ k) r.buf (r.wptr % 2 ^ k) vs
unfolding write_multiple
buf-write_multiple {k} r vs s h =
    let i = r.wptr % 2 ^ k in
    let room : (r.buf_mask + 1 - i) % u32_mod ≡ 2 ^ k - i =
      rw s.buf_ones (
        omega (arith, mod-lt r.wptr (pow-pos k), pow-le-pow_right {n = 2} (omega arith) s.small)) in
    rw (slot s, room) (two_chunks (2 ^ k) r.buf i vs (mod-lt r.wptr (pow-pos k)) h)
