-- ===== src/Ring/Tests.antt =====
-- Runs of the ring code on a ring of sixteen dwords, and the theorems at that ring.
use loongson_gsgpu_dkms_modu.Base.{
  ℕ, ◌+◌, ◌-◌, ◌%◌, ◌^◌, ◌≤◌, ◌<◌, ◌≡◌, refl, ◌⊎◌, inr, List, [], ◌∷◌, ◌++◌, true, if◌then◌else◌,
  ltb, leb, ◌==◌, ◌&&◌, length, get_or, replicate, pos, ok, err, enomem, u32_mod, low_mask, some,
  arith,
}
use loongson_gsgpu_dkms_modu.Ring.{
  Ring, Funcs, note, set_wptr, begin_use, end_use, overrun, write, write_all, write_multiple,
  memcpy, alloc, align_up, commit,
}
use loongson_gsgpu_dkms_modu.Ring.Lemmas.{Shape}
use loongson_gsgpu_dkms_modu.Ring.Round.{round_up}
use loongson_gsgpu_dkms_modu.Ring.Contents.{write_all_contents, write_multiple-eq-write_all}
use loongson_gsgpu_dkms_modu.Ring.Submit.{reserved, alloc_outcome, submission}
use loongson_gsgpu_dkms_modu.Ring.Priority.{Prio, IsPrio}
use loongson_gsgpu_dkms_modu.Ring.Pad.{Ib, generic_pad_ib, generic_pad_ib_total}

abbrev funcs : Funcs
funcs = record { align_mask = 3; nop = 99; has_begin_use = true; has_end_use = true }

abbrev ring : Ring
ring = record {
  funcs = funcs;
  buf = replicate 16 0;
  wptr = 12;
  wptr_old = 0;
  max_dw = 16;
  count_dw = pos 8;
  ptr_mask = 15;
  buf_mask = 15;
  log = [];
}

ring-Shape : Shape 4 4 2 ring
ring-Shape = record {
  buf_fits = omega arith;
  ptr_fits = omega arith;
  pad_fits = omega arith;
  small = omega arith;
  storage = refl;
  buf_ones = refl;
  ptr_ones = refl;
  pad_ones = refl;
  in_range = omega arith;
}

abbrev words : List ℕ
words = 1 ∷ 2 ∷ 3 ∷ 4 ∷ 5 ∷ []

-- Five words from slot 12 go round the end.
wraps : (write_multiple ring words).buf ≡ 5 ∷ (replicate 11 0 ++ (1 ∷ 2 ∷ 3 ∷ 4 ∷ []))
unfolding write_multiple memcpy
wraps = refl

-- A write with nothing reserved prints the error.
overruns : (write (record ring { count_dw = pos 0 }) 1).log ≡ overrun ∷ []
unfolding write
overruns = refl

rounds_request : align_up 3 5 ≡ 8
unfolding align_up
rounds_request = refl

write_all_contents_example :
    (get_or (write_all ring words).buf ((12 + 4) % 2 ^ 4) 0
      ≡ (if ltb 4 (length words) then get_or words 4 0 else get_or ring.buf ((12 + 4) % 2 ^ 4) 0))
    × ((write_all ring words).wptr ≡ (12 + length words) % 2 ^ 4)
write_all_contents_example = write_all_contents ring words 4 ring-Shape (omega arith) (omega arith)

write_multiple-eq-write_all_example : write_multiple ring words ≡ write_all ring words
write_multiple-eq-write_all_example =
    write_multiple-eq-write_all ring words 8 ring-Shape (omega arith) refl (omega arith)

alloc_outcome_example :
    let m = round_up (2 ^ 2) 17 in
    ((m ≤ 16) × (alloc ring 17 ≡ (ok, reserved ring m)))
    ⊎ ((16 < m) × (alloc ring 17 ≡ (err enomem, ring)))
alloc_outcome_example = alloc_outcome ring 17 ring-Shape (omega arith)

submission_example :
    let c = commit (write_all (alloc ring 6).1 words) in
    let nops = replicate {A = ℕ} (round_up (2 ^ 2) (length words) - length words) 99 in
    (c.log ≡ note true end_use (set_wptr (c.wptr % u32_mod) ∷ note true begin_use []))
    × (c.count_dw ≡ pos (round_up (2 ^ 2) 6 - round_up (2 ^ 2) (length words)))
    × (c.wptr % 2 ^ 2 ≡ 0)
    × (c.buf ≡ (write_all ring (words ++ nops)).buf)
    × (c.wptr ≡ (12 + round_up (2 ^ 2) (length words)) % 2 ^ 4)
unfolding round_up
submission_example =
    submission ring 6 words ring-Shape refl (omega arith) (omega arith) (omega arith)

abbrev jobs : ℕ → ℕ
jobs p = if p == 3 then 1 else 0

abbrev busy : Prio
busy = record {
  has_set_priority = true;
  num_jobs = λ p. pos (jobs p);
  priority = 3;
  calls = 3 ∷ [];
}

busy-IsPrio : IsPrio jobs busy
busy-IsPrio = record {
  counts = λ p. refl;
  at_least = omega arith;
  covers = λ p b. ground arith;
  needed = inr (omega arith);
}

abbrev ib : Ib
ib = record { ptr = 7 ∷ 7 ∷ 7 ∷ 7 ∷ 7 ∷ 7 ∷ 7 ∷ 7 ∷ []; length_dw = 5 }

generic_pad_ib_total_example :
    (out : Ib) × (generic_pad_ib 4 (low_mask 2) 99 ib ≡ some out)
    × (out.length_dw ≡ round_up (2 ^ 2) 5)
    × ((j : ℕ)
        → get_or out.ptr j 0
          ≡ (if leb 5 j && ltb j (round_up (2 ^ 2) 5) then 99 else get_or ib.ptr j 0))
unfolding round_up
generic_pad_ib_total_example = generic_pad_ib_total 4 2 99 ib (omega arith) (omega arith)
