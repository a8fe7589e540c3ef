-- ===== src/Ctx/Tests.antt =====
-- A ring of two fences that gets three.
use loongson_gsgpu_dkms_modu.Base.{
  ℕ, ◌≡◌, refl, Bool, true, false, Option, none, some, [], ◌∷◌, arith, is_some,
}
use loongson_gsgpu_dkms_modu.Ctx.{
  CtxRing, ring_init, Added, is_bug, add_fence, wait_prev_fence, get_fence, Ctx, Device, got,
}
use loongson_gsgpu_dkms_modu.Ctx.History.{
  Log, log_add, Reached, get_fence_history, add_fence-wait_prev_fence, start, grow,
}

abbrev all_signaled : ℕ → Bool
all_signaled f = true

abbrev ring_of : ℕ → Option ℕ → Option ℕ → CtxRing
ring_of n a b = record { sequence = n; fences = a ∷ b ∷ [] }

abbrev added : CtxRing → ℕ → Option ℕ → Added
added c n old = record { ring = c; handler = n; dropped = old }

abbrev log_of_three : Log
log_of_three = log_add (log_add (log_add (λ s. none) 1 7) 2 8) 3 9

reached : Reached 1 (ring_of 4 (some 8) (some 9)) log_of_three
unfolding ring_init add_fence is_bug
reached =
    grow (ring_of 3 (some 8) (some 7)) (log_add (log_add (λ s. none) 1 7) 2 8) all_signaled 9
      (added (ring_of 4 (some 8) (some 9)) 3 (some 7))
      (grow (ring_of 2 none (some 7)) (log_add (λ s. none) 1 7) all_signaled 8
        (added (ring_of 3 (some 8) (some 7)) 2 none)
        (grow (ring_of 1 none none) (λ s. none) all_signaled 7
          (added (ring_of 2 none (some 7)) 1 none) start refl (omega arith))
        refl (omega arith))
      refl (omega arith)

get_fence_history_example : get_fence 1 (ring_of 4 (some 8) (some 9)) 2 ≡ got (some 8)
get_fence_history_example =
    get_fence_history 1 (ring_of 4 (some 8) (some 9)) log_of_three 2 (omega arith) reached

add_fence-wait_prev_fence_example :
    is_some (add_fence 1 all_signaled (ring_of 4 (some 8) (some 9)) 10) ≡ true
unfolding wait_prev_fence
add_fence-wait_prev_fence_example =
    add_fence-wait_prev_fence 1 all_signaled (λ f. none) (ring_of 4 (some 8) (some 9)) 10
      (λ f e. refl) refl

abbrev dev : Device
dev = record { gpu_reset_counter = 2; vram_losses = 0 }

abbrev before_reset : Ctx
before_reset = record {
  reset_counter = 1;
  reset_counter_query = 1;
  vram_lost_counter = 0;
  guilty = false;
}
