-- ===== src/Ctx/Resets.antt =====
-- Priorities of contexts, and what a process learns of resets.
use loongson_gsgpu_dkms_modu.Base.{◌≡◌, ◌↔◌, ◌⊎◌, Bool, true, false, arith, ok}
use loongson_gsgpu_dkms_modu.Ctx.{
  Asked, to_sched_priority, at_most_normal, is_out, priority_permit, asked_priority, init_check,
  Ctx, Device, query, query2,
}

-- A process may have a context of the priority it asked for exactly where it did not ask for `UNSET`
-- and either the priority is at most normal, or the process has CAP_SYS_NICE, or it is the master.
pub init_check_iff :
    (nice master : Bool) (a : Asked)
    → (init_check nice master (asked_priority a) ≡ ok) ↔ (
        (is_out (asked_priority a) ≡ false)
        × ((at_most_normal (asked_priority a) ≡ true) ⊎ ((nice ≡ true) ⊎ (master ≡ true))))
unfolding init_check priority_permit to_sched_priority
init_check_iff nice master a = ground arith

-- A reset since the last query is reported, and once only: with no reset in between, the next query
-- reports none, while `gsgpu_ctx_query2` still tells of every reset since the context was made.
query-query :
    (dev : Device) (c : Ctx)
    → (((query dev c).0 ≡ false) ↔ (c.reset_counter_query ≡ dev.gpu_reset_counter))
      × ((query dev (query dev c).1).0 ≡ false)
      × (query2 dev (query dev c).1 ≡ query2 dev c)
unfolding query query2
query-query dev c = ground arith
