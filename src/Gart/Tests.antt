-- ===== src/Gart/Tests.antt =====
-- Two pages at the place 3 of an aperture in which a page of the CPU has two entries.
use loongson_gsgpu_dkms_modu.Base.{ℕ, ◌≡◌, refl, inl, true, false, Option, none, some, arith, ok}
use loongson_gsgpu_dkms_modu.Gart.Bind.{Filled, bind_outcome}
use loongson_gsgpu_dkms_modu.Gart.Backend.{
  Tt, Clean, backend_bind, backend_unbind, backend_unbind-backend_bind,
}
use loongson_gsgpu_dkms_modu.Gart.{Gart, fill_page, bind}

abbrev table : ℕ → ℕ
table j = 100

abbrev gart : Gart
gart = record {
  ready = true;
  table = some table;
  dummy_page_addr = 65536;
  gpu_pages = 2;
  flushes = 0;
}

abbrev dma : ℕ → ℕ
dma m = 1048576

bind_outcome_example : Filled gart 98304 2 dma 9 table (bind gart 98304 2 dma 9)
bind_outcome_example =
    bind_outcome gart 98304 2 dma 9 table refl refl (omega arith) (λ m. omega arith)

abbrev pages : Tt
pages = record { userptr = true; pinned = false; num_pages = 2; offset = none }

backend_unbind-backend_bind_example : Clean gart 2 (some 3) (
    backend_unbind
      (backend_bind (some 3) dma 9 gart ok pages).1
      (backend_bind (some 3) dma 9 gart ok pages).2)
backend_unbind-backend_bind_example =
    backend_unbind-backend_bind ok (some 3) dma 9 gart pages (λ y. refl) (inl refl) (omega arith)

abbrev entry_at : ℕ → Option (ℕ → ℕ) → ℕ
entry_at j none = 0
entry_at j (some f) = f j

-- The second half of the first page, with the flags.
second_half : entry_at 7 (bind gart 98304 2 dma 9).1.table ≡ 1064969
unfolding bind fill_page
second_half = refl

-- Where the GART is not ready the pages stay pinned.
stay_pinned : (backend_bind (some 3) dma 9 (record gart { ready = false }) ok pages).2.pinned ≡ true
unfolding backend_bind
stay_pinned = refl
