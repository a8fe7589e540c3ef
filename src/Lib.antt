-- ===== src/Lib.antt =====
-- Model of the gsgpu kernel driver, Source/gsgpu-1.0.0/gsgpu. Each module is about one part of the
-- driver; paths below start at that directory, those in the other files at Source/gsgpu-1.0.0.
--
-- Base      numbers, lists, words and error codes that the parts share: a `uint32_t` is a natural
--           number whose operations reduce by 2 ^ 32 where the source may wrap.
-- Ring      gpu/gsgpu_ring.c and include/gsgpu_ring.h: a command ring. `alloc`, `write`,
--           `write_multiple`, `commit` and `undo` stand for the functions of these names with the
--           prefix gsgpu_ring_; `log` lists what they do to the hardware. Ring/Priority.antt is about
--           gsgpu_ring_priority_get and _put, Ring/Pad.antt about the padding of indirect buffers.
-- Fence     gpu/gsgpu_fence.c: `fence_emit` and `process` stand for gsgpu_fence_emit and
--           gsgpu_fence_process. A ring's `commit` sends what the fence's emission wrote.
-- Ih        gpu/gsgpu_ih.c: the ring of interrupts. `drain` is the loop of gsgpu_ih_process, whose
--           entries go to `dispatch` of Irq; the credits for faults are those of gsgpu_vm_pasid_fault_credit in
--           gpu/gsgpu_vm.c.
-- Irq       gpu/gsgpu_irq.c: the sources of interrupts, by name as in the source.
-- Sync      gpu/gsgpu_sync.c: the fences that a submission waits for, in a hash table.
-- BoList    gpu/gsgpu_bo_list.c: the lists of buffer objects of a submission.
-- Sa        gpu/gsgpu_sa.c: the sub-allocator from which indirect buffers are cut. Its list and hole
--           are two lists on either side of the hole; pieces wait for fences.
-- GttMgr    gpu/gsgpu_gtt_mgr.c: the pages and ranges of the GTT domain.
-- Gart      gpu/gsgpu_gart.c: the table behind the GART aperture; `bind`, `unbind` and `map` have the prefix
--           gsgpu_gart_ in the source. Gart/Backend.antt is about gsgpu_ttm_backend_bind and _unbind of
--           gpu/gsgpu_ttm.c.
-- VramMgr   gpu/gsgpu_vram_mgr.c: the ranges of VRAM that objects take, and the bytes in use.
-- Vm        gpu/gsgpu_vm.c: the mappings of an address space, in pages. `bo_map`, `bo_unmap`,
--           `replace_map` and `clear_mappings` stand for the functions of these names with the prefix
--           gsgpu_vm_ or gsgpu_vm_bo_; Vm/Cut.antt holds the last two, and Vm/Remove.antt the end of
--           a `bo_va`. The interval tree of the kernel is the record `IntervalTree`, with what it is documented to do.
-- PageTable gpu/gsgpu_vm.c: `update_ptes` is gsgpu_vm_update_ptes, which writes the entries for the
--           pages of a mapping, with gsgpu_vm_handle_huge_pages and gsgpu_vm_cpu_set_ptes.
-- Directory gpu/gsgpu_vm.c: the tree of page directories, with `alloc_levels`, `alloc_pts` and `get_entry` for
--           the functions of these names. The results of the allocations are an argument, in the order in
--           which they are asked for.
-- Split     gpu/gsgpu_vm.c: `split_mapping` is gsgpu_vm_bo_split_mapping (the version that is compiled),
--           which updates the page tables with one piece of contiguous memory after the other. Each turn
--           of its loop takes a unit of fuel: the number of pages is enough.
-- Vmid      gpu/gsgpu_ids.c: `grab` is gsgpu_vmid_grab, which chooses the VMID for a job by the sets of fences
--           of Sync; `grab_idle` and `grab_reserved` have the names of its helpers, and `grab_listed` joins
--           gsgpu_vmid_grab_used with the use of the idle VMID. Arrays of fences are made by the kernel.
-- Job       gpu/gsgpu_job.c: `dependency` is gsgpu_job_dependency. Its loop meets the kernel at one moment of a
--           list after the other: as many moments are enough as requests for a VMID fail, and one.
-- Ctx       gpu/gsgpu_ctx.c and gpu/gsgpu_sched.c: the fences that a context remembers for a ring, the
--           permission of priorities and the queries of resets.
-- Queue     gpu/gsgpu_queue_mgr.c and the least recently used rings of gpu/gsgpu_ring.c: the ring
--           behind the ring number of a process.
-- Ids       gpu/gsgpu_ids.c: PASIDs, and the reservation of VMIDs.
-- HwSema    gpu/gsgpu_hw_sema.c: the hardware semaphores and their ioctl.
--
-- A function that changes a structure returns the changed one, with its status where the source has
-- one. Each operation is one step, as the locks of the source make it. Fences, processes and objects
-- are addresses; whether a fence is signaled, what `drm_mm` and the allocator of memory answer and how
-- contexts are hashed are arguments, since that code is the kernel's.
--
-- Loops without a counter take a number of rounds and return `none` beyond it. The rounds that are
-- enough are part of the theorems: as many as the padding unit for `generic_pad_ib`, as many as there
-- are entries for `drain`, as many as sequence numbers have passed for `process`, sixteen for
-- `dc_handler`, twice the pieces that wait for a fence and two more for `hunt`, as many as there are pages
-- for `update_ptes`.
--
-- Not modelled: TTM, the scheduler and chash, which are copies of kernel code; the registers of the
-- engines and of the display; command parsing and the handles of contexts; the update of the page tables of
-- objects that have moved; debugging output.
pub mod Base
pub mod Ring
pub mod HwSema
pub mod Sa
pub mod Sync
pub mod BoList
pub mod GttMgr
pub mod Gart
pub mod VramMgr
pub mod Vm
pub mod Directory
pub mod PageTable
pub mod Split
pub mod Ih
pub mod Fence
pub mod Irq
pub mod Ids
pub mod Vmid
pub mod Job
pub mod Ctx
pub mod Queue
