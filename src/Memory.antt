-- ===== src/Memory.antt =====
-- kernel/src/pmm.rs and kernel/src/heap.rs: physical pages, and the heap on top of them.
pub mod Pmm
pub mod Heap
