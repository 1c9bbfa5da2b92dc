-- ===== src/Libk.antt =====
-- kernel/src/libk: the kernel's own C library.
pub mod Alloc
pub mod Memutil
pub mod Strutil
