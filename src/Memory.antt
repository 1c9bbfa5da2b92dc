-- ===== src/Memory.antt =====
-- kernel/src/memory: addresses, the page bitmap, physical pages and page tables.
pub mod Addr
pub mod Bitmap
pub mod Pmm
pub mod Paging
pub mod Spaces
pub mod Vmm
pub mod Cow
mod Tests
