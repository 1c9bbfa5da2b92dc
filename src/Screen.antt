-- ===== src/Screen.antt =====
-- kernel/src/terminal and kernel/src/libk/printf.c: what the kernel shows.
pub mod Framebuffer
pub mod Terminal
pub mod Printf
