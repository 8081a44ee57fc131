-- ===== src/Kernel.antt =====
-- The kernel's state and the monad that its code runs in (proc.h; the globals of proc.c, trap.c).
pub mod State
pub mod Monad
pub mod Returns
