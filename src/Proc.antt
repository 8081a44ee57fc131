-- ===== src/Proc.antt =====
-- proc.c: processes and their scheduling.
pub mod Access
pub mod Laws
pub mod Tally
pub mod Quiet
pub mod Services
pub mod Wakeup
pub mod Create
pub mod Switch
pub mod Finish
pub mod Classes
pub mod Choose
pub mod Scheduler
