-- ===== src/User.antt =====
-- The user programs and the user library. A string is the list of its bytes, up to its NUL.
pub mod Grep
pub mod Printf
pub mod Library
pub mod Shell
