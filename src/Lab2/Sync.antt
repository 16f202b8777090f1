-- ===== src/Lab2/Sync.antt =====
-- The three solutions of the readers-writers problem of lab2/KboardModule.c, one of which the
-- constant SYNC_SOLUTION selects.
pub mod Semaphores
pub mod System
pub mod Switch
pub mod Living
pub mod Schedule
pub mod Alone
pub mod Solution1
pub mod Solution2
pub mod Solution3
