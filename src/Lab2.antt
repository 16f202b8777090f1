-- ===== src/Lab2.antt =====
-- The second version of the clipboard (lab2): a kernel module behind files of /proc, shared by
-- readers and writers, and the program that exercises it.
pub mod Sync
pub mod Kboard
pub mod Proc
pub mod Module
pub mod Requests
pub mod Interleaved
pub mod SyncTest
