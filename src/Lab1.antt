-- ===== src/Lab1.antt =====
-- The first version of the clipboard (lab1): system calls of the kernel, and the programs of its user.
pub mod Kernel
pub mod User
