-- ===== src/Tests.antt =====
-- Runs of the models on concrete inputs, and the theorems at such inputs.
mod Sync
mod Interleaved
mod Clipboard
mod Kboard
mod Module
mod Requests
