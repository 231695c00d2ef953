-- ===== src/Examples.antt =====
-- Runs of the program's functions on concrete inputs, and the theorems at such inputs.
mod Wire
mod Settings
mod Files
mod Source
mod Runs
