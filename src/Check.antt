-- ===== src/Check.antt =====
-- build-check/check_build.py: the inspection of build artifacts.
pub mod Checks
pub mod Config
pub mod Policy
pub mod Detect
pub mod Symbols
pub mod Elf
pub mod Columns
pub mod Tally
pub mod Rows
pub mod Report
