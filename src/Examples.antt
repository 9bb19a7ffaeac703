-- ===== src/Examples.antt =====
-- The theorems at concrete inputs.
pub mod Memory
pub mod Blocks
pub mod Copies
mod Directories
mod Lookups
mod Mounts
mod Merges
mod Links
pub mod Table
mod Names
