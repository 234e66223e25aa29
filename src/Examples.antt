-- ===== src/Examples.antt =====
-- The theorems at concrete inputs: a store in memory, a layout of the inode record with one number for
-- each field, a file of three bytes in chunks of four, directories, logs and mounts.
pub mod Layout
pub mod Files
pub mod Directories
pub mod Modes
pub mod Tiered
pub mod Names
pub mod Closed
pub mod Outward
pub mod Agents
pub mod Mounted
