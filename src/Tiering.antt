-- ===== src/Tiering.antt =====
-- The parts of src/tiering: the change log, the index of segments, the agents, the paths of inodes, and
-- how a tiered file is written and found.
pub mod ChangeLog
pub mod Index
pub mod Agents
pub mod Paths
pub mod Inward
pub mod Outward
