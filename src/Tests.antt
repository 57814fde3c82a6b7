-- ===== src/Tests.antt =====
-- Runs of the theorems on small data.
mod Allocation
mod Caches
mod Data
mod Files
mod Journals
mod OpenedFiles
mod Paths
mod Segments
mod Structures
mod Nodes
mod Directories
