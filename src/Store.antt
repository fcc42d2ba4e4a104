-- ===== src/Store.antt =====
-- internal/mds/store: the in-memory repository.
pub mod State
pub mod Frames
pub mod Requests
pub mod Select
pub mod Inode
pub mod File
pub mod Chunk
pub mod Upload
pub mod Node
pub mod Plan
pub mod Tx
pub mod Fixtures
