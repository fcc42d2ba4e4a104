-- ===== src/Metadata.antt =====
-- internal/mds/metadata: the records that the metadata service keeps. Go's string types stay
-- texts, since a field may hold any string; int64 and int are integers; a `time.Time` is the
-- number of nanoseconds since the zero time; a pointer to a value is an `Option`; a nil map reads
-- as an empty one.
pub mod Inode
pub mod Object
pub mod Chunk
pub mod Replica
pub mod Plan
