-- ===== src/Spool.antt =====
-- src/spool.cpp and include/ns/spool.hpp: the on-disk event queue.
pub mod Frame
pub mod Codec
pub mod StateFile
pub mod Queue
pub mod Opening
pub mod Reading
pub mod Layout
pub mod Peek
pub mod Invariant
pub mod Append
pub mod Evict
pub mod Bounds
pub mod Accept
pub mod Skip
pub mod Commit
pub mod Whole
pub mod Release
pub mod Crossing
pub mod Fresh
pub mod Wedge
pub mod Tests
