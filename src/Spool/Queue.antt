-- ===== src/Spool/Queue.antt =====
-- The operations of src/spool.cpp on the object and on its directory.
mod State
mod Reads
mod Writes
mod Releases
unfoldable pub use State.*
unfoldable pub use Reads.*
unfoldable pub use Writes.*
unfoldable pub use Releases.*
