-- ===== src/Cache.antt =====
-- The directory cache/: the queue of RTP packets, the record of the tag being put together, and the
-- initial segments of a stream.
pub mod ArrayList
pub mod Window
pub mod FlvRecord
pub mod Segments
pub mod Queue
