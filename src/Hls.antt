-- ===== src/Hls.antt =====
-- The directory protocol/hls/: segments of a stream for HTTP Live Streaming.
pub mod Align
pub mod AudioCache
pub mod TsCache
pub mod Status
pub mod Livego
pub mod Source
pub mod Server
mod Tests
