-- ===== src/Flv.antt =====
-- FLV packets and the headers of their media tags: container/flv/av.go, tag.go and demuxer.go.
pub mod Tag
pub mod Packet
pub mod Headers
mod Tests
