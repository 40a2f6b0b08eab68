-- ===== src/Utils.antt =====
-- utils/util.go: sequence numbers, the head of an FLV tag, big-endian bytes.
pub mod Seq
pub mod TagHead
mod Tests
