-- ===== src/HttpFlv.antt =====
-- The directory protocol/httpflv/: the clients of a stream over HTTP.
pub mod Writer
