-- ===== src/Media.antt =====
-- src/api/media.rs: what the media endpoints compute from a request and a file.
pub mod Range
pub mod Names
pub mod Responses
pub mod Paths
pub mod Serving
pub mod Tests
