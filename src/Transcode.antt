-- ===== src/Transcode.antt =====
-- src/transcode.rs: the runtime that admits ffmpeg transcodes.
pub mod Admission
pub mod Generation
pub mod Tests
