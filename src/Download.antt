-- ===== src/Download.antt =====
-- yt-download.py: profiles, the queue of targets, and what diagnostics show of a command.
pub mod Profiles
pub mod Queue
pub mod Redaction
pub mod Report
