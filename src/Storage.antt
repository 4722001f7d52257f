-- ===== src/Storage.antt =====
-- src/tirtc/storage/__init__.py: cloud storage, in the parts that are no task with a media file.
pub mod Values
pub mod Replay
pub mod Requests
pub mod Cloud
