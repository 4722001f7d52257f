-- ===== src/Tasks.antt =====
-- The tasks that end with a media file: recordings (src/tirtc/_core.py, and
-- src/tirtc/storage/__init__.py for a replay) and exports (src/tirtc/storage/__init__.py).
pub mod Media
pub mod Recording
pub mod Export
