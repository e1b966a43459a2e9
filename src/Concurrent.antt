-- ===== src/Concurrent.antt =====
-- Several connections of one server process: server/logline_server/main.py between its awaits.
pub mod Schedule
pub mod Confined
pub mod Bytes
pub mod Elsewhere
pub mod Own
pub mod Grown
pub mod Frames
mod Tests
