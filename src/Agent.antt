-- ===== src/Agent.antt =====
-- The agent (agent/logline_agent): its client of the server, the watcher of marker files, and the
-- segments that ship a file.
pub mod Client
pub mod Connect
pub mod Attempts
pub mod Files
pub mod Main
pub mod OwnLog
pub mod Found
pub mod Watched
pub mod Lags
pub mod Rounds
pub mod Masked
pub mod Telemetry
pub mod Secrets
pub mod Markers
pub mod Patterns
pub mod Network
pub mod Segment
pub mod Mirror
pub mod Copy
pub mod Ships
pub mod Coordinator
pub mod Waiting
pub mod Rotation
pub mod Tracking
pub mod Lifetime
pub mod Hashes
mod Tests
mod Examples
mod Started
