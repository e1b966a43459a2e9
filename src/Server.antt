-- ===== src/Server.antt =====
-- The server (server/logline_server): one client connection from the handshake to its end.
pub mod World
pub mod Telemetry
pub mod Stream
pub mod Command
pub mod Paths
pub mod Segments
pub mod Auth
pub mod Rename
pub mod Append
pub mod Serve
pub mod Handle
pub mod Main
pub mod Secure
pub mod Quiet
pub mod Accept
pub mod SameDisk
pub mod Appending
pub mod Allows
pub mod Accounting
pub mod Silent
pub mod Admission
pub mod Confinement
pub mod Mangled
pub mod Termination
pub mod Renaming
mod Tests
mod Started
