-- ===== src/Link.antt =====
-- The agent's segments on the server's own code: the connection between client.py and main.py.
pub mod Triple
pub mod Content
pub mod Renames
pub mod Decoded
pub mod Frames
pub mod Served
pub mod Line
pub mod Copies
pub mod Delivery
pub mod Whole
pub mod Hello
pub mod Greeting
mod Tests
