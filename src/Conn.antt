-- ===== src/Conn.antt =====
-- conn.go: the connection. `Output` is the side that writes, `Input` the side that reads.
pub mod Output
pub mod Input
pub mod Samples
pub mod Reading
pub mod Session
