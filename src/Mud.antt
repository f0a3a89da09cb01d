-- ===== src/Mud.antt =====
-- mud.go: the MUD protocols.
pub mod Msdp
pub mod Mcp
pub mod Mtts
pub mod Gmcp
pub mod Mssp
pub mod Send
pub mod Mccp
mod Tests
