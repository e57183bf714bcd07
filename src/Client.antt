-- ===== src/Client.antt =====
-- The client's components: client/src.
pub mod Receiver
pub mod Handshake
pub mod Files
pub mod Cache
pub mod Manager
pub mod Fetch
pub mod RakNet
pub mod Runtime
