-- ===== src/Network.antt =====
-- Events from the network and to the core, and the requests for missing blocks.
pub mod Fetch
pub mod Events
pub mod Rpc
pub mod Client
pub mod Worker
pub mod Manager
