-- ===== src/Connection.antt =====
-- src/socket_connection: what a service does with one connection.
pub mod Sending
pub mod Addresses
pub mod PeerState
pub mod Connecting
pub mod Listener
pub mod Handler
pub mod Serving
mod Tests
