-- ===== src/Service.antt =====
-- src/socket_services: clients and servers, what they keep track of, and how they route connections.
pub mod Events
pub mod Tracking
pub mod Routing
pub mod Outcomes
pub mod Client
pub mod Server
pub mod Once
mod Tests
