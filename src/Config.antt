-- ===== src/Config.antt =====
-- src/config.rs: the configuration of a service and its packing into one `u64`.
pub mod Word
pub mod Strategies
pub mod Sockets
pub mod Forms
pub mod Const
mod Tests
