-- ===== src/Dialog.antt =====
-- src/socket_connection/socket_dialog: the dialog loops, which turn the bytes of a connection into
-- messages for the local processor, and local messages into bytes.
pub mod Context
pub mod Textual
pub mod Pieces
pub mod Prefix
pub mod Serialized
pub mod Mmap
mod Tests
