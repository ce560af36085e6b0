-- ===== src/Game.antt =====
-- examples/composite_protocol_stacking_common/logic: the ping-pong game of the examples.
pub mod Models
pub mod Events
pub mod Umpire
pub mod Mirror
pub mod Scores
pub mod Turns
pub mod Match
pub mod Views
pub mod Reactions
pub mod ClientMessages
pub mod ServerMessages
pub mod Dialogs
pub mod Batches
pub mod Honest
pub mod Accepted
pub mod Fairplay
pub mod Stall
pub mod PreGame
mod Tests
pub mod Sessions
pub mod Table
