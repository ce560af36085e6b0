-- ===== src/Game/ClientMessages.antt =====
-- examples/composite_protocol_stacking_common/protocol_model.rs: what a client says in the game.
use reactive_messaging.Game.Models.{MatchScore}
use reactive_messaging.Game.Events.{PingPongEvent}

pub data GameClientError : Type 0 where
  textual_protocol_processor_parsing_error : GameClientError
  internal_processor_error : GameClientError

pub data GameClientMessages (Number : Type 0) : Type 0 where
  ping_pong_event : PingPongEvent Number → GameClientMessages Number
  endorsed_score : GameClientMessages Number
  contested_score : MatchScore → GameClientMessages Number
  dump_config : GameClientMessages Number
  error : GameClientError → GameClientMessages Number
  quit : GameClientMessages Number
