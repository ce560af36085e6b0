-- ===== src/Game/ServerMessages.antt =====
-- examples/composite_protocol_stacking_common/protocol_model.rs: what a server says in the game.
use reactive_messaging.Game.Models.{MatchConfig}
use reactive_messaging.Game.Events.{PingPongEvent}

pub data GameServerError : Type 0 where
  textual_protocol_processor_parsing_error : GameServerError
  internal_processor_error : GameServerError

pub data GameServerMessages (Number : Type 0) : Type 0 where
  game_started : GameServerMessages Number
  match_config : MatchConfig Number → GameServerMessages Number
  ping_pong_event : PingPongEvent Number → GameServerMessages Number
  error : GameServerError → GameServerMessages Number
  good_bye : GameServerMessages Number
  server_shutdown : GameServerMessages Number
