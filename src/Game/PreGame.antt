-- ===== src/Game/PreGame.antt =====
-- examples/composite_protocol_stacking_common/protocol_model.rs and the processors of
-- composite_protocol_stacking_server and composite_protocol_stacking_client: the protocol before the game,
-- which settles the version and the configuration.
use reactive_messaging.Prelude.{
  ℕ, ◌≡◌, refl, arith, Bool, true, false, Option, none, some, ◌==◌, if◌then◌else◌,
}
use reactive_messaging.Game.Models.{MatchConfig}
use reactive_messaging.Game.Events.{ourself, opponent}
use reactive_messaging.Game.Umpire.{Umpire, new}
use reactive_messaging.Game.Mirror.{mirror}

pub data ProtocolStates : Type 0 where
  pre_game : ProtocolStates
  disconnect : ProtocolStates
  game : ProtocolStates

pub data PreGameClientError : Type 0 where
  slot_not_initialized : PreGameClientError
  client_parsing_error : PreGameClientError
  client_internal_error : PreGameClientError
  client_incompatible_protocols : PreGameClientError

pub data PreGameServerError : Type 0 where
  server_parsing_error : PreGameServerError
  aborting_due_to_peer_error : PreGameServerError
  server_internal_error : PreGameServerError
  server_incompatible_protocols : PreGameServerError

pub data PreGameClientMessages (Number : Type 0) : Type 0 where
  client_version : ℕ → PreGameClientMessages Number
  config : MatchConfig Number → PreGameClientMessages Number
  client_error : PreGameClientError → PreGameClientMessages Number

pub data PreGameServerMessages : Type 0 where
  server_version : ℕ → PreGameServerMessages
  server_error : PreGameServerError → PreGameServerMessages

-- The session of a peer on the server, and the state that is set on the peer.
pub record Session (Number : Type 0) : Type 0 where
  pub umpire : Option (Umpire Number)
  pub state : ProtocolStates

module _ {Number : Type 0} (protocol_version : ℕ) where
  -- The server's `pre_game_dialog_processor()`, on a message. It stops after an error, or with no answer.
  unfoldable pub server_pre_game :
      PreGameClientMessages Number → Session Number → Option PreGameServerMessages × Session Number
  unfolding new
  server_pre_game (client_version client_protocol_version) session =
      if client_protocol_version == protocol_version
      then (some (server_version protocol_version), session)
      else ((
        some (server_error server_incompatible_protocols),
        record session { state = disconnect },
      ))
  server_pre_game (config match_config) session =
      (none, record { umpire = some (new match_config opponent); state = game })
  server_pre_game (client_error err) session =
      (some (server_error aborting_due_to_peer_error), record session { state = disconnect })

  -- The client's, which takes one message, with the configuration that it was built with.
  unfoldable pub client_pre_game :
      MatchConfig Number → PreGameServerMessages → PreGameClientMessages Number × ProtocolStates
  client_pre_game match_config (server_version server_protocol_version) =
      if server_protocol_version == protocol_version
      then (config match_config, game)
      else (client_error client_incompatible_protocols, disconnect)
  client_pre_game match_config (server_error err) = (client_error client_parsing_error, disconnect)

  -- The first message of a client, on the arrival of its peer.
  abbrev pub greeting : PreGameClientMessages Number
  greeting = client_version protocol_version

-- The session that the arrival of a peer makes.
abbrev pub new_session : {Number : Type 0} → Session Number
new_session = record { umpire = none; state = pre_game }

same_version : (a b : ℕ) → (a == b) ≡ true → (b == a) ≡ true
same_version a b e = ground arith

module _ {Number : Type 0} (client_protocol_version server_protocol_version : ℕ)
    (match_config : MatchConfig Number) where
  -- A server that stopped takes no more messages.
  abbrev and_stop :
      Option PreGameServerMessages × Session Number
      → (PreGameServerMessages → PreGameClientMessages Number × ProtocolStates)
      → ProtocolStates × Session Number
  and_stop (none, session) client = (pre_game, session)
  and_stop (some (server_error err), session) client =
      let (answer, state) = client (server_error err) in (state, session)
  and_stop (some (server_version version), session) client =
      let (answer, state) = client (server_version version) in
      let (reply, session') = server_pre_game server_protocol_version answer session in
      (state, session')

  -- The whole talk before a game: the client's state, and the server's session.
  unfoldable pub hand_shake : ProtocolStates × Session Number
  unfolding server_pre_game client_pre_game
  hand_shake =
      and_stop
        (server_pre_game server_protocol_version (greeting client_protocol_version) new_session)
        (client_pre_game client_protocol_version match_config)

  -- Both play, with the two umpires of one match, or neither does.
  abbrev pub settled : Bool → ProtocolStates × Session Number
  settled true = (game, record { umpire = some (mirror (new match_config ourself)); state = game })
  settled false = (disconnect, record { umpire = none; state = disconnect })

  by_version :
      (b : Bool) → (client_protocol_version == server_protocol_version) ≡ b → hand_shake ≡ settled b
  unfolding hand_shake server_pre_game client_pre_game new
  by_version true e =
      rw e (rw (same_version client_protocol_version server_protocol_version e) refl)
  by_version false e = rw e refl

  -- After the talk before a game, a client and a server of the same protocol version both go on to the
  -- game, the server with the umpire who sees the match of the client's from the other side; of different
  -- versions, both go on to disconnect, and there is no umpire.
  pub hand_shake_settles : hand_shake ≡ settled (client_protocol_version == server_protocol_version)
  hand_shake_settles = by_version (client_protocol_version == server_protocol_version) refl
