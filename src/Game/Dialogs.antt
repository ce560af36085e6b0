-- ===== src/Game/Dialogs.antt =====
-- examples/composite_protocol_stacking_server/server_protocol_processor.rs and
-- examples/composite_protocol_stacking_client/client_protocol_processor.rs: what the game's processors
-- answer to a message.
use reactive_messaging.Prelude.{
  ℕ, List, [], ◌∷◌, Bool, true, false, Option, none, some, Eval, done, ◌>>=◌, if◌then◌else◌,
}
use reactive_messaging.Game.Models.{
  TurnFlipEvents, successful_service, soft_fault_service, successful_rebate, gracefully_ended,
  game_cancelled, GameStates, waiting_for_service, rally, game_over,
}
use reactive_messaging.Game.Events as Events
use reactive_messaging.Game.Events.{
  Players, ourself, opponent, PingPongEvent, turn_flip, hard_fault, soft_fault,
}
use reactive_messaging.Game.ClientMessages.{
  GameClientMessages, endorsed_score, contested_score, dump_config, quit,
}
use reactive_messaging.Game.ClientMessages as ClientMessages
use reactive_messaging.Game.ServerMessages.{
  GameServerMessages, game_started, match_config, good_bye, server_shutdown,
}
use reactive_messaging.Game.ServerMessages as ServerMessages
use reactive_messaging.Game.Umpire.{Umpire, same_player}
use reactive_messaging.Game.Reactions.{
  Chance, Reacted, take_turn, react_to_rally_event, react_to_hard_fault,
  react_to_service_soft_fault, react_to_score,
}

abbrev is_waiting_for_service : {Number : Type 0} → GameStates Number → Bool
is_waiting_for_service (waiting_for_service attempt) = true
is_waiting_for_service rally = false
is_waiting_for_service (game_over over) = false

abbrev is_rally : {Number : Type 0} → GameStates Number → Bool
is_rally (waiting_for_service attempt) = false
is_rally rally = true
is_rally (game_over over) = false

abbrev is_service_or_rally : {Number : Type 0} → GameStates Number → Bool
is_service_or_rally (waiting_for_service attempt) = true
is_service_or_rally rally = true
is_service_or_rally (game_over over) = false

-- The states that a reported flip is taken to come from: in the server,
abbrev pub server_matcher : {Number : Type 0} → TurnFlipEvents → GameStates Number → Bool
server_matcher successful_service state = is_waiting_for_service state
server_matcher soft_fault_service state = is_service_or_rally state
server_matcher successful_rebate state = is_rally state

-- and in the client.
abbrev pub client_matcher : {Number : Type 0} → TurnFlipEvents → GameStates Number → Bool
client_matcher successful_service state = is_waiting_for_service state
client_matcher soft_fault_service state = is_waiting_for_service state
client_matcher successful_rebate state = is_rally state

-- The messages in answer, with the umpire and the source of numbers that are left.
pub record Answered (Message Number Source : Type 0) : Type 0 where
  pub messages : List Message
  pub umpire : Umpire Number
  pub source : Source

abbrev pub map_events :
    {Message Number : Type 0}
    → (PingPongEvent Number → Message)
    → List (PingPongEvent Number)
    → List Message
map_events f [] = []
map_events f (event ∷ events) = f event ∷ map_events f events

module _ {Message Number Source : Type 0} (message : PingPongEvent Number → Message) where
  abbrev pub to_answer : Reacted Number Source → Answered Message Number Source
  to_answer r = record {
    messages = map_events message r.events;
    umpire = r.umpire;
    source = r.source;
  }

  abbrev pub answer_all : Option (Reacted Number Source) → Option (Answered Message Number Source)
  answer_all none = none
  answer_all (some r) = some (to_answer r)

abbrev pub saying :
    {Message Number Source : Type 0}
    → List Message
    → Umpire Number
    → Source
    → Eval (Option (Answered Message Number Source))
saying messages umpire source =
    done (some (record { messages = messages; umpire = umpire; source = source }))

module _ {Number Source : Type 0} (chance : Chance Number Source) (fuel : ℕ) where
  -- The server, on an event of the game.
  unfoldable pub server_on_event :
      PingPongEvent Number
      → Umpire Number
      → Source
      → Eval (Option (Answered (GameServerMessages Number) Number Source))
  server_on_event (turn_flip opponent_action resulting_event) umpire source =
      react_to_rally_event chance umpire (server_matcher resulting_event) opponent_action
        resulting_event source
      >>= λ r. done (some (to_answer ServerMessages.ping_pong_event r))
  server_on_event (hard_fault opponent_action fault) umpire source =
      react_to_hard_fault chance fuel umpire opponent_action fault source >>= λ r.
      done (answer_all ServerMessages.ping_pong_event r)
  server_on_event (soft_fault opponent_action fault) umpire source =
      react_to_service_soft_fault chance umpire opponent_action fault source >>= λ r.
      done (some (to_answer ServerMessages.ping_pong_event r))
  server_on_event (Events.score point_winning_player last_player_action last_fault) umpire source =
      let reaction = react_to_score chance fuel umpire last_player_action last_fault source in
      if same_player point_winning_player opponent
      then (reaction >>= λ r. done (answer_all ServerMessages.ping_pong_event r))
      else saying (good_bye ∷ []) umpire source
  server_on_event (Events.game_over (gracefully_ended final_score action fault)) umpire source =
      saying (good_bye ∷ []) umpire source
  server_on_event (Events.game_over (game_cancelled partial_score rule)) umpire source =
      saying (good_bye ∷ []) umpire source

  -- The server's `game_dialog_processor()`, on a message.
  unfoldable pub server_answer :
      GameClientMessages Number
      → Umpire Number
      → Source
      → Eval (Option (Answered (GameServerMessages Number) Number Source))
  unfolding server_on_event
  server_answer (ClientMessages.ping_pong_event event) umpire source =
      server_on_event event umpire source
  server_answer (contested_score score) umpire source = saying (good_bye ∷ []) umpire source
  server_answer endorsed_score umpire source = saying (good_bye ∷ []) umpire source
  server_answer dump_config umpire source = saying (match_config umpire.config ∷ []) umpire source
  server_answer (ClientMessages.error err) umpire source = saying (good_bye ∷ []) umpire source
  server_answer quit umpire source = saying (good_bye ∷ []) umpire source

  -- The client, on an event of the game.
  unfoldable pub client_on_event :
      PingPongEvent Number
      → Umpire Number
      → Source
      → Eval (Option (Answered (GameClientMessages Number) Number Source))
  client_on_event (turn_flip opponent_action resulting_event) umpire source =
      react_to_rally_event chance umpire (client_matcher resulting_event) opponent_action
        resulting_event source
      >>= λ r. done (some (to_answer ClientMessages.ping_pong_event r))
  client_on_event (hard_fault opponent_action fault) umpire source =
      react_to_hard_fault chance fuel umpire opponent_action fault source >>= λ r.
      done (answer_all ClientMessages.ping_pong_event r)
  client_on_event (soft_fault opponent_action fault) umpire source =
      react_to_service_soft_fault chance umpire opponent_action fault source >>= λ r.
      done (some (to_answer ClientMessages.ping_pong_event r))
  client_on_event (Events.score point_winning_player last_player_action last_fault) umpire source =
      let reaction = react_to_score chance fuel umpire last_player_action last_fault source in
      if same_player point_winning_player opponent
      then (reaction >>= λ r. done (answer_all ClientMessages.ping_pong_event r))
      else saying (quit ∷ []) umpire source
  client_on_event (Events.game_over (gracefully_ended final_score action fault)) umpire source =
      saying (endorsed_score ∷ []) umpire source
  client_on_event (Events.game_over (game_cancelled partial_score rule)) umpire source =
      saying [] umpire source

  -- The client's `game_dialog_processor()`, on a message.
  unfoldable pub client_answer :
      GameServerMessages Number
      → Umpire Number
      → Source
      → Eval (Option (Answered (GameClientMessages Number) Number Source))
  unfolding client_on_event take_turn
  client_answer game_started umpire source = take_turn chance umpire source >>= λ r.
      done (some (to_answer ClientMessages.ping_pong_event r))
  client_answer (match_config config) umpire source = saying [] umpire source
  client_answer (ServerMessages.ping_pong_event event) umpire source =
      client_on_event event umpire source
  client_answer (ServerMessages.error err) umpire source = saying (quit ∷ []) umpire source
  client_answer good_bye umpire source = saying [] umpire source
  client_answer server_shutdown umpire source = saying [] umpire source
