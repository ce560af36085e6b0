-- ===== src/Game/Table.antt =====
-- The game's processors of examples/composite_protocol_stacking_server/server_protocol_processor.rs and
-- examples/composite_protocol_stacking_client/client_protocol_processor.rs, at the two ends of one
-- connection: messages arrive in the order in which they are sent, after any time.
mod Sound
mod Steps
pub mod Peace
use reactive_messaging.Prelude.{
  ℕ, List, [], ◌∷◌, ◌++◌, Bool, true, false, Option, none, some, Eval, done, panic, if◌then◌else◌,
}
use reactive_messaging.Game.Models.{MatchConfig}
use reactive_messaging.Game.Events.{ourself, opponent}
use reactive_messaging.Game.Umpire.{Umpire, new}
use reactive_messaging.Game.ClientMessages as ClientMessages
use reactive_messaging.Game.ClientMessages.{
  GameClientMessages, endorsed_score, contested_score, dump_config, quit,
}
use reactive_messaging.Game.ServerMessages as ServerMessages
use reactive_messaging.Game.ServerMessages.{
  GameServerMessages, game_started, match_config, good_bye, server_shutdown,
}
use reactive_messaging.Game.Dialogs.{Answered, server_answer, client_answer}
use reactive_messaging.Game.Reactions.{Chance}

-- The items after which the responsive streams stop: the server's,
abbrev pub server_stops : {Number : Type 0} → GameServerMessages Number → Bool
server_stops game_started = false
server_stops (match_config config) = false
server_stops (ServerMessages.ping_pong_event event) = false
server_stops (ServerMessages.error err) = false
server_stops good_bye = true
server_stops server_shutdown = false

-- and the client's.
abbrev pub client_stops : {Number : Type 0} → GameClientMessages Number → Bool
client_stops (ClientMessages.ping_pong_event event) = false
client_stops endorsed_score = false
client_stops (contested_score score) = false
client_stops dump_config = false
client_stops (ClientMessages.error err) = true
client_stops quit = true

-- The messages on which the client closes its peer.
abbrev pub client_closes : {Number : Type 0} → GameServerMessages Number → Bool
client_closes game_started = false
client_closes (match_config config) = false
client_closes (ServerMessages.ping_pong_event event) = false
client_closes (ServerMessages.error err) = false
client_closes good_bye = true
client_closes server_shutdown = true

-- The server closes on none.
abbrev pub server_closes : {Number : Type 0} → GameClientMessages Number → Bool
server_closes message = false

-- One end: the umpire, the numbers to come, whether the dialog goes on, and the messages that are on their
-- way to it.
pub record Side (Incoming Number Source : Type 0) : Type 0 where
  pub umpire : Umpire Number
  pub source : Source
  pub listening : Bool
  pub inbox : List Incoming

-- What is sent, and whether the stream goes on: up to an item that stops it, that one included.
abbrev pub until_stop : {A : Type 0} → (A → Bool) → List A → List A × Bool
until_stop stops [] = ([], true)
until_stop stops (message ∷ more) =
    let rest = until_stop stops more in
    if stops message then (message ∷ [], false) else (message ∷ rest.0, rest.1)

-- `none` is a service that outlasted its fuel.
infixl 5 ◌>>=?◌
abbrev pub ◌>>=?◌ : {A B : Type 0} → Eval (Option A) → (A → Eval (Option B)) → Eval (Option B)
panic >>=? f = panic
done none >>=? f = done none
done (some a) >>=? f = f a

module _ {Incoming Outgoing Number Source : Type 0} (stops : Outgoing → Bool)
    (closes : Incoming → Bool)
    (answer : Incoming
      → Umpire Number
      → Source
      → Eval (Option (Answered Outgoing Number Source))) where
  abbrev answered :
      Bool
      → List Incoming
      → Answered Outgoing Number Source
      → List Outgoing × Side Incoming Number Source
  answered closed rest a =
      let (said, goes_on) = until_stop stops a.messages in
      (
        said,
        record {
          umpire = a.umpire;
          source = a.source;
          listening = if closed then false else goes_on;
          inbox = rest;
        },
      )

  -- A dialog that goes on takes the next message that is there, and says something.
  abbrev hear_next :
      Bool
      → List Incoming
      → Side Incoming Number Source
      → Eval (Option (List Outgoing × Side Incoming Number Source))
  hear_next false inbox side = done (some ([], side))
  hear_next true [] side = done (some ([], side))
  hear_next true (message ∷ rest) side = answer message side.umpire side.source >>=? λ a.
      done (some (answered (closes message) rest a))

  unfoldable pub hear :
      Side Incoming Number Source → Eval (Option (List Outgoing × Side Incoming Number Source))
  hear side = hear_next side.listening side.inbox side

pub record Table (Number Source : Type 0) : Type 0 where
  pub client : Side (GameServerMessages Number) Number Source
  pub server : Side (GameClientMessages Number) Number Source

-- Whose dialog is the next to look at its messages.
pub data Hearer : Type 0 where
  client_hears : Hearer
  server_hears : Hearer

module _ {Number Source : Type 0} (chance : Chance Number Source) (fuel : ℕ) where
  unfoldable pub hears : Hearer → Table Number Source → Eval (Option (Table Number Source))
  unfolding hear
  hears client_hears t =
      hear client_stops client_closes (client_answer chance fuel) t.client >>=? λ (said, client).
      done (
        some
          (record { client = client; server = record t.server { inbox = t.server.inbox ++ said } }))
  hears server_hears t =
      hear server_stops server_closes (server_answer chance fuel) t.server >>=? λ (said, server).
      done (
        some
          (record { client = record t.client { inbox = t.client.inbox ++ said }; server = server }))

  -- The two dialogs, in the order in which they get to run.
  unfoldable pub game_run : List Hearer → Table Number Source → Eval (Option (Table Number Source))
  game_run [] t = done (some t)
  game_run (hearer ∷ more) t = hears hearer t >>=? game_run more

module _ {Number Source : Type 0} where
  -- The arrival of the peer in the game makes the server say that it started.
  unfoldable pub kick_off : MatchConfig Number → Source → Source → Table Number Source
  unfolding new
  kick_off config client_source server_source = record {
    client = record {
      umpire = new config ourself;
      source = client_source;
      listening = true;
      inbox = game_started ∷ [];
    };
    server = record {
      umpire = new config opponent;
      source = server_source;
      listening = true;
      inbox = [];
    };
  }
