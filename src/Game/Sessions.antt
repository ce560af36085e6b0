-- ===== src/Game/Sessions.antt =====
-- examples/composite_protocol_stacking_server/server_protocol_processor.rs: the sessions of the server's
-- peers, which the callbacks and the processors of the two protocols share.
pub mod Kept
use reactive_messaging.Prelude.{
  ℕ, ◌≡◌, Bool, true, false, List, [], ◌∷◌, Option, none, some, Eval, done, panic, ◌==◌,
  if◌then◌else◌,
}
use reactive_messaging.Service.Events.{
  ProtocolEvent, peer_arrived, peer_left, local_service_termination,
}
use reactive_messaging.Game.Umpire.{Umpire}
use reactive_messaging.Game.ServerMessages.{GameServerMessages, game_started}
use reactive_messaging.Game.PreGame.{
  ProtocolStates, pre_game, disconnect, game, PreGameClientMessages, Session, server_pre_game,
}

abbrev set : {A : Type 0} → ℕ → A → (ℕ → A) → ℕ → A
set key value map other = if other == key then value else map other

-- A session is there with its umpire, if the game was agreed on.
abbrev pub Sessions : Type 0 → Type 0
Sessions Number = ℕ → Option (Option (Umpire Number))

module _ {Number : Type 0} where
  -- The server's `pre_game_connection_events_handler()`.
  unfoldable pub pre_game_events : ProtocolEvent ℕ → Sessions Number → Sessions Number
  pre_game_events (peer_arrived id) sessions = set id (some none) sessions
  pre_game_events (peer_left id) sessions = sessions
  pre_game_events local_service_termination sessions = sessions

  -- The server's `game_connection_events_handler()`, where its message can be sent: the sessions, what is
  -- said to the peer, and the state that is set on it.
  unfoldable pub game_events :
      ProtocolEvent ℕ
      → Sessions Number
      → Sessions Number × List (GameServerMessages Number) × Option ProtocolStates
  game_events (peer_arrived id) sessions = (sessions, game_started ∷ [], none)
  game_events (peer_left id) sessions = (set id none sessions, [], some disconnect)
  game_events local_service_termination sessions = (sessions, [], none)

  -- The session that `pre_game_dialog_processor()` starts with.
  unfoldable pub session_of : Option (Option (Umpire Number)) → Eval (Option (Umpire Number))
  session_of (some session) = done session
  session_of none = panic

  -- The umpire that `game_dialog_processor()` starts with.
  unfoldable pub umpire_of : Option (Option (Umpire Number)) → Eval (Umpire Number)
  umpire_of (some (some umpire)) = done umpire
  umpire_of (some none) = panic
  umpire_of none = panic

-- Where a peer is: it came, it is to play, it plays, it left before a game, or it left a game.
pub data Stage : Type 0 where
  absent : Stage
  talking : Stage
  promoted : Stage
  playing : Stage
  turned_away : Stage
  over : Stage

-- The processor before the game is done with the peer there.
abbrev pub is_past_pre_game : Stage → Bool
is_past_pre_game absent = false
is_past_pre_game talking = false
is_past_pre_game promoted = true
is_past_pre_game playing = true
is_past_pre_game turned_away = true
is_past_pre_game over = true

-- The peers of the server, by their identifiers, and whether the end of their stream of messages before
-- the game was told.
pub record Peers (Number : Type 0) : Type 0 where
  pub sessions : Sessions Number
  pub stages : ℕ → Stage
  pub pre_game_ended : ℕ → Bool

-- Where the state leads that the processor sets on the peer.
abbrev pub stage_for : ProtocolStates → Stage
stage_for pre_game = talking
stage_for disconnect = turned_away
stage_for game = promoted

module _ {Number : Type 0} where
  abbrev pub at_stage : ℕ → Stage → Sessions Number → Peers Number → Peers Number
  at_stage id stage sessions peers = record peers {
    sessions = sessions;
    stages = set id stage peers.stages;
  }

module _ {Number : Type 0} (protocol_version : ℕ) where
  -- The session of a peer after a message before the game.
  abbrev pub told : PreGameClientMessages Number → Option (Umpire Number) → Session Number
  told message umpire =
      (server_pre_game protocol_version message (record { umpire = umpire; state = pre_game })).1

  pub data PeerStep (peers : Peers Number) : Peers Number → Type 0 where
    arrives :
        (id : ℕ)
        → peers.stages id ≡ absent
        → PeerStep peers
            (at_stage id talking (pre_game_events (peer_arrived id) peers.sessions) peers)
    -- the processor before the game handles a message
    talks :
        (id : ℕ) (message : PreGameClientMessages Number) (umpire : Option (Umpire Number))
        → peers.stages id ≡ talking
        → session_of (peers.sessions id) ≡ done umpire
        → PeerStep peers (
            at_stage id
              (stage_for (told message umpire).state)
              (set id (some (told message umpire).umpire) peers.sessions)
              peers)
    -- the connection closes before the game, or after it was agreed on
    hangs_up :
        (id : ℕ)
        → peers.stages id ≡ talking
        → PeerStep peers (at_stage id turned_away peers.sessions peers)
    backs_out :
        (id : ℕ)
        → peers.stages id ≡ promoted
        → PeerStep peers (at_stage id turned_away peers.sessions peers)
    -- the stream of the processor before the game ends: on a promotion as well, and then before or after
    -- the game started, since its executor is another task
    pre_game_ends :
        (id : ℕ)
        → is_past_pre_game (peers.stages id) ≡ true
        → peers.pre_game_ended id ≡ false
        → PeerStep peers (record peers {
          sessions = pre_game_events (peer_left id) peers.sessions;
          pre_game_ended = set id true peers.pre_game_ended;
        })
    starts_game :
        (id : ℕ)
        → peers.stages id ≡ promoted
        → PeerStep peers
            (at_stage id playing (game_events (peer_arrived id) peers.sessions).0 peers)
    -- the processor of the game changes its umpire
    plays :
        (id : ℕ) (umpire : Umpire Number)
        → peers.stages id ≡ playing
        → PeerStep peers (at_stage id playing (set id (some (some umpire)) peers.sessions) peers)
    leaves_game :
        (id : ℕ)
        → peers.stages id ≡ playing
        → PeerStep peers (at_stage id over (game_events (peer_left id) peers.sessions).0 peers)

  -- What a new server comes to.
  pub data PeersReach : Peers Number → Type 0 where
    new_server :
        PeersReach
          (record { sessions = λ id. none; stages = λ id. absent; pre_game_ended = λ id. false })
    then_steps :
        {peers peers' : Peers Number} → PeersReach peers → PeerStep peers peers' → PeersReach peers'
