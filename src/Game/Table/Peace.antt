-- ===== src/Game/Table/Peace.antt =====
-- A match between an honest client and an honest server, to its end: nobody is accused.
use reactive_messaging.Prelude.{
  ℕ, ◌+◌, ◌<◌, ◌≤◌, ◌^◌, ◌≡◌, ◌⊎◌, inl, inr, refl, ◌∙◌, arith, List, [], Bool, true, false, some,
  done, All, length,
}
use reactive_messaging.Game.Models.{
  MatchConfig, PlayerAction, GameOverStates, gracefully_ended, game_cancelled,
}
use reactive_messaging.Game.Events as Events
use reactive_messaging.Game.Events.{
  ourself, opponent, PingPongEvent, turn_flip, hard_fault, soft_fault,
}
use reactive_messaging.Game.Umpire.{Umpire, new}
use reactive_messaging.Game.Mirror.{mirror}
use reactive_messaging.Game.Scores.{Fair, is_over}
use reactive_messaging.Game.ClientMessages as ClientMessages
use reactive_messaging.Game.ClientMessages.{
  GameClientMessages, endorsed_score, contested_score, dump_config, quit,
}
use reactive_messaging.Game.ServerMessages as ServerMessages
use reactive_messaging.Game.ServerMessages.{
  GameServerMessages, game_started, match_config, good_bye, server_shutdown,
}
use reactive_messaging.Game.Dialogs.{map_events}
use reactive_messaging.Game.Reactions.{Chance}
use reactive_messaging.Game.Batches.{Turn, Batch, last, again, Steady}
use reactive_messaging.Game.Table.{Table, Hearer, game_run, kick_off}
use reactive_messaging.Game.Table.Sound.{
  Sound, begins, client_spoke, server_spoke, waits, endorses, leaves, closed,
}
use reactive_messaging.Game.Table.Steps.{game_run-Sound}

module _ {Number : Type 0} where
  -- An event that accuses no one: neither a hard fault, which the umpires never call, nor a cancelled match.
  abbrev is_peaceful : PingPongEvent Number → Bool
  is_peaceful (turn_flip action flip) = true
  is_peaceful (hard_fault action fault) = false
  is_peaceful (soft_fault action fault) = true
  is_peaceful (Events.score player action fault) = true
  is_peaceful (Events.game_over (gracefully_ended score action fault)) = true
  is_peaceful (Events.game_over (game_cancelled score rule)) = false

  -- What a server and a client say in a match without a quarrel.
  abbrev server_is_peaceful : GameServerMessages Number → Bool
  server_is_peaceful game_started = true
  server_is_peaceful (match_config config) = false
  server_is_peaceful (ServerMessages.ping_pong_event event) = is_peaceful event
  server_is_peaceful (ServerMessages.error err) = false
  server_is_peaceful good_bye = true
  server_is_peaceful server_shutdown = false

  abbrev client_is_peaceful : GameClientMessages Number → Bool
  client_is_peaceful (ClientMessages.ping_pong_event event) = is_peaceful event
  client_is_peaceful endorsed_score = true
  client_is_peaceful (contested_score score) = false
  client_is_peaceful dump_config = false
  client_is_peaceful (ClientMessages.error err) = false
  client_is_peaceful quit = false

module _ {Number Source : Type 0} where
  -- Both dialogs go on, and there is something to be heard,
  abbrev Underway : Table Number Source → Type 0
  Underway t =
      (t.client.listening ≡ true)
      × (t.server.listening ≡ true)
      × (1 ≤ length t.client.inbox + length t.server.inbox)

  -- or both wait, and the umpires see the same match,
  abbrev Agreed : Table Number Source → Type 0
  Agreed t =
      (t.client.listening ≡ true)
      × (t.server.listening ≡ true)
      × (t.client.inbox ≡ [])
      × (t.server.inbox ≡ [])
      × (mirror t.client.umpire ≡ t.server.umpire)

  -- or the match is at its end, for one umpire at least: the other is not asked any more.
  abbrev Ended : Table Number Source → Type 0
  Ended t = (is_over t.client.umpire.state ≡ true) ⊎ (is_over t.server.umpire.state ≡ true)

  pub record Peaceful (t : Table Number Source) : Type 0 where
    pub to_client : All (λ message. server_is_peaceful message ≡ true) t.client.inbox
    pub to_server : All (λ message. client_is_peaceful message ≡ true) t.server.inbox
    pub one_speaks : (t.client.inbox ≡ []) ⊎ (t.server.inbox ≡ [])
    pub standing : Underway t ⊎ Agreed t ⊎ Ended t

module _ {Number Source : Type 0} (chance : Chance Number Source) where
  over_is_peaceful :
      (over : GameOverStates Number) (action : PlayerAction Number) (u u' : Umpire Number)
      → Turn chance u action (Events.game_over over) u'
      → is_peaceful (Events.game_over over) ≡ true
  over_is_peaceful (gracefully_ended score a fault) action u u' t = refl
  over_is_peaceful (game_cancelled score rule) action u u' t = absurd t.view

  turn_is_peaceful :
      (event : PingPongEvent Number) (action : PlayerAction Number) (u u' : Umpire Number)
      → Turn chance u action event u'
      → is_peaceful event ≡ true
  turn_is_peaceful (turn_flip a flip) action u u' t = refl
  turn_is_peaceful (hard_fault a fault) action u u' t = absurd t.view
  turn_is_peaceful (soft_fault a fault) action u u' t = refl
  turn_is_peaceful (Events.score player a fault) action u u' t = refl
  turn_is_peaceful (Events.game_over over) action u u' t = over_is_peaceful over action u u' t

  Batch-is_peaceful :
      {Message : Type 0} (message : PingPongEvent Number → Message) (peaceful : Message → Bool)
      → ((event : PingPongEvent Number) → peaceful (message event) ≡ is_peaceful event)
      → (events : List (PingPongEvent Number)) {u u' : Umpire Number} → Batch chance events u u'
      → All (λ m. peaceful m ≡ true) (map_events message events)
        × (1 ≤ length (map_events message events))
  Batch-is_peaceful message peaceful h _ (last action event t) =
      ((h event ∙ turn_is_peaceful event action _ _ t, tt), omega arith)
  Batch-is_peaceful message peaceful h _ (again action a fault {events = events} t batch) =
      let (more, some_more) = Batch-is_peaceful message peaceful h events batch in
      ((h (soft_fault a fault), more), omega arith)

  Sound-Peaceful : {t : Table Number Source} → Sound chance t → Peaceful t
  Sound-Peaceful (begins u c s ready) = record {
    to_client = (refl, tt);
    to_server = tt;
    one_speaks = inr refl;
    standing = inl (refl, refl, omega arith);
  }
  Sound-Peaceful (client_spoke events u u' c s batch) =
      let (peaceful, some_more) =
        Batch-is_peaceful ClientMessages.ping_pong_event client_is_peaceful (λ event. refl) events
          batch in
      record {
        to_client = tt;
        to_server = peaceful;
        one_speaks = inl refl;
        standing = inl (refl, refl, omega (arith, some_more));
      }
  Sound-Peaceful (server_spoke events u u' c s batch) =
      let (peaceful, some_more) =
        Batch-is_peaceful ServerMessages.ping_pong_event server_is_peaceful (λ event. refl) events
          batch in
      record {
        to_client = peaceful;
        to_server = tt;
        one_speaks = inr refl;
        standing = inl (refl, refl, omega (arith, some_more));
      }
  Sound-Peaceful (waits u v c s e) = record {
    to_client = tt;
    to_server = tt;
    one_speaks = inl refl;
    standing = inr (inl (refl, refl, refl, refl, e));
  }
  Sound-Peaceful (endorses u v c s ended) = record {
    to_client = tt;
    to_server = (refl, tt);
    one_speaks = inl refl;
    standing = inr (inr ended);
  }
  Sound-Peaceful (leaves u v c s ended) = record {
    to_client = (refl, tt);
    to_server = tt;
    one_speaks = inr refl;
    standing = inr (inr ended);
  }
  Sound-Peaceful (closed u v c s ended) = record {
    to_client = tt;
    to_server = tt;
    one_speaks = inl refl;
    standing = inr (inr ended);
  }

  -- Whatever numbers come up, each of which equals itself, and in whatever order the two dialogs get to run,
  -- in a match to a limit from 1 on, within 32 bits: neither processor panics or services without end, with
  -- three attempts for a service; neither accuses the other, cancels the match or quits; only one speaks at a
  -- time; and as long as no umpire saw the end of the match, both listen, and where nothing is left to be
  -- heard their umpires see the same match.
  pub game_run-Peaceful :
      Steady chance
      → (fuel : ℕ) → 3 ≤ fuel
      → (config : MatchConfig Number) → 1 ≤ config.score_limit
      → config.score_limit < 2 ^ 32
      → (client_source server_source : Source) (schedule : List Hearer)
      → (t : Table Number Source) × (game_run chance fuel schedule
            (kick_off config client_source server_source)
          ≡ done (some t))
        × Peaceful t
  unfolding kick_off new
  game_run-Peaceful steady fuel enough config low high c s schedule =
      let start : Fair (new config ourself) = record {
        limited = refl;
        in_range = high;
        fits = ((low, low), omega arith, omega arith);
      } in
      let (t, e, sound) =
        game_run-Sound chance steady fuel enough schedule
          (begins (new config ourself) c s (record { turn = refl; going = refl; fair = start })) in
      (t, e, Sound-Peaceful sound)
