-- ===== src/Game/Fairplay.antt =====
-- Two honest players, with their umpires: neither accuses the other.
use reactive_messaging.Prelude.{
  ℕ, ◌≡◌, refl, ap, ◌∙◌, List, [], ◌∷◌, true, false, Option, some, Eval, done, panic, ◌>>=◌,
}
use reactive_messaging.Game.Models.{
  TurnFlipEvents, successful_service, soft_fault_service, successful_rebate, PlayerAction,
  gracefully_ended, game_cancelled, GameStates, waiting_for_service, rally, game_over,
}
use reactive_messaging.Game.Events as Events
use reactive_messaging.Game.Events.{
  Players, ourself, opponent, PingPongEvent, turn_flip, hard_fault, soft_fault,
}
use reactive_messaging.Game.Umpire.{Umpire, other, process_turn}
use reactive_messaging.Game.Mirror.{mirror, mirror_state}
use reactive_messaging.Game.Scores.{is_over, Fair}
use reactive_messaging.Game.Views.{flips_from, EventView, viewed_turn}
use reactive_messaging.Game.ClientMessages as ClientMessages
use reactive_messaging.Game.ClientMessages.{endorsed_score}
use reactive_messaging.Game.ServerMessages as ServerMessages
use reactive_messaging.Game.ServerMessages.{good_bye}
use reactive_messaging.Game.Dialogs.{
  Answered, to_answer, answer_all, saying, server_matcher, client_matcher, server_on_event,
  server_answer, client_on_event, client_answer,
}
use reactive_messaging.Game.Reactions.{Chance, take_turn, service_ball}
use reactive_messaging.Game.Accepted.{flip_accepted, soft_accepted, score_accepted}

module _ {Number Source : Type 0} (chance : Chance Number Source) where
  -- Where the other moves us on: what we do about an event of his, with our umpire after it. At the end of
  -- the match, and only there, our umpire is not asked.
  abbrev pub fair_answer :
      {Message : Type 0}
      → (PingPongEvent Number → Message)
      → List Message
      → ℕ
      → PingPongEvent Number
      → Umpire Number
      → Umpire Number
      → Source
      → Eval (Option (Answered Message Number Source))
  fair_answer message farewell fuel (turn_flip action flip) ours ours' source =
      take_turn chance ours' source >>= λ r. done (some (to_answer message r))
  fair_answer message farewell fuel (hard_fault action fault) ours ours' source = panic
  fair_answer message farewell fuel (soft_fault action fault) ours ours' source =
      saying [] ours' source
  fair_answer message farewell fuel (Events.score player action fault) ours ours' source =
      service_ball chance fuel ours' source >>= λ r. done (answer_all message r)
  fair_answer message farewell fuel (Events.game_over (gracefully_ended score action fault)) ours
        ours' source =
      saying farewell ours source
  fair_answer message farewell fuel (Events.game_over (game_cancelled score rule)) ours ours'
        source =
      panic

  server_fits :
      (flip : TurnFlipEvents) (state : GameStates Number)
      → flips_from flip state ≡ true
      → server_matcher flip (mirror_state state) ≡ true
  server_fits successful_service (waiting_for_service attempt) h = refl
  server_fits successful_service rally h = h
  server_fits successful_service (game_over over) h = h
  server_fits soft_fault_service (waiting_for_service attempt) h = refl
  server_fits soft_fault_service rally h = refl
  server_fits soft_fault_service (game_over over) h = h
  server_fits successful_rebate (waiting_for_service attempt) h = h
  server_fits successful_rebate rally h = refl
  server_fits successful_rebate (game_over over) h = h

  client_fits :
      (flip : TurnFlipEvents) (state : GameStates Number)
      → flips_from flip state ≡ true
      → client_matcher flip (mirror_state state) ≡ true
  client_fits successful_service (waiting_for_service attempt) h = refl
  client_fits successful_service rally h = h
  client_fits successful_service (game_over over) h = h
  client_fits soft_fault_service (waiting_for_service attempt) h = refl
  client_fits soft_fault_service rally h = h
  client_fits soft_fault_service (game_over over) h = h
  client_fits successful_rebate (waiting_for_service attempt) h = h
  client_fits successful_rebate rally h = refl
  client_fits successful_rebate (game_over over) h = h

  pub server_fair :
      (fuel : ℕ) (action : PlayerAction Number) (u : Umpire Number) (event : PingPongEvent Number)
      (u' : Umpire Number) (source : Source)
      → u.turn_player ≡ ourself
      → chance.same action.lucky_number action.lucky_number ≡ true
      → process_turn chance.at_most u ourself action ≡ done (event, u')
      → EventView action u (event, u')
      → server_on_event chance fuel event (mirror u) source
        ≡ fair_answer ServerMessages.ping_pong_event
            (good_bye ∷ [])
            fuel
            event
            (mirror u)
            (mirror u')
            source
  unfolding server_on_event
  server_fair fuel action u (turn_flip a flip) u' source t same e (here, from, flipped) =
      rw
        (flip_accepted chance action a flip u u' (server_matcher flip) source e here same
          (server_fits flip u.state from))
        refl
  server_fair fuel action u (hard_fault a fault) u' source t same e v = absurd v
  server_fair fuel action u (soft_fault a fault) u' source t same e
        (here, (attempt, s, low, next, turn)) =
      rw (soft_accepted chance action a fault u u' source attempt e here next low) refl
  server_fair fuel action u (Events.score p a fault) u' source t same e
        (here, winner, flipped, serves) =
      rw (winner ∙ ap other t)
        (rw (score_accepted chance fuel action a fault p u u' source e here) refl)
  server_fair fuel action u (Events.game_over (gracefully_ended score a fault)) u' source t same e
        v =
      refl
  server_fair fuel action u (Events.game_over (game_cancelled score rule)) u' source t same e v =
      absurd v

  pub client_fair :
      (fuel : ℕ) (action : PlayerAction Number) (u : Umpire Number) (event : PingPongEvent Number)
      (u' : Umpire Number) (source : Source)
      → u.turn_player ≡ ourself
      → chance.same action.lucky_number action.lucky_number ≡ true
      → process_turn chance.at_most u ourself action ≡ done (event, u')
      → EventView action u (event, u')
      → client_on_event chance fuel event (mirror u) source
        ≡ fair_answer ClientMessages.ping_pong_event
            (endorsed_score ∷ [])
            fuel
            event
            (mirror u)
            (mirror u')
            source
  unfolding client_on_event
  client_fair fuel action u (turn_flip a flip) u' source t same e (here, from, flipped) =
      rw
        (flip_accepted chance action a flip u u' (client_matcher flip) source e here same
          (client_fits flip u.state from))
        refl
  client_fair fuel action u (hard_fault a fault) u' source t same e v = absurd v
  client_fair fuel action u (soft_fault a fault) u' source t same e
        (here, (attempt, s, low, next, turn)) =
      rw (soft_accepted chance action a fault u u' source attempt e here next low) refl
  client_fair fuel action u (Events.score p a fault) u' source t same e
        (here, winner, flipped, serves) =
      rw (winner ∙ ap other t)
        (rw (score_accepted chance fuel action a fault p u u' source e here) refl)
  client_fair fuel action u (Events.game_over (gracefully_ended score a fault)) u' source t same e
        v =
      refl
  client_fair fuel action u (Events.game_over (game_cancelled score rule)) u' source t same e v =
      absurd v

  -- An honest player is not accused: where a player takes his turn in a fair match that is not over, his
  -- umpire rules it, and whether the other is a server or a client, whose umpire sees the match from the
  -- other side, he answers the event by what the match wants next. He takes his own turn after a flip, waits
  -- after a soft fault, services after a point, and takes his leave after the end. The number that came up is
  -- one that equals itself.
  honest_answers :
      (fuel : ℕ) (action : PlayerAction Number) (u : Umpire Number) (source : Source)
      → u.turn_player ≡ ourself
      → is_over u.state ≡ false
      → Fair u
      → chance.same action.lucky_number action.lucky_number ≡ true
      → (event : PingPongEvent Number) × (u' : Umpire Number) × (process_turn chance.at_most u
            ourself action
          ≡ done (event, u'))
        × EventView action u (event, u')
        × (server_answer chance fuel (ClientMessages.ping_pong_event event) (mirror u) source
            ≡ fair_answer ServerMessages.ping_pong_event
                (good_bye ∷ [])
                fuel
                event
                (mirror u)
                (mirror u')
                source)
        × (client_answer chance fuel (ServerMessages.ping_pong_event event) (mirror u) source
            ≡ fair_answer ClientMessages.ping_pong_event
                (endorsed_score ∷ [])
                fuel
                event
                (mirror u)
                (mirror u')
                source)
  unfolding server_answer client_answer
  honest_answers fuel action u source t o f same =
      let ((event, u'), e, fair, view) = viewed_turn chance.at_most action u t o f in
      (
        event,
        u',
        e,
        view,
        server_fair fuel action u event u' source t same e view,
        client_fair fuel action u event u' source t same e view,
      )
