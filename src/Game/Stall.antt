-- ===== src/Game/Stall.antt =====
-- A match whose first service is a soft fault: the client services once, and the server waits for more.
use reactive_messaging.Prelude.{ℕ, ◌≡◌, refl, ap, arith, [], ◌∷◌, true, some, done}
use reactive_messaging.Game.Models.{FaultEvents, PlayerAction, MatchConfig, waiting_for_service}
use reactive_messaging.Game.Events.{ourself, opponent, soft_fault}
use reactive_messaging.Game.ClientMessages as ClientMessages
use reactive_messaging.Game.ServerMessages.{game_started}
use reactive_messaging.Game.Umpire.{
  Umpire, new, consider_service_soft_fault, judge_service, process_right_turn, process_turn,
}
use reactive_messaging.Game.Mirror.{mirror}
use reactive_messaging.Game.Reactions.{Chance, take_turn}
use reactive_messaging.Game.Dialogs.{server_answer, client_answer, saying}
use reactive_messaging.Game.Fairplay.{server_fair}

module _ {Number Source : Type 0} (chance : Chance Number Source) where
  -- The client's umpire after a first soft fault.
  abbrev pub at_second_attempt : MatchConfig Number → Umpire Number
  at_second_attempt config = record (new config ourself) { state = waiting_for_service 2 }

  soft_service :
      (config : MatchConfig Number) (action : PlayerAction Number) {fault : FaultEvents}
      → consider_service_soft_fault chance.at_most config action 1 ≡ some fault
      → process_turn chance.at_most (new config ourself) ourself action
        ≡ done (soft_fault action fault, at_second_attempt config)
  unfolding process_turn process_right_turn new judge_service
  soft_service config action h =
      ap (λ soft. done (judge_service chance.at_most soft 1 action (new config ourself))) h

  -- Where the number of the client's first service makes a soft fault, the client, when the game starts,
  -- says so and nothing else, and the server answers nothing: each waits for the other to speak.
  pub first_service_stalls :
      (fuel : ℕ) (config : MatchConfig Number) (action : PlayerAction Number) {fault : FaultEvents}
      (source source' server_source : Source)
      → chance.act source ≡ (action, source')
      → consider_service_soft_fault chance.at_most config action 1 ≡ some fault
      → chance.same action.lucky_number action.lucky_number ≡ true
      → (client_answer chance fuel game_started (new config ourself) source
          ≡ saying
              (ClientMessages.ping_pong_event (soft_fault action fault) ∷ [])
              (at_second_attempt config)
              source')
        × (server_answer chance fuel
              (ClientMessages.ping_pong_event (soft_fault action fault))
              (new config opponent)
              server_source
            ≡ saying [] (mirror (at_second_attempt config)) server_source)
  unfolding client_answer server_answer take_turn new
  first_service_stalls fuel config action source source' server_source drawn h same =
      let turn = soft_service config action h in
      (
        rw drawn (rw turn refl),
        server_fair chance fuel action (new config ourself) _ (at_second_attempt config)
            server_source refl same turn (refl, (1, refl, omega arith, refl, refl)),
      )
