-- ===== src/Game/Accepted.antt =====
-- examples/composite_protocol_stacking_common/logic/ping_pong_logic.rs: one player's turn as the other's umpire judges it.
use reactive_messaging.Prelude.{ℕ, suc, ◌<◌, ◌≡◌, refl, ap, ◌∙◌, arith, [], Bool, true, done, leb}
use reactive_messaging.Game.Models.{
  FaultEvents, no_bounce, no_rebate, mishit, pre_bounce, net_touch, net_block, ball_out,
  TurnFlipEvents, successful_service, soft_fault_service, successful_rebate, PlayerAction,
  GameStates, waiting_for_service,
}
use reactive_messaging.Game.Events as Events
use reactive_messaging.Game.Events.{
  Players, ourself, opponent, PingPongEvent, turn_flip, hard_fault, soft_fault,
}
use reactive_messaging.Game.Umpire.{Umpire, next_u32, process_turn}
use reactive_messaging.Game.Mirror.{
  mirror, mirror_event, mirror_state, mirrored, process_turn-mirror,
}
use reactive_messaging.Game.Scores.{next_u32-lem}
use reactive_messaging.Game.Reactions.{
  Chance, same_fault, same_flip, take_turn, react_to_rally_event, service_ball, after_attempt,
  after_soft_fault, react_to_service_soft_fault, after_score, react_to_score,
}

same_fault_refl : (fault : FaultEvents) → same_fault fault fault ≡ true
same_fault_refl no_bounce = refl
same_fault_refl no_rebate = refl
same_fault_refl mishit = refl
same_fault_refl pre_bounce = refl
same_fault_refl net_touch = refl
same_fault_refl net_block = refl
same_fault_refl ball_out = refl

same_flip_refl : (flip : TurnFlipEvents) → same_flip flip flip ≡ true
same_flip_refl successful_service = refl
same_flip_refl soft_fault_service = refl
same_flip_refl successful_rebate = refl

attempts_left : (attempt : ℕ) → attempt < 3 → leb (next_u32 attempt) 3 ≡ true
attempts_left attempt low = rw (next_u32-lem attempt 3 low (omega arith)) (below attempt low)
  where
    below : (attempt : ℕ) → attempt < 3 → leb (suc attempt) 3 ≡ true
    below attempt low = ground arith

module _ {Number Source : Type 0} (chance : Chance Number Source) where
  -- What the other's umpire comes to, ours does too.
  expected :
      (action : PlayerAction Number) (u : Umpire Number) {event : PingPongEvent Number}
      {u' : Umpire Number}
      → process_turn chance.at_most u ourself action ≡ done (event, u')
      → process_turn chance.at_most (mirror u) opponent action
        ≡ done (mirror_event event, mirror u')
  expected action u e = process_turn-mirror chance.at_most ourself action u ∙ ap mirrored e

  pub flip_accepted :
      (action a : PlayerAction Number) (flip : TurnFlipEvents) (u u' : Umpire Number)
      (matcher : GameStates Number → Bool) (source : Source)
      → process_turn chance.at_most u ourself action ≡ done (turn_flip a flip, u')
      → a ≡ action
      → chance.same action.lucky_number action.lucky_number ≡ true
      → matcher (mirror_state u.state) ≡ true
      → react_to_rally_event chance (mirror u) matcher a flip source
        ≡ take_turn chance (mirror u') source
  unfolding react_to_rally_event
  flip_accepted action a flip u u' matcher source e here same fits =
      rw fits
        (rw here (rw (expected action u e) (rw here (rw same (rw (same_flip_refl flip) refl)))))

  repeated :
      (state : GameStates Number) (u : Umpire Number) (source : Source) (attempt : ℕ)
      → state ≡ waiting_for_service (next_u32 attempt)
      → attempt < 3
      → after_attempt chance state u source ≡ record { events = []; umpire = u; source = source }
  unfolding after_attempt
  repeated state u source attempt e low = rw e (rw (attempts_left attempt low) refl)

  pub soft_accepted :
      (action a : PlayerAction Number) (fault : FaultEvents) (u u' : Umpire Number)
      (source : Source) (attempt : ℕ)
      → process_turn chance.at_most u ourself action ≡ done (soft_fault a fault, u')
      → a ≡ action
      → u'.state ≡ waiting_for_service (next_u32 attempt)
      → attempt < 3
      → react_to_service_soft_fault chance (mirror u) a fault source
        ≡ done (record { events = []; umpire = mirror u'; source = source })
  unfolding react_to_service_soft_fault after_soft_fault after_attempt
  soft_accepted action a fault u u' source attempt e here next low = rw here (
      rw (expected action u e) (
        rw (same_fault_refl fault) (
          ap done (
            repeated (mirror_state u'.state) (mirror u') source attempt (ap mirror_state next)
              low))))

  pub score_accepted :
      (fuel : ℕ) (action a : PlayerAction Number) (fault : FaultEvents) (p : Players)
      (u u' : Umpire Number) (source : Source)
      → process_turn chance.at_most u ourself action ≡ done (Events.score p a fault, u')
      → a ≡ action
      → react_to_score chance fuel (mirror u) a fault source
        ≡ service_ball chance fuel (mirror u') source
  unfolding react_to_score after_score
  score_accepted fuel action a fault p u u' source e here =
      rw here (rw (expected action u e) (rw (same_fault_refl fault) refl))
