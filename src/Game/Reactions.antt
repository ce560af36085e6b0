-- ===== src/Game/Reactions.antt =====
-- examples/composite_protocol_stacking_common/logic/protocol_processor.rs: how a player reacts to what the
-- other reports, after his own umpire looked at it.
use reactive_messaging.Prelude.{
  ℕ, zero, suc, List, [], ◌∷◌, Bool, true, false, ◌&&◌, Option, none, some, Eval, done, ◌>>=◌, ◌==◌,
  leb, if◌then◌else◌,
}
use reactive_messaging.Game.Models.{
  FaultEvents, no_bounce, no_rebate, mishit, pre_bounce, net_touch, net_block, ball_out,
  TurnFlipEvents, successful_service, soft_fault_service, successful_rebate, Rules,
  umpires_disagree_on_event, umpires_disagree_on_state, umpires_disagree_on_soft_fault,
  umpires_disagree_on_hard_fault, umpires_disagree_on_exceeded_servicing_attempts, PlayerAction,
  game_cancelled, GameStates, waiting_for_service, rally, game_over,
}
use reactive_messaging.Game.Events as Events
use reactive_messaging.Game.Events.{
  Players, ourself, opponent, PingPongEvent, turn_flip, hard_fault, soft_fault,
}
use reactive_messaging.Game.Umpire.{Umpire, servicing_attempts, process_turn}

-- The derived comparisons.
abbrev fault_number : FaultEvents → ℕ
fault_number no_bounce = 0
fault_number no_rebate = 1
fault_number mishit = 2
fault_number pre_bounce = 3
fault_number net_touch = 4
fault_number net_block = 5
fault_number ball_out = 6

abbrev pub same_fault : FaultEvents → FaultEvents → Bool
same_fault a b = fault_number a == fault_number b

abbrev flip_number : TurnFlipEvents → ℕ
flip_number successful_service = 0
flip_number soft_fault_service = 1
flip_number successful_rebate = 2

abbrev pub same_flip : TurnFlipEvents → TurnFlipEvents → Bool
same_flip a b = flip_number a == flip_number b

-- Whether an expected event is the turn flip that is reported; `same` is the equality of the floats.
abbrev pub is_turn_flip :
    {Number : Type 0}
    → (Number → Number → Bool)
    → PlayerAction Number
    → TurnFlipEvents
    → PingPongEvent Number
    → Bool
is_turn_flip same action flip (turn_flip action' flip') =
    same action.lucky_number action'.lucky_number && same_flip flip flip'
is_turn_flip same action flip (hard_fault action' fault) = false
is_turn_flip same action flip (soft_fault action' fault) = false
is_turn_flip same action flip (Events.score player action' fault) = false
is_turn_flip same action flip (Events.game_over over) = false

-- The floats with their comparisons, and `act()`, which takes its number from a source of random numbers.
pub record Chance (Number Source : Type 0) : Type 0 where
  pub at_most : Number → Number → Bool
  pub same : Number → Number → Bool
  pub act : Source → PlayerAction Number × Source

-- What is answered, with the umpire and the source of numbers that are left.
pub record Reacted (Number Source : Type 0) : Type 0 where
  pub events : List (PingPongEvent Number)
  pub umpire : Umpire Number
  pub source : Source

module _ {Number Source : Type 0} where
  abbrev pub accuse : Rules → Umpire Number → Source → Reacted Number Source
  accuse rule umpire source = record {
    events = Events.game_over (game_cancelled umpire.score rule) ∷ [];
    umpire = umpire;
    source = source;
  }

  abbrev pub served_before :
      PingPongEvent Number → Option (Reacted Number Source) → Option (Reacted Number Source)
  served_before event none = none
  served_before event (some r) = some (record r { events = event ∷ r.events })

abbrev pub is_soft : {Number : Type 0} → PingPongEvent Number → Bool
is_soft (turn_flip action flip) = false
is_soft (hard_fault action fault) = false
is_soft (soft_fault action fault) = true
is_soft (Events.score player action fault) = false
is_soft (Events.game_over over) = false

module _ {Number Source : Type 0} (chance : Chance Number Source) where
  -- Our action, and its event.
  unfoldable pub take_turn : Umpire Number → Source → Eval (Reacted Number Source)
  take_turn umpire source =
      let (our_action, source') = chance.act source in
      process_turn chance.at_most umpire ourself our_action >>= λ (event, umpire').
      done (record { events = event ∷ []; umpire = umpire'; source = source' })

  -- `react_to_rally_event()`: the reported event is always a turn flip.
  unfoldable pub react_to_rally_event :
      Umpire Number
      → (GameStates Number → Bool)
      → PlayerAction Number
      → TurnFlipEvents
      → Source
      → Eval (Reacted Number Source)
  unfolding take_turn
  react_to_rally_event umpire reported_state_matcher opponent_action reported_flip source =
      if reported_state_matcher umpire.state
      then (process_turn chance.at_most umpire opponent opponent_action
          >>= λ (expected_event, umpire').
              let ours = take_turn umpire' source in
              if is_turn_flip chance.same opponent_action reported_flip expected_event
              then ours
              else done (accuse umpires_disagree_on_event umpire' source))
      else done (accuse umpires_disagree_on_state umpire source)

  -- `service_ball()`, whose `loop` runs on fuel: `none` where it still serves after that.
  unfoldable pub service_ball : ℕ → Umpire Number → Source → Eval (Option (Reacted Number Source))
  service_ball zero umpire source = done none
  service_ball (suc fuel) umpire source =
      let (our_action, source') = chance.act source in
      process_turn chance.at_most umpire ourself our_action >>= λ (our_event, umpire').
      let rest = service_ball fuel umpire' source' in
      if is_soft our_event
      then (rest >>= λ served. done (served_before our_event served))
      else done (some (record { events = our_event ∷ []; umpire = umpire'; source = source' }))

  unfoldable pub after_hard_fault :
      ℕ
      → FaultEvents
      → PingPongEvent Number × Umpire Number
      → Source
      → Eval (Option (Reacted Number Source))
  unfolding service_ball
  after_hard_fault fuel reported (hard_fault action expected, umpire) source =
      let served = service_ball fuel umpire source in
      if same_fault expected reported
      then served
      else done (some (accuse umpires_disagree_on_event umpire source))
  after_hard_fault fuel reported (turn_flip action flip, umpire) source =
      done (some (accuse umpires_disagree_on_hard_fault umpire source))
  after_hard_fault fuel reported (soft_fault action fault, umpire) source =
      done (some (accuse umpires_disagree_on_hard_fault umpire source))
  after_hard_fault fuel reported (Events.score player action fault, umpire) source =
      done (some (accuse umpires_disagree_on_hard_fault umpire source))
  after_hard_fault fuel reported (Events.game_over over, umpire) source =
      done (some (accuse umpires_disagree_on_hard_fault umpire source))

  unfoldable pub react_to_hard_fault :
      ℕ
      → Umpire Number
      → PlayerAction Number
      → FaultEvents
      → Source
      → Eval (Option (Reacted Number Source))
  unfolding after_hard_fault
  react_to_hard_fault fuel umpire opponent_action reported_fault_event source =
      process_turn chance.at_most umpire opponent opponent_action >>= λ result.
      after_hard_fault fuel reported_fault_event result source

  -- Another service is to be attempted by the other player, within the attempts.
  unfoldable pub after_attempt : GameStates Number → Umpire Number → Source → Reacted Number Source
  after_attempt (waiting_for_service attempt) umpire source =
      if leb attempt servicing_attempts
      then record { events = []; umpire = umpire; source = source }
      else accuse umpires_disagree_on_exceeded_servicing_attempts umpire source
  after_attempt rally umpire source = accuse umpires_disagree_on_state umpire source
  after_attempt (game_over over) umpire source = accuse umpires_disagree_on_state umpire source

  unfoldable pub after_soft_fault :
      FaultEvents → PingPongEvent Number × Umpire Number → Source → Reacted Number Source
  unfolding after_attempt
  after_soft_fault reported (soft_fault action expected, umpire) source =
      if same_fault expected reported
      then after_attempt umpire.state umpire source
      else accuse umpires_disagree_on_event umpire source
  after_soft_fault reported (turn_flip action flip, umpire) source =
      accuse umpires_disagree_on_soft_fault umpire source
  after_soft_fault reported (hard_fault action fault, umpire) source =
      accuse umpires_disagree_on_soft_fault umpire source
  after_soft_fault reported (Events.score player action fault, umpire) source =
      accuse umpires_disagree_on_soft_fault umpire source
  after_soft_fault reported (Events.game_over over, umpire) source =
      accuse umpires_disagree_on_soft_fault umpire source

  unfoldable pub react_to_service_soft_fault :
      Umpire Number → PlayerAction Number → FaultEvents → Source → Eval (Reacted Number Source)
  unfolding after_soft_fault
  react_to_service_soft_fault umpire opponent_action reported_fault_event source =
      process_turn chance.at_most umpire opponent opponent_action >>= λ result.
      done (after_soft_fault reported_fault_event result source)

  unfoldable pub after_score :
      ℕ
      → FaultEvents
      → PingPongEvent Number × Umpire Number
      → Source
      → Eval (Option (Reacted Number Source))
  unfolding service_ball
  after_score fuel reported (Events.score player action expected, umpire) source =
      let served = service_ball fuel umpire source in
      if same_fault expected reported
      then served
      else done (some (accuse umpires_disagree_on_event umpire source))
  after_score fuel reported (turn_flip action flip, umpire) source =
      done (some (accuse umpires_disagree_on_state umpire source))
  after_score fuel reported (soft_fault action fault, umpire) source =
      done (some (accuse umpires_disagree_on_state umpire source))
  after_score fuel reported (hard_fault action fault, umpire) source =
      done (some (accuse umpires_disagree_on_state umpire source))
  after_score fuel reported (Events.game_over over, umpire) source =
      done (some (accuse umpires_disagree_on_state umpire source))

  unfoldable pub react_to_score :
      ℕ
      → Umpire Number
      → PlayerAction Number
      → FaultEvents
      → Source
      → Eval (Option (Reacted Number Source))
  unfolding after_score
  react_to_score fuel umpire opponent_action reported_fault_event source =
      process_turn chance.at_most umpire opponent opponent_action >>= λ result.
      after_score fuel reported_fault_event result source
