-- ===== src/Game/Models.antt =====
-- examples/composite_protocol_stacking_common/logic/ping_pong_models.rs: the models of the game. The
-- floats of the source are a type of their own.
use reactive_messaging.Prelude.{ℕ}

pub data FaultEvents : Type 0 where
  no_bounce : FaultEvents
  no_rebate : FaultEvents
  mishit : FaultEvents
  pre_bounce : FaultEvents
  net_touch : FaultEvents
  net_block : FaultEvents
  ball_out : FaultEvents

pub data TurnFlipEvents : Type 0 where
  successful_service : TurnFlipEvents
  soft_fault_service : TurnFlipEvents
  successful_rebate : TurnFlipEvents

pub data Rules : Type 0 where
  wrong_player_for_turn : Rules
  umpires_disagree_on_event : Rules
  umpires_disagree_on_state : Rules
  umpires_disagree_on_soft_fault : Rules
  umpires_disagree_on_hard_fault : Rules
  umpires_disagree_on_exceeded_servicing_attempts : Rules

pub record PlayerAction (Number : Type 0) : Type 0 where
  pub lucky_number : Number

pub record MatchConfig (Number : Type 0) : Type 0 where
  pub score_limit : ℕ
  pub rally_timeout_millis : ℕ
  pub no_bounce_probability : Number
  pub no_rebate_probability : Number
  pub mishit_probability : Number
  pub pre_bounce_probability : Number
  pub net_touch_probability : Number
  pub net_block_probability : Number
  pub ball_out_probability : Number

pub record MatchScore : Type 0 where
  pub limit : ℕ
  pub oneself : ℕ
  pub opponent : ℕ

pub data GameOverStates (Number : Type 0) : Type 0 where
  gracefully_ended : MatchScore → PlayerAction Number → FaultEvents → GameOverStates Number
  game_cancelled : MatchScore → Rules → GameOverStates Number

pub data GameStates (Number : Type 0) : Type 0 where
  waiting_for_service : ℕ → GameStates Number
  rally : GameStates Number
  game_over : GameOverStates Number → GameStates Number
