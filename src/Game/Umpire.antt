-- ===== src/Game/Umpire.antt =====
-- examples/composite_protocol_stacking_common/logic/ping_pong_logic.rs: the umpire, which keeps a match to
-- its rules and counts its points.
use reactive_messaging.Prelude.{
  ℕ, ◌+◌, ◌%◌, ◌^◌, Bool, true, false, ◌||◌, Option, none, some, Eval, done, panic, ltb, leb,
  if◌then◌else◌,
}
use reactive_messaging.Game.Models.{
  FaultEvents, no_bounce, no_rebate, mishit, pre_bounce, net_touch, net_block, ball_out,
  TurnFlipEvents, successful_service, successful_rebate, wrong_player_for_turn, PlayerAction,
  MatchConfig, MatchScore, gracefully_ended, game_cancelled, GameStates, waiting_for_service, rally,
  game_over,
}
use reactive_messaging.Game.Events as Events
use reactive_messaging.Game.Events.{
  Players, ourself, opponent, PingPongEvent, turn_flip, soft_fault,
}

pub record Umpire (Number : Type 0) : Type 0 where
  pub config : MatchConfig Number
  pub score : MatchScore
  pub state : GameStates Number
  pub turn_player : Players

abbrev pub servicing_attempts : ℕ
servicing_attempts = 3

-- `Umpire::new()`
unfoldable pub new : {Number : Type 0} → MatchConfig Number → Players → Umpire Number
new config first_service_player = record {
  config = config;
  score = record { limit = config.score_limit; oneself = 0; opponent = 0 };
  state = waiting_for_service 1;
  turn_player = first_service_player;
}

abbrev pub other : Players → Players
other ourself = opponent
other opponent = ourself

abbrev pub same_player : Players → Players → Bool
same_player ourself ourself = true
same_player opponent opponent = true
same_player ourself opponent = false
same_player opponent ourself = false

-- `u32` additions.
abbrev pub next_u32 : ℕ → ℕ
next_u32 n = (n + 1) % 2 ^ 32

-- A point against a player.
abbrev pub point_against : Players → MatchScore → MatchScore
point_against ourself score = record score { opponent = next_u32 score.opponent }
point_against opponent score = record score { oneself = next_u32 score.oneself }

module _ {Number : Type 0} where
  unfoldable pub next_turn_player : Umpire Number → Umpire Number
  next_turn_player self = record self { turn_player = other self.turn_player }

  unfoldable pub progress_on_the_rally :
      PlayerAction Number → TurnFlipEvents → Umpire Number → PingPongEvent Number × Umpire Number
  unfolding next_turn_player
  progress_on_the_rally player_action turn_flip_event self =
      (turn_flip player_action turn_flip_event, next_turn_player self)

  unfoldable pub end_or_service :
      Bool
      → FaultEvents
      → PlayerAction Number
      → Umpire Number
      → PingPongEvent Number × Umpire Number
  unfolding next_turn_player
  end_or_service true hard_fault action self =
      let game_over_state = gracefully_ended self.score action hard_fault in
      (Events.game_over game_over_state, record self { state = game_over game_over_state })
  end_or_service false hard_fault action self =
      let self' = next_turn_player self in
      (
        Events.score self'.turn_player action hard_fault,
        record self' { state = waiting_for_service 1 },
      )

  -- Either ends the game or gives the point to the other player, who services next.
  unfoldable pub compute_lost_score :
      FaultEvents → PlayerAction Number → Umpire Number → PingPongEvent Number × Umpire Number
  unfolding end_or_service
  compute_lost_score hard_fault action self =
      let score = point_against self.turn_player self.score in
      end_or_service
        (leb self.config.score_limit score.oneself || leb self.config.score_limit score.opponent)
        hard_fault action (record self { score = score })

  -- A hard fault, or the ball goes on.
  unfoldable pub judge :
      Option FaultEvents
      → PlayerAction Number
      → TurnFlipEvents
      → GameStates Number
      → Umpire Number
      → PingPongEvent Number × Umpire Number
  unfolding compute_lost_score progress_on_the_rally
  judge (some fault) action success state self = compute_lost_score fault action self
  judge none action success state self =
      progress_on_the_rally action success (record self { state = state })

-- `at_most` is the comparison of the floats.
module _ {Number : Type 0} (at_most : Number → Number → Bool) where
  unfoldable pub consider_service_soft_fault :
      MatchConfig Number → PlayerAction Number → ℕ → Option FaultEvents
  consider_service_soft_fault config action attempt =
      if ltb attempt servicing_attempts
      then (if at_most action.lucky_number config.mishit_probability
          then some mishit
          else (if at_most action.lucky_number config.net_touch_probability
              then some net_touch
              else none))
      else none

  unfoldable pub consider_hard_fault : MatchConfig Number → PlayerAction Number → Option FaultEvents
  consider_hard_fault config action =
      if at_most action.lucky_number config.no_bounce_probability
      then some no_bounce
      else (if at_most action.lucky_number config.no_rebate_probability
          then some no_rebate
          else (if at_most action.lucky_number config.mishit_probability
              then some mishit
              else (if at_most action.lucky_number config.pre_bounce_probability
                  then some pre_bounce
                  else (if at_most action.lucky_number config.net_block_probability
                      then some net_block
                      else (if at_most action.lucky_number config.ball_out_probability
                          then some ball_out
                          else none)))))

  -- A service, whose soft faults allow another attempt.
  unfoldable pub judge_service :
      Option FaultEvents
      → ℕ
      → PlayerAction Number
      → Umpire Number
      → PingPongEvent Number × Umpire Number
  unfolding judge consider_hard_fault
  judge_service (some fault) attempt action self =
      (soft_fault action fault, record self { state = waiting_for_service (next_u32 attempt) })
  judge_service none attempt action self =
      judge (consider_hard_fault self.config action) action successful_service rally self

  unfoldable pub process_right_turn :
      GameStates Number
      → PlayerAction Number
      → Umpire Number
      → Eval (PingPongEvent Number × Umpire Number)
  unfolding judge_service judge consider_service_soft_fault consider_hard_fault
  process_right_turn (waiting_for_service attempt) action self =
      done
        (judge_service (consider_service_soft_fault self.config action attempt) attempt action self)
  process_right_turn rally action self =
      done (judge (consider_hard_fault self.config action) action successful_rebate self.state self)
  process_right_turn (game_over over) action self = panic

  -- `Umpire::process_turn()`
  unfoldable pub process_turn :
      Umpire Number → Players → PlayerAction Number → Eval (PingPongEvent Number × Umpire Number)
  unfolding process_right_turn
  process_turn self player action =
      if same_player self.turn_player player
      then process_right_turn self.state action self
      else (let over = game_cancelled self.score wrong_player_for_turn in
          done (Events.game_over over, record self { state = game_over over }))
