-- ===== src/Game/Mirror.antt =====
-- Each player has an umpire of his own: the two see the same match, each from his side of the table.
use reactive_messaging.Prelude.{
  ℕ, ◌≡◌, refl, ap, ◌∙◌, Bool, true, false, ◌||◌, Option, none, some, Eval, done, panic, leb,
  if◌then◌else◌,
}
use reactive_messaging.Game.Models.{
  PlayerAction, TurnFlipEvents, FaultEvents, MatchScore, GameOverStates, gracefully_ended,
  game_cancelled, GameStates, waiting_for_service, rally, game_over,
}
use reactive_messaging.Game.Events as Events
use reactive_messaging.Game.Events.{
  Players, ourself, opponent, PingPongEvent, turn_flip, hard_fault, soft_fault,
}
use reactive_messaging.Game.Umpire.{
  Umpire, other, same_player, point_against, next_turn_player, progress_on_the_rally,
  end_or_service, compute_lost_score, judge, judge_service, process_right_turn, process_turn,
}

abbrev pub mirror_score : MatchScore → MatchScore
mirror_score s = record { limit = s.limit; oneself = s.opponent; opponent = s.oneself }

module _ {Number : Type 0} where
  abbrev pub mirror_over : GameOverStates Number → GameOverStates Number
  mirror_over (gracefully_ended score action fault) =
      gracefully_ended (mirror_score score) action fault
  mirror_over (game_cancelled score rule) = game_cancelled (mirror_score score) rule

  abbrev pub mirror_state : GameStates Number → GameStates Number
  mirror_state (waiting_for_service attempt) = waiting_for_service attempt
  mirror_state rally = rally
  mirror_state (game_over over) = game_over (mirror_over over)

  abbrev pub mirror_event : PingPongEvent Number → PingPongEvent Number
  mirror_event (turn_flip action event) = turn_flip action event
  mirror_event (hard_fault action fault) = hard_fault action fault
  mirror_event (soft_fault action fault) = soft_fault action fault
  mirror_event (Events.score player action fault) = Events.score (other player) action fault
  mirror_event (Events.game_over over) = Events.game_over (mirror_over over)

  -- The other player's umpire.
  abbrev pub mirror : Umpire Number → Umpire Number
  mirror u = record {
    config = u.config;
    score = mirror_score u.score;
    state = mirror_state u.state;
    turn_player = other u.turn_player;
  }

  abbrev pub mirror_turn :
      PingPongEvent Number × Umpire Number → PingPongEvent Number × Umpire Number
  mirror_turn (event, u) = (mirror_event event, mirror u)

  abbrev pub mirrored :
      Eval (PingPongEvent Number × Umpire Number) → Eval (PingPongEvent Number × Umpire Number)
  mirrored panic = panic
  mirrored (done result) = done (mirror_turn result)

mirror-point_against :
    (player : Players) (score : MatchScore)
    → point_against (other player) (mirror_score score) ≡ mirror_score (point_against player score)
mirror-point_against ourself score = refl
mirror-point_against opponent score = refl

same_other :
    (player turn : Players) → same_player (other turn) (other player) ≡ same_player turn player
same_other ourself ourself = refl
same_other ourself opponent = refl
same_other opponent ourself = refl
same_other opponent opponent = refl

or_comm : (a b : Bool) → (a || b) ≡ (b || a)
or_comm true true = refl
or_comm true false = refl
or_comm false true = refl
or_comm false false = refl

module _ {Number : Type 0} where
  mirror-end_or_service :
      (over : Bool) (fault : FaultEvents) (action : PlayerAction Number) (u : Umpire Number)
      → end_or_service over fault action (mirror u)
        ≡ mirror_turn (end_or_service over fault action u)
  unfolding end_or_service next_turn_player
  mirror-end_or_service true fault action u = refl
  mirror-end_or_service false fault action u = refl

  abbrev settle :
      MatchScore
      → FaultEvents
      → PlayerAction Number
      → Umpire Number
      → PingPongEvent Number × Umpire Number
  settle score fault action u =
      end_or_service
        (leb u.config.score_limit score.oneself || leb u.config.score_limit score.opponent) fault
        action (record u { score = score })

  mirror-settle :
      (score : MatchScore) (fault : FaultEvents) (action : PlayerAction Number) (u : Umpire Number)
      → settle (mirror_score score) fault action (mirror u)
        ≡ mirror_turn (settle score fault action u)
  mirror-settle score fault action u =
      ap
        (λ over.
          end_or_service over fault action (record (mirror u) { score = mirror_score score }))
        (or_comm (leb u.config.score_limit score.opponent) (leb u.config.score_limit score.oneself))
      ∙ mirror-end_or_service _ fault action (record u { score = score })

  mirror-compute_lost_score :
      (fault : FaultEvents) (action : PlayerAction Number) (u : Umpire Number)
      → compute_lost_score fault action (mirror u) ≡ mirror_turn (compute_lost_score fault action u)
  unfolding compute_lost_score
  mirror-compute_lost_score fault action u =
      ap (λ score. settle score fault action (mirror u))
        (mirror-point_against u.turn_player u.score)
      ∙ mirror-settle (point_against u.turn_player u.score) fault action u

  mirror-judge :
      (fault : Option FaultEvents) (action : PlayerAction Number) (success : TurnFlipEvents)
      (state : GameStates Number) (u : Umpire Number)
      → judge fault action success (mirror_state state) (mirror u)
        ≡ mirror_turn (judge fault action success state u)
  unfolding judge progress_on_the_rally next_turn_player
  mirror-judge none action success state u = refl
  mirror-judge (some fault) action success state u = mirror-compute_lost_score fault action u

module _ {Number : Type 0} where
  decided :
      (right right' : Bool) (e e' wrong wrong' : Eval (PingPongEvent Number × Umpire Number))
      → right' ≡ right
      → e' ≡ mirrored e
      → wrong' ≡ mirrored wrong
      → (if right' then e' else wrong') ≡ mirrored (if right then e else wrong)
  decided true right' e e' wrong wrong' r h k = rw r h
  decided false right' e e' wrong wrong' r h k = rw r k

module _ {Number : Type 0} (at_most : Number → Number → Bool) where
  mirror-judge_service :
      (fault : Option FaultEvents) (attempt : ℕ) (action : PlayerAction Number) (u : Umpire Number)
      → judge_service at_most fault attempt action (mirror u)
        ≡ mirror_turn (judge_service at_most fault attempt action u)
  unfolding judge_service
  mirror-judge_service (some fault) attempt action u = refl
  mirror-judge_service none attempt action u = mirror-judge _ action _ rally u

  mirror-process_right_turn :
      (state : GameStates Number) (action : PlayerAction Number) (u : Umpire Number)
      → u.state ≡ state
      → process_right_turn at_most (mirror_state state) action (mirror u)
        ≡ mirrored (process_right_turn at_most state action u)
  unfolding process_right_turn
  mirror-process_right_turn (waiting_for_service attempt) action u e =
      ap done (mirror-judge_service _ attempt action u)
  mirror-process_right_turn rally action u e = ap done (mirror-judge _ action _ u.state u)
  mirror-process_right_turn (game_over over) action u e = refl

  -- Whatever the action and whoever takes it, the umpire on the other side of the table sees the same
  -- turn: his event and his match are the mirror image, and he refuses a turn if the first does.
  pub process_turn-mirror :
      (player : Players) (action : PlayerAction Number) (u : Umpire Number)
      → process_turn at_most (mirror u) (other player) action
        ≡ mirrored (process_turn at_most u player action)
  unfolding process_turn
  process_turn-mirror player action u =
      decided (same_player u.turn_player player) _ _ _ _ _ (same_other player u.turn_player)
        (mirror-process_right_turn u.state action u refl) refl
