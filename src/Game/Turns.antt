-- ===== src/Game/Turns.antt =====
-- The umpire keeps a match fair, turn by turn.
use reactive_messaging.Prelude.{
  ℕ, suc, ◌≡◌, refl, sym, ◌∙◌, arith, Bool, true, false, ◌||◌, Option, none, some, Eval, done,
  panic, ltb, leb, if◌then◌else◌, ltb→lt, subst,
}
use mathlib.Core.Bool.{true≢false}
use reactive_messaging.Game.Models.{
  PlayerAction, TurnFlipEvents, FaultEvents, MatchScore, game_cancelled, wrong_player_for_turn,
  GameStates, waiting_for_service, rally, game_over,
}
use reactive_messaging.Game.Events as Events
use reactive_messaging.Game.Events.{
  Players, ourself, opponent, PingPongEvent, turn_flip, hard_fault, soft_fault,
}
use reactive_messaging.Game.Umpire.{
  Umpire, point_against, next_turn_player, progress_on_the_rally, end_or_service,
  compute_lost_score, consider_service_soft_fault, judge, judge_service, process_right_turn,
  process_turn, same_player,
}
use reactive_messaging.Game.Scores.{
  Undecided, StateFits, Fair, FairTurn, points, AlmostDecided, next_u32-lem, pointed, reached,
  not_reached, reached-Decided, is_over,
}

module _ {Number : Type 0} where
  -- A point is settled: it ends the match exactly if it decides it.
  settled :
      (over : Bool) (fault : FaultEvents) (action : PlayerAction Number) (s : MatchScore)
      (u : Umpire Number)
      → Fair u
      → s.limit ≡ u.score.limit
      → AlmostDecided s
      → points s ≡ suc (points u.score)
      → (leb u.config.score_limit s.oneself || leb u.config.score_limit s.opponent) ≡ over
      → FairTurn u (end_or_service over fault action (record u { score = s }))
  unfolding end_or_service next_turn_player
  settled true fault action s u f l near p e = (
    record {
      limited = l ∙ f.limited;
      in_range = omega (arith, l, f.in_range);
      fits = (
        refl,
        reached-Decided s near (reached s.limit s.oneself s.opponent (rw (l ∙ f.limited) e)),
      );
    },
    omega (arith, p),
    refl,
  )
  settled false fault action s u f l near p e = (
    record {
      limited = l ∙ f.limited;
      in_range = omega (arith, l, f.in_range);
      fits = (
        not_reached s.limit s.oneself s.opponent (rw (l ∙ f.limited) e),
        omega arith,
        omega arith,
      );
    },
    omega (arith, p),
    refl,
  )

  FairTurn-compute_lost_score :
      (fault : FaultEvents) (action : PlayerAction Number) (u : Umpire Number)
      → Fair u
      → Undecided u.score
      → FairTurn u (compute_lost_score fault action u)
  unfolding compute_lost_score
  FairTurn-compute_lost_score fault action u f h =
      let (near, p, l) = pointed u.turn_player u.score f.in_range h in
      settled _ fault action (point_against u.turn_player u.score) u f l near p refl

  FairTurn-judge :
      (fault : Option FaultEvents) (action : PlayerAction Number) (success : TurnFlipEvents)
      (state : GameStates Number) (u : Umpire Number)
      → Fair u
      → Undecided u.score
      → StateFits u.score state
      → is_over state ≡ false
      → FairTurn u (judge fault action success state u)
  unfolding judge progress_on_the_rally next_turn_player
  FairTurn-judge (some fault) action success state u f h fits o =
      FairTurn-compute_lost_score fault action u f h
  FairTurn-judge none action success state u f h fits o =
      (record { limited = f.limited; in_range = f.in_range; fits = fits }, omega arith, sym o)

  -- What a turn gives, where the umpire does not panic.
  abbrev pub Ruled : Umpire Number → Eval (PingPongEvent Number × Umpire Number) → Type 0
  Ruled u panic = ⊥
  Ruled u (done result) = FairTurn u result

pub if_some :
    {A : Type 0} (b : Bool) (inner : Option A) {a : A}
    → (if b then inner else none) ≡ some a
    → b ≡ true
if_some true inner e = refl
if_some false inner e = cc

module _ {Number : Type 0} (at_most : Number → Number → Bool) where
  FairTurn-judge_service :
      (fault : Option FaultEvents) (attempt : ℕ) (action : PlayerAction Number) (u : Umpire Number)
      → consider_service_soft_fault at_most u.config action attempt ≡ fault
      → Fair u
      → StateFits {Number = Number} u.score (waiting_for_service attempt)
      → FairTurn u (judge_service at_most fault attempt action u)
  unfolding judge_service consider_service_soft_fault
  FairTurn-judge_service none attempt action u e f (h, _, _) =
      FairTurn-judge _ action _ rally u f h h refl
  FairTurn-judge_service (some fault) attempt action u e f (h, low, high) =
      let below = ltb→lt attempt 3 (if_some (ltb attempt 3) _ e) in
      let next = next_u32-lem attempt 3 below (omega arith) in
      (
        record {
          limited = f.limited;
          in_range = f.in_range;
          fits = (h, omega (arith, next), omega (arith, next, below));
        },
        omega arith,
        refl,
      )

  Ruled-process_right_turn :
      (state : GameStates Number) (action : PlayerAction Number) (u : Umpire Number)
      → u.state ≡ state
      → is_over state ≡ false
      → Fair u
      → Ruled u (process_right_turn at_most state action u)
  unfolding process_right_turn
  Ruled-process_right_turn (waiting_for_service attempt) action u e o f =
      FairTurn-judge_service _ attempt action u refl f (subst (StateFits u.score) e f.fits)
  Ruled-process_right_turn rally action u e o f =
      FairTurn-judge _ action _ u.state u f (subst (StateFits u.score) e f.fits) f.fits (rw e o)
  Ruled-process_right_turn (game_over over) action u e o f = absurd (true≢false o)

  going-Undecided :
      (state : GameStates Number) (s : MatchScore)
      → is_over state ≡ false
      → StateFits s state
      → Undecided s
  going-Undecided (waiting_for_service attempt) s o fits = fits.0
  going-Undecided rally s o fits = fits
  going-Undecided (game_over over) s o fits = absurd (true≢false o)

  -- While a fair match is not over, its umpire rules every turn, of either player, without a panic: the
  -- match stays fair, and the event tells the point that is won, if one is.
  pub Ruled-process_turn :
      (u : Umpire Number) (player : Players) (action : PlayerAction Number)
      → is_over u.state ≡ false
      → Fair u
      → Ruled u (process_turn at_most u player action)
  unfolding process_turn
  Ruled-process_turn u player action o f = by_player (same_player u.turn_player player)
    where
      by_player :
          (right : Bool)
          → Ruled u (
              if right
              then process_right_turn at_most u.state action u
              else (let over = game_cancelled u.score wrong_player_for_turn in
                  done (Events.game_over over, record u { state = game_over over })))
      by_player true = Ruled-process_right_turn u.state action u refl o f
      by_player false = (
        record {
          limited = f.limited;
          in_range = f.in_range;
          fits = (refl, going-Undecided u.state u.score o f.fits);
        },
        omega arith,
        refl,
      )
