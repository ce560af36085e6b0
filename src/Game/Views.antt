-- ===== src/Game/Views.antt =====
-- What an umpire's event says of the turn that was taken.
use reactive_messaging.Prelude.{
  ℕ, ◌<◌, ◌≡◌, refl, sym, ap, Bool, true, false, Option, none, some, Eval, done, panic, ltb→lt, ltb,
  if◌then◌else◌,
}
use mathlib.Core.Bool.{true≢false}
use reactive_messaging.Game.Models.{
  FaultEvents, TurnFlipEvents, successful_service, soft_fault_service, successful_rebate,
  PlayerAction, MatchScore, gracefully_ended, game_cancelled, GameStates, waiting_for_service,
  rally, game_over,
}
use reactive_messaging.Game.Events as Events
use reactive_messaging.Game.Events.{
  Players, ourself, opponent, PingPongEvent, turn_flip, hard_fault, soft_fault,
}
use reactive_messaging.Game.Umpire.{
  Umpire, other, same_player, next_u32, end_or_service, next_turn_player, compute_lost_score, judge,
  progress_on_the_rally, judge_service, consider_service_soft_fault, process_right_turn,
  process_turn,
}
use reactive_messaging.Game.Scores.{is_over, Fair, FairTurn}
use reactive_messaging.Game.Turns.{Ruled, Ruled-process_turn, if_some}

module _ {Number : Type 0} where
  -- The states in which a flip of the turn may be reported, on both sides of the table.
  abbrev pub flips_from : TurnFlipEvents → GameStates Number → Bool
  flips_from successful_service (waiting_for_service attempt) = true
  flips_from successful_service rally = false
  flips_from successful_service (game_over over) = false
  flips_from soft_fault_service (waiting_for_service attempt) = true
  flips_from soft_fault_service rally = false
  flips_from soft_fault_service (game_over over) = false
  flips_from successful_rebate (waiting_for_service attempt) = false
  flips_from successful_rebate rally = true
  flips_from successful_rebate (game_over over) = false

  -- The event tells the action, flips the turn from a state where that may be, repeats a service below the
  -- last attempt, and gives a point to the other player, whose service it is then. It is never a hard fault,
  -- nor is the match cancelled.
  abbrev pub EventView :
      PlayerAction Number → Umpire Number → PingPongEvent Number × Umpire Number → Type 0
  EventView action u (turn_flip action' flip, u') =
      (action' ≡ action) × (flips_from flip u.state ≡ true) × (u'.turn_player ≡ other u.turn_player)
  EventView action u (hard_fault action' fault, u') = ⊥
  EventView action u (soft_fault action' fault, u') =
      (action' ≡ action)
      × ((attempt : ℕ) × (u.state ≡ waiting_for_service attempt)
          × (attempt < 3)
          × (u'.state ≡ waiting_for_service (next_u32 attempt))
          × (u'.turn_player ≡ u.turn_player))
  EventView action u (Events.score player action' fault, u') =
      (action' ≡ action)
      × (player ≡ other u.turn_player)
      × (u'.turn_player ≡ other u.turn_player)
      × (u'.state ≡ waiting_for_service 1)
  EventView action u (Events.game_over (gracefully_ended score action' fault), u') =
      action' ≡ action
  EventView action u (Events.game_over (game_cancelled score rule), u') = ⊥

  view-end_or_service :
      (over : Bool) (fault : FaultEvents) (action : PlayerAction Number) (s : MatchScore)
      (u : Umpire Number)
      → EventView action u (end_or_service over fault action (record u { score = s }))
  unfolding end_or_service next_turn_player
  view-end_or_service true fault action s u = refl
  view-end_or_service false fault action s u = (refl, refl, refl, refl)

  view-judge :
      (fault : Option FaultEvents) (action : PlayerAction Number) (success : TurnFlipEvents)
      (state : GameStates Number) (u : Umpire Number)
      → flips_from success u.state ≡ true
      → EventView action u (judge fault action success state u)
  unfolding judge progress_on_the_rally next_turn_player compute_lost_score
  view-judge (some fault) action success state u h = view-end_or_service _ fault action _ u
  view-judge none action success state u h = (refl, h, refl)

module _ {Number : Type 0} (at_most : Number → Number → Bool) where
  view-judge_service :
      (fault : Option FaultEvents) (attempt : ℕ) (action : PlayerAction Number) (u : Umpire Number)
      → consider_service_soft_fault at_most u.config action attempt ≡ fault
      → u.state ≡ waiting_for_service attempt
      → EventView action u (judge_service at_most fault attempt action u)
  unfolding judge_service consider_service_soft_fault
  view-judge_service none attempt action u e s = view-judge _ action _ rally u (rw s refl)
  view-judge_service (some fault) attempt action u e s =
      (refl, (attempt, s, ltb→lt attempt 3 (if_some (ltb attempt 3) _ e), refl, refl))

  -- The right player's turn, in a match that is not over.
  abbrev Viewed :
      PlayerAction Number → Umpire Number → Eval (PingPongEvent Number × Umpire Number) → Type 0
  Viewed action u panic = ⊥
  Viewed action u (done result) = EventView action u result

  chosen :
      (action : PlayerAction Number) (u : Umpire Number) (right : Bool)
      (e wrong : Eval (PingPongEvent Number × Umpire Number))
      → right ≡ true
      → Viewed action u e
      → Viewed action u (if right then e else wrong)
  chosen action u true e wrong h v = v
  chosen action u false e wrong h v = absurd (true≢false (sym h))

  view-process_right_turn :
      (state : GameStates Number) (action : PlayerAction Number) (u : Umpire Number)
      → u.state ≡ state
      → is_over state ≡ false
      → Viewed action u (process_right_turn at_most state action u)
  unfolding process_right_turn
  view-process_right_turn (waiting_for_service attempt) action u s o =
      view-judge_service _ attempt action u refl s
  view-process_right_turn rally action u s o =
      view-judge _ action successful_rebate u.state u (rw s refl)
  view-process_right_turn (game_over over) action u s o = absurd (true≢false o)

  view-process_turn :
      (action : PlayerAction Number) (u : Umpire Number)
      → u.turn_player ≡ ourself
      → is_over u.state ≡ false
      → Viewed action u (process_turn at_most u ourself action)
  unfolding process_turn
  view-process_turn action u t o =
      chosen action u (same_player u.turn_player ourself) _ _ (ap (λ p. same_player p ourself) t)
        (view-process_right_turn u.state action u refl o)

  both :
      (action : PlayerAction Number) (u : Umpire Number)
      (e : Eval (PingPongEvent Number × Umpire Number))
      → Ruled u e
      → Viewed action u e
      → (result : PingPongEvent Number × Umpire Number) × (e ≡ done result)
        × FairTurn u result
        × EventView action u result
  both action u panic r v = absurd r
  both action u (done result) r v = (result, refl, r, v)

  -- Whoever's turn it is takes it: the umpire rules, and says what happened.
  pub viewed_turn :
      (action : PlayerAction Number) (u : Umpire Number)
      → u.turn_player ≡ ourself
      → is_over u.state ≡ false
      → Fair u
      → (result : PingPongEvent Number × Umpire Number) × (process_turn at_most u ourself action
          ≡ done result)
        × FairTurn u result
        × EventView action u result
  viewed_turn action u t o f =
      both action u _ (Ruled-process_turn at_most u ourself action o f)
        (view-process_turn action u t o)
