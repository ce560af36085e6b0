-- ===== src/Game/Honest.antt =====
-- Two honest players: the reaction to what the other reports.
use reactive_messaging.Prelude.{
  ℕ, zero, suc, ◌+◌, ◌<◌, ◌≤◌, ◌≡◌, refl, sym, ap, ◌∙◌, arith, [], ◌∷◌, Option, some, Eval, done,
  ◌>>=◌, length, if◌then◌else◌,
}
use reactive_messaging.Game.Models.{PlayerAction, GameStates, waiting_for_service, rally, game_over}
use reactive_messaging.Game.Events as Events
use reactive_messaging.Game.Events.{
  Players, ourself, opponent, PingPongEvent, turn_flip, hard_fault, soft_fault,
}
use reactive_messaging.Game.Umpire.{Umpire, next_u32}
use reactive_messaging.Game.Scores.{is_over, Fair, next_u32-lem}
use reactive_messaging.Game.Views.{EventView, viewed_turn}
use reactive_messaging.Game.Reactions.{Chance, Reacted, is_soft, served_before, service_ball}

abbrev attempt_of : {Number : Type 0} → GameStates Number → ℕ
attempt_of (waiting_for_service attempt) = attempt
attempt_of rally = 0
attempt_of (game_over over) = 0

abbrev served_first :
    {Number Source : Type 0} → PingPongEvent Number → Reacted Number Source → Reacted Number Source
served_first event r = record r { events = event ∷ r.events }

module _ {Number Source : Type 0} (chance : Chance Number Source) where
  abbrev Served : ℕ → Eval (Option (Reacted Number Source)) → Type 0
  Served fuel e =
      (r : Reacted Number Source) × (e ≡ done (some r)) × (length r.events ≤ fuel) × Fair r.umpire

  abbrev one_event : PingPongEvent Number → Umpire Number → Source → Reacted Number Source
  one_event event u source = record { events = event ∷ []; umpire = u; source = source }

  after_service :
      (fuel attempt : ℕ) (action : PlayerAction Number) (u : Umpire Number)
      (event : PingPongEvent Number) (u' : Umpire Number) (source : Source)
      (rest : Eval (Option (Reacted Number Source)))
      → u.state ≡ waiting_for_service attempt
      → Fair u'
      → EventView action u (event, u')
      → (attempt < 3
          → u'.turn_player ≡ u.turn_player
          → u'.state ≡ waiting_for_service (suc attempt)
          → Served fuel rest)
      → Served (suc fuel) (
          if is_soft event
          then (rest >>= λ served. done (served_before event served))
          else done (some (one_event event u' source)))
  after_service fuel attempt action u (turn_flip a flip) u' source rest s f v more =
      (one_event (turn_flip a flip) u' source, refl, omega arith, f)
  after_service fuel attempt action u (hard_fault a fault) u' source rest s f v more = absurd v
  after_service fuel attempt action u (soft_fault a fault) u' source rest s f (e, repeat) more =
      let (attempt', s', low, next, turn) = repeat in
      let same : attempt' ≡ attempt = ap attempt_of (sym s' ∙ s) in
      let counted : next_u32 attempt' ≡ suc attempt =
        next_u32-lem attempt' 3 low (omega arith) ∙ ap suc same in
      let (r, done_r, short, fair) =
        more (omega (arith, low, same)) turn (next ∙ ap waiting_for_service counted) in
      (served_first (soft_fault a fault) r, rw done_r refl, omega (arith, short), fair)
  after_service fuel attempt action u (Events.score p a fault) u' source rest s f v more =
      (one_event (Events.score p a fault) u' source, refl, omega arith, f)
  after_service fuel attempt action u (Events.game_over over) u' source rest s f v more =
      (one_event (Events.game_over over) u' source, refl, omega arith, f)

  -- Whatever numbers come up, who is to service, at an attempt of three, services: there is no panic, and
  -- the loop ends after as many events as attempts are left, at most.
  pub service_ball_ends :
      (fuel attempt : ℕ) (u : Umpire Number) (source : Source)
      → u.turn_player ≡ ourself
      → u.state ≡ waiting_for_service attempt
      → 4 ≤ fuel + attempt
      → attempt ≤ 3
      → Fair u
      → (r : Reacted Number Source) × (service_ball chance fuel u source ≡ done (some r))
        × (length r.events ≤ fuel)
        × Fair r.umpire
  unfolding service_ball
  service_ball_ends zero attempt u source t s enough low f = absurd (omega arith)
  service_ball_ends (suc fuel) attempt u source t s enough low f =
      let (our_action, source') = chance.act source in
      let ((event, u'), e, fair, view) =
        viewed_turn chance.at_most our_action u t (ap is_over s) f in
      rw e (
        after_service fuel attempt our_action u event u' source'
          (service_ball chance fuel u' source') s fair.0 view
          (λ below turn next.
            service_ball_ends fuel (suc attempt) u' source' (turn ∙ t) next (omega arith)
              (omega arith) fair.0))
