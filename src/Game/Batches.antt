-- ===== src/Game/Batches.antt =====
-- What a player says in one go: the soft faults of his services, if any, and an event after which it is not
-- his turn to service again, or a soft fault.
use reactive_messaging.Prelude.{
  ℕ, zero, suc, ◌+◌, ◌<◌, ◌≤◌, ◌≡◌, refl, sym, ap, ◌∙◌, arith, List, [], ◌∷◌, inl, inr, true, false,
  Option, some, Eval, done, ◌>>=◌, if◌then◌else◌,
}
use reactive_messaging.Game.Models.{
  PlayerAction, FaultEvents, MatchScore, gracefully_ended, game_cancelled, GameStates,
  waiting_for_service, rally, game_over,
}
use reactive_messaging.Game.Events as Events
use reactive_messaging.Game.Events.{
  Players, ourself, opponent, PingPongEvent, turn_flip, hard_fault, soft_fault,
}
use reactive_messaging.Game.Umpire.{Umpire, other, next_u32, process_turn}
use reactive_messaging.Game.Mirror.{mirror, mirror_score, mirror_state}
use reactive_messaging.Game.Scores.{StateFits, Fair, FairTurn, is_over, next_u32-lem}
use reactive_messaging.Game.Views.{EventView, viewed_turn}
use reactive_messaging.Game.Reactions.{
  Chance, Reacted, take_turn, is_soft, served_before, service_ball,
}

other-other : (player : Players) → other (other player) ≡ player
other-other ourself = refl
other-other opponent = refl

module _ {Number : Type 0} where
  mirror_state_twice : (state : GameStates Number) → mirror_state (mirror_state state) ≡ state
  mirror_state_twice (waiting_for_service attempt) = refl
  mirror_state_twice rally = refl
  mirror_state_twice (game_over (gracefully_ended score action fault)) = refl
  mirror_state_twice (game_over (game_cancelled score rule)) = refl

  pub mirror-mirror : (u : Umpire Number) → mirror (mirror u) ≡ u
  mirror-mirror u = rw (mirror_state_twice u.state) (rw (other-other u.turn_player) refl)

  fits-mirror :
      (s : MatchScore) (state : GameStates Number)
      → StateFits s state
      → StateFits (mirror_score s) (mirror_state state)
  fits-mirror s (waiting_for_service attempt) ((a, b), l, h) = ((b, a), l, h)
  fits-mirror s rally (a, b) = (b, a)
  fits-mirror s (game_over (gracefully_ended score action fault)) (e, inl (a, b)) =
      (ap mirror_score e, inr (b, a))
  fits-mirror s (game_over (gracefully_ended score action fault)) (e, inr (a, b)) =
      (ap mirror_score e, inl (b, a))
  fits-mirror s (game_over (game_cancelled score rule)) (e, (a, b)) = (ap mirror_score e, (b, a))

  -- Who is to take his turn, in a fair match that goes on.
  pub record Ready (u : Umpire Number) : Type 0 where
    pub turn : u.turn_player ≡ ourself
    pub going : is_over u.state ≡ false
    pub fair : Fair u

  is_over-mirror : (state : GameStates Number) → is_over (mirror_state state) ≡ is_over state
  is_over-mirror (waiting_for_service attempt) = refl
  is_over-mirror rally = refl
  is_over-mirror (game_over over) = refl

  -- The other player, where the turn went to him.
  pub handed_over :
      (u : Umpire Number)
      → u.turn_player ≡ opponent
      → is_over u.state ≡ false
      → Fair u
      → Ready (mirror u)
  handed_over u t o f = record {
    turn = ap other t;
    going = is_over-mirror u.state ∙ o;
    fair = record {
      limited = f.limited;
      in_range = f.in_range;
      fits = fits-mirror u.score u.state f.fits;
    };
  }

module _ {Number Source : Type 0} (chance : Chance Number Source) where
  -- A turn that a player takes, with what his umpire says of it.
  pub record Turn (u : Umpire Number) (action : PlayerAction Number) (event : PingPongEvent Number)
      (u' : Umpire Number) : Type 0 where
    pub ready : Ready u
    pub same : chance.same action.lucky_number action.lucky_number ≡ true
    pub ruled : process_turn chance.at_most u ourself action ≡ done (event, u')
    pub fair : FairTurn u (event, u')
    pub view : EventView action u (event, u')

  pub data Batch : List (PingPongEvent Number) → Umpire Number → Umpire Number → Type 0 where
    last :
        {u : Umpire Number} (action : PlayerAction Number) (event : PingPongEvent Number)
        {u' : Umpire Number}
        → Turn u action event u'
        → Batch (event ∷ []) u u'
    again :
        {u : Umpire Number} (action a : PlayerAction Number) (fault : FaultEvents)
        {u' u'' : Umpire Number} {events : List (PingPongEvent Number)}
        → Turn u action (soft_fault a fault) u'
        → Batch events u' u''
        → Batch (soft_fault a fault ∷ events) u u''

  -- Every number that comes up equals itself.
  abbrev pub Steady : Type 0
  Steady =
      (source : Source)
      → chance.same (chance.act source).0.lucky_number (chance.act source).0.lucky_number ≡ true

  turned :
      Steady
      → (u : Umpire Number) (source : Source) → Ready u
      → (event : PingPongEvent Number) × (u' : Umpire Number) × Turn u
          (chance.act source).0
          event
          u'
  turned steady u source r =
      let ((event, u'), e, f, v) =
        viewed_turn chance.at_most (chance.act source).0 u r.turn r.going r.fair in
      (event, u', record { ready = r; same = steady source; ruled = e; fair = f; view = v })

  pub take_turn-Batch :
      Steady
      → (u : Umpire Number) (source : Source) → Ready u
      → (r : Reacted Number Source) × (take_turn chance u source ≡ done r)
        × Batch r.events u r.umpire
  unfolding take_turn
  take_turn-Batch steady u source r =
      let (event, u', t) = turned steady u source r in
      (
        record { events = event ∷ []; umpire = u'; source = (chance.act source).1 },
        rw t.ruled refl,
        last (chance.act source).0 event t,
      )

  -- The player services on after a soft fault.
  services_on :
      (u : Umpire Number) (action a : PlayerAction Number) (fault : FaultEvents)
      (u' : Umpire Number)
      → Turn u action (soft_fault a fault) u'
      → Ready u'
  services_on u action a fault u' t =
      let (here, (attempt, s, low, next, same)) = t.view in
      record { turn = same ∙ t.ready.turn; going = sym t.fair.2; fair = t.fair.0 }

  abbrev attempt_of : GameStates Number → ℕ
  attempt_of (waiting_for_service attempt) = attempt
  attempt_of rally = 0
  attempt_of (game_over over) = 0

  -- The next attempt, where one is left.
  next_attempt :
      (u : Umpire Number) (action a : PlayerAction Number) (fault : FaultEvents)
      (u' : Umpire Number) (attempt : ℕ)
      → Turn u action (soft_fault a fault) u'
      → u.state ≡ waiting_for_service attempt
      → (attempt < 3) × (u'.state ≡ waiting_for_service (suc attempt))
  next_attempt u action a fault u' attempt t s =
      let (here, (attempt', s', low, next, turn)) = t.view in
      let same : attempt' ≡ attempt = ap attempt_of (sym s' ∙ s) in
      let counted : next_u32 attempt' ≡ suc attempt =
        next_u32-lem attempt' 3 low (omega arith) ∙ ap suc same in
      (omega (arith, low, same), next ∙ ap waiting_for_service counted)

  abbrev Served : Umpire Number → Eval (Option (Reacted Number Source)) → Type 0
  Served u e = (r : Reacted Number Source) × (e ≡ done (some r)) × Batch r.events u r.umpire

  after_service :
      (action : PlayerAction Number) (u : Umpire Number) (event : PingPongEvent Number)
      (u' : Umpire Number) (source : Source) (rest : Eval (Option (Reacted Number Source)))
      → Turn u action event u'
      → ((a : PlayerAction Number) (fault : FaultEvents)
          → Turn u action (soft_fault a fault) u'
          → Served u' rest)
      → Served u (
          if is_soft event
          then (rest >>= λ served. done (served_before event served))
          else done (some (record { events = event ∷ []; umpire = u'; source = source })))
  after_service action u (turn_flip a flip) u' source rest t more =
      (_, refl, last action (turn_flip a flip) t)
  after_service action u (hard_fault a fault) u' source rest t more = absurd t.view
  after_service action u (soft_fault a fault) u' source rest t more =
      let (r, e, batch) = more a fault t in
      (record r { events = soft_fault a fault ∷ r.events }, rw e refl, again action a fault t batch)
  after_service action u (Events.score p a fault) u' source rest t more =
      (_, refl, last action (Events.score p a fault) t)
  after_service action u (Events.game_over over) u' source rest t more =
      (_, refl, last action (Events.game_over over) t)

  pub service_ball-Batch :
      Steady
      → (fuel attempt : ℕ) (u : Umpire Number) (source : Source)
      → u.state ≡ waiting_for_service attempt
      → 4 ≤ fuel + attempt
      → attempt ≤ 3
      → Ready u
      → Served u (service_ball chance fuel u source)
  unfolding service_ball
  service_ball-Batch steady zero attempt u source s enough low r = absurd (omega arith)
  service_ball-Batch steady (suc fuel) attempt u source s enough low r =
      let (event, u', t) = turned steady u source r in
      let source' = (chance.act source).1 in
      rw t.ruled (
        after_service (chance.act source).0 u event u' source' (service_ball chance fuel u' source')
          t
          (λ a fault t.
            let (below, next) = next_attempt u (chance.act source).0 a fault u' attempt t s in
            service_ball-Batch steady fuel (suc attempt) u' source' next (omega arith) (omega arith)
              (services_on u (chance.act source).0 a fault u' t)))
