-- ===== src/Game/Match.antt =====
-- A whole match: the turns that players take, until the umpire says that the match is over.
use reactive_messaging.Prelude.{
  ◌+◌, ◌*◌, ◌<◌, ◌≤◌, ◌^◌, ◌≡◌, inl, inr, refl, sym, ◌∙◌, arith, List, [], ◌∷◌, Bool, true, false,
  Eval, done, panic, ◌>>=◌, if◌then◌else◌, one, count,
}
use reactive_messaging.Game.Models.{
  PlayerAction, MatchConfig, MatchScore, gracefully_ended, game_cancelled, GameStates,
  waiting_for_service, rally, game_over,
}
use reactive_messaging.Game.Events as Events
use reactive_messaging.Game.Events.{Players, PingPongEvent}
use reactive_messaging.Game.Umpire.{Umpire, new, other, process_turn}
use reactive_messaging.Game.Mirror.{mirror, mirror_event, mirrored, process_turn-mirror}
use reactive_messaging.Game.Turns.{Ruled, Ruled-process_turn}
use reactive_messaging.Game.Scores.{
  StateFits, points, Fair, FairTurn, is_point, is_end, is_over, Decided,
}

points-Decided : (s : MatchScore) → Decided s → points s < 2 * s.limit
points-Decided s (inl (a, b)) = omega arith
points-Decided s (inr (a, b)) = omega arith

points_bound :
    {Number : Type 0} (state : GameStates Number) (s : MatchScore)
    → StateFits s state
    → points s < 2 * s.limit
points_bound (waiting_for_service attempt) s ((a, b), _, _) = omega arith
points_bound rally s (a, b) = omega arith
points_bound (game_over (gracefully_ended final action fault)) s (e, d) = points-Decided s d
points_bound (game_over (game_cancelled partial rule)) s (e, (a, b)) = omega arith

module _ {Number : Type 0} where
  abbrev pub other_side :
      List (Players × PlayerAction Number) → List (Players × PlayerAction Number)
  other_side [] = []
  other_side ((player, action) ∷ more) = (other player, action) ∷ other_side more

  abbrev pub mirror_events : List (PingPongEvent Number) → List (PingPongEvent Number)
  mirror_events [] = []
  mirror_events (event ∷ events) = mirror_event event ∷ mirror_events events

  abbrev pub mirrored_match :
      Eval (List (PingPongEvent Number) × Umpire Number)
      → Eval (List (PingPongEvent Number) × Umpire Number)
  mirrored_match panic = panic
  mirrored_match (done (events, u)) = done (mirror_events events, mirror u)

  mirror-is_end : (event : PingPongEvent Number) → is_end (mirror_event event) ≡ is_end event
  mirror-is_end (Events.turn_flip action event) = refl
  mirror-is_end (Events.hard_fault action fault) = refl
  mirror-is_end (Events.soft_fault action fault) = refl
  mirror-is_end (Events.score player action fault) = refl
  mirror-is_end (Events.game_over over) = refl

module _ {Number : Type 0} (at_most : Number → Number → Bool) where
  abbrev Played : Type 0
  Played = List (PingPongEvent Number) × Umpire Number

  abbrev with_event : PingPongEvent Number → Played → Played
  with_event event (events, u) = (event ∷ events, u)

  -- Whoever takes a turn, with his action.
  unfoldable pub play :
      List (Players × PlayerAction Number)
      → Umpire Number
      → Eval (List (PingPongEvent Number) × Umpire Number)
  play [] u = done ([], u)
  play ((player, action) ∷ more) u = process_turn at_most u player action >>= λ (event, u').
      let rest = play more u' in
      if is_end event
      then done (event ∷ [], u')
      else (rest >>= λ played. done (with_event event played))

  -- What a match comes to from an umpire's state.
  abbrev PlayedFrom : Umpire Number → Eval (List (PingPongEvent Number) × Umpire Number) → Type 0
  PlayedFrom u e =
      (events : List (PingPongEvent Number)) × (u' : Umpire Number) × (e ≡ done (events, u'))
      × Fair u'
      × (points u'.score ≡ count is_point events + points u.score)

  ruled :
      (u : Umpire Number) (e : Eval (PingPongEvent Number × Umpire Number))
      → Ruled u e
      → (result : PingPongEvent Number × Umpire Number) × (e ≡ done result) × FairTurn u result
  ruled u panic h = absurd h
  ruled u (done result) h = (result, refl, h)

  abbrev after :
      Bool
      → PingPongEvent Number
      → Umpire Number
      → Eval (List (PingPongEvent Number) × Umpire Number)
      → Eval (List (PingPongEvent Number) × Umpire Number)
  after ends event u' rest =
      if ends then done (event ∷ [], u') else (rest >>= λ played. done (with_event event played))

  PlayedFrom-after :
      (ends : Bool) (event : PingPongEvent Number) (u u' : Umpire Number)
      (rest : Eval (List (PingPongEvent Number) × Umpire Number))
      → Fair u'
      → points u'.score ≡ one (is_point event) + points u.score
      → (ends ≡ false → PlayedFrom u' rest)
      → PlayedFrom u (after ends event u' rest)
  PlayedFrom-after true event u u' rest f p h = (event ∷ [], u', refl, f, omega (arith, p))
  PlayedFrom-after false event u u' rest f p h =
      let (events, u'', e, f'', p'') = h refl in
      (event ∷ events, u'', rw e refl, f'', omega (arith, p, p''))

  play-Fair :
      (turns : List (Players × PlayerAction Number)) (u : Umpire Number)
      → is_over u.state ≡ false
      → Fair u
      → PlayedFrom u (play turns u)
  unfolding play
  play-Fair [] u o f = ([], u, refl, f, omega arith)
  play-Fair ((player, action) ∷ more) u o f =
      let ((event, u'), e, (f', p, ends)) =
        ruled u _ (Ruled-process_turn at_most u player action o f) in
      rw e (
        PlayedFrom-after (is_end event) event u u' (play more u') f' p
          (λ going. play-Fair more u' (sym ends ∙ going) f'))

  -- A new match to a limit from 1 on, within 32 bits, whoever takes its turns: the umpire rules them all,
  -- until he says that it is over, without a panic. The match is fair then: nobody has more points than
  -- the limit, it ended gracefully exactly if one player has that many, and a service is at its third
  -- attempt at most. The points of both are as many as the events told, and fewer than twice the limit.
  pub match-Fair :
      (config : MatchConfig Number) (first : Players) (turns : List (Players × PlayerAction Number))
      → 1 ≤ config.score_limit
      → config.score_limit < 2 ^ 32
      → (events : List (PingPongEvent Number)) × (u : Umpire Number) × (play turns
            (new config first)
          ≡ done (events, u))
        × Fair u
        × (points u.score ≡ count is_point events)
        × (points u.score < 2 * u.score.limit)
  unfolding new
  match-Fair config first turns low high =
      let start : Fair (new config first) = record {
        limited = refl;
        in_range = high;
        fits = ((low, low), omega arith, omega arith);
      } in
      let (events, u, e, f, p) = play-Fair turns (new config first) refl start in
      (events, u, e, f, omega (arith, p), points_bound u.state u.score f.fits)

  mirror-after :
      (ends : Bool) (event : PingPongEvent Number) (u' : Umpire Number)
      (rest : Eval (List (PingPongEvent Number) × Umpire Number))
      → after ends (mirror_event event) (mirror u') (mirrored_match rest)
        ≡ mirrored_match (after ends event u' rest)
  mirror-after true event u' rest = refl
  mirror-after false event u' panic = refl
  mirror-after false event u' (done (events, u)) = refl

  agree :
      (turns : List (Players × PlayerAction Number))
      (e : Eval (PingPongEvent Number × Umpire Number))
      → ((u : Umpire Number) → play (other_side turns) (mirror u) ≡ mirrored_match (play turns u))
      → (mirrored e >>= λ (event, u'). after (is_end event) event u' (play (other_side turns) u'))
        ≡ mirrored_match (e >>= λ (event, u'). after (is_end event) event u' (play turns u'))
  agree turns panic h = refl
  agree turns (done (event, u')) h =
      rw (mirror-is_end event) (rw (h u') (mirror-after (is_end event) event u' (play turns u')))

  -- The two umpires of a match, one for each player, agree to its end: whatever turns the players take,
  -- the events and the match of the one are the mirror image of the other's.
  pub umpires_agree :
      (turns : List (Players × PlayerAction Number)) (u : Umpire Number)
      → play (other_side turns) (mirror u) ≡ mirrored_match (play turns u)
  unfolding play
  umpires_agree [] u = refl
  umpires_agree ((player, action) ∷ more) u =
      rw (process_turn-mirror at_most player action u)
        (agree more (process_turn at_most u player action) (umpires_agree more))
