-- ===== src/Game/Scores.antt =====
-- A match comes to its end when a player has the points for it, and not before.
use reactive_messaging.Prelude.{
  ℕ, suc, ◌+◌, ◌<◌, ◌≤◌, ◌^◌, ◌≡◌, ◌⊎◌, inl, inr, refl, ◌∙◌, arith, Bool, true, false, ◌||◌, leb,
  one,
}
use native.Mathlib.Nat.{mod-eq_of_lt}
use reactive_messaging.Game.Models.{
  MatchScore, gracefully_ended, game_cancelled, GameStates, waiting_for_service, rally, game_over,
}
use reactive_messaging.Game.Events as Events
use reactive_messaging.Game.Events.{
  Players, ourself, opponent, PingPongEvent, turn_flip, hard_fault, soft_fault,
}
use reactive_messaging.Game.Umpire.{Umpire, point_against, next_u32}

-- No player has the points to end the match.
abbrev pub Undecided : MatchScore → Type 0
Undecided s = (s.oneself < s.limit) × (s.opponent < s.limit)

-- One player has them, and just so, and the other has not.
abbrev pub Decided : MatchScore → Type 0
Decided s =
    ((s.oneself ≡ s.limit) × (s.opponent < s.limit))
    ⊎ ((s.oneself < s.limit) × (s.opponent ≡ s.limit))

abbrev pub points : MatchScore → ℕ
points s = s.oneself + s.opponent

-- One point more, against a player.
abbrev pub AlmostDecided : MatchScore → Type 0
AlmostDecided s =
    ((s.oneself ≤ s.limit) × (s.opponent < s.limit))
    ⊎ ((s.oneself < s.limit) × (s.opponent ≤ s.limit))

pub next_u32-lem : (n limit : ℕ) → n < limit → limit < 2 ^ 32 → next_u32 n ≡ suc n
next_u32-lem n limit h k = mod-eq_of_lt (small n limit h k) ∙ omega arith
  where
    small : (n limit : ℕ) → n < limit → limit < 2 ^ 32 → n + 1 < 2 ^ 32
    small n limit h k = omega arith

pub pointed :
    (player : Players) (s : MatchScore)
    → s.limit < 2 ^ 32
    → Undecided s
    → AlmostDecided (point_against player s)
      × (points (point_against player s) ≡ suc (points s))
      × ((point_against player s).limit ≡ s.limit)
pointed ourself s r (a, b) =
    let e = next_u32-lem s.opponent s.limit b r in
    (inr (a, omega (arith, e)), omega (arith, e), refl)
pointed opponent s r (a, b) =
    let e = next_u32-lem s.oneself s.limit a r in
    (inl (omega (arith, e), b), omega (arith, e), refl)

pub reached : (l x y : ℕ) → (leb l x || leb l y) ≡ true → (l ≤ x) ⊎ (l ≤ y)
reached l x y e = ground arith

pub not_reached : (l x y : ℕ) → (leb l x || leb l y) ≡ false → (x < l) × (y < l)
not_reached l x y e = ground arith

pub reached-Decided :
    (s : MatchScore) → AlmostDecided s → (s.limit ≤ s.oneself) ⊎ (s.limit ≤ s.opponent) → Decided s
reached-Decided s (inl (a, b)) (inl h) = inl (omega arith, b)
reached-Decided s (inl (a, b)) (inr h) = absurd (omega arith)
reached-Decided s (inr (a, b)) (inl h) = absurd (omega arith)
reached-Decided s (inr (a, b)) (inr h) = inr (a, omega arith)

module _ {Number : Type 0} where
  abbrev pub StateFits : MatchScore → GameStates Number → Type 0
  StateFits s (waiting_for_service attempt) = Undecided s × (1 ≤ attempt) × (attempt ≤ 3)
  StateFits s rally = Undecided s
  StateFits s (game_over (gracefully_ended final action fault)) = (final ≡ s) × Decided s
  StateFits s (game_over (game_cancelled partial rule)) = (partial ≡ s) × Undecided s

  -- A match that keeps to its rules, up to a limit that a `u32` holds.
  pub record Fair (u : Umpire Number) : Type 0 where
    pub limited : u.score.limit ≡ u.config.score_limit
    pub in_range : u.score.limit < 2 ^ 32
    pub fits : StateFits u.score u.state

  -- The points that an event says are won.
  abbrev pub is_point : PingPongEvent Number → Bool
  is_point (turn_flip action event) = false
  is_point (hard_fault action fault) = false
  is_point (soft_fault action fault) = false
  is_point (Events.score player action fault) = true
  is_point (Events.game_over (gracefully_ended score action fault)) = true
  is_point (Events.game_over (game_cancelled score rule)) = false

  -- The events after which `process_turn()` is not to be called again, and the states.
  abbrev pub is_end : PingPongEvent Number → Bool
  is_end (turn_flip action event) = false
  is_end (hard_fault action fault) = false
  is_end (soft_fault action fault) = false
  is_end (Events.score player action fault) = false
  is_end (Events.game_over over) = true

  abbrev pub is_over : GameStates Number → Bool
  is_over (game_over over) = true
  is_over (waiting_for_service attempt) = false
  is_over rally = false

  -- A turn keeps the match fair, and its event says what it adds to the points and whether the match is
  -- over.
  abbrev pub FairTurn : Umpire Number → PingPongEvent Number × Umpire Number → Type 0
  FairTurn u (event, u') =
      Fair u'
      × (points u'.score ≡ one (is_point event) + points u.score)
      × (is_end event ≡ is_over u'.state)
