-- ===== src/Service/Routing/Lifecycle.antt =====
-- The life of one connection in a service: the abstract automaton that a routing task's effects follow.
use reactive_messaging.Prelude.{
  ℕ, ◌≡◌, refl, List, [], ◌∷◌, ◌++◌, Bool, true, false, Option, none, some, ◌==◌,
}
use reactive_messaging.Service.Routing.{
  connected, disconnected, local_service_termination, Effect, notified, routed, dropped, shut_down,
}

-- Not announced yet; announced, with the service or its processors; announced as left; its socket shut
-- down; lost to a processor that is gone.
pub data Life : Type 0 where
  unseen : Life
  present : Life
  leaving : Life
  gone : Life
  lost : Life

abbrev pub live_on : (Life → Option Life) → Option Life → Option Life
live_on f none = none
live_on f (some l) = f l

live_on-some : (o : Option Life) → live_on some o ≡ o
live_on-some none = refl
live_on-some (some l) = refl

live_on-live_on :
    {f : Life → Option Life} (g h : Life → Option Life)
    → ((l : Life) → f l ≡ live_on h (g l))
    → (o : Option Life) → live_on f o ≡ live_on h (live_on g o)
live_on-live_on g h e none = refl
live_on-live_on g h e (some l) = e l

module _ {StateType Sender : Type 0} where
  -- Whether an effect is about the connection of an identifier.
  abbrev pub concerns : ℕ → Effect StateType Sender → Bool
  concerns n (notified (connected c)) = c.id == n
  concerns n (notified (disconnected c)) = c.id == n
  concerns n (notified local_service_termination) = false
  concerns n (routed sender c) = c.id == n
  concerns n (dropped sender c) = c.id == n
  concerns n (shut_down c) = c.id == n

  -- What may happen next: announced first, then routed as often as one likes, at last either lost, or
  -- announced as left and then shut down.
  abbrev pub advance : Effect StateType Sender → Life → Option Life
  advance (notified (connected c)) unseen = some present
  advance (routed sender c) present = some present
  advance (dropped sender c) present = some lost
  advance (notified (disconnected c)) present = some leaving
  advance (shut_down c) leaving = some gone
  advance _ _ = none

  abbrev pub advance_if : Bool → Effect StateType Sender → Life → Option Life
  advance_if true effect l = advance effect l
  advance_if false effect l = some l

  -- The life that the effects on a connection lead, in order, if the automaton allows it.
  abbrev pub lives : ℕ → List (Effect StateType Sender) → Life → Option Life
  lives n [] l = some l
  lives n (effect ∷ effects) l = live_on (lives n effects) (advance_if (concerns n effect) effect l)

  pub lives-snoc :
      (n : ℕ) (effects : List (Effect StateType Sender)) (effect : Effect StateType Sender)
      (l : Life)
      → lives n (effects ++ effect ∷ []) l
        ≡ live_on (advance_if (concerns n effect) effect) (lives n effects l)
  lives-snoc n [] effect l = live_on-some (advance_if (concerns n effect) effect l)
  lives-snoc n (first ∷ effects) effect l =
      live_on-live_on _ _ (lives-snoc n effects effect) (advance_if (concerns n first) first l)
