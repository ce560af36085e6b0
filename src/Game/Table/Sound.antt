-- ===== src/Game/Table/Sound.antt =====
-- Where a match between an honest client and an honest server is, and what they say in turn.
use reactive_messaging.Prelude.{
  ℕ, ◌≤◌, ◌≡◌, ◌⊎◌, inl, inr, refl, sym, ap, ◌∙◌, subst, arith, List, [], ◌∷◌, ◌++◌, Bool, true,
  false, Option, some, Eval, done,
}
use reactive_messaging.Game.Models.{PlayerAction, gracefully_ended, game_cancelled}
use reactive_messaging.Game.Events as Events
use reactive_messaging.Game.Events.{
  ourself, opponent, PingPongEvent, turn_flip, hard_fault, soft_fault,
}
use reactive_messaging.Game.Umpire.{Umpire, other}
use reactive_messaging.Game.Mirror.{mirror, mirror_state}
use reactive_messaging.Game.Scores.{is_over}
use reactive_messaging.Game.ClientMessages as ClientMessages
use reactive_messaging.Game.ClientMessages.{GameClientMessages, endorsed_score}
use reactive_messaging.Game.ServerMessages as ServerMessages
use reactive_messaging.Game.ServerMessages.{GameServerMessages, game_started, good_bye}
use reactive_messaging.Game.Dialogs.{
  Answered, map_events, to_answer, saying, server_answer, client_answer,
}
use reactive_messaging.Game.Fairplay.{fair_answer}
use reactive_messaging.Game.Reactions.{Chance, Reacted}
use reactive_messaging.Game.Batches.{
  mirror-mirror, Ready, handed_over, Turn, Batch, Steady, take_turn-Batch, service_ball-Batch,
}
use reactive_messaging.Game.Table.{
  Side, Table, until_stop, answered, server_stops, client_stops, server_closes, client_closes,
  ◌>>=?◌,
}

module _ {Number Source : Type 0} where
  abbrev pub side :
      {Incoming : Type 0}
      → Umpire Number
      → Source
      → Bool
      → List Incoming
      → Side Incoming Number Source
  side umpire source listening inbox = record {
    umpire = umpire;
    source = source;
    listening = listening;
    inbox = inbox;
  }

  abbrev pub table :
      Side (GameServerMessages Number) Number Source
      → Side (GameClientMessages Number) Number Source
      → Table Number Source
  table client server = record { client = client; server = server }

module _ {Number : Type 0} where
  pub events_pass :
      {Message : Type 0} (stops : Message → Bool) (message : PingPongEvent Number → Message)
      → ((event : PingPongEvent Number) → stops (message event) ≡ false)
      → (events : List (PingPongEvent Number))
      → until_stop stops (map_events message events) ≡ (map_events message events, true)
  events_pass stops message passes [] = refl
  events_pass stops message passes (event ∷ events) =
      rw (passes event) (rw (events_pass stops message passes events) refl)

module _ {Number Source : Type 0} (chance : Chance Number Source) where
  -- Where a match is: what is on its way, and to whom, and how the umpires stand.
  pub data Sound : Table Number Source → Type 0 where
    begins :
        (u : Umpire Number) (c s : Source)
        → Ready u
        → Sound (table (side u c true (game_started ∷ [])) (side (mirror u) s true []))
    client_spoke :
        (events : List (PingPongEvent Number)) (u u' : Umpire Number) (c s : Source)
        → Batch chance events u u'
        → Sound (
            table
              (side u' c true [])
              (side (mirror u) s true (map_events ClientMessages.ping_pong_event events)))
    server_spoke :
        (events : List (PingPongEvent Number)) (u u' : Umpire Number) (c s : Source)
        → Batch chance events u u'
        → Sound (
            table
              (side (mirror u) c true (map_events ServerMessages.ping_pong_event events))
              (side u' s true []))
    -- after a soft fault that nobody follows up
    waits :
        (u v : Umpire Number) (c s : Source)
        → mirror u ≡ v
        → Sound (table (side u c true []) (side v s true []))
    endorses :
        (u v : Umpire Number) (c s : Source)
        → (is_over u.state ≡ true) ⊎ (is_over v.state ≡ true)
        → Sound (table (side u c true []) (side v s true (endorsed_score ∷ [])))
    leaves :
        (u v : Umpire Number) (c s : Source)
        → (is_over u.state ≡ true) ⊎ (is_over v.state ≡ true)
        → Sound (table (side u c true (good_bye ∷ [])) (side v s false []))
    closed :
        (u v : Umpire Number) (c s : Source)
        → (is_over u.state ≡ true) ⊎ (is_over v.state ≡ true)
        → Sound (table (side u c false []) (side v s false []))

  -- What is said in turn about the last event of a batch: something of one's own, nothing, or the farewell.
  pub data Reply {Message : Type 0} (message : PingPongEvent Number → Message)
      (farewell : List Message) (u u' : Umpire Number)
      : Eval (Option (Answered Message Number Source)) → Type 0 where
    replies :
        (r : Reacted Number Source)
        → Batch chance r.events (mirror u') r.umpire
        → Reply message farewell u u' (done (some (to_answer message r)))
    is_silent : (source : Source) → Reply message farewell u u' (saying [] (mirror u') source)
    takes_leave :
        (source : Source)
        → is_over u'.state ≡ true
        → Reply message farewell u u' (saying farewell (mirror u) source)

  module _ (steady : Steady chance) (fuel : ℕ) (enough : 3 ≤ fuel) where
    pub fair-Reply :
        {Message : Type 0} (message : PingPongEvent Number → Message) (farewell : List Message)
        (action : PlayerAction Number) (u : Umpire Number) (event : PingPongEvent Number)
        (u' : Umpire Number) (source : Source)
        → Turn chance u action event u'
        → Reply message farewell u u'
            (fair_answer chance message farewell fuel event (mirror u) (mirror u') source)
    fair-Reply message farewell action u (turn_flip a flip) u' source t =
        let (here, from, flipped) = t.view in
        let ready = handed_over u' (flipped ∙ ap other t.ready.turn) (sym t.fair.2) t.fair.0 in
        let (r, e, batch) = take_turn-Batch chance steady (mirror u') source ready in
        rw e (replies r batch)
    fair-Reply message farewell action u (hard_fault a fault) u' source t = absurd t.view
    fair-Reply message farewell action u (soft_fault a fault) u' source t = is_silent source
    fair-Reply message farewell action u (Events.score player a fault) u' source t =
        let (here, winner, flipped, serves) = t.view in
        let ready = handed_over u' (flipped ∙ ap other t.ready.turn) (sym t.fair.2) t.fair.0 in
        let (r, e, batch) =
          service_ball-Batch chance steady fuel 1 (mirror u') source (ap mirror_state serves)
            (omega arith) (omega arith) ready in
        rw e (replies r batch)
    fair-Reply message farewell action u (Events.game_over (gracefully_ended score a fault)) u'
          source t =
        takes_leave source (sym t.fair.2)
    fair-Reply message farewell action u (Events.game_over (game_cancelled score rule)) u' source
          t =
        absurd t.view

  abbrev pub Next : Eval (Option (Table Number Source)) → Type 0
  Next e = (t : Table Number Source) × (e ≡ done (some t)) × Sound t

  -- What the server's answer makes of the table, where it was the last message to it.
  pub server_replies :
      (u u' : Umpire Number) (c : Source)
      {e : Eval (Option (Answered (GameServerMessages Number) Number Source))}
      → Reply ServerMessages.ping_pong_event (good_bye ∷ []) u u' e
      → Next (
          (e >>=? λ a.
          done (some (answered server_stops server_closes (server_answer chance 0) false [] a)))
          >>=? λ (said, server). done (some (table (side u' c true ([] ++ said)) server)))
  server_replies u u' c (replies r batch) = (
    _,
    rw (events_pass server_stops ServerMessages.ping_pong_event (λ event. refl) r.events) refl,
    subst
        (λ v. Sound (
          table (side v c true (map_events ServerMessages.ping_pong_event r.events))
            (side r.umpire r.source true [])))
        (mirror-mirror u') (server_spoke r.events (mirror u') r.umpire c r.source batch),
  )
  server_replies u u' c (is_silent s) = (_, refl, waits u' (mirror u') c s refl)
  server_replies u u' c (takes_leave s ended) = (_, refl, leaves u' (mirror u) c s (inl ended))

  -- What the client's answer makes of it.
  pub client_replies :
      (u u' : Umpire Number) (s : Source)
      {e : Eval (Option (Answered (GameClientMessages Number) Number Source))}
      → Reply ClientMessages.ping_pong_event (endorsed_score ∷ []) u u' e
      → Next (
          (e >>=? λ a.
          done (some (answered client_stops client_closes (client_answer chance 0) false [] a)))
          >>=? λ (said, client). done (some (table client (side u' s true ([] ++ said)))))
  client_replies u u' s (replies r batch) = (
    _,
    rw (events_pass client_stops ClientMessages.ping_pong_event (λ event. refl) r.events) refl,
    subst
        (λ v. Sound (
          table (side r.umpire r.source true [])
            (side v s true (map_events ClientMessages.ping_pong_event r.events))))
        (mirror-mirror u') (client_spoke r.events (mirror u') r.umpire r.source s batch),
  )
  client_replies u u' s (is_silent c) = (_, refl, waits (mirror u') u' c s (mirror-mirror u'))
  client_replies u u' s (takes_leave c ended) = (_, refl, endorses (mirror u) u' c s (inr ended))
