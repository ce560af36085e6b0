-- ===== src/Game/Table/Steps.antt =====
-- The two dialogs, message by message, whoever gets to run.
use reactive_messaging.Prelude.{ℕ, ◌≤◌, refl, List, [], ◌∷◌, append-nil, Bool, true, false}
use reactive_messaging.Game.Events.{PingPongEvent}
use reactive_messaging.Game.Umpire.{Umpire}
use reactive_messaging.Game.Mirror.{mirror}
use reactive_messaging.Game.ClientMessages as ClientMessages
use reactive_messaging.Game.ClientMessages.{GameClientMessages, endorsed_score}
use reactive_messaging.Game.ServerMessages as ServerMessages
use reactive_messaging.Game.ServerMessages.{GameServerMessages, game_started, good_bye}
use reactive_messaging.Game.Dialogs.{map_events, server_answer, client_answer}
use reactive_messaging.Game.Fairplay.{server_fair, client_fair}
use reactive_messaging.Game.Reactions.{Chance}
use reactive_messaging.Game.Batches.{Ready, Batch, last, again, Steady, take_turn-Batch}
use reactive_messaging.Game.Table.{
  Side, Table, Hearer, client_hears, server_hears, hear, hears, game_run, client_stops,
}
use reactive_messaging.Game.Table.Sound.{
  side, table, Sound, begins, client_spoke, server_spoke, waits, endorses, leaves, closed, Next,
  fair-Reply, events_pass, server_replies, client_replies,
}

module _ {Number Source : Type 0} (chance : Chance Number Source) where
  module _ (steady : Steady chance) (fuel : ℕ) (enough : 3 ≤ fuel) where
    server_hears-Batch :
        (events : List (PingPongEvent Number)) (u u' : Umpire Number) (c s : Source)
        → Batch chance events u u'
        → Next chance (
            hears chance fuel server_hears (
              table
                (side u' c true [])
                (side (mirror u) s true (map_events ClientMessages.ping_pong_event events))))
    unfolding hears hear server_answer
    server_hears-Batch _ u u' c s (last action event t) =
        rw (server_fair chance fuel action u event u' s t.ready.turn t.same t.ruled t.view) (
          server_replies chance u u' c (
            fair-Reply chance steady fuel enough ServerMessages.ping_pong_event (good_bye ∷ [])
              action u event u' s t))
    server_hears-Batch _ u u' c s (again action a fault {u' = u₁} {events = events} t batch) =
        rw (server_fair chance fuel action u _ u₁ s t.ready.turn t.same t.ruled t.view)
          (_, refl, client_spoke events u₁ u' c s batch)

    client_hears-Batch :
        (events : List (PingPongEvent Number)) (u u' : Umpire Number) (c s : Source)
        → Batch chance events u u'
        → Next chance (
            hears chance fuel client_hears (
              table
                (side (mirror u) c true (map_events ServerMessages.ping_pong_event events))
                (side u' s true [])))
    unfolding hears hear client_answer
    client_hears-Batch _ u u' c s (last action event t) =
        rw (client_fair chance fuel action u event u' c t.ready.turn t.same t.ruled t.view) (
          client_replies chance u u' s (
            fair-Reply chance steady fuel enough ClientMessages.ping_pong_event
              (endorsed_score ∷ []) action u event u' c t))
    client_hears-Batch _ u u' c s (again action a fault {u' = u₁} {events = events} t batch) =
        rw (client_fair chance fuel action u _ u₁ c t.ready.turn t.same t.ruled t.view)
          (_, refl, server_spoke events u₁ u' c s batch)

    client_starts :
        (u : Umpire Number) (c s : Source)
        → Ready u
        → Next chance (
            hears chance fuel client_hears
              (table (side u c true (game_started ∷ [])) (side (mirror u) s true [])))
    unfolding hears hear client_answer
    client_starts u c s ready =
        let (r, e, batch) = take_turn-Batch chance steady u c ready in
        rw e (
          (
            _,
            rw (events_pass client_stops ClientMessages.ping_pong_event (λ event. refl) r.events)
                refl,
            client_spoke r.events u r.umpire r.source s batch,
          ))

    -- Nothing is there to be heard.
    client_idles :
        (u : Umpire Number) (c : Source) (listening : Bool)
        (server : Side (GameClientMessages Number) Number Source)
        → Sound chance (table (side u c listening []) server)
        → Next chance (hears chance fuel client_hears (table (side u c listening []) server))
    unfolding hears hear
    client_idles u c true server sound = (_, rw (append-nil server.inbox) refl, sound)
    client_idles u c false server sound = (_, rw (append-nil server.inbox) refl, sound)

    server_idles :
        (u : Umpire Number) (s : Source) (listening : Bool)
        (client : Side (GameServerMessages Number) Number Source)
        → Sound chance (table client (side u s listening []))
        → Next chance (hears chance fuel server_hears (table client (side u s listening [])))
    unfolding hears hear
    server_idles u s true client sound = (_, rw (append-nil client.inbox) refl, sound)
    server_idles u s false client sound = (_, rw (append-nil client.inbox) refl, sound)

    hears-Sound :
        (hearer : Hearer) {t : Table Number Source}
        → Sound chance t
        → Next chance (hears chance fuel hearer t)
    unfolding hears hear client_answer server_answer
    hears-Sound client_hears (begins u c s ready) = client_starts u c s ready
    hears-Sound client_hears (client_spoke events u u' c s batch) =
        client_idles u' c true _ (client_spoke events u u' c s batch)
    hears-Sound client_hears (server_spoke events u u' c s batch) =
        client_hears-Batch events u u' c s batch
    hears-Sound client_hears (waits u v c s e) = client_idles u c true _ (waits u v c s e)
    hears-Sound client_hears (endorses u v c s ended) =
        client_idles u c true _ (endorses u v c s ended)
    hears-Sound client_hears (leaves u v c s ended) = (_, refl, closed u v c s ended)
    hears-Sound client_hears (closed u v c s ended) =
        client_idles u c false _ (closed u v c s ended)
    hears-Sound server_hears (begins u c s ready) = server_idles _ s true _ (begins u c s ready)
    hears-Sound server_hears (client_spoke events u u' c s batch) =
        server_hears-Batch events u u' c s batch
    hears-Sound server_hears (server_spoke events u u' c s batch) =
        server_idles u' s true _ (server_spoke events u u' c s batch)
    hears-Sound server_hears (waits u v c s e) = server_idles v s true _ (waits u v c s e)
    hears-Sound server_hears (endorses u v c s ended) = (_, refl, leaves u v c s ended)
    hears-Sound server_hears (leaves u v c s ended) =
        server_idles v s false _ (leaves u v c s ended)
    hears-Sound server_hears (closed u v c s ended) =
        server_idles v s false _ (closed u v c s ended)

    pub game_run-Sound :
        (schedule : List Hearer) {t : Table Number Source}
        → Sound chance t
        → Next chance (game_run chance fuel schedule t)
    unfolding game_run
    game_run-Sound [] {t} sound = (t, refl, sound)
    game_run-Sound (hearer ∷ more) sound =
        let (t, e, sound') = hears-Sound hearer sound in rw e (game_run-Sound more sound')
