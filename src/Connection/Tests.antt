-- ===== src/Connection/Tests.antt =====
-- Runs of the senders on a channel that refuses a number of messages before it accepts.
use reactive_messaging.Prelude.{
  ℕ, zero, suc, ◌≡◌, refl, arith, true, List, [], ◌∷◌, ◌++◌, Option, none, some, done,
}
use reactive_messaging.Config.Strategies.{
  end_communications, retry_with_backoff_up_to, retry_yielding_for_up_to_millis,
}
use reactive_messaging.Connection.Addresses.{Network, IsDeaf, calls, calls_try_all}
use reactive_messaging.Connection.PeerState.{Peer}
use reactive_messaging.Connection.Listener.{
  Incoming, accepted, acceptance_failed, shutdown_signaled, made_elsewhere, Listening, listen,
  to_feed, listen-to_feed,
}
use reactive_messaging.Connection.Connecting.{connect_retryable, connect_within}
use reactive_messaging.Connection.Sending.{
  Attempt, success, transient, Retrier, Texts, Uni, Channel, relay, send, send_async_trait, respond,
}
use reactive_messaging.Connection.Sending.Retries.{attempts, IsRetrier, here, next}
use reactive_messaging.Connection.Sending.Delivery.{
  Delivers, Responds, IsLog, relay-Delivers, send-Delivers, respond-Responds,
}

-- The refusals to come, and the messages accepted.
abbrev Busy : Type 0
Busy = ℕ × List ℕ

abbrev offer : ℕ → Busy → Attempt ℕ (Unit {0}) × Busy
offer m (zero, log) = (success tt, (zero, log ++ m ∷ []))
offer m (suc n, log) = (transient m, (n, log))

abbrev log_of : Busy → List ℕ
log_of (n, log) = log

abbrev slot : Busy → Option ℕ × Busy
slot (zero, log) = (some 0, (zero, log))
slot (suc n, log) = (none, (n, log))

abbrev busy_channel : Channel ℕ Busy
busy_channel = record { send = offer; cancel_all_streams = λ s. (1000, log_of s) }

abbrev busy_uni : Uni ℕ ℕ Busy
busy_uni = record { send = offer; reserve_slot = slot }

abbrev counting : Retrier ℕ (Unit {0}) Busy
counting = record { with_exponential_jitter = attempts; until_timeout = attempts }

counting-IsRetrier : IsRetrier counting
counting-IsRetrier = record {
  counts = λ n op first. refl;
  stops = λ millis op first. (millis, refl);
}

abbrev texts : Texts ℕ ℕ
texts = record { first = λ strategy m. m; exhausted = λ strategy m. m }

offer-IsLog : IsLog log_of offer
offer-IsLog m (zero, log) = refl
offer-IsLog m (suc n, log) = (refl, refl)

relay-Delivers_example :
    Delivers log_of end_communications 7 []
      (relay busy_uni counting texts end_communications 7 (1, []))
relay-Delivers_example =
    relay-Delivers log_of counting counting-IsRetrier texts busy_uni offer-IsLog end_communications
      tt 7 (1, [])

send-Delivers_example :
    Delivers log_of
      (retry_with_backoff_up_to 3)
      7
      []
      (send busy_channel counting texts (retry_with_backoff_up_to 3) 7 (2, []))
    × Delivers log_of
        (retry_with_backoff_up_to 3)
        7
        []
        (send_async_trait busy_channel counting texts (retry_with_backoff_up_to 3) 7 (2, []))
send-Delivers_example =
    send-Delivers log_of counting counting-IsRetrier texts busy_channel offer-IsLog
      (retry_with_backoff_up_to 3) tt 7 (2, [])

respond-Responds_example :
    Responds log_of busy_channel
      (retry_yielding_for_up_to_millis 1)
      8
      7
      (5, [])
      (respond busy_channel counting texts (retry_yielding_for_up_to_millis 1) suc 7 (5, []))
respond-Responds_example =
    respond-Responds log_of counting counting-IsRetrier texts busy_channel offer-IsLog
      (retry_yielding_for_up_to_millis 1) tt suc 7 (5, [])

-- A host with two addresses where no one answers; the world is the addresses tried.
abbrev deaf : Network ℕ ℕ (List ℕ)
deaf = record {
  to_socket_addrs = λ w. (some (1 ∷ 2 ∷ []), w);
  connect = λ address w. (none, w ++ address ∷ []);
}

abbrev tried : List ℕ → List ℕ
tried w = w

deaf-IsDeaf : IsDeaf deaf tried (1 ∷ 2 ∷ [])
deaf-IsDeaf = record {
  resolves = λ w. refl;
  refuses = λ address w. (w ++ address ∷ [], refl, refl);
}

calls_try_all_example :
    (w' : List ℕ) × (calls deaf 2 none [] ≡ done (transient tt, (some [], w')))
    × (calls deaf 2 (some []) [] ≡ done (transient tt, (some [], w')))
    × (w' ≡ [] ++ 1 ∷ 2 ∷ [])
calls_try_all_example = calls_try_all deaf tried (1 ∷ 2 ∷ []) deaf-IsDeaf 1 (2 ∷ []) [] refl

abbrev peer : Peer ℕ ℕ
peer = record { peer_id = 1; peer_address = 2; state = none }

-- Two connections, a failure and a connection made elsewhere between them, and the shutdown.
abbrev morning : List Incoming
morning =
    accepted (1 ∷ []) true
    ∷ acceptance_failed
    ∷ made_elsewhere
    ∷ accepted (2 ∷ []) true
    ∷ shutdown_signaled
    ∷ []

abbrev idle : Listening ℕ
idle = record { connection_counter = 7; fed = [] }

listen-to_feed_example : (listen 0 morning idle).fed ≡ [] ++ to_feed 0 7 morning
listen-to_feed_example = listen-to_feed 0 morning idle (omega arith)

-- A server that refuses a number of times.
abbrev knock : Unit {0} → ℕ → Attempt (Unit {0}) ℕ × ℕ
knock input zero = (success 80, zero)
knock input (suc n) = (transient tt, n)

abbrev patient : Retrier (Unit {0}) ℕ ℕ
patient = record { with_exponential_jitter = attempts; until_timeout = attempts }

patient-IsRetrier : IsRetrier patient
patient-IsRetrier = record {
  counts = λ n op first. refl;
  stops = λ millis op first. (millis, refl);
}

connect_within_example :
    connect_retryable patient (retry_with_backoff_up_to 3) knock 1 ≡ done (some 80, 0)
connect_within_example =
    connect_within patient knock 3 1 1 0 0 80 patient-IsRetrier (omega arith) (next refl here) refl
