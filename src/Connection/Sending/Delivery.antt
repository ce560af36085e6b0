-- ===== src/Connection/Sending/Delivery.antt =====
-- What the sending methods do to a channel, seen through the list of all messages it accepted.
use reactive_messaging.Prelude.{
  ℕ, zero, suc, ◌≡◌, ◌⊎◌, inl, inr, refl, sym, ap, Bool, true, false, List, [], ◌∷◌, ◌++◌, Eval,
  done, panic, ◌>>=◌, if◌then◌else◌,
}
use mathlib.Core.Path.{subst₂}
use reactive_messaging.Config.Strategies.{
  RetryingStrategies, do_not_retry, end_communications, retry_with_backoff_up_to,
  retry_yielding_for_up_to_millis, retry_spinning_for_up_to_millis,
}
use reactive_messaging.Connection.Sending.{
  Attempt, success, transient, fatal, Outcome, sent, failed, Retrier, Texts, single, resolved,
  by_strategy, Uni, Channel, relay, send, send_async_trait, respond, close_on_abort,
}
use reactive_messaging.Connection.Sending.Retries.{attempts, IsRetrier}

-- Whether a strategy aborts the connection when it could not send.
abbrev pub aborts : RetryingStrategies → Bool
aborts do_not_retry = false
aborts strategy = true

-- The deprecated strategy, which the methods do not support.
abbrev pub IsSupported : RetryingStrategies → Type 0
IsSupported (retry_spinning_for_up_to_millis n) = ⊥
IsSupported strategy = Unit {0}

module _ {Message State : Type 0} (log : State → List Message) where
  -- The answers of a channel: an accepted message joins the log, a refused one comes back and
  -- changes nothing, and there is no fatal answer.
  abbrev Answers : Message → List Message → Attempt Message (Unit {0}) × State → Type 0
  Answers m before (success output, s) = log s ≡ before ++ m ∷ []
  Answers m before (transient kept, s) = (kept ≡ m) × (log s ≡ before)
  Answers m before (fatal kept, s) = ⊥

  abbrev pub IsLog : (Message → State → Attempt Message (Unit {0}) × State) → Type 0
  IsLog op = (m : Message) (s : State) → Answers m (log s) (op m s)

  attempts-Answers :
      (op : Message → State → Attempt Message (Unit {0}) × State)
      → IsLog op
      → (n : ℕ) (m : Message) (before : List Message) (r : Attempt Message (Unit {0}) × State)
      → Answers m before r
      → Answers m before (attempts n op r)
  unfolding attempts
  attempts-Answers op logs n m before (success output, s) h = h
  attempts-Answers op logs n m before (fatal kept, s) h = h
  attempts-Answers op logs zero m before (transient kept, s) h = h
  attempts-Answers op logs (suc n) m before (transient kept, s) (k, e) =
      attempts-Answers op logs n m before (op kept s)
        (subst₂ (λ x l. Answers x l (op kept s)) k e (logs kept s))

  -- What `to_responsive_stream()` does with one item, told by what the log holds afterwards: the
  -- item is there once more, or it was dropped, and then the peer was closed if the strategy aborts.
  abbrev pub Responds :
      {Yielded : Type 0}
      → Channel Message State
      → RetryingStrategies
      → Yielded
      → Message
      → State
      → Eval (Yielded × State)
      → Type 0
  Responds channel strategy yielded m s (done (y, s')) =
      (y ≡ yielded)
      × ((log s' ≡ log s ++ m ∷ [])
          ⊎ ((refused : State) × (log refused ≡ log s)
              × (s' ≡ (if aborts strategy then channel.cancel_all_streams refused else refused))))
  Responds channel strategy yielded m s panic = ⊥

module _ {Message State Text : Type 0} (log : State → List Message) where
  -- What a method returns on a message: it is in the log once more, or the log is as it was and the
  -- error asks to abort as the strategy says.
  abbrev pub Delivers :
      RetryingStrategies → Message → List Message → Eval (Outcome (Unit {0}) Text × State) → Type 0
  Delivers strategy m before (done (sent output, s)) = log s ≡ before ++ m ∷ []
  Delivers strategy m before (done (failed abort text, s)) =
      (abort ≡ aborts strategy) × (log s ≡ before)
  Delivers strategy m before panic = ⊥

  single-Delivers :
      (strategy : RetryingStrategies) (text : Message → Text) (m : Message) (before : List Message)
      (r : Attempt Message (Unit {0}) × State)
      → Answers log m before r
      → Delivers strategy m before (single (aborts strategy) text r)
  unfolding single
  single-Delivers strategy text m before (success output, s) h = h
  single-Delivers strategy text m before (transient kept, s) h = (refl, h.1)
  single-Delivers strategy text m before (fatal kept, s) h = h

  resolved-Delivers :
      (strategy : RetryingStrategies) (text : Message → Text) (m : Message) (before : List Message)
      (r : Attempt Message (Unit {0}) × State)
      → aborts strategy ≡ true
      → Answers log m before r
      → Delivers strategy m before (resolved text r)
  unfolding resolved
  resolved-Delivers strategy text m before (success output, s) a h = h
  resolved-Delivers strategy text m before (transient kept, s) a h = (sym a, h.1)
  resolved-Delivers strategy text m before (fatal kept, s) a h = absurd h

  module _ (retrier : Retrier Message (Unit {0}) State) (is_retrier : IsRetrier retrier)
      (texts : Texts Message Text) where
    by_strategy-Delivers :
        (op : Message → State → Attempt Message (Unit {0}) × State)
        → IsLog log op
        → (strategy : RetryingStrategies) → IsSupported strategy
        → (m : Message) (s : State)
        → Delivers strategy m (log s) (by_strategy retrier texts strategy op m s)
    unfolding by_strategy
    by_strategy-Delivers op logs do_not_retry h m s =
        single-Delivers do_not_retry _ m (log s) (op m s) (logs m s)
    by_strategy-Delivers op logs end_communications h m s =
        single-Delivers end_communications _ m (log s) (op m s) (logs m s)
    by_strategy-Delivers op logs (retry_with_backoff_up_to n) h m s =
        rw (is_retrier.counts n op (op m s)) (
          resolved-Delivers (retry_with_backoff_up_to n) _ m (log s) _ refl
            (attempts-Answers log op logs n m (log s) (op m s) (logs m s)))
    by_strategy-Delivers op logs (retry_yielding_for_up_to_millis n) h m s =
        let (k, e) = is_retrier.stops n op (op m s) in
        rw e (
          resolved-Delivers (retry_yielding_for_up_to_millis n) _ m (log s) _ refl
            (attempts-Answers log op logs k m (log s) (op m s) (logs m s)))
    by_strategy-Delivers op logs (retry_spinning_for_up_to_millis n) h m s = absurd h

    -- `ReactiveMessagingUniSender::send()` returns under every supported strategy: with the message
    -- in the channel exactly once, or with an error, the channel as it was, and the request to abort
    -- the connection unless the strategy is not to retry.
    pub relay-Delivers :
        {Slot : Type 0} (uni : Uni Message Slot State)
        → IsLog log uni.send
        → (strategy : RetryingStrategies) → IsSupported strategy
        → (m : Message) (s : State)
        → Delivers strategy m (log s) (relay uni retrier texts strategy m s)
    unfolding relay
    relay-Delivers uni logs strategy h m s = by_strategy-Delivers uni.send logs strategy h m s

    -- `ReactiveMessagingSender::send()` and `send_async_trait()` return under every supported strategy:
    -- with the message in the channel exactly once, or with an error, the channel as it was, and the
    -- request to abort the connection unless the strategy is not to retry. The channel keeps its log,
    -- and the retrier repeats transient answers, as documented.
    pub send-Delivers :
        (channel : Channel Message State)
        → IsLog log channel.send
        → (strategy : RetryingStrategies) → IsSupported strategy
        → (m : Message) (s : State)
        → Delivers strategy m (log s) (send channel retrier texts strategy m s)
          × Delivers strategy m (log s) (send_async_trait channel retrier texts strategy m s)
    unfolding send send_async_trait
    send-Delivers channel logs strategy h m s = (
      by_strategy-Delivers channel.send logs strategy h m s,
      by_strategy-Delivers channel.send logs strategy h m s,
    )

  module _ (retrier : Retrier Message (Unit {0}) State) (is_retrier : IsRetrier retrier)
      (texts : Texts Message Text) where
    close_on_abort-Responds :
        {Yielded : Type 0} (channel : Channel Message State) (strategy : RetryingStrategies)
        (y : Yielded) (m : Message) (s : State) (r : Eval (Outcome (Unit {0}) Text × State))
        → Delivers strategy m (log s) r
        → Responds log channel strategy y m s
            (r >>= λ answer. done (y, close_on_abort channel answer))
    unfolding close_on_abort
    close_on_abort-Responds channel strategy y m s (done (sent output, s')) h = (refl, inl h)
    close_on_abort-Responds channel strategy y m s (done (failed abort text, s')) (a, h) =
        (refl, inr (s', h, ap (λ b. if b then channel.cancel_all_streams s' else s') a))
    close_on_abort-Responds channel strategy y m s panic h = h

    -- An item of a responsive stream is yielded through the mapper whether or not it could be sent;
    -- it is sent exactly once, or not at all, and then the peer is closed if the strategy aborts.
    pub respond-Responds :
        {Yielded : Type 0} (channel : Channel Message State)
        → IsLog log channel.send
        → (strategy : RetryingStrategies) → IsSupported strategy
        → (item_mapper : Message → Yielded) (m : Message) (s : State)
        → Responds log channel strategy
            (item_mapper m)
            m
            s
            (respond channel retrier texts strategy item_mapper m s)
    unfolding respond
    respond-Responds channel logs strategy h item_mapper m s =
        close_on_abort-Responds channel strategy (item_mapper m) m s _
          (by_strategy-Delivers retrier is_retrier texts channel.send logs strategy h m s)
