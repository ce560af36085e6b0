-- ===== src/Pipeline/Relaying.antt =====
-- What reaches the local processor of the messages that a dialog hands over.
use reactive_messaging.Prelude.{
  ℕ, ◌≡◌, refl, sym, ap, ◌∙◌, ◌⊎◌, List, [], ◌∷◌, ◌++◌, append_assoc, append-nil, true, false,
  Option, none, some, Eval, done, panic, ◌>>=◌,
}
use reactive_messaging.Connection.Sending.{Outcome, sent, failed}
use reactive_messaging.Connection.Sending.Retries.{IsRetrier}
use reactive_messaging.Connection.Sending.Delivery.{
  IsLog, IsSupported, aborts, Delivers, relay-Delivers, send-Delivers,
}
use reactive_messaging.Dialog.Context.{
  Services, Flow, go, stop, after_reply, reply_if_any, inform_peer, end_if, after_process,
  hand_over, flow_then, each,
}
use reactive_messaging.Pipeline.{
  Ends, Senders, Returns, value, with_processor, with_peer, relayed, replied, connected,
}

module _ {Remote Local Slot ProcessorState PeerState Text : Type 0}
    (senders : Senders Remote Local Slot ProcessorState PeerState Text)
    (log : ProcessorState → List Remote) (peer_log : PeerState → List Local) where
  -- What the crates document of the channels and of the retrying loops, and a strategy that is in use and
  -- aborts the connection when a message cannot be sent.
  pub record IsReliable : Type 0 where
    pub supported : IsSupported senders.strategy
    pub aborting : aborts senders.strategy ≡ true
    pub uni_logs : IsLog log senders.uni.send
    pub relaying_retries : IsRetrier senders.relaying
    pub channel_logs : IsLog peer_log senders.channel.send
    pub suspending_retries : IsRetrier senders.suspending

  Delivers-Returns :
      (m : Remote) (before : List Remote) (w : Ends ProcessorState PeerState)
      (e : Eval (Outcome (Unit {0}) Text × ProcessorState))
      → Delivers log senders.strategy m before e
      → Returns (e >>= with_processor senders w)
  Delivers-Returns m before w (done (outcome, s)) h = tt
  Delivers-Returns m before w panic h = h

  peer_Returns :
      (m : Local) (before : List Local) (w : Ends ProcessorState PeerState)
      (e : Eval (Outcome (Unit {0}) Text × PeerState))
      → Delivers peer_log senders.strategy m before e
      → Returns (e >>= with_peer senders w)
  peer_Returns m before w (done (outcome, s)) h = tt
  peer_Returns m before w panic h = h

  pub relays_return :
      IsReliable → (m : Remote) (w : Ends ProcessorState PeerState) → Returns (relayed senders m w)
  relays_return ok m w = Delivers-Returns m (log w.processor) w _ (
      relay-Delivers log senders.relaying ok.relaying_retries senders.relay_texts senders.uni
        ok.uni_logs senders.strategy ok.supported m w.processor)

  pub replies_return :
      IsReliable → (m : Local) (w : Ends ProcessorState PeerState) → Returns (replied senders m w)
  replies_return ok m w =
      peer_Returns m (peer_log w.peer) w _
        (send-Delivers peer_log senders.suspending ok.suspending_retries senders.send_texts
          senders.channel ok.channel_logs senders.strategy ok.supported m w.peer).1

  -- The services of a dialog that is connected to these senders.
  module _ (ok : IsReliable) (deserialize : List ℕ → Remote ⊎ Text)
      (serialize : Local → List ℕ → List ℕ) (processor_error_message : Text → Option Local)
      (unknown_command : List ℕ → Text → Text) where
    unfoldable pub services : Services Remote Local Text (Ends ProcessorState PeerState)
    unfolding connected
    services =
        connected senders (relays_return ok) (replies_return ok) deserialize serialize
          processor_error_message unknown_command

  -- A message joined the log, or the connection is to be aborted and the log is as it was.
  abbrev Relayed :
      Remote → List Remote → Outcome (Unit {0}) Text × Ends ProcessorState PeerState → Type 0
  Relayed m before (sent output, w) = log w.processor ≡ before ++ m ∷ []
  Relayed m before (failed abort text, w) = (abort ≡ true) × (log w.processor ≡ before)

  value-Relayed :
      (aborting : aborts senders.strategy ≡ true) (m : Remote) (before : List Remote)
      (w : Ends ProcessorState PeerState) (e : Eval (Outcome (Unit {0}) Text × ProcessorState))
      (h : Returns (e >>= with_processor senders w))
      → Delivers log senders.strategy m before e
      → Relayed m before (value (e >>= with_processor senders w) h)
  value-Relayed aborting m before w (done (sent output, s)) h d = d
  value-Relayed aborting m before w (done (failed abort text, s)) h (a, d) = (a ∙ aborting, d)
  value-Relayed aborting m before w panic h d = absurd h

  -- A reply to the peer does not touch the processor's channel.
  value_kept :
      (w : Ends ProcessorState PeerState) (e : Eval (Outcome (Unit {0}) Text × PeerState))
      (h : Returns (e >>= with_peer senders w))
      → (value (e >>= with_peer senders w) h).1.processor ≡ w.processor
  value_kept w (done (outcome, s)) h = refl
  value_kept w panic h = absurd h

  -- What the processor's channel holds after some messages: all of them if the dialog goes on, and else a
  -- first part of them.
  abbrev pub HandedOver : List Remote → List Remote → Flow (Ends ProcessorState PeerState) → Type 0
  HandedOver before messages (go w) = log w.processor ≡ before ++ messages
  HandedOver before messages (stop w) =
      (first rest : List Remote) × (messages ≡ first ++ rest) × (log w.processor ≡ before ++ first)

  -- A flow that leaves the processor's channel as it was.
  abbrev Keeps : ProcessorState → Flow (Ends ProcessorState PeerState) → Type 0
  Keeps s (go w) = w.processor ≡ s
  Keeps s (stop w) = w.processor ≡ s

  module _ (ok : IsReliable) (deserialize : List ℕ → Remote ⊎ Text)
      (serialize : Local → List ℕ → List ℕ) (processor_error_message : Text → Option Local)
      (unknown_command : List ℕ → Text → Text) where
    abbrev ours : Services Remote Local Text (Ends ProcessorState PeerState)
    ours = services ok deserialize serialize processor_error_message unknown_command

    process_Relayed :
        (m : Remote) (w : Ends ProcessorState PeerState)
        → Relayed m (log w.processor) (ours.process m w)
    unfolding services
    process_Relayed m w = value-Relayed ok.aborting m (log w.processor) w _ (relays_return ok m w) (
        relay-Delivers log senders.relaying ok.relaying_retries senders.relay_texts senders.uni
          ok.uni_logs senders.strategy ok.supported m w.processor)

    reply_keeps :
        (m : Local) (w : Ends ProcessorState PeerState) → (ours.reply m w).1.processor ≡ w.processor
    unfolding services
    reply_keeps m w = value_kept w _ (replies_return ok m w)

    Keeps-after_reply :
        (s : ProcessorState) (r : Outcome (Unit {0}) Text × Ends ProcessorState PeerState)
        → r.1.processor ≡ s
        → Keeps s (after_reply ours r)
    unfolding after_reply
    Keeps-after_reply s (sent output, w) h = h
    Keeps-after_reply s (failed true text, w) h = h
    Keeps-after_reply s (failed false text, w) h = h

    Keeps-reply_if_any :
        (o : Option Local) (w : Ends ProcessorState PeerState)
        → Keeps w.processor (reply_if_any ours o w)
    unfolding reply_if_any
    Keeps-reply_if_any none w = refl
    Keeps-reply_if_any (some m) w = Keeps-after_reply w.processor _ (reply_keeps m w)

    -- What is said to the peer about a refused message does not undo that the dialog ends.
    stopped :
        (before : List Remote) (m : Remote) (s : ProcessorState)
        (flow : Flow (Ends ProcessorState PeerState))
        → Keeps s flow
        → log s ≡ before
        → HandedOver before (m ∷ []) (end_if ours true flow)
    unfolding end_if
    stopped before m s (go w) k e = ([], m ∷ [], refl, ap log k ∙ e ∙ sym (append-nil before))
    stopped before m s (stop w) k e = ([], m ∷ [], refl, ap log k ∙ e ∙ sym (append-nil before))

    HandedOver-after_process :
        (m : Remote) (before : List Remote)
        (r : Outcome (Unit {0}) Text × Ends ProcessorState PeerState)
        → Relayed m before r
        → HandedOver before (m ∷ []) (after_process ours r)
    unfolding after_process inform_peer
    HandedOver-after_process m before (sent output, w) h = h
    HandedOver-after_process m before (failed abort text, w) (a, h) =
        rw a (stopped before m w.processor _ (Keeps-reply_if_any _ w) h)

    then_more :
        (m : Remote) (messages before : List Remote) (flow : Flow (Ends ProcessorState PeerState))
        → HandedOver before (m ∷ []) flow
        → ((w : Ends ProcessorState PeerState)
            → HandedOver (log w.processor) messages (each (hand_over ours) messages w))
        → HandedOver before (m ∷ messages) (flow_then flow (each (hand_over ours) messages))
    unfolding flow_then
    then_more m messages before (go w) h k = continued _ (k w)
      where
        continued :
            (flow : Flow (Ends ProcessorState PeerState))
            → HandedOver (log w.processor) messages flow
            → HandedOver before (m ∷ messages) flow
        continued (go v) e = e ∙ ap (λ l. l ++ messages) h ∙ append_assoc before (m ∷ []) messages
        continued (stop v) (first, rest, whole, e) = (
          m ∷ first,
          rest,
          ap (λ l. m ∷ l) whole,
          e ∙ ap (λ l. l ++ first) h ∙ append_assoc before (m ∷ []) first,
        )
    then_more m messages before (stop w) (first, rest, whole, e) k = (
      first,
      rest ++ messages,
      ap (λ l. l ++ messages) whole ∙ append_assoc first rest messages,
      e,
    )

    -- Of messages that a dialog hands over, a first part joins the processor's channel, in order and once
    -- each, and all of them if the dialog goes on.
    pub each-HandedOver :
        (messages : List Remote) (w : Ends ProcessorState PeerState)
        → HandedOver (log w.processor) messages (each (hand_over ours) messages w)
    unfolding each hand_over
    each-HandedOver [] w = sym (append-nil (log w.processor))
    each-HandedOver (m ∷ messages) w =
        then_more m messages (log w.processor) _
          (HandedOver-after_process m (log w.processor) (ours.process m w) (process_Relayed m w))
          (λ v. each-HandedOver messages v)
