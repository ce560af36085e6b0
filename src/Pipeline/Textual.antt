-- ===== src/Pipeline/Textual.antt =====
-- Two sides that speak RON over the textual dialog (src/serde/textual_serde.rs,
-- src/socket_connection/socket_dialog/textual_dialog.rs), from the messages of one to the local processor of
-- the other.
use reactive_messaging.Prelude.{
  ℕ, ◌≡◌, refl, sym, ap, ◌∙◌, ◌⊎◌, inl, inr, List, [], ◌∷◌, ◌++◌, append_assoc, append-nil, true,
  Option, subst, All,
}
use reactive_messaging.Dialog.Context.{Services, Flow, go, stop, Turn, running, over, and_then}
use reactive_messaging.Dialog.Pieces.{flatten, IsNonEmpty}
use reactive_messaging.Dialog.Textual.{
  more, State, Event, read, after_read, on_received, step, dialog_loop,
}
use reactive_messaging.Dialog.Textual.Lines.{NoNewline, resume}
use reactive_messaging.Dialog.Textual.Reads.{IsPartial, dialog_loop_split_reads}
use reactive_messaging.Dialog.Textual.Messages.{
  wire, serialized, sendings, dialog_loop-sendings, on_received-wire, each-serialized, one_line,
}
use reactive_messaging.Serde.{Ron, Error, ron_serialize, ron_deserialize}
use reactive_messaging.Serde.RoundTrip.{IsRon, ron_serialize-ron_deserialize}
use reactive_messaging.Pipeline.{Ends, Senders, Returns, value, value-done}
use reactive_messaging.Pipeline.Relaying.{IsReliable, services, HandedOver, each-HandedOver}

-- Reads of bytes, one after the other.
unfoldable pub arrivals : {Local : Type 0} → List (List ℕ) → List (Event Local)
arrivals [] = []
arrivals (bytes ∷ rest) = read bytes ∷ arrivals rest

module _ {Remote Local Text World StateType : Type 0}
    (services : Services Remote Local Text World) where
  -- However bytes are cut into reads, none of them empty, they are handled as if they came in one.
  dialog_loop-arrivals :
      (s : State StateType World) (piece : List ℕ) (pieces : List (List ℕ))
      → IsPartial services s
      → All IsNonEmpty (piece ∷ pieces)
      → dialog_loop services (arrivals (piece ∷ pieces)) s
        ≡ dialog_loop services (read (piece ++ flatten pieces) ∷ []) s
  unfolding arrivals flatten
  dialog_loop-arrivals s piece [] h k =
      ap (λ bytes. dialog_loop services (read bytes ∷ []) s) (sym (append-nil piece))
  dialog_loop-arrivals s [] (next ∷ pieces) h k = absurd k.0
  dialog_loop-arrivals s (x ∷ xs) ([] ∷ pieces) h k = absurd k.1.0
  dialog_loop-arrivals s (x ∷ xs) ((y ∷ ys) ∷ pieces) h k =
      dialog_loop_split_reads services s x y xs ys (arrivals pieces) h
      ∙ dialog_loop-arrivals s (x ∷ (xs ++ y ∷ ys)) pieces h (tt, k.1.1)
      ∙ ap (λ bytes. dialog_loop services (read (x ∷ bytes) ∷ []) s)
          (append_assoc xs (y ∷ ys) (flatten pieces))

module _ {Message RonError : Type 0} (ron : Ron Message RonError) (is_ron : IsRon ron) where
  -- `Serializer::serialize()` of the RON serializer, which returns.
  pub ron-Returns : (m : Message) (buffer : List ℕ) → Returns (ron_serialize ron m buffer)
  ron-Returns m buffer =
      let (bytes, writes, reads, line) =
        ron_serialize-ron_deserialize ron {Text = ℕ} {Cause = ℕ} (λ bytes err. 0) 0 is_ron m in
      rw (writes buffer) tt

  unfoldable pub ron_line : Message → List ℕ → List ℕ
  ron_line m buffer = value (ron_serialize ron m buffer) (ron-Returns m buffer)

  module _ {Cause Text : Type 0} (cause : List ℕ → RonError → Cause) (msg : Text)
      (show : Error Text Cause → Text) where
    shown : Message ⊎ Error Text Cause → Message ⊎ Text
    shown (inl m) = inl m
    shown (inr err) = inr (show err)

    -- `Deserializer::deserialize()` of the RON deserializer, with its error as it is shown.
    unfoldable pub ron_message : List ℕ → Message ⊎ Text
    unfolding shown
    ron_message bytes = shown (ron_deserialize ron cause msg bytes)

    pub ron_line-ron_message :
        (m : Message) (buffer : List ℕ)
        → (ron_message (ron_line m buffer) ≡ inl m) × NoNewline (ron_line m buffer)
    unfolding ron_message ron_line
    ron_line-ron_message m buffer =
        let (bytes, writes, reads, line) = ron_serialize-ron_deserialize ron cause msg is_ron m in
        let e = value-done (ron_serialize ron m buffer) (ron-Returns m buffer) (writes buffer) in
        (
          ap (λ b. shown (ron_deserialize ron cause msg b)) e ∙ ap shown reads,
          subst NoNewline (sym e) line,
        )

module _ {Message ProcessorState PeerState : Type 0} (log : ProcessorState → List Message) where
  -- What the reads leave: all messages are with the processor, and the dialog goes on from an empty buffer;
  -- or it ended, the connection is reported as closed, and a first part of the messages is with the
  -- processor.
  abbrev pub Arrived :
      {StateType : Type 0}
      → List Message
      → List Message
      → Turn
          (State StateType (Ends ProcessorState PeerState))
          StateType
          (Ends ProcessorState PeerState)
      → Type 0
  Arrived before messages (running r) =
      (log r.world.processor ≡ before ++ messages) × (r.read_buffer ≡ [])
  Arrived before messages (over c w) =
      (c.closed ≡ true)
      × ((first rest : List Message) × (messages ≡ first ++ rest)
          × (log w.processor ≡ before ++ first))

  module _ {Local Slot Text : Type 0}
      (senders : Senders Message Local Slot ProcessorState PeerState Text)
      (peer_log : PeerState → List Local)
      (receiver : Services Message Local Text (Ends ProcessorState PeerState)) where
    Arrived-flow :
        {StateType : Type 0} (before messages : List Message)
        (r : State StateType (Ends ProcessorState PeerState))
        (flow : Flow (Ends ProcessorState PeerState))
        → HandedOver senders log peer_log before messages flow
        → Arrived before messages (
            and_then
              (after_read receiver r (resume receiver (more []) flow))
              (dialog_loop receiver []))
    unfolding and_then after_read resume dialog_loop
    Arrived-flow before messages r (go w) h = (h, refl)
    Arrived-flow before messages r (stop w) h = (refl, h)

module _
    {Remote Message Local Slot ProcessorState PeerState Text RonError Cause SenderText
      SenderWorld : Type 0}
    (ron : Ron Message RonError) (is_ron : IsRon ron) (cause : List ℕ → RonError → Cause)
    (msg : Text) (show : Error Text Cause → Text)
    (senders : Senders Message Local Slot ProcessorState PeerState Text)
    (log : ProcessorState → List Message) (peer_log : PeerState → List Local)
    (ok : IsReliable senders log peer_log) (serialize : Local → List ℕ → List ℕ)
    (processor_error_message : Text → Option Local) (unknown_command : List ℕ → Text → Text)
    (rest : Services Remote Message SenderText SenderWorld) where
  -- The side that sends.
  abbrev pub sender : Services Remote Message SenderText SenderWorld
  sender = record rest { serialize = ron_line ron is_ron }

  -- The side that receives.
  abbrev pub receiver : Services Message Local Text (Ends ProcessorState PeerState)
  receiver =
      services senders log peer_log ok (ron_message ron is_ron cause msg show) serialize
        processor_error_message unknown_command

  -- Messages that one side sends in RON are written to its connection, and however these bytes are cut into
  -- reads on the other side, none of them empty, from an empty read buffer on: the messages join the channel
  -- of the local processor, in order and once each, and the dialog goes on; or it ended, the connection is
  -- reported as closed, and a first part of the messages joined the channel. The strategy is one that is in
  -- use and aborts the connection; ron, the channels and the retrying loops do as they document.
  pub dialog_loop_relays :
      {SenderState StateType : Type 0} (messages : List Message) (s : State SenderState SenderWorld)
      (r : State StateType (Ends ProcessorState PeerState)) (piece : List ℕ)
      (pieces : List (List ℕ))
      → r.read_buffer ≡ []
      → All IsNonEmpty (piece ∷ pieces)
      → piece ++ flatten pieces ≡ wire (serialized sender messages s.serialization_buffer)
      → ((s' : State SenderState SenderWorld) × (dialog_loop sender (sendings sender messages) s
            ≡ running s')
          × (s'.socket_connection.connection
              ≡ s.socket_connection.connection ++ (piece ++ flatten pieces)))
        × Arrived log
            (log r.world.processor)
            messages
            (dialog_loop receiver (arrivals (piece ∷ pieces)) r)
  unfolding dialog_loop step services ron_message
  dialog_loop_relays messages s r [] pieces empty k e = absurd k.0
  dialog_loop_relays messages s r (b ∷ bytes) pieces empty k e =
      let inverse = ron_line-ron_message ron is_ron cause msg show in
      let lines = serialized sender messages s.serialization_buffer in
      let (s', runs, wrote) = dialog_loop-sendings sender messages s in
      let handled =
        ap (λ l. on_received receiver l r) (e ∙ sym (append-nil (wire lines)))
        ∙ on_received-wire receiver r lines [] empty
            (one_line sender receiver messages s.serialization_buffer
              (λ m buffer. (inverse m buffer).1))
            tt
        ∙ ap (λ f. after_read receiver r (resume receiver (more []) f))
            (each-serialized sender receiver messages s.serialization_buffer r.world
              (λ m buffer. (inverse m buffer).0)) in
      (
        (s', runs, wrote ∙ ap (λ l. s.socket_connection.connection ++ l) (sym e)),
        subst (Arrived log (log r.world.processor) messages)
            (sym (
              dialog_loop-arrivals receiver r (b ∷ bytes) pieces (subst NoNewline (sym empty) tt)
                k))
            (subst
              (λ t.
                Arrived log (log r.world.processor) messages (and_then t (dialog_loop receiver [])))
              (sym handled)
              (Arrived-flow log senders peer_log receiver (log r.world.processor) messages r _ (
                each-HandedOver senders log peer_log ok (ron_message ron is_ron cause msg show)
                  serialize processor_error_message unknown_command messages r.world))),
      )
