-- ===== src/Pipeline/Serialized.antt =====
-- Two sides that speak rkyv over the serialized binary dialog (src/serde/variable_binary_serde.rs,
-- src/socket_connection/socket_dialog/serialized_binary_dialog.rs), from the messages of one to the local
-- processor of the other.
use reactive_messaging.Prelude.{
  ℕ, ◌<◌, ◌≤◌, ◌^◌, ◌≡◌, refl, ap, ◌∙◌, ◌⊎◌, List, ◌++◌, true, Option, Eval, done, panic, subst,
  All, length,
}
use reactive_messaging.Dialog.Context.{SocketConnection, Services, Flow, Turn, running, over}
use reactive_messaging.Dialog.Serialized.{
  SerializedWrapperType, deref, waiting_for_payload_size, State, dialog_loop, payload_size_len_of,
}
use reactive_messaging.Dialog.Serialized.Frames.{size_of, frames, payloads}
use reactive_messaging.Dialog.Serialized.Messages.{
  Delivered, delivered_all, delivered_until, dialog_loop_delivers_payloads,
}
use reactive_messaging.Dialog.Serialized.Sends.{sendings, dialog_loop_writes_frames}
use reactive_messaging.Serde.{Rkyv, rkyv_deserialize_as_ref}
use reactive_messaging.Serde.RoundTrip.{IsRkyv}
use reactive_messaging.Pipeline.{Ends, Senders}
use reactive_messaging.Pipeline.Relaying.{IsReliable, services, HandedOver, each-HandedOver}
use reactive_messaging.Pipeline.Cuts.{
  received, rkyv_payload, wrapped, Cuts, messages_of, pieces_of, wrappers, AreCuts, payloads_are,
  are_messages, sees_each, sender, framed-received,
}

module _ {ProcessorState PeerState : Type 0}
    (log : ProcessorState → List SerializedWrapperType) where
  -- What the reads leave: all payloads are with the processor, and the dialog waits for the next size; or it
  -- ended, the connection is reported as closed, and a first part of the payloads is with the processor.
  abbrev pub Arrived :
      {StateType : Type 0}
      → List SerializedWrapperType
      → List SerializedWrapperType
      → Eval (
          Turn
            (State StateType (Ends ProcessorState PeerState))
            StateType
            (Ends ProcessorState PeerState))
      → Type 0
  Arrived before messages (done (running r)) =
      (log r.world.processor ≡ before ++ messages) × (r.read_state ≡ waiting_for_payload_size)
  Arrived before messages (done (over c w)) =
      (c.closed ≡ true)
      × ((first rest : List SerializedWrapperType) × (messages ≡ first ++ rest)
          × (log w.processor ≡ before ++ first))
  Arrived before messages panic = ⊥

  Arrived-Delivered :
      {Local Slot Text StateType : Type 0}
      (senders : Senders SerializedWrapperType Local Slot ProcessorState PeerState Text)
      (peer_log : PeerState → List Local) (before messages : List SerializedWrapperType)
      (c : SocketConnection StateType) (flow : Flow (Ends ProcessorState PeerState))
      (e : Eval (
        Turn
          (State StateType (Ends ProcessorState PeerState))
          StateType
          (Ends ProcessorState PeerState)))
      → Delivered c flow e
      → HandedOver senders log peer_log before messages flow
      → Arrived before messages e
  Arrived-Delivered senders peer_log before messages c _ _ (delivered_all s waits e) h = (h, waits)
  Arrived-Delivered senders peer_log before messages c _ _ (delivered_until w) h = (refl, h)

module _
    {Message Archived Local Slot ProcessorState PeerState Text RkyvError SenderText
      SenderWorld : Type 0}
    (rkyv : Rkyv Message Archived RkyvError) (archive : Message → Archived)
    (is_rkyv : IsRkyv rkyv archive)
    (senders : Senders SerializedWrapperType Local Slot ProcessorState PeerState Text)
    (log : ProcessorState → List SerializedWrapperType) (peer_log : PeerState → List Local)
    (ok : IsReliable senders log peer_log) (deserialize : List ℕ → SerializedWrapperType ⊎ Text)
    (serialize : Local → List ℕ → List ℕ) (processor_error_message : Text → Option Local)
    (unknown_command : List ℕ → Text → Text)
    (rest : Services SerializedWrapperType Message SenderText SenderWorld) (most : ℕ)
    (word : most < 2 ^ 64) where
  -- The side that receives.
  abbrev pub receiver : Services SerializedWrapperType Local Text (Ends ProcessorState PeerState)
  receiver =
      services senders log peer_log ok deserialize serialize processor_error_message unknown_command

  -- Messages that one side sends with rkyv, whose writes take the whole of what they are given, are written,
  -- without a panic, as bytes that the other side receives in reads of a whole size each and of any pieces
  -- of a payload, none empty, of at most `receiver_max_msg_size` bytes: the payloads join the channel of
  -- the local processor, without a panic, in order and once each, and the dialog waits for the next size;
  -- or it ended, the connection is reported as closed, and a first part of them joined the channel. The
  -- processor sees each payload as the archived message. The strategy is one that is in use and aborts the
  -- connection; rkyv, the channels and the retrying loops do as they document.
  pub dialog_loop_relays_payloads :
      {SenderState StateType : Type 0} (cuts : Cuts rkyv archive is_rkyv) (room : ℕ)
      (s : State SenderState SenderWorld) (r : State StateType (Ends ProcessorState PeerState))
      → r.read_state ≡ waiting_for_payload_size
      → AreCuts rkyv archive is_rkyv most cuts
      → ((m : Message) (buffer : List ℕ)
          → length (
              size_of (payload_size_len_of most) (rkyv_payload rkyv archive is_rkyv m buffer)
              ++ rkyv_payload rkyv archive is_rkyv m buffer)
            ≤ room)
      → ((s' : State SenderState SenderWorld) × (dialog_loop
              (sender rkyv archive is_rkyv rest most)
              (payload_size_len_of most)
              (sendings room (messages_of rkyv archive is_rkyv cuts))
              s
            ≡ done (running s'))
          × (s'.socket_connection.connection
              ≡ s.socket_connection.connection
                ++ received {Local = Local}
                    (frames (payload_size_len_of most) (pieces_of rkyv archive is_rkyv cuts))))
        × Arrived log
            (log r.world.processor)
            (wrappers rkyv archive is_rkyv (messages_of rkyv archive is_rkyv cuts))
            (dialog_loop receiver
              (payload_size_len_of most)
              (frames (payload_size_len_of most) (pieces_of rkyv archive is_rkyv cuts))
              r)
        × All
            (λ m.
              deref
                (rkyv_deserialize_as_ref rkyv {Text = Text} {Cause = RkyvError})
                (wrapped rkyv archive is_rkyv m)
              ≡ done (archive m))
            (messages_of rkyv archive is_rkyv cuts)
  dialog_loop_relays_payloads cuts room s r waits are_cuts fits =
      let pieces = pieces_of rkyv archive is_rkyv cuts in
      let (s', runs, wrote) =
        dialog_loop_writes_frames (sender rkyv archive is_rkyv rest most) (payload_size_len_of most)
          room (messages_of rkyv archive is_rkyv cuts) s fits in
      (
        (
          s',
          runs,
          wrote
              ∙ ap (λ l. s.socket_connection.connection ++ l)
                  (framed-received rkyv archive is_rkyv rest most Local (payload_size_len_of most)
                    cuts s.serialization_buffer are_cuts),
        ),
        subst
            (λ messages. Arrived log (log r.world.processor) messages (
              dialog_loop receiver (payload_size_len_of most)
                (frames (payload_size_len_of most) pieces) r))
            (payloads_are rkyv archive is_rkyv most cuts are_cuts)
            (Arrived-Delivered log senders peer_log (log r.world.processor) (payloads pieces)
              r.socket_connection _ _
              (dialog_loop_delivers_payloads receiver most word r pieces waits
                (are_messages rkyv archive is_rkyv most cuts are_cuts))
              (each-HandedOver senders log peer_log ok deserialize serialize processor_error_message
                unknown_command (payloads pieces) r.world)),
        sees_each rkyv archive is_rkyv Text RkyvError (messages_of rkyv archive is_rkyv cuts),
      )
