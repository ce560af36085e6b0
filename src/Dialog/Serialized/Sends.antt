-- ===== src/Dialog/Serialized/Sends.antt =====
-- What the serialized binary dialog writes for the messages it sends.
use reactive_messaging.Prelude.{
  ℕ, ◌≤◌, ◌≡◌, refl, sym, ap, ◌∙◌, List, [], ◌∷◌, ◌++◌, length, append_assoc, append-nil, take_all,
  some, done, >>=-done,
}
use reactive_messaging.Dialog.Context.{Services, write_all, running}
use reactive_messaging.Dialog.Serialized.{
  SerializedWrapperType, Event, to_send, ReadState, waiting_for_payload_size, reading_payload,
  State, clear_if_waiting, after_write, on_event, step, next_turn, dialog_loop,
}
use reactive_messaging.Dialog.Serialized.Frames.{size_of}

-- Writes that take up to `room` bytes.
unfoldable pub sendings : {Local : Type 0} → ℕ → List Local → List (Event Local)
sendings room [] = []
sendings room (m ∷ messages) = to_send m (some room) ∷ sendings room messages

module _ {Local Text World : Type 0} (services : Services SerializedWrapperType Local Text World)
    (payload_size_len : ℕ) where
  -- The bytes of messages: a size and a payload for each, serialized in the buffer that the one before
  -- left.
  unfoldable pub framed : List Local → List ℕ → List ℕ
  framed [] buffer = []
  framed (m ∷ messages) buffer =
      let payload = services.serialize m buffer in
      (size_of payload_size_len payload ++ payload) ++ framed messages payload

  module _ {StateType : Type 0} where
    -- The state after a turn that sends `m`.
    after_sending : Local → State StateType World → State StateType World
    after_sending m s =
        let payload = services.serialize m s.serialization_buffer in
        record s {
          serialization_buffer = payload;
          socket_connection =
              write_all s.socket_connection (size_of payload_size_len payload ++ payload);
        }

    step-to_send :
        (s : State StateType World) (m : Local) (room : ℕ)
        → length (
            size_of payload_size_len (services.serialize m s.serialization_buffer)
            ++ services.serialize m s.serialization_buffer)
          ≤ room
        → step services payload_size_len (to_send m (some room)) s
          ≡ done (
              running (after_sending m (clear_if_waiting services payload_size_len s.read_state s)))
    unfolding step on_event after_write after_sending clear_if_waiting size_of
    step-to_send s m room h = go_on s.read_state
      where
        go_on :
            (r : ReadState)
            → on_event services payload_size_len
                (to_send m (some room))
                (clear_if_waiting services payload_size_len r s)
              ≡ done (running (after_sending m (clear_if_waiting services payload_size_len r s)))
        go_on waiting_for_payload_size = rw (take_all room _ h) refl
        go_on (reading_payload payload capacity) = rw (take_all room _ h) refl

    connection_cleared :
        (s : State StateType World) (r : ReadState)
        → ((clear_if_waiting services payload_size_len r s).socket_connection ≡ s.socket_connection)
          × ((clear_if_waiting services payload_size_len r s).serialization_buffer
              ≡ s.serialization_buffer)
    unfolding clear_if_waiting
    connection_cleared s waiting_for_payload_size = (refl, refl)
    connection_cleared s (reading_payload payload capacity) = (refl, refl)

    -- Where every write takes the whole of what it is given, the loop sends messages, without a panic, as
    -- their sizes and payloads one after the other.
    pub dialog_loop_writes_frames :
        (room : ℕ) (messages : List Local) (s : State StateType World)
        → ((m : Local) (buffer : List ℕ)
            → length (
                size_of payload_size_len (services.serialize m buffer)
                ++ services.serialize m buffer)
              ≤ room)
        → (s' : State StateType World) × (dialog_loop services payload_size_len
              (sendings room messages)
              s
            ≡ done (running s'))
          × (s'.socket_connection.connection
              ≡ s.socket_connection.connection ++ framed messages s.serialization_buffer)
    unfolding dialog_loop sendings framed next_turn after_sending
    dialog_loop_writes_frames room [] s h =
        (s, refl, sym (append-nil s.socket_connection.connection))
    dialog_loop_writes_frames room (m ∷ messages) s h =
        let cleared = clear_if_waiting services payload_size_len s.read_state s in
        let (same, kept) = connection_cleared s s.read_state in
        let (s', runs, wrote) =
          dialog_loop_writes_frames room messages (after_sending m cleared) h in
        (
          s',
          >>=-done
              (next_turn services payload_size_len
                (dialog_loop services payload_size_len (sendings room messages)))
              (step-to_send s m room (h m s.serialization_buffer)) runs,
          wrote
              ∙ together s.serialization_buffer cleared.serialization_buffer kept
                  s.socket_connection.connection cleared.socket_connection.connection
                  (ap (λ c. c.connection) same),
        )
      where
        together :
            (b b' : List ℕ)
            → b' ≡ b
            → (c c' : List ℕ) → c' ≡ c
            → (c'
                  ++ (size_of payload_size_len (services.serialize m b')
                      ++ services.serialize m b'))
                ++ framed messages (services.serialize m b')
              ≡ c ++ framed (m ∷ messages) b
        together b b' e c c' f = rw (e, f) (append_assoc c _ _)
