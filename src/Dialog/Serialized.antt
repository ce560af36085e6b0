-- ===== src/Dialog/Serialized.antt =====
-- src/socket_connection/socket_dialog/serialized_binary_dialog.rs: messages are binary payloads, each
-- behind its size. Each turn of the loop is one event of `tokio::select!`, as in the textual dialog.
pub mod Sizes
pub mod Frames
pub mod Messages
pub mod Sends
mod Tests
use reactive_messaging.Prelude.{
  ℕ, ◌+◌, ◌<◌, ◌≡◌, ◌⊎◌, inl, inr, List, [], ◌∷◌, ◌++◌, length, take, Bool, true, false, Option,
  none, some, ◌==◌, if◌then◌else◌, Eval, done, panic, ◌>>=◌,
}
use reactive_messaging.Dialog.Context.{
  SocketConnection, report_closed, write_all, Services, Flow, go, stop, hand_over, Turn, running,
  over, and_then,
}
use reactive_messaging.Dialog.Prefix.{min_bytes_for_usize, decode_usize_min, to_le_bytes}

-- The wrapper of a payload, as long as it is not deserialized.
pub record SerializedWrapperType : Type 0 where
  pub raw : List ℕ

unfoldable pub from_raw_unchecked : List ℕ → SerializedWrapperType
from_raw_unchecked raw = record { raw = raw }

-- With the validation of the deserializer.
unfoldable pub try_from_raw :
    {Error : Type 0} → (List ℕ → Option Error) → List ℕ → SerializedWrapperType ⊎ Error
try_from_raw validate raw = elim (validate raw) [
  | none ↦ inl (from_raw_unchecked raw)
  | some err ↦ inr err
]

-- `deref()`, by the deserializer.
unfoldable pub deref :
    {Ref Error : Type 0} → (List ℕ → Ref ⊎ Error) → SerializedWrapperType → Eval Ref
deref deserialize_as_ref wrapper = elim (deserialize_as_ref wrapper.raw) [
  | inl message ↦ done message
  | inr err ↦ panic
]

unfoldable pub from_value :
    {Message : Type 0} → (Message → List ℕ → List ℕ) → Message → SerializedWrapperType
from_value serialize local_message = record { raw = serialize local_message [] }

pub data Event (Local : Type 0) : Type 0 where
  -- `sender_stream.next()` gives a message; `write_vectored()` takes up to this many bytes, or fails.
  to_send : Local → Option ℕ → Event Local
  sender_ended : Event Local
  -- `read_buf()` gives these bytes: none at the end of the input.
  read : List ℕ → Event Local
  would_block : Event Local
  read_failed : Event Local

-- The payload buffer with its capacity.
pub data ReadState : Type 0 where
  waiting_for_payload_size : ReadState
  reading_payload : List ℕ → ℕ → ReadState

-- `payload_size_buffer` has room for `payload_size_len` bytes.
pub record State (StateType World : Type 0) : Type 0 where
  pub payload_size_buffer : List ℕ
  pub serialization_buffer : List ℕ
  pub read_state : ReadState
  pub socket_connection : SocketConnection StateType
  pub world : World

-- `min_bytes_for_usize(Self::CONST_CONFIG.receiver_max_msg_size)`
abbrev pub payload_size_len_of : ℕ → ℕ
payload_size_len_of receiver_max_msg_size = min_bytes_for_usize receiver_max_msg_size

-- `payload_size_len` is computed before the loop. `Vec::with_capacity()` gives a buffer of the capacity
-- that is asked for: the loop counts on it.
module _ {Local Text World StateType : Type 0}
    (services : Services SerializedWrapperType Local Text World) (payload_size_len : ℕ) where
  -- What precedes the `select!`: the buffer for the payload size is cleared.
  unfoldable pub clear_if_waiting : ReadState → State StateType World → State StateType World
  clear_if_waiting waiting_for_payload_size s = record s { payload_size_buffer = [] }
  clear_if_waiting (reading_payload payload capacity) s = s

  unfoldable pub size_received :
      State StateType World → Eval ℕ → Eval (Turn (State StateType World) StateType World)
  size_received s size = do
    expected_payload_len ← size
    done (running (record s { read_state = reading_payload [] expected_payload_len }))

  unfoldable pub payload_received :
      State StateType World → Flow World → Turn (State StateType World) StateType World
  payload_received s (go w) =
      running (record s { read_state = waiting_for_payload_size; world = w })
  payload_received s (stop w) = over (report_closed s.socket_connection) w

  -- The branch `Ok(n) if n > 0`.
  unfoldable pub on_received :
      ReadState
      → List ℕ
      → State StateType World
      → Eval (Turn (State StateType World) StateType World)
  unfolding size_received payload_received
  on_received waiting_for_payload_size bytes s =
      let received = s.payload_size_buffer ++ bytes in
      let s' = record s { payload_size_buffer = received } in
      if length received == payload_size_len
      then size_received s' (decode_usize_min received)
      else done (running s')
  on_received (reading_payload payload capacity) bytes s =
      let received = payload ++ bytes in
      if length received == capacity
      then done (payload_received s (hand_over services (from_raw_unchecked received) s.world))
      else done (running (record s { read_state = reading_payload received capacity }))

  unfoldable pub after_write :
      State StateType World → List ℕ → Option ℕ → Turn (State StateType World) StateType World
  after_write s to_write none = over (report_closed s.socket_connection) s.world
  after_write s to_write (some n) =
      running (record s { socket_connection = write_all s.socket_connection (take n to_write) })

  unfoldable pub on_event :
      Event Local → State StateType World → Eval (Turn (State StateType World) StateType World)
  unfolding on_received after_write
  on_event (to_send message written) s =
      let buffer = services.serialize message s.serialization_buffer in
      let to_write = take payload_size_len (to_le_bytes 8 (length buffer)) ++ buffer in
      done (after_write (record s { serialization_buffer = buffer }) to_write written)
  on_event sender_ended s = done (over s.socket_connection s.world)
  on_event (read []) s = done (over (report_closed s.socket_connection) s.world)
  on_event (read (b ∷ bytes)) s = on_received s.read_state (b ∷ bytes) s
  on_event would_block s = done (running s)
  on_event read_failed s = done (over (report_closed s.socket_connection) s.world)

  -- One turn of the `'connection` loop.
  unfoldable pub step :
      Event Local → State StateType World → Eval (Turn (State StateType World) StateType World)
  unfolding on_event clear_if_waiting
  step event s = on_event event (clear_if_waiting s.read_state s)

  unfoldable pub next_turn :
      (State StateType World → Eval (Turn (State StateType World) StateType World))
      → Turn (State StateType World) StateType World
      → Eval (Turn (State StateType World) StateType World)
  next_turn f (running s) = f s
  next_turn f (over c w) = done (over c w)

  -- The `'connection` loop over the events that come.
  unfoldable pub dialog_loop :
      List (Event Local)
      → State StateType World
      → Eval (Turn (State StateType World) StateType World)
  unfolding step next_turn
  dialog_loop [] s = done (running s)
  dialog_loop (event ∷ events) s = do turn ← step event s; next_turn (dialog_loop events) turn
