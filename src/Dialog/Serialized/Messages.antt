-- ===== src/Dialog/Serialized/Messages.antt =====
-- Whole messages, as the serialized binary dialog receives them and sends them.
use reactive_messaging.Prelude.{
  ℕ, zero, suc, ◌*◌, ◌<◌, ◌≤◌, ◌^◌, ◌≡◌, refl, ◌∙◌, arith, List, [], ◌∷◌, length, All, ==_iff, Eval,
  done, >>=-done,
}
use reactive_messaging.Dialog.Context.{
  Services, SocketConnection, report_closed, Flow, go, stop, hand_over, flow_then, each, Turn,
  running, over,
}
use reactive_messaging.Dialog.Prefix.{
  length-to_le_bytes, decode_usize_min_fits, min_bytes_for_usize_least,
}
use reactive_messaging.Dialog.Serialized.{
  SerializedWrapperType, from_raw_unchecked, read, waiting_for_payload_size, reading_payload, State,
  clear_if_waiting, size_received, payload_received, on_received, step, next_turn, dialog_loop,
  payload_size_len_of,
}
use reactive_messaging.Dialog.Pieces.{flatten, IsNonEmpty}
use reactive_messaging.Dialog.Serialized.Frames.{
  size_of, frames, payloads, step_read, dialog_loop-pieces,
}

-- A message in pieces: none is empty, and together they are no longer than `most`.
abbrev pub IsMessage : ℕ → List (List ℕ) → Type 0
IsMessage most [] = ⊥
IsMessage most (piece ∷ pieces) =
    All IsNonEmpty (piece ∷ pieces) × (length (flatten (piece ∷ pieces)) ≤ most)

filled : (bytes : List ℕ) → 1 ≤ length bytes → IsNonEmpty bytes
filled [] h = absurd (omega arith)
filled (b ∷ bytes) h = tt

some_bytes : (most n : ℕ) → most < 2 ^ 64 → 1 ≤ n → n ≤ most → 1 ≤ payload_size_len_of most
some_bytes most n word h l =
    go_on (payload_size_len_of most) (min_bytes_for_usize_least most 0 word).1
  where
    go_on : (k : ℕ) → most < 2 ^ (k * 8) → 1 ≤ k
    go_on zero e = absurd (omega arith)
    go_on (suc k) e = omega arith

-- What the loop leaves after messages, told by what the processor did with them.
pub data Delivered {StateType World : Type 0} (c : SocketConnection StateType)
    : Flow World → Eval (Turn (State StateType World) StateType World) → Type 0 where
  delivered_all :
      (s : State StateType World)
      → s.read_state ≡ waiting_for_payload_size
      → s.socket_connection ≡ c
      → Delivered c (go s.world) (done (running s))
  delivered_until : (w : World) → Delivered c (stop w) (done (over (report_closed c) w))

module _ {Local Text World StateType : Type 0}
    (services : Services SerializedWrapperType Local Text World) (most : ℕ)
    (word : most < 2 ^ 64) where
  -- A payload's size, in one read.
  step-size_of :
      (s : State StateType World) (payload : List ℕ)
      → s.read_state ≡ waiting_for_payload_size
      → 1 ≤ length payload
      → length payload ≤ most
      → step services
          (payload_size_len_of most)
          (read (size_of (payload_size_len_of most) payload))
          s
        ≡ done (
            running (record s {
              payload_size_buffer = size_of (payload_size_len_of most) payload;
              read_state = reading_payload [] (length payload);
            }))
  unfolding size_of on_received clear_if_waiting size_received
  step-size_of s payload w h l =
      let size : List ℕ = size_of (payload_size_len_of most) payload in
      let short = (min_bytes_for_usize_least most 0 word).0 in
      let whole = length-to_le_bytes (payload_size_len_of most) 8 (length payload) short in
      step_read services (payload_size_len_of most) s size
        (filled size (omega (arith, whole, some_bytes most (length payload) word h l)))
      ∙ rw
          (
            w,
            clear_if_waiting,
            (==_iff (length size) (payload_size_len_of most)).1 whole,
            decode_usize_min_fits most (length payload) word l,
          )
          refl

  after_message :
      (s : State StateType World) (messages : List (List (List ℕ))) (flow : Flow World)
      → ((w : World)
          → Delivered s.socket_connection (each (hand_over services) (payloads messages) w) (
              dialog_loop services
                (payload_size_len_of most)
                (frames (payload_size_len_of most) messages)
                (record s { read_state = waiting_for_payload_size; world = w })))
      → Delivered s.socket_connection
          (flow_then flow (each (hand_over services) (payloads messages)))
          (next_turn services
            (payload_size_len_of most)
            (dialog_loop services
              (payload_size_len_of most)
              (frames (payload_size_len_of most) messages))
            (payload_received services (payload_size_len_of most) s flow))
  unfolding flow_then next_turn payload_received
  after_message s messages (go w) h = h w
  after_message s messages (stop w) h = delivered_until w

  -- Messages of at most `receiver_max_msg_size` bytes, none empty, whose sizes arrive in one read each and
  -- whose payloads arrive in pieces of any length, are handed to the processor in order and once each, until
  -- one ends the dialog; there is no panic, and afterwards the loop waits for a size again.
  pub dialog_loop_delivers_payloads :
      (s : State StateType World) (messages : List (List (List ℕ)))
      → s.read_state ≡ waiting_for_payload_size
      → All (IsMessage most) messages
      → Delivered s.socket_connection (each (hand_over services) (payloads messages) s.world) (
          dialog_loop services
            (payload_size_len_of most)
            (frames (payload_size_len_of most) messages)
            s)
  unfolding dialog_loop frames payloads each next_turn flatten
  dialog_loop_delivers_payloads s [] w h = delivered_all s w refl
  dialog_loop_delivers_payloads s ([] ∷ messages) w h = absurd h.0
  dialog_loop_delivers_payloads s ((piece ∷ pieces) ∷ messages) w h =
      let payload : List ℕ = flatten (piece ∷ pieces) in
      let s' : State StateType World = record s {
        payload_size_buffer = size_of (payload_size_len_of most) payload;
      } in
      rw
        (>>=-done _ (step-size_of s payload w (some_piece piece pieces h.0.0) h.0.1) (
          dialog_loop-pieces services (payload_size_len_of most) s' [] piece pieces (length payload)
            (frames (payload_size_len_of most) messages) h.0.0 (omega arith)))
        (after_message s' messages (hand_over services (from_raw_unchecked payload) s.world) (λ v.
          dialog_loop_delivers_payloads
            (record s' { read_state = waiting_for_payload_size; world = v }) messages refl h.1))
    where
      some_piece :
          (piece : List ℕ) (pieces : List (List ℕ))
          → All IsNonEmpty (piece ∷ pieces)
          → 1 ≤ length (flatten (piece ∷ pieces))
      some_piece [] pieces k = absurd k.0
      some_piece (b ∷ piece) pieces k = omega arith
