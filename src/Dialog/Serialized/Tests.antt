-- ===== src/Dialog/Serialized/Tests.antt =====
-- Runs of the serialized binary dialog whose messages are the bytes themselves.
use reactive_messaging.Prelude.{
  ℕ, ◌*◌, ◌%◌, ◌^◌, ◌≤◌, All, ◌≡◌, refl, arith, List, [], ◌∷◌, ◌++◌, take, none, Bool, true, false,
  inr, done,
}
use reactive_messaging.Connection.Sending.{sent}
use reactive_messaging.Dialog.Context.{Services, hand_over, each}
use reactive_messaging.Dialog.Prefix.{
  min_bytes_for_usize, decode_usize_min, to_le_bytes, decode_usize_min-take,
}
use reactive_messaging.Dialog.Serialized.{
  SerializedWrapperType, read, would_block, waiting_for_payload_size, State, dialog_loop,
  payload_size_len_of,
}
use reactive_messaging.Dialog.Serialized.Sizes.{partial_size_lost}
use reactive_messaging.Dialog.Pieces.{flatten}
use reactive_messaging.Dialog.Serialized.Frames.{frames, payloads}
use reactive_messaging.Dialog.Serialized.Messages.{
  IsMessage, Delivered, dialog_loop_delivers_payloads,
}

decode_usize_min-take_example :
    decode_usize_min (take (min_bytes_for_usize 1024) (to_le_bytes 8 70000))
    ≡ done (70000 % 2 ^ (min_bytes_for_usize 1024 * 8))
decode_usize_min-take_example = decode_usize_min-take 1024 70000 (omega arith)

-- The world is what was processed so far; a Boolean is sent as one byte.
abbrev byte : Bool → List ℕ
byte true = 1 ∷ []
byte false = 0 ∷ []

abbrev services : Services SerializedWrapperType Bool ℕ (List (List ℕ))
services = record {
  deserialize = λ bytes. inr 0;
  serialize = λ m buffer. byte m;
  processor_error_message = λ text. none;
  process = λ m w. (sent tt, w ++ m.raw ∷ []);
  reply = λ m w. (sent tt, w);
  unknown_command = λ line err. err;
}

abbrev fresh : State ℕ (List (List ℕ))
fresh = record {
  payload_size_buffer = [];
  serialization_buffer = [];
  read_state = waiting_for_payload_size;
  socket_connection = record { connection = []; closed = false; id = 0; state = 0 };
  world = [];
}

abbrev cut : List (List (List ℕ))
cut = ((5 ∷ []) ∷ (6 ∷ 7 ∷ []) ∷ []) ∷ ((8 ∷ []) ∷ []) ∷ []

cut-IsMessage : All (IsMessage 1024) cut
unfolding flatten
cut-IsMessage = (((tt, (tt, tt)), short 3 (omega arith)), (((tt, tt), short 1 (omega arith)), tt))
  where
    short : (n : ℕ) → n ≤ 3 → n ≤ 1024
    short n h = omega arith

dialog_loop_delivers_payloads_example :
    Delivered fresh.socket_connection (each (hand_over services) (payloads cut) []) (
      dialog_loop services (payload_size_len_of 1024) (frames (payload_size_len_of 1024) cut) fresh)
dialog_loop_delivers_payloads_example =
    dialog_loop_delivers_payloads services 1024 (omega arith) fresh cut refl cut-IsMessage

partial_size_lost_example :
    dialog_loop services 2 (read (4 ∷ []) ∷ would_block ∷ read (0 ∷ []) ∷ []) fresh
    ≡ dialog_loop services 2 (would_block ∷ read (0 ∷ []) ∷ []) fresh
partial_size_lost_example =
    partial_size_lost services 2 fresh 4 [] would_block (read (0 ∷ []) ∷ []) refl (omega arith)
