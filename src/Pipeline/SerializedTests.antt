-- ===== src/Pipeline/SerializedTests.antt =====
-- A run of two sides that speak rkyv: Booleans, as one byte each, that are seen as that byte.
use reactive_messaging.Prelude.{
  ℕ, ◌≤◌, ◌≡◌, refl, arith, inr, List, [], ◌∷◌, ◌++◌, Bool, true, false, none, done, All, length,
  length-append,
}
use reactive_messaging.Dialog.Context.{Services, running}
use reactive_messaging.Dialog.Pieces.{flatten}
use reactive_messaging.Dialog.Serialized.{
  SerializedWrapperType, deref, State, waiting_for_payload_size, dialog_loop, payload_size_len_of,
}
use reactive_messaging.Dialog.Prefix.{length-to_le_bytes, min_bytes_for_usize}
use reactive_messaging.Dialog.Serialized.Frames.{size_of, frames}
use reactive_messaging.Dialog.Serialized.Sends.{sendings}
use reactive_messaging.Serde.{
  Rkyv, rkyv_serialize, rkyv_serializer, or_panic, write_pieces, rkyv_deserialize_as_ref,
}
use reactive_messaging.Serde.RoundTrip.{IsRkyv}
use reactive_messaging.Pipeline.{Ends}
use reactive_messaging.Pipeline.Tests.{log_of, senders, senders-IsReliable, rest}
use reactive_messaging.Pipeline.Cuts.{
  received, rkyv_payload, wrapped, Cuts, pieces_of, wrappers, AreCuts, sender,
}
use reactive_messaging.Pipeline.Serialized.{Arrived, receiver, dialog_loop_relays_payloads}

abbrev byte : Bool → ℕ
byte true = 1
byte false = 0

abbrev first_byte : List ℕ → ℕ
first_byte [] = 2
first_byte (b ∷ bytes) = b

abbrev rkyv : Rkyv Bool ℕ ℕ
rkyv = record { serialize_value = λ m. ((byte m ∷ []) ∷ [], none); archived_root = first_byte }

rkyv-IsRkyv : IsRkyv rkyv byte
unfolding flatten
rkyv-IsRkyv = record { writes = λ m. refl; sees = λ m. refl }

abbrev cuts : Cuts rkyv byte rkyv-IsRkyv
cuts = (true, (1 ∷ []) ∷ []) ∷ (false, (0 ∷ []) ∷ []) ∷ []

cuts-AreCuts : AreCuts rkyv byte rkyv-IsRkyv 1024 cuts
unfolding flatten rkyv_payload rkyv_serialize rkyv_serializer or_panic write_pieces
cuts-AreCuts =
    (refl, ((tt, tt), short 1 (omega arith)), (refl, ((tt, tt), short 1 (omega arith)), tt))
  where
    short : (n : ℕ) → n ≤ 3 → n ≤ 1024
    short n h = omega arith

two_bytes : payload_size_len_of 1024 ≡ 2
unfolding min_bytes_for_usize
two_bytes = refl

at_most_three : (m : Bool) → length (size_of 2 (byte m ∷ []) ++ byte m ∷ []) ≤ 3
unfolding size_of
at_most_three m = omega (
  arith,
  length-append (size_of 2 (byte m ∷ [])) (byte m ∷ []),
  length-to_le_bytes 2 8 1 (omega arith),
)

fits :
    (m : Bool) (buffer : List ℕ)
    → length (
        size_of (payload_size_len_of 1024) (rkyv_payload rkyv byte rkyv-IsRkyv m buffer)
        ++ rkyv_payload rkyv byte rkyv-IsRkyv m buffer)
      ≤ 3
unfolding flatten rkyv_payload rkyv_serialize rkyv_serializer or_panic write_pieces
fits m buffer = rw two_bytes (at_most_three m)

abbrev sending : State ℕ ℕ
sending = record {
  payload_size_buffer = [];
  serialization_buffer = 9 ∷ [];
  read_state = waiting_for_payload_size;
  socket_connection = record { connection = []; closed = false; id = 1; state = 0 };
  world = 0;
}

-- The local processor's channel refuses once.
abbrev receiving : State ℕ (Ends (ℕ × List SerializedWrapperType) (ℕ × List ℕ))
receiving = record {
  payload_size_buffer = [];
  serialization_buffer = [];
  read_state = waiting_for_payload_size;
  socket_connection = record { connection = []; closed = false; id = 1; state = 0 };
  world = record { processor = (1, []); peer = (0, []) };
}

abbrev speaking : Services SerializedWrapperType Bool ℕ ℕ
speaking = sender rkyv byte rkyv-IsRkyv (rest SerializedWrapperType) 1024

abbrev hearing :
    Services SerializedWrapperType ℕ ℕ (Ends (ℕ × List SerializedWrapperType) (ℕ × List ℕ))
hearing =
    receiver rkyv byte rkyv-IsRkyv (senders SerializedWrapperType) log_of log_of
      (senders-IsReliable SerializedWrapperType) (λ bytes. inr 0) (λ m buffer. []) (λ text. none)
      (λ line err. err) (rest SerializedWrapperType) 1024 (omega arith)

dialog_loop_relays_payloads_example :
    ((s' : State ℕ ℕ) × (dialog_loop speaking
          (payload_size_len_of 1024)
          (sendings 3 (true ∷ false ∷ []))
          sending
        ≡ done (running s'))
      × (s'.socket_connection.connection
          ≡ []
            ++ received {Local = ℕ}
                (frames (payload_size_len_of 1024) (pieces_of rkyv byte rkyv-IsRkyv cuts))))
    × Arrived log_of [] (wrappers rkyv byte rkyv-IsRkyv (true ∷ false ∷ [])) (
        dialog_loop hearing
          (payload_size_len_of 1024)
          (frames (payload_size_len_of 1024) (pieces_of rkyv byte rkyv-IsRkyv cuts))
          receiving)
    × All
        (λ m.
          deref
            (rkyv_deserialize_as_ref rkyv {Text = ℕ} {Cause = ℕ})
            (wrapped rkyv byte rkyv-IsRkyv m)
          ≡ done (byte m))
        (true ∷ false ∷ [])
dialog_loop_relays_payloads_example =
    dialog_loop_relays_payloads rkyv byte rkyv-IsRkyv (senders SerializedWrapperType) log_of log_of
      (senders-IsReliable SerializedWrapperType) (λ bytes. inr 0) (λ m buffer. []) (λ text. none)
      (λ line err. err) (rest SerializedWrapperType) 1024 (omega arith) cuts 3 sending receiving
      refl cuts-AreCuts fits
