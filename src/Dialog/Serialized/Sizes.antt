-- ===== src/Dialog/Serialized/Sizes.antt =====
-- What the serialized binary dialog does with a part of a payload's size.
use reactive_messaging.Prelude.{ℕ, ◌<◌, ◌≡◌, refl, arith, List, ◌∷◌, length, ◌==◌, false}
use reactive_messaging.Dialog.Context.{Services}
use reactive_messaging.Dialog.Serialized.{
  SerializedWrapperType, Event, read, waiting_for_payload_size, State, clear_if_waiting,
  on_received, on_event, step, next_turn, dialog_loop,
}

module _ {Local Text World StateType : Type 0}
    (services : Services SerializedWrapperType Local Text World) (payload_size_len : ℕ) where
  -- A read of a part of a payload's size leaves no trace: whatever event comes next, the loop goes on as
  -- if the bytes had not come.
  pub partial_size_lost :
      (s : State StateType World) (b : ℕ) (bytes : List ℕ) (event : Event Local)
      (events : List (Event Local))
      → s.read_state ≡ waiting_for_payload_size
      → length (b ∷ bytes) < payload_size_len
      → dialog_loop services payload_size_len (read (b ∷ bytes) ∷ event ∷ events) s
        ≡ dialog_loop services payload_size_len (event ∷ events) s
  unfolding dialog_loop step on_event on_received clear_if_waiting next_turn
  partial_size_lost s b bytes event events w h = rw (w, short (length (b ∷ bytes)) h) refl
    where
      short : (n : ℕ) → n < payload_size_len → (n == payload_size_len) ≡ false
      short n l = ground arith
