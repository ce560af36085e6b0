-- ===== src/Dialog/Mmap/Tests.antt =====
-- Runs of the memory-mapped dialog on a channel of two slots.
use reactive_messaging.Prelude.{
  ℕ, ◌+◌, ◌≡◌, refl, List, [], ◌∷◌, ◌++◌, none, Bool, true, false, inr, ltb, if◌then◌else◌,
}
use reactive_messaging.Connection.Sending.{sent, failed}
use reactive_messaging.Dialog.Context.{Services, inform_peer, over}
use reactive_messaging.Dialog.Pieces.{flatten}
use reactive_messaging.Dialog.Mmap.{Slots, State, turns}
use reactive_messaging.Dialog.Mmap.Values.{
  IsValue, arrivals, publish_all, turns_publish, sent_slot_cancelled,
}

-- The slots lent so far, the slots sent with their bytes, and the slots cancelled.
abbrev Lent : Type 0
Lent = ℕ × List (ℕ × List ℕ) × List ℕ

abbrev two_slots : Slots ℕ ℕ Lent
two_slots = record {
  reserve_slot = λ (n, log, cancelled).
      if ltb n 2 then (sent n, (n + 1, log, cancelled)) else (failed false 0, (n, log, cancelled));
  send_reserved = λ slot bytes (n, log, cancelled). (n, log ++ (slot, bytes) ∷ [], cancelled);
  try_cancel_reservation = λ slot (n, log, cancelled). (n, log, cancelled ++ slot ∷ []);
}

abbrev services : Services ℕ Bool ℕ Lent
services = record {
  deserialize = λ bytes. inr 0;
  serialize = λ m buffer. buffer;
  processor_error_message = λ text. none;
  process = λ m w. (sent tt, w);
  reply = λ m w. (sent tt, w);
  unknown_command = λ line err. err;
}

abbrev memory : Bool → List ℕ
memory true = 1 ∷ []
memory false = 0 ∷ []

abbrev at_last : State ℕ ℕ Lent
at_last = record {
  reader_slot = 1;
  received = [];
  socket_connection = record { connection = []; closed = false; id = 0; state = 0 };
  world = (2, [], []);
}

abbrev at_first : State ℕ ℕ Lent
at_first = record at_last { reader_slot = 0; world = (1, [], []) }

abbrev value : List (List ℕ)
value = (5 ∷ []) ∷ (6 ∷ 7 ∷ []) ∷ []

value-IsValue : IsValue 3 value
unfolding flatten
value-IsValue = ((tt, (tt, tt)), refl)

turns_publish_example :
    turns services two_slots memory 3 (arrivals (value ∷ value ∷ [])) at_first
    ≡ publish_all services two_slots memory 3
        (value ∷ value ∷ [])
        0
        at_first.socket_connection
        (1, [], [])
turns_publish_example =
    turns_publish services two_slots memory 3 (value ∷ value ∷ []) at_first refl
      (value-IsValue, (value-IsValue, tt))

-- The first value goes out in the slot 0 and the second one in the slot 1.
each_its_slot :
    turns services two_slots memory 3 (arrivals (value ∷ value ∷ [])) at_first
    ≡ over at_first.socket_connection (2, (0, flatten value) ∷ (1, flatten value) ∷ [], 1 ∷ [])
unfolding publish_all inform_peer
each_its_slot =
    turns_publish services two_slots memory 3 (value ∷ value ∷ []) at_first refl
      (value-IsValue, (value-IsValue, tt))

sent_slot_cancelled_example :
    turns services two_slots memory 3 (arrivals (value ∷ [])) at_last
    ≡ over at_last.socket_connection (2, (1, flatten value) ∷ [], 1 ∷ [])
sent_slot_cancelled_example =
    sent_slot_cancelled services two_slots memory 3 value at_last false 0
      (2, (1, flatten value) ∷ [], []) refl value-IsValue refl refl
