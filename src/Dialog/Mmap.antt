-- ===== src/Dialog/Mmap.antt =====
-- src/socket_connection/socket_dialog/mmap_binary_dialog.rs: messages are the memory of values of a fixed
-- size, received right into slots that the local processor's channel lends.
pub mod Values
mod Tests
use reactive_messaging.Prelude.{
  ℕ, List, [], ◌∷◌, ◌++◌, length, Bool, true, false, ◌==◌, if◌then◌else◌,
}
use reactive_messaging.Connection.Sending.{Outcome, sent, failed}
use reactive_messaging.Dialog.Context.{
  SocketConnection, report_closed, write_all, Services, Flow, go, stop, inform_peer, Turn, running,
  over, and_then,
}

-- The slots of the processor's channel.
pub record Slots (Slot Text World : Type 0) : Type 0 where
  pub reserve_slot : World → Outcome Slot Text × World
  -- The slot with the bytes that were put in it.
  pub send_reserved : Slot → List ℕ → World → World
  pub try_cancel_reservation : Slot → World → World

pub data Event (Local : Type 0) : Type 0 where
  -- `sender_stream.next()` gives a message, and the write that follows succeeds or not.
  to_send : Local → Bool → Event Local
  sender_ended : Event Local
  -- `read()` gives these bytes: none at the end of the input.
  read : List ℕ → Event Local
  would_block : Event Local
  read_failed : Event Local

-- `received_len` is the length of `received`.
pub record State (Slot StateType World : Type 0) : Type 0 where
  pub reader_slot : Slot
  pub received : List ℕ
  pub socket_connection : SocketConnection StateType
  pub world : World

-- `allocate_reader_slot!()`: a slot, or the error that ends the dialog.
pub data Allocated (Slot StateType World : Type 0) : Type 0 where
  allocated : Slot → World → Allocated Slot StateType World
  denied : SocketConnection StateType → World → Allocated Slot StateType World

module _ {Remote Local Text World Slot StateType : Type 0}
    (services : Services Remote Local Text World) (slots : Slots Slot Text World) where
  after_inform : Bool → SocketConnection StateType → Flow World → Allocated Slot StateType World
  after_inform abort_processor c (go w) = denied (if abort_processor then report_closed c else c) w
  after_inform abort_processor c (stop w) = denied (report_closed c) w

  after_reserve :
      SocketConnection StateType → Outcome Slot Text × World → Allocated Slot StateType World
  unfolding after_inform
  after_reserve c (sent slot, w) = allocated slot w
  after_reserve c (failed abort_processor text, w) =
      after_inform abort_processor c (inform_peer services text w)

  unfoldable pub allocate_reader_slot :
      SocketConnection StateType → World → Allocated Slot StateType World
  unfolding after_reserve
  allocate_reader_slot c w = after_reserve c (slots.reserve_slot w)

-- `local_payload_size` bytes of memory are what `memory` gives of a message.
module _ {Remote Local Text World Slot StateType : Type 0}
    (services : Services Remote Local Text World) (slots : Slots Slot Text World)
    (memory : Local → List ℕ) (remote_payload_size : ℕ) where
  -- `break 'connection`, and what follows the loop.
  unfoldable pub break_connection :
      Slot → SocketConnection StateType → World → Turn (State Slot StateType World) StateType World
  break_connection reader_slot c w = over c (slots.try_cancel_reservation reader_slot w)

  -- The next slot, where `reader_slot` was sent.
  unfoldable pub prepare_next :
      Slot
      → SocketConnection StateType
      → Allocated Slot StateType World
      → Turn (State Slot StateType World) StateType World
  unfolding break_connection
  prepare_next reader_slot c (allocated slot w) =
      running (record { reader_slot = slot; received = []; socket_connection = c; world = w })
  prepare_next reader_slot c (denied c' w) = break_connection reader_slot c' w

  unfoldable pub on_received :
      List ℕ → State Slot StateType World → Turn (State Slot StateType World) StateType World
  unfolding prepare_next allocate_reader_slot
  on_received bytes s =
      let received = s.received ++ bytes in
      if length received == remote_payload_size
      then prepare_next s.reader_slot s.socket_connection (
          allocate_reader_slot services slots s.socket_connection
            (slots.send_reserved s.reader_slot received s.world))
      else running (record s { received = received })

  -- One turn of the `'connection` loop.
  unfoldable pub step :
      Event Local → State Slot StateType World → Turn (State Slot StateType World) StateType World
  unfolding on_received break_connection
  step (to_send message written) s =
      if written
      then running (record s { socket_connection = write_all s.socket_connection (memory message) })
      else break_connection s.reader_slot (report_closed s.socket_connection) s.world
  step sender_ended s = break_connection s.reader_slot s.socket_connection s.world
  step (read []) s = break_connection s.reader_slot (report_closed s.socket_connection) s.world
  step (read (b ∷ bytes)) s = on_received (b ∷ bytes) s
  step would_block s = running s
  step read_failed s = break_connection s.reader_slot (report_closed s.socket_connection) s.world

  -- The `'connection` loop over the events that come.
  unfoldable pub turns :
      List (Event Local)
      → State Slot StateType World
      → Turn (State Slot StateType World) StateType World
  unfolding step
  turns [] s = running s
  turns (event ∷ events) s = and_then (step event s) (turns events)

  -- The loop, from the first slot on; without one, the dialog ends with an error.
  first_slot :
      List (Event Local)
      → SocketConnection StateType
      → Allocated Slot StateType World
      → Turn (State Slot StateType World) StateType World
  unfolding turns
  first_slot events c (allocated slot w) =
      turns events (record { reader_slot = slot; received = []; socket_connection = c; world = w })
  first_slot events c (denied c' w) = over c' w

  unfoldable pub dialog_loop :
      List (Event Local)
      → SocketConnection StateType
      → World
      → Turn (State Slot StateType World) StateType World
  unfolding first_slot allocate_reader_slot
  dialog_loop events c w = first_slot events c (allocate_reader_slot services slots c w)
