-- ===== src/Dialog/Mmap/Values.antt =====
-- Which slots the memory-mapped dialog sends, and with what in them.
use reactive_messaging.Prelude.{
  ℕ, ◌+◌, ◌<◌, ◌≡◌, refl, ap, ◌∙◌, arith, List, [], ◌∷◌, ◌++◌, length, length-append, append_assoc,
  append-nil, none, All, ◌==◌, ==_iff, Bool, false, if◌then◌else◌,
}
use reactive_messaging.Connection.Sending.{Outcome, sent, failed}
use reactive_messaging.Dialog.Context.{
  inform_peer, reply_if_any, report_closed, Services, SocketConnection, Flow, go, stop, Turn,
  running, over, and_then,
}
use reactive_messaging.Dialog.Pieces.{flatten, IsNonEmpty, length-IsNonEmpty}
use reactive_messaging.Dialog.Mmap.{
  Slots, Event, read, State, allocate_reader_slot, break_connection, prepare_next, on_received,
  step, turns, after_reserve, after_inform,
}

-- The reads of values, each in pieces.
unfoldable pub reads : {Local : Type 0} → List (List ℕ) → List (Event Local) → List (Event Local)
reads [] events = events
reads (piece ∷ pieces) events = read piece ∷ reads pieces events

unfoldable pub arrivals : {Local : Type 0} → List (List (List ℕ)) → List (Event Local)
unfolding reads
arrivals [] = []
arrivals (pieces ∷ rest) = reads pieces (arrivals rest)

-- A value in pieces, none empty, of as many bytes as its type takes.
abbrev pub IsValue : ℕ → List (List ℕ) → Type 0
IsValue size [] = ⊥
IsValue size (piece ∷ pieces) =
    All IsNonEmpty (piece ∷ pieces) × (length (flatten (piece ∷ pieces)) ≡ size)

module _ {Remote Local Text World Slot StateType : Type 0}
    (services : Services Remote Local Text World) (slots : Slots Slot Text World)
    (memory : Local → List ℕ) (remote_payload_size : ℕ) where
  -- The dialog without a further slot: it ends, its connection reported closed if the error asked to abort
  -- or nothing can be said about it.
  unfoldable without_slot :
      Slot
      → SocketConnection StateType
      → Bool
      → Flow World
      → Turn (State Slot StateType World) StateType World
  without_slot sent_slot c abort (go w) =
      over (if abort then report_closed c else c) (slots.try_cancel_reservation sent_slot w)
  without_slot sent_slot c abort (stop w) =
      over (report_closed c) (slots.try_cancel_reservation sent_slot w)

  unfoldable and_publish :
      (Slot → World → Turn (State Slot StateType World) StateType World)
      → Slot
      → SocketConnection StateType
      → Outcome Slot Text × World
      → Turn (State Slot StateType World) StateType World
  unfolding without_slot
  and_publish more sent_slot c (sent next_slot, w) = more next_slot w
  and_publish more sent_slot c (failed abort text, w) =
      without_slot sent_slot c abort (inform_peer services text w)

  -- What becomes of values, in terms of the channel: the slot at hand goes out with the bytes of the first
  -- one, the slot that is reserved then takes the next one, and so on; the last one reserved is at hand,
  -- empty, in the end.
  unfoldable pub publish_all :
      List (List (List ℕ))
      → Slot
      → SocketConnection StateType
      → World
      → Turn (State Slot StateType World) StateType World
  unfolding and_publish
  publish_all [] slot c w =
      running (record { reader_slot = slot; received = []; socket_connection = c; world = w })
  publish_all (value ∷ values) slot c w =
      and_publish (λ next_slot w'. publish_all values next_slot c w') slot c
        (slots.reserve_slot (slots.send_reserved slot (flatten value) w))

  turns-reads :
      (piece : List ℕ) (pieces : List (List ℕ)) (events : List (Event Local))
      (s : State Slot StateType World)
      → All IsNonEmpty (piece ∷ pieces)
      → length s.received + length (flatten (piece ∷ pieces)) ≡ remote_payload_size
      → turns services slots memory remote_payload_size (reads (piece ∷ pieces) events) s
        ≡ and_then
            (prepare_next services slots memory remote_payload_size s.reader_slot
              s.socket_connection
              (allocate_reader_slot services slots s.socket_connection (
                slots.send_reserved s.reader_slot
                  (s.received ++ flatten (piece ∷ pieces))
                  s.world)))
            (turns services slots memory remote_payload_size events)
  unfolding turns step on_received reads flatten and_then
  turns-reads [] pieces events s h e = absurd h.0
  turns-reads (b ∷ piece) [] events s h e =
      rw
        (
          (==_iff (length (s.received ++ b ∷ piece)) remote_payload_size).1
              (omega (arith, length-append s.received (b ∷ piece), length-append (b ∷ piece) [])),
          append-nil piece,
        )
        refl
  turns-reads (b ∷ piece) (next ∷ pieces) events s h e =
      rw
        (less (length (s.received ++ b ∷ piece)) (
          omega (
            arith,
            length-append s.received (b ∷ piece),
            length-append (b ∷ piece) (next ++ flatten pieces),
            length-append next (flatten pieces),
            length-IsNonEmpty next h.1.0,
          )))
        (turns-reads next pieces events (record s { received = s.received ++ b ∷ piece }) h.1
            (omega (
              arith,
              length-append s.received (b ∷ piece),
              length-append (b ∷ piece) (next ++ flatten pieces),
            ))
          ∙ ap
              (λ bytes.
                and_then
                  (prepare_next services slots memory remote_payload_size s.reader_slot
                    s.socket_connection
                    (allocate_reader_slot services slots s.socket_connection
                      (slots.send_reserved s.reader_slot bytes s.world)))
                  (turns services slots memory remote_payload_size events))
              (append_assoc s.received (b ∷ piece) (next ++ flatten pieces)))
    where
      less : (n : ℕ) → n < remote_payload_size → (n == remote_payload_size) ≡ false
      less n l = ground arith

  unless_informed :
      (rest : State Slot StateType World → Turn (State Slot StateType World) StateType World)
      (slot : Slot) (c : SocketConnection StateType) (abort : Bool) (informed : Flow World)
      → and_then
          (prepare_next services slots memory remote_payload_size slot c
            (after_inform services slots abort c informed))
          rest
        ≡ without_slot slot c abort informed
  unfolding prepare_next and_then break_connection after_inform without_slot
  unless_informed rest slot c abort (go w) = refl
  unless_informed rest slot c abort (stop w) = refl

  -- After a slot was sent, the next one is the one that was reserved, and empty.
  prepared :
      (rest : State Slot StateType World → Turn (State Slot StateType World) StateType World)
      (more : Slot → World → Turn (State Slot StateType World) StateType World) (slot : Slot)
      (c : SocketConnection StateType) (reserved : Outcome Slot Text × World)
      → ((next_slot : Slot) (w : World)
          → rest
              (record { reader_slot = next_slot; received = []; socket_connection = c; world = w })
            ≡ more next_slot w)
      → and_then
          (prepare_next services slots memory remote_payload_size slot c
            (after_reserve services slots c reserved))
          rest
        ≡ and_publish more slot c reserved
  unfolding prepare_next and_then after_reserve and_publish
  prepared rest more slot c (sent next_slot, w) h = h next_slot w
  prepared rest more slot c (failed abort text, w) h = unless_informed rest slot c abort _

  -- Values that arrive in pieces of any length, from an empty slot on, are sent in order and once each, with
  -- exactly their bytes, the first in the slot at hand and every other in the slot that was reserved after
  -- the one before, until no slot can be had: then the dialog ends, and the last slot sent is cancelled.
  pub turns_publish :
      (values : List (List (List ℕ))) (s : State Slot StateType World)
      → s.received ≡ []
      → All (IsValue remote_payload_size) values
      → turns services slots memory remote_payload_size (arrivals values) s
        ≡ publish_all values s.reader_slot s.socket_connection s.world
  unfolding turns arrivals publish_all allocate_reader_slot
  turns_publish [] s e h = ap (λ bytes. running (record s { received = bytes })) e
  turns_publish ([] ∷ values) s e h = absurd h.0
  turns_publish ((piece ∷ pieces) ∷ values) s e h =
      turns-reads piece pieces (arrivals values) s h.0.0
        (ap (λ bytes. length bytes + length (flatten (piece ∷ pieces))) e ∙ omega (arith, h.0.1))
      ∙ ap
          (λ bytes.
            and_then
              (prepare_next services slots memory remote_payload_size s.reader_slot
                s.socket_connection
                (allocate_reader_slot services slots s.socket_connection
                  (slots.send_reserved s.reader_slot (bytes ++ flatten (piece ∷ pieces)) s.world)))
              (turns services slots memory remote_payload_size (arrivals values)))
          e
      ∙ prepared _ _ s.reader_slot s.socket_connection _ (λ next_slot w.
        turns_publish values
          (record {
            reader_slot = next_slot;
            received = [];
            socket_connection = s.socket_connection;
            world = w;
          })
          refl h.1)

  -- Where no slot can be had after a value and nothing is to be said about it, the dialog ends, and the slot
  -- that is cancelled then is the one that was sent; the connection is reported closed only if the error
  -- asks to abort.
  pub sent_slot_cancelled :
      (value : List (List ℕ)) (s : State Slot StateType World) (abort : Bool) (text : Text)
      (w : World)
      → s.received ≡ []
      → IsValue remote_payload_size value
      → slots.reserve_slot (slots.send_reserved s.reader_slot (flatten value) s.world)
        ≡ (failed abort text, w)
      → services.processor_error_message text ≡ none
      → turns services slots memory remote_payload_size (arrivals (value ∷ [])) s
        ≡ over
            (if abort then report_closed s.socket_connection else s.socket_connection)
            (slots.try_cancel_reservation s.reader_slot w)
  unfolding publish_all and_publish without_slot inform_peer reply_if_any
  sent_slot_cancelled value s abort text w e h r m =
      turns_publish (value ∷ []) s e (h, tt) ∙ rw (r, m) refl
