-- ===== src/Dialog/Serialized/Frames.antt =====
-- How the serialized binary dialog takes messages from the connection, each a size and a payload, where
-- every size arrives whole and the payloads arrive in any pieces.
use reactive_messaging.Prelude.{
  ℕ, ◌+◌, ◌<◌, ◌≡◌, refl, sym, ap, ◌∙◌, arith, List, [], ◌∷◌, ◌++◌, length, length-append,
  append_assoc, append-nil, take, All, ◌==◌, ==_iff, false, done, >>=-done,
}
use reactive_messaging.Dialog.Context.{Services, Flow, go, stop, hand_over, running}
use reactive_messaging.Dialog.Prefix.{to_le_bytes}
use reactive_messaging.Dialog.Pieces.{flatten, IsNonEmpty, length-IsNonEmpty}
use reactive_messaging.Dialog.Serialized.{
  SerializedWrapperType, from_raw_unchecked, Event, read, ReadState, reading_payload, State,
  clear_if_waiting, payload_received, on_received, on_event, step, next_turn, dialog_loop,
}

module _ {Local : Type 0} where
  unfoldable pub reads : List (List ℕ) → List (Event Local)
  reads [] = []
  reads (bytes ∷ rest) = read bytes ∷ reads rest

-- The size of a payload as it stands before it.
unfoldable pub size_of : ℕ → List ℕ → List ℕ
size_of payload_size_len payload = take payload_size_len (to_le_bytes 8 (length payload))

-- The reads of messages, each as the pieces of its payload.
unfoldable pub frames : {Local : Type 0} → ℕ → List (List (List ℕ)) → List (Event Local)
unfolding reads
frames payload_size_len [] = []
frames payload_size_len (pieces ∷ rest) =
    read (size_of payload_size_len (flatten pieces)) ∷ reads pieces ++ frames payload_size_len rest

unfoldable pub payloads : List (List (List ℕ)) → List SerializedWrapperType
payloads [] = []
payloads (pieces ∷ rest) = from_raw_unchecked (flatten pieces) ∷ payloads rest

module _ {Local Text World StateType : Type 0}
    (services : Services SerializedWrapperType Local Text World) (payload_size_len : ℕ) where
  -- A read that completes neither a size nor a payload, or one that does.
  pub step_read :
      (s : State StateType World) (bytes : List ℕ)
      → IsNonEmpty bytes
      → step services payload_size_len (read bytes) s
        ≡ on_received services payload_size_len
            (clear_if_waiting services payload_size_len s.read_state s).read_state
            bytes
            (clear_if_waiting services payload_size_len s.read_state s)
  unfolding step on_event
  step_read s [] h = absurd h
  step_read s (b ∷ bytes) h = refl

  step-piece :
      (s : State StateType World) (payload piece : List ℕ) (capacity : ℕ)
      → IsNonEmpty piece
      → length (payload ++ piece) < capacity
      → step services payload_size_len
          (read piece)
          (record s { read_state = reading_payload payload capacity })
        ≡ done (running (record s { read_state = reading_payload (payload ++ piece) capacity }))
  unfolding on_received clear_if_waiting
  step-piece s payload piece capacity h l =
      step_read (record s { read_state = reading_payload payload capacity }) piece h
      ∙ rw (less (length (payload ++ piece)) l) refl
    where
      less : (n : ℕ) → n < capacity → (n == capacity) ≡ false
      less n l = ground arith

  step_last_piece :
      (s : State StateType World) (payload piece : List ℕ) (capacity : ℕ)
      → IsNonEmpty piece
      → length (payload ++ piece) ≡ capacity
      → step services payload_size_len
          (read piece)
          (record s { read_state = reading_payload payload capacity })
        ≡ done (
            payload_received services payload_size_len
              (record s { read_state = reading_payload payload capacity })
              (hand_over services (from_raw_unchecked (payload ++ piece)) s.world))
  unfolding on_received clear_if_waiting
  step_last_piece s payload piece capacity h l =
      step_read (record s { read_state = reading_payload payload capacity }) piece h
      ∙ rw ((==_iff (length (payload ++ piece)) capacity).1 l) refl

  payload_received_lem :
      (s : State StateType World) (r : ReadState) (flow : Flow World)
      → payload_received services payload_size_len (record s { read_state = r }) flow
        ≡ payload_received services payload_size_len s flow
  unfolding payload_received
  payload_received_lem s r (go w) = refl
  payload_received_lem s r (stop w) = refl

  pub dialog_loop-pieces :
      (s : State StateType World) (payload piece : List ℕ) (pieces : List (List ℕ)) (capacity : ℕ)
      (events : List (Event Local))
      → All IsNonEmpty (piece ∷ pieces)
      → length payload + length (flatten (piece ∷ pieces)) ≡ capacity
      → dialog_loop services payload_size_len
          (reads (piece ∷ pieces) ++ events)
          (record s { read_state = reading_payload payload capacity })
        ≡ next_turn services payload_size_len (dialog_loop services payload_size_len events) (
            payload_received services payload_size_len s (
              hand_over services
                (from_raw_unchecked (payload ++ flatten (piece ∷ pieces)))
                s.world))
  unfolding dialog_loop reads flatten next_turn
  dialog_loop-pieces s payload piece [] capacity events h e =
      >>=-done _
        (step_last_piece s payload piece capacity h.0
          (omega (arith, length-append payload piece, ap length (append-nil piece))))
        (ap (next_turn services payload_size_len (dialog_loop services payload_size_len events)) (
          payload_received_lem s (reading_payload payload capacity) _
          ∙ ap
              (λ bytes.
                payload_received services payload_size_len s
                  (hand_over services (from_raw_unchecked (payload ++ bytes)) s.world))
              (sym (append-nil piece))))
  dialog_loop-pieces s payload piece (next ∷ pieces) capacity events h e =
      >>=-done _
        (step-piece s payload piece capacity h.0 (
          omega (
            arith,
            length-append payload piece,
            length-append piece (flatten (next ∷ pieces)),
            length-append next (flatten pieces),
            length-IsNonEmpty next h.1.0,
          )))
        (dialog_loop-pieces s (payload ++ piece) next pieces capacity events h.1 (
            omega
              (arith, length-append payload piece, length-append piece (flatten (next ∷ pieces))))
          ∙ ap
              (λ bytes.
                next_turn services payload_size_len (dialog_loop services payload_size_len events) (
                  payload_received services payload_size_len s
                    (hand_over services (from_raw_unchecked bytes) s.world)))
              (append_assoc payload piece (flatten (next ∷ pieces))))
