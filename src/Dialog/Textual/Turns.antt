-- ===== src/Dialog/Textual/Turns.antt =====
-- What a turn of the textual dialog's `'connection` loop leaves, and how the loop ends.
use reactive_messaging.Prelude.{◌≡◌, ◌≢◌, refl, List, [], ◌∷◌, true, false, All}
use reactive_messaging.Dialog.Context.{
  Services, SocketConnection, Holds, holds_running, holds_over, Holds-and_then,
}
use reactive_messaging.Dialog.Textual.{
  Reading, more, ended, State, after_read, on_received, step, Event, to_send, sender_ended, read,
  would_block, read_failed, dialog_loop,
}

module _ {Remote Local Text World StateType : Type 0}
    (services : Services Remote Local Text World) where
  abbrev pub IsClosed : SocketConnection StateType → Type 0
  IsClosed c = c.closed ≡ true

  abbrev pub StaysOpen : SocketConnection StateType → State StateType World → Type 0
  StaysOpen c s = s.socket_connection.closed ≡ c.closed

  after_read-reports :
      (c : SocketConnection StateType) (s : State StateType World) (r : Reading World)
      → StaysOpen c s
      → Holds (StaysOpen c) IsClosed (after_read services s r)
  unfolding after_read
  after_read-reports c s (more line w) h = holds_running _ h
  after_read-reports c s (ended w) h = holds_over _ w refl

  step-reports :
      (c : SocketConnection StateType) (e : Event Local) (s : State StateType World)
      → e ≢ sender_ended
      → StaysOpen c s
      → Holds (StaysOpen c) IsClosed (step services e s)
  unfolding step on_received
  step-reports c (to_send message true) s k h = holds_running _ h
  step-reports c (to_send message false) s k h = holds_over _ _ refl
  step-reports c sender_ended s k h = absurd (k refl)
  step-reports c (read []) s k h = holds_over _ _ refl
  step-reports c (read (b ∷ bytes)) s k h = after_read-reports c s _ h
  step-reports c would_block s k h = holds_running _ h
  step-reports c read_failed s k h = holds_over _ _ refl

  -- While the sender's stream does not end, the loop goes on with the connection's closed flag as it
  -- was, and where the loop ends the connection was reported closed.
  pub dialog_loop_reports_closed :
      (c : SocketConnection StateType) (events : List (Event Local)) (s : State StateType World)
      → All (λ e. e ≢ sender_ended) events
      → StaysOpen c s
      → Holds (StaysOpen c) IsClosed (dialog_loop services events s)
  unfolding dialog_loop
  dialog_loop_reports_closed c [] s k h = holds_running s h
  dialog_loop_reports_closed c (e ∷ events) s k h =
      Holds-and_then (StaysOpen c) IsClosed (step services e s) (step-reports c e s k.0 h)
        (λ s' h'. dialog_loop_reports_closed c events s' k.1 h')
