-- ===== src/Dialog/Context.antt =====
-- What the dialog loops share: the connection wrapper of src/socket_connection/connection.rs, the
-- services that a loop calls, and the reply to a message that the local processor did not take.
use reactive_messaging.Prelude.{
  ℕ, ◌+◌, ◌%◌, ◌^◌, ◌≡◌, refl, ◌⊎◌, List, [], ◌∷◌, ◌++◌, Bool, true, false, Option, none, some,
  if◌then◌else◌,
}
use reactive_messaging.Connection.Sending.{Outcome, sent, failed}

-- `SocketConnection`; its `TcpStream` is what was written to it.
pub record SocketConnection (StateType : Type 0) : Type 0 where
  pub connection : List ℕ
  pub closed : Bool
  pub id : ℕ
  pub state : StateType

-- `SocketConnection::new()`; `CONNECTION_COUNTER` is an `AtomicU32`, whose `fetch_add()` wraps.
unfoldable pub new : {StateType : Type 0} → List ℕ → StateType → ℕ → SocketConnection StateType × ℕ
new connection initial_state counter = (
  record { connection = connection; closed = false; id = counter; state = initial_state },
  (counter + 1) % 2 ^ 32,
)

unfoldable pub set_state :
    {StateType : Type 0} → SocketConnection StateType → StateType → SocketConnection StateType
set_state c new_state = record c { state = new_state }

abbrev pub report_closed :
    {StateType : Type 0} → SocketConnection StateType → SocketConnection StateType
report_closed c = record c { closed = true }

-- `write_all()`, where the connection accepts the bytes.
abbrev pub write_all :
    {StateType : Type 0} → SocketConnection StateType → List ℕ → SocketConnection StateType
write_all c bytes = record c { connection = c.connection ++ bytes }

-- The serializer, the deserializer and the senders, which act on the rest of the world: the channels
-- and the tasks behind them. Texts are a type of their own.
pub record Services (Remote Local Text World : Type 0) : Type 0 where
  pub deserialize : List ℕ → Remote ⊎ Text
  pub serialize : Local → List ℕ → List ℕ
  pub processor_error_message : Text → Option Local
  pub process : Remote → World → Outcome (Unit {0}) Text × World
  pub reply : Local → World → Outcome (Unit {0}) Text × World
  pub unknown_command : List ℕ → Text → Text

-- `go` for the next statement, `stop` for `report_closed(); break 'connection`.
pub data Flow (World : Type 0) : Type 0 where
  go : World → Flow World
  stop : World → Flow World

module _ {Remote Local Text World : Type 0} (services : Services Remote Local Text World) where
  -- `peer.send_async()` of a message about an error, if there is one: a failure that asks to abort
  -- ends the dialog.
  unfoldable pub after_reply : Outcome (Unit {0}) Text × World → Flow World
  after_reply (sent output, w) = go w
  after_reply (failed abort text, w) = if abort then stop w else go w

  unfoldable pub reply_if_any : Option Local → World → Flow World
  unfolding after_reply
  reply_if_any none w = go w
  reply_if_any (some message) w = after_reply (services.reply message w)

  unfoldable pub inform_peer : Text → World → Flow World
  unfolding reply_if_any
  inform_peer text w = reply_if_any (services.processor_error_message text) w

  unfoldable pub end_if : Bool → Flow World → Flow World
  end_if abort (stop w) = stop w
  end_if abort (go w) = if abort then stop w else go w

  unfoldable pub after_process : Outcome (Unit {0}) Text × World → Flow World
  unfolding inform_peer end_if
  after_process (sent output, w) = go w
  after_process (failed abort text, w) = end_if abort (inform_peer text w)

  -- `processor_sender.send()` of a received message, and what follows a failure.
  unfoldable pub hand_over : Remote → World → Flow World
  unfolding after_process
  hand_over remote_message w = after_process (services.process remote_message w)

-- What a turn of a dialog's `'connection` loop leaves: the loop's variables for the next turn, or, where
-- it ends, the connection and the world.
pub data Turn (State StateType World : Type 0) : Type 0 where
  running : State → Turn State StateType World
  over : SocketConnection StateType → World → Turn State StateType World

unfoldable pub and_then :
    {State StateType World : Type 0}
    → Turn State StateType World
    → (State → Turn State StateType World)
    → Turn State StateType World
and_then (running s) f = f s
and_then (over c w) f = over c w

-- What holds of the loop's variables after some turns, or of the connection that they leave.
pub data Holds {State StateType World : Type 0} (P : State → Type 0)
    (Q : SocketConnection StateType → Type 0) : Turn State StateType World → Type 0 where
  holds_running : (s : State) → P s → Holds P Q (running s)
  holds_over : (c : SocketConnection StateType) (w : World) → Q c → Holds P Q (over c w)

pub Holds-and_then :
    {State StateType World : Type 0} (P : State → Type 0) (Q : SocketConnection StateType → Type 0)
    (t : Turn State StateType World) {f : State → Turn State StateType World}
    → Holds P Q t
    → ((s : State) → P s → Holds P Q (f s))
    → Holds P Q (and_then t f)
unfolding and_then
Holds-and_then P Q (running s) (holds_running _ h) k = k s h
Holds-and_then P Q (over c w) (holds_over _ _ h) k = holds_over c w h

pub and_then_assoc :
    {State StateType World : Type 0} (t : Turn State StateType World)
    (f g : State → Turn State StateType World)
    → and_then t (λ s. and_then (f s) g) ≡ and_then (and_then t f) g
unfolding and_then
and_then_assoc (running s) f g = refl
and_then_assoc (over c w) f g = refl

unfoldable pub flow_then : {World : Type 0} → Flow World → (World → Flow World) → Flow World
flow_then (go w) f = f w
flow_then (stop w) f = stop w

-- An action for each of a list, until one ends the dialog.
unfoldable pub each : {A World : Type 0} → (A → World → Flow World) → List A → World → Flow World
unfolding flow_then
each act [] w = go w
each act (a ∷ rest) w = flow_then (act a w) (each act rest)
