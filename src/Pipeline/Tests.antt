-- ===== src/Pipeline/Tests.antt =====
-- Runs of two sides on concrete messages: Booleans, as one letter or one byte each.
use reactive_messaging.Prelude.{
  ℕ, zero, suc, ◌≤◌, ◌≡◌, ◌≢◌, refl, arith, ◌⊎◌, inl, inr, List, [], ◌∷◌, ◌++◌, Bool, true, false,
  none, ◌==◌, if◌then◌else◌,
}
use reactive_messaging.Config.Strategies.{retry_with_backoff_up_to}
use reactive_messaging.Connection.Sending.{Attempt, success, transient, Retrier, sent}
use reactive_messaging.Connection.Sending.Retries.{attempts, IsRetrier}
use reactive_messaging.Connection.Sending.Delivery.{IsLog}
use reactive_messaging.Dialog.Context.{Services, running}
use reactive_messaging.Dialog.Pieces.{flatten}
use reactive_messaging.Dialog.Textual.{newline, State, dialog_loop}
use reactive_messaging.Dialog.Textual.Lines.{NoNewline}
use reactive_messaging.Dialog.Textual.Messages.{wire, serialized, sendings}
use reactive_messaging.Serde.{Ron, ron_serialize, ron_serializer, or_panic, write_pieces}
use reactive_messaging.Serde.RoundTrip.{IsRon}
use reactive_messaging.Pipeline.{Ends, Senders}
use reactive_messaging.Pipeline.Relaying.{IsReliable}
use reactive_messaging.Pipeline.Textual.{
  Arrived, arrivals, ron_line, sender, receiver, dialog_loop_relays,
}

-- 'a' and 'b'.
abbrev letters : Bool → List ℕ
letters true = 97 ∷ []
letters false = 98 ∷ []

abbrev read_letter : List ℕ → Bool ⊎ ℕ
read_letter (b ∷ []) = if b == 97 then inl true else if b == 98 then inl false else inr b
read_letter bytes = inr 0

abbrev ron : Ron Bool ℕ
ron = record {
  with_options = none;
  serialize = λ m. (letters m ∷ [], none);
  from_bytes = read_letter;
}

letter : (b : ℕ) → 97 ≤ b → b ≢ newline
letter b h e = omega arith

ron-IsRon : IsRon ron
unfolding flatten
ron-IsRon = record { starts = refl; writes = λ m. refl; one_line = one_line; reads = reads }
  where
    one_line : (m : Bool) → NoNewline (letters m ++ [])
    one_line true = (letter 97 (omega arith), tt)
    one_line false = (letter 98 (omega arith), tt)

    reads : (m : Bool) → read_letter (letters m ++ []) ≡ inl m
    reads true = refl
    reads false = refl

-- A channel: the refusals to come, and the messages accepted.
module _ {Message : Type 0} where
  abbrev pub offer : Message → ℕ × List Message → Attempt Message (Unit {0}) × (ℕ × List Message)
  offer m (zero, log) = (success tt, (zero, log ++ m ∷ []))
  offer m (suc n, log) = (transient m, (n, log))

  abbrev pub log_of : ℕ × List Message → List Message
  log_of (n, log) = log

  offer-IsLog : IsLog log_of offer
  offer-IsLog m (zero, log) = refl
  offer-IsLog m (suc n, log) = (refl, refl)

abbrev pub retrier : (Message State : Type 0) → Retrier Message (Unit {0}) State
retrier Message State = record { with_exponential_jitter = attempts; until_timeout = attempts }

retrier-IsRetrier : (Message State : Type 0) → IsRetrier (retrier Message State)
retrier-IsRetrier Message State = record {
  counts = λ n op first. refl;
  stops = λ millis op first. (millis, refl);
}

-- The senders of a side that receives messages of a type, with two attempts more.
abbrev pub senders : (Remote : Type 0) → Senders Remote ℕ ℕ (ℕ × List Remote) (ℕ × List ℕ) ℕ
senders Remote = record {
  strategy = retry_with_backoff_up_to 2;
  uni = record { send = offer; reserve_slot = λ s. (none, s) };
  relaying = retrier Remote (ℕ × List Remote);
  relay_texts = record { first = λ strategy m. 0; exhausted = λ strategy m. 1 };
  channel = record { send = offer; cancel_all_streams = λ s. s };
  suspending = retrier ℕ (ℕ × List ℕ);
  send_texts = record { first = λ strategy m. 0; exhausted = λ strategy m. 1 };
}

pub senders-IsReliable : (Remote : Type 0) → IsReliable (senders Remote) log_of log_of
senders-IsReliable Remote = record {
  supported = tt;
  aborting = refl;
  uni_logs = offer-IsLog;
  relaying_retries = retrier-IsRetrier Remote (ℕ × List Remote);
  channel_logs = offer-IsLog;
  suspending_retries = retrier-IsRetrier ℕ (ℕ × List ℕ);
}

-- What the sending side does with what it receives, which is nothing.
abbrev pub rest : (Message : Type 0) → Services Message Bool ℕ ℕ
rest Message = record {
  deserialize = λ bytes. inr 0;
  serialize = λ m buffer. [];
  processor_error_message = λ text. none;
  process = λ m w. (sent tt, w);
  reply = λ m w. (sent tt, w);
  unknown_command = λ line err. err;
}

abbrev sending : State ℕ ℕ
sending = record {
  read_buffer = [];
  serialization_buffer = 1 ∷ [];
  socket_connection = record { connection = []; closed = false; id = 1; state = 0 };
  world = 0;
}

-- The local processor's channel refuses once.
abbrev receiving : State ℕ (Ends (ℕ × List Bool) (ℕ × List ℕ))
receiving = record {
  read_buffer = [];
  serialization_buffer = [];
  socket_connection = record { connection = []; closed = false; id = 1; state = 0 };
  world = record { processor = (1, []); peer = (0, []) };
}

abbrev speaking : Services Bool Bool ℕ ℕ
speaking =
    sender ron ron-IsRon (λ bytes err. err) 0 (λ err. 0) (senders Bool) log_of log_of
      (senders-IsReliable Bool) (λ m buffer. []) (λ text. none) (λ line err. err) (rest Bool)

abbrev hearing : Services Bool ℕ ℕ (Ends (ℕ × List Bool) (ℕ × List ℕ))
hearing =
    receiver ron ron-IsRon (λ bytes err. err) 0 (λ err. 0) (senders Bool) log_of log_of
      (senders-IsReliable Bool) (λ m buffer. []) (λ text. none) (λ line err. err) (rest Bool)

-- "a\nb\n", in three reads.
dialog_loop_relays_example :
    ((s' : State ℕ ℕ) × (dialog_loop speaking (sendings speaking (true ∷ false ∷ [])) sending
        ≡ running s')
      × (s'.socket_connection.connection
          ≡ [] ++ ((97 ∷ []) ++ flatten ((10 ∷ 98 ∷ []) ∷ (10 ∷ []) ∷ []))))
    × Arrived log_of []
        (true ∷ false ∷ [])
        (dialog_loop hearing (arrivals ((97 ∷ []) ∷ (10 ∷ 98 ∷ []) ∷ (10 ∷ []) ∷ [])) receiving)
unfolding flatten wire serialized ron_line ron_serialize ron_serializer or_panic write_pieces
dialog_loop_relays_example =
    dialog_loop_relays ron ron-IsRon (λ bytes err. err) 0 (λ err. 0) (senders Bool) log_of log_of
      (senders-IsReliable Bool) (λ m buffer. []) (λ text. none) (λ line err. err) (rest Bool)
      (true ∷ false ∷ []) sending receiving (97 ∷ []) ((10 ∷ 98 ∷ []) ∷ (10 ∷ []) ∷ []) refl
      (tt, (tt, (tt, tt))) refl
