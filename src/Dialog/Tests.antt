-- ===== src/Dialog/Tests.antt =====
-- Runs of the dialogs between two sides that exchange Booleans.
use reactive_messaging.Prelude.{
  ℕ, ◌≤◌, Bool, if◌then◌else◌, ◌==◌, ◌≡◌, ◌≢◌, refl, arith, true, false, List, [], ◌∷◌, ◌++◌, none,
  inl, inr, ◌⊎◌,
}
use reactive_messaging.Connection.Sending.{sent, failed}
use reactive_messaging.Dialog.Context.{Services, Holds}
use reactive_messaging.Dialog.Textual.{
  newline, State, after_read, on_received, to_send, read, would_block, dialog_loop,
}
use reactive_messaging.Dialog.Textual.Lines.{feed}
use reactive_messaging.Dialog.Textual.Stream.{on_received-feed}
use reactive_messaging.Dialog.Textual.Turns.{StaysOpen, IsClosed, dialog_loop_reports_closed}
use reactive_messaging.Dialog.Textual.Reads.{IsPartial, dialog_loop_split_reads}

-- 'a' and 'b'; anything else is an unknown command.
abbrev letters : Bool → List ℕ
letters true = 97 ∷ []
letters false = 98 ∷ []

abbrev parsed : List ℕ → Bool ⊎ ℕ
parsed (b ∷ []) = if b == 97 then inl true else if b == 98 then inl false else inr b
parsed bytes = inr 0

-- The world is what was processed so far; `false` is not taken, and aborts.
abbrev services : Services Bool Bool ℕ (List Bool)
services = record {
  deserialize = parsed;
  serialize = λ m buffer. letters m;
  processor_error_message = λ text. none;
  process = λ m w. if m then (sent tt, w ++ m ∷ []) else (failed true 0, w);
  reply = λ m w. (sent tt, w);
  unknown_command = λ line err. err;
}

abbrev fresh : State ℕ (List Bool)
fresh = record {
  read_buffer = [];
  serialization_buffer = [];
  socket_connection = record { connection = []; closed = false; id = 0; state = 0 };
  world = [];
}

abbrev halfway : State ℕ (List Bool)
halfway = record fresh { read_buffer = 97 ∷ [] }

letter : (b : ℕ) → 97 ≤ b → b ≢ newline
letter b h e = omega arith

halfway-IsPartial : IsPartial services halfway
halfway-IsPartial = (letter 97 (omega arith), tt)

dialog_loop_split_reads_example :
    dialog_loop services (read (10 ∷ 97 ∷ []) ∷ read (10 ∷ 98 ∷ []) ∷ []) halfway
    ≡ dialog_loop services (read ((10 ∷ 97 ∷ []) ++ (10 ∷ 98 ∷ [])) ∷ []) halfway
dialog_loop_split_reads_example =
    dialog_loop_split_reads services halfway 10 10 (97 ∷ []) (98 ∷ []) [] halfway-IsPartial

on_received-feed_example :
    on_received services (10 ∷ 97 ∷ []) halfway
    ≡ after_read services halfway (feed services (97 ∷ []) (10 ∷ 97 ∷ []) [])
on_received-feed_example = on_received-feed services halfway (10 ∷ 97 ∷ []) halfway-IsPartial

dialog_loop_reports_closed_example :
    Holds
      (StaysOpen services fresh.socket_connection)
      (IsClosed services)
      (dialog_loop services (to_send true true ∷ would_block ∷ read [] ∷ []) fresh)
dialog_loop_reports_closed_example =
    dialog_loop_reports_closed services fresh.socket_connection
      (to_send true true ∷ would_block ∷ read [] ∷ []) fresh
      ((λ e. cc), ((λ e. cc), ((λ e. cc), tt))) refl
