-- ===== src/Connection/Handler/Tests.antt =====
-- Runs of a dialog with its surroundings.
use reactive_messaging.Prelude.{ℕ, [], ◌+◌, ◌≡◌, refl, Bool, true, false, none, some}
use reactive_messaging.Config.Sockets.{SocketOptions}
use reactive_messaging.Dialog.Context.{SocketConnection}
use reactive_messaging.Connection.PeerState.{Peer}
use reactive_messaging.Connection.Handler.{
  Setting, set_nodelay, set_ttl, set_linger, Surroundings, dialog_loop,
}
use reactive_messaging.Connection.Handler.Settings.{
  settings, apply_all, restored, Handles, dialog_loop-Handles,
}

-- The world counts what was done; lingering is not supported.
abbrev allowed : Setting → Bool
allowed (set_nodelay v) = true
allowed (set_ttl n) = true
allowed (set_linger n) = false

abbrev around : Surroundings ℕ ℕ ℕ
around = record {
  apply = λ setting w. (allowed setting, w + 1);
  dialog = λ c peer w. (true, c, record peer { state = some 9 }, w + 10);
  close_processor = λ w. w + 100;
  cancel_and_close = λ w. w + 1000;
  flush = λ w. (true, w);
}

abbrev quick : SocketOptions
quick = record { hops_to_live = some 255; linger_millis = none; no_delay = some true }

abbrev lingering : SocketOptions
lingering = record { hops_to_live = none; linger_millis = some 128; no_delay = some true }

abbrev connection : SocketConnection ℕ
connection = record { connection = []; closed = false; id = 0; state = 0 }

abbrev peer : Peer ℕ ℕ
peer = record { peer_id = 0; peer_address = 1; state = none }

quick_applied : apply_all around (settings quick) 0 ≡ (true, 2)
unfolding settings apply_all
quick_applied = refl

lingering_refused : apply_all around (settings lingering) 0 ≡ (false, 2)
unfolding settings apply_all
lingering_refused = refl

dialog_loop-Handles_example :
    Handles around quick connection peer 0 (dialog_loop around quick connection peer 0)
dialog_loop-Handles_example = dialog_loop-Handles around quick connection peer 0

given_back_run : dialog_loop around quick connection peer 0 ≡ record {
  socket_connection = some (restored around (some 9) connection);
  peer = record peer { state = none };
  world = 1112;
}
unfolding dialog_loop
given_back_run = refl

refused_run :
    dialog_loop around lingering connection peer 0
    ≡ record { socket_connection = none; peer = peer; world = 2 }
unfolding dialog_loop
refused_run = refl
