-- ===== src/Dialog/Textual.antt =====
-- src/socket_connection/socket_dialog/textual_dialog.rs: messages are lines that end in '\n'.
-- Each turn of the loop is one event of `tokio::select!`; which one comes, and what a read or a write
-- brings, is up to the environment.
pub mod Lines
pub mod Stream
pub mod Turns
pub mod Reads
pub mod Messages
use reactive_messaging.Prelude.{
  ℕ, zero, suc, ◌+◌, ◌-◌, ◌⊎◌, inl, inr, List, [], ◌∷◌, ◌++◌, length, take, drop, Bool, true, false,
  Option, none, some, ltb, leb, ◌==◌, if◌then◌else◌,
}
use reactive_messaging.Dialog.Context.{
  SocketConnection, report_closed, write_all, Services, Flow, go, stop, inform_peer, hand_over,
  Turn, running, over, and_then,
}

abbrev pub newline : ℕ
newline = 10

later : Option ℕ → Option ℕ
later none = none
later (some n) = some (suc n)

-- `iter().position(|&b| b == b'\n')`
pub position : List ℕ → Option ℕ
unfolding later
position [] = none
position (b ∷ bytes) = if b == newline then some 0 else later (position bytes)

pub data Event (Local : Type 0) : Type 0 where
  -- `sender_stream.next()` gives a message, and the write that follows succeeds or not.
  to_send : Local → Bool → Event Local
  -- The stream has ended.
  sender_ended : Event Local
  -- `read_buf()` gives these bytes: none at the end of the input.
  read : List ℕ → Event Local
  would_block : Event Local
  read_failed : Event Local

-- What the inner loop leaves: the buffer for the next read, or the end of the dialog.
pub data Reading (World : Type 0) : Type 0 where
  more : List ℕ → World → Reading World
  ended : World → Reading World

pub record State (StateType World : Type 0) : Type 0 where
  pub read_buffer : List ℕ
  pub serialization_buffer : List ℕ
  pub socket_connection : SocketConnection StateType
  pub world : World

module _ {Remote Local Text World : Type 0} (services : Services Remote Local Text World) where
  unfoldable pub on_deserialized : List ℕ → Remote ⊎ Text → World → Flow World
  on_deserialized line_bytes (inl remote_message) w = hand_over services remote_message w
  on_deserialized line_bytes (inr err) w =
      inform_peer services (services.unknown_command line_bytes err) w

  -- The body of the `match` on `Deserializer::deserialize(line_bytes)`.
  unfoldable pub handle_line : List ℕ → World → Flow World
  unfolding on_deserialized
  handle_line line_bytes w = on_deserialized line_bytes (services.deserialize line_bytes) w

  -- The end of a round of the inner `loop`.
  next_round : (World → Reading World) → List ℕ → ℕ → Flow World → Reading World
  next_round continue read_buffer next_line_index (stop w) = ended w
  next_round continue read_buffer next_line_index (go w) =
      if leb (length read_buffer) next_line_index then more [] w else continue w

  -- A round, given where a newline was found from `next_line_index + this_line_search_start` on.
  round : (ℕ → World → Reading World) → List ℕ → ℕ → ℕ → Option ℕ → World → Reading World
  unfolding next_round
  round continue read_buffer next_line_index this_line_search_start none w =
      more (if ltb 0 next_line_index then drop next_line_index read_buffer else read_buffer) w
  round continue read_buffer next_line_index this_line_search_start (some found) w =
      let eol_pos = found + (next_line_index + this_line_search_start) in
      let line_bytes = take (eol_pos - next_line_index) (drop next_line_index read_buffer) in
      next_round (continue (eol_pos + 1)) read_buffer (eol_pos + 1) (handle_line line_bytes w)

  -- The inner `loop`, with fuel: each round but the last moves `next_line_index` on.
  pub read_lines : ℕ → List ℕ → ℕ → ℕ → World → Reading World
  unfolding round position
  read_lines zero read_buffer next_line_index this_line_search_start w = more read_buffer w
  read_lines (suc fuel) read_buffer next_line_index this_line_search_start w =
      round (λ n. read_lines fuel read_buffer n 0) read_buffer next_line_index
        this_line_search_start
        (position (drop (next_line_index + this_line_search_start) read_buffer)) w

  module _ {StateType : Type 0} where
    unfoldable pub after_read :
        State StateType World → Reading World → Turn (State StateType World) StateType World
    after_read s (more read_buffer w) = running (record s { read_buffer = read_buffer; world = w })
    after_read s (ended w) = over (report_closed s.socket_connection) w

    -- The branch `Ok(n) if n > 0`: the bytes are behind the buffer already.
    unfoldable pub on_received :
        List ℕ → State StateType World → Turn (State StateType World) StateType World
    unfolding read_lines after_read
    on_received bytes s =
        let read_buffer = s.read_buffer ++ bytes in
        after_read s (
          read_lines (suc (length read_buffer)) read_buffer 0 (length read_buffer - length bytes)
            s.world)

    -- One turn of the `'connection` loop.
    unfoldable pub step :
        Event Local → State StateType World → Turn (State StateType World) StateType World
    unfolding on_received
    step (to_send message written) s =
        let buffer = services.serialize message s.serialization_buffer ++ newline ∷ [] in
        if written
        then running (record s {
          serialization_buffer = buffer;
          socket_connection = write_all s.socket_connection buffer;
        })
        else over (report_closed s.socket_connection) s.world
    step sender_ended s = over s.socket_connection s.world
    step (read []) s = over (report_closed s.socket_connection) s.world
    step (read (b ∷ bytes)) s = on_received (b ∷ bytes) s
    step would_block s = running s
    step read_failed s = over (report_closed s.socket_connection) s.world

    -- The `'connection` loop over the events that come.
    unfoldable pub dialog_loop :
        List (Event Local) → State StateType World → Turn (State StateType World) StateType World
    unfolding step and_then
    dialog_loop [] s = running s
    dialog_loop (event ∷ events) s = and_then (step event s) (dialog_loop events)
