-- ===== src/Lib.antt =====
-- A verification library for reactive-messaging, a crate for reactive clients and servers that
-- exchange messages over TCP.
--
-- A connection is configured by a const generic `u64`, the packed `ConstConfig` (src/config.rs). Every
-- connection has a peer (src/socket_connection/peer.rs) whose sender (src/socket_connection/common.rs)
-- puts messages for the other side in a channel, retrying as the configuration says. A dialog loop
-- (src/socket_connection/socket_dialog) owns the connection: it takes messages from that channel,
-- serializes and writes them, and it reads bytes, finds the messages in them and hands these to the
-- local processor through another sender that retries in the same way.
--
-- Config models src/config.rs: Config/Word the helpers on bit fields and powers of two, with words as
-- numbers below 2 ^ 64; Config/Strategies, Config/Sockets and Config/Forms the representations of
-- `RetryingStrategies`, `SocketOptions` and `MessageForms`; Config/Const `ConstConfig` itself. A function
-- that may reach `unreachable!()` or overflow a shift returns `Eval`, whose `panic` is that outcome.
--
-- Connection models src/socket_connection/common.rs: Connection/Sending has the sending methods of
-- `ReactiveMessagingUniSender` and `ReactiveMessagingSender`, and one item of `to_responsive_stream()`.
-- The channels of the crate reactive-mutiny and the retrying loops of keen-retry are parameters: records
-- of operations on a state that the sender does not look into. What the theorems need of them is
-- `IsLog` (an accepted message joins the channel's log, a refused one changes nothing) and `IsRetrier`
-- (an operation is repeated while its answer is transient, up to a number of times).
--
-- Connection/PeerState models the state slot of src/socket_connection/peer.rs. Connection/Addresses,
-- Connection/Connecting and Connection/Listener model, in src/socket_connection/connection_provider.rs, the closure that a client
-- connects with, its retries, and the loop in which a server accepts connections; resolving a host and connecting are a
-- record of operations on a world. What the listener's `tokio::select!` brings is a list, which also says
-- where other tasks of the process make connections in between and so raise the counter of identifiers.
--
-- Connection/Handler models `dialog_loop()` of src/socket_connection/socket_connection_handler.rs, whose
-- dialog is a parameter like the socket.
--
-- Dialog/Context models src/socket_connection/connection.rs and what the dialog loops share: the
-- services that a loop calls (`Services`: serializer, deserializer, processor, peer), over a type of
-- worlds that only they change, and `Flow`, whether the loop goes on. Dialog/Textual models
-- src/socket_connection/socket_dialog/textual_dialog.rs. A turn of its `tokio::select!` is an event: a
-- message to send and whether its write succeeded, the end of the senders' stream, bytes read, a read
-- that would block, or one that failed. The loop runs over a list of events, in any order; bytes are
-- numbers, and the connection is the list of what was written to it. The inner loop, which looks for
-- lines in the read buffer, runs on fuel: one more than the length of the buffer, since each round but
-- the last moves behind a newline.
--
-- Dialog/Prefix and Dialog/Serialized model src/socket_connection/socket_dialog/serialized_binary_dialog.rs
-- in the same way: the utilities on sizes, whose loop over a `usize` takes eight rounds at most, and the
-- loop with its two read states. Here a write may take a part of what it is given. A buffer made by
-- `Vec::with_capacity()` has the capacity that was asked for, which the loop counts on.
--
-- Dialog/Mmap models src/socket_connection/socket_dialog/mmap_binary_dialog.rs. The slots of the
-- processor's channel are a record of operations on the world, and the memory of a value is a parameter.
--
-- Serde models src/serde: the RON and rkyv serializers and deserializers. What the crates ron and rkyv make of
-- a message is a parameter; `IsRon` and `IsRkyv` say what they document. Pipeline puts a dialog together with
-- the two senders that it calls and with a serializer: Pipeline/Textual for RON, Pipeline/Serialized for rkyv,
-- from the messages of one side to the channel of the other side's processor.
--
-- Connection/Serving models the rest of src/socket_connection/socket_connection_handler.rs:
-- `server_loop()` and `client()`, as functions on what a processor keeps, and in
-- Connection/Serving/Interleavings as relations: the loop receives a connection or finds its channel
-- closed, a dialog is over, a stream ends, or the shutdown listener acts, in any order. The stream that
-- the user's processor builds ends at some time, which is not looked into.
--
-- Service/Events models the callbacks of src/socket_services/socket_client/common.rs and
-- src/socket_services/socket_server/common.rs, on events that come one after the other; what they do is a
-- list of effects. Service/Client and Service/Server model what a client and a server own, with the
-- operations of src/socket_services/socket_client/socket_client.rs and
-- src/socket_services/socket_server/socket_server.rs; what their waiters receive comes from the callbacks
-- of their processors.
--
-- Service/Routing models the routing tasks of the same two files and `start_single_protocol()` of
-- src/socket_services/types.rs. The user's routing closure is a parameter with a state of its own, and so
-- is which processors still receive. A run of a task is a list of what its channels bring.
-- Service/Routing/System puts a server's listener, its routing task and its processors together as a step
-- relation; Service/Routing/Lifecycle is the automaton that the effects on one connection follow. The
-- process's counter of connections does not wrap around there; clients and other servers count on it as
-- well. The channel of connections given back has two places; the others have as many as needed.
--
-- Game models the logic of the ping-pong example, which plays over two stacked protocols.
-- Game/Umpire and Game/Models have ping_pong_logic.rs and ping_pong_models.rs of
-- examples/composite_protocol_stacking_common/logic: the floats and their comparison are parameters, and
-- `u32` sums wrap. Game/Reactions has protocol_processor.rs there: the random numbers of a player are a
-- parameter, `Chance`, and `service_ball()` runs on fuel, its attempts. Game/ClientMessages,
-- Game/ServerMessages and Game/Dialogs have the messages of protocol_model.rs and the dialogs of the
-- server's and the client's processors on events of the game; Game/PreGame has the talk before a game, and
-- Game/Sessions the sessions of the server's peers as a step relation. Game/Table puts the two dialogs at the
-- ends of a connection, which get to run in any order: a match that is played message by message.
--
-- Not modelled: logging, the debug assertions, time (a timeout allows some number of attempts), the
-- tasks and sockets of tokio, the type-level plumbing of channels and processors, the macros that build
-- clients and servers, and the tests, benchmarks and programs of the examples.
pub mod Prelude
pub mod Config
pub mod Connection
pub mod Dialog
pub mod Serde
pub mod Pipeline
pub mod Service
pub mod Game
