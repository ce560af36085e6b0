-- ===== src/Config/Const.antt =====
-- src/config.rs: `ConstConfig` and its packing into a `u64`. `Instruments` is a type of the crate
-- `reactive-mutiny`, with its conversions from and into `usize`: parameters here.
pub mod RoundTrip
pub mod Extracts
use reactive_messaging.Prelude.{ℕ, ◌^◌, ◌%◌, Eval, done, panic, ◌>>=◌, Option, some, true}
use reactive_messaging.Config.Word.{
  BitRange, get_bits, set_bits, get_power_of_2_u32_bits, set_bits_from_power_of_2_u32,
  get_power_of_2_u16_bits, set_bits_from_power_of_2_u16,
}
use reactive_messaging.Config.Strategies.{RetryingStrategies, retry_with_backoff_up_to}
use reactive_messaging.Config.Strategies
use reactive_messaging.Config.Sockets.{SocketOptions}
use reactive_messaging.Config.Sockets

pub record ConstConfig (Instruments : Type 0) : Type 0 where
  pub sender_channel_size : ℕ
  pub receiver_channel_size : ℕ
  pub sender_max_msg_size : ℕ
  pub receiver_max_msg_size : ℕ
  pub flush_timeout_millis : ℕ
  pub retrying_strategy : RetryingStrategies
  pub socket_options : SocketOptions
  pub executor_instruments : Instruments

abbrev range : ℕ → ℕ → BitRange
range start end = record { start = start; end = end }

abbrev sender_channel_size : BitRange
sender_channel_size = range 0 4

abbrev receiver_channel_size : BitRange
receiver_channel_size = range 5 9

abbrev sender_max_msg_size : BitRange
sender_max_msg_size = range 10 14

abbrev receiver_max_msg_size : BitRange
receiver_max_msg_size = range 15 19

abbrev flush_timeout_millis : BitRange
flush_timeout_millis = range 20 23

abbrev retrying_strategy : BitRange
retrying_strategy = range 24 34

abbrev socket_options : BitRange
socket_options = range 35 50

abbrev executor_instruments : BitRange
executor_instruments = range 51 59

-- `ConstConfig::default()`, given the instruments of `NoInstruments`.
unfoldable pub default : {Instruments : Type 0} → Instruments → ConstConfig Instruments
default no_instruments = record {
  sender_channel_size = 1024;
  receiver_channel_size = 1024;
  sender_max_msg_size = 1024;
  receiver_max_msg_size = 1024;
  flush_timeout_millis = 256;
  retrying_strategy = retry_with_backoff_up_to 20;
  socket_options = record {
    hops_to_live = some 255;
    linger_millis = some 128;
    no_delay = some true;
  };
  executor_instruments = no_instruments;
}

module _ {Instruments : Type 0} (into_instruments : Instruments → ℕ)
    (from_instruments : ℕ → Instruments) where
  pub into : ConstConfig Instruments → Eval ℕ
  into self = do
    config ← set_bits_from_power_of_2_u32 0 sender_channel_size self.sender_channel_size
    config ← set_bits_from_power_of_2_u32 config receiver_channel_size self.receiver_channel_size
    config ← set_bits_from_power_of_2_u32 config sender_max_msg_size self.sender_max_msg_size
    config ← set_bits_from_power_of_2_u32 config receiver_max_msg_size self.receiver_max_msg_size
    config ← set_bits_from_power_of_2_u16 config flush_timeout_millis self.flush_timeout_millis
    let retrying_strategy_repr = Strategies.as_repr self.retrying_strategy
    config ← set_bits config retrying_strategy retrying_strategy_repr
    socket_options_repr ← Sockets.as_repr self.socket_options
    config ← set_bits config socket_options socket_options_repr
    set_bits config executor_instruments (into_instruments self.executor_instruments)

  unfoldable pub from : ℕ → Eval (ConstConfig Instruments)
  from config = do
    sender_channel ← get_power_of_2_u32_bits config sender_channel_size
    receiver_channel ← get_power_of_2_u32_bits config receiver_channel_size
    sender_max ← get_power_of_2_u32_bits config sender_max_msg_size
    receiver_max ← get_power_of_2_u32_bits config receiver_max_msg_size
    flush_timeout ← get_power_of_2_u16_bits config flush_timeout_millis
    retrying_strategy_repr ← get_bits config retrying_strategy
    socket_options_repr ← get_bits config socket_options
    executor_instruments_repr ← get_bits config executor_instruments
    strategy ← Strategies.from_repr (retrying_strategy_repr % 2 ^ 16)
    options ← Sockets.from_repr (socket_options_repr % 2 ^ 32)
    done (record {
      sender_channel_size = sender_channel;
      receiver_channel_size = receiver_channel;
      sender_max_msg_size = sender_max;
      receiver_max_msg_size = receiver_max;
      flush_timeout_millis = flush_timeout;
      retrying_strategy = strategy;
      socket_options = options;
      executor_instruments = from_instruments executor_instruments_repr;
    })

  pub extract_sender_channel_size : ℕ → Eval ℕ
  unfolding from
  extract_sender_channel_size config = do c ← from config; done (c.sender_channel_size)

  pub extract_receiver_channel_size : ℕ → Eval ℕ
  unfolding from
  extract_receiver_channel_size config = do c ← from config; done (c.receiver_channel_size)

  pub extract_sender_max_msg_size : ℕ → Eval ℕ
  unfolding from
  extract_sender_max_msg_size config = do c ← from config; done (c.sender_max_msg_size)

  pub extract_receiver_max_msg_size : ℕ → Eval ℕ
  unfolding from
  extract_receiver_max_msg_size config = do c ← from config; done (c.receiver_max_msg_size)

  -- In milliseconds.
  pub extract_flush_timeout : ℕ → Eval ℕ
  unfolding from
  extract_flush_timeout config = do c ← from config; done (c.flush_timeout_millis)

  pub extract_retrying_strategy : ℕ → Eval RetryingStrategies
  unfolding from
  extract_retrying_strategy config = do c ← from config; done (c.retrying_strategy)

  pub extract_socket_options : ℕ → Eval SocketOptions
  unfolding from
  extract_socket_options config = do c ← from config; done (c.socket_options)

  pub extract_executor_instruments : ℕ → Eval ℕ
  unfolding from
  extract_executor_instruments config = do
    c ← from config
    done (into_instruments c.executor_instruments)
