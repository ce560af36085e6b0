-- ===== src/Config/Const/Extracts.antt =====
-- The `extract_*()` functions on a packed configuration.
use reactive_messaging.Prelude.{ℕ, ◌≡◌, refl, ◌∙◌, sym, done}
use reactive_messaging.Config.Const.{
  ConstConfig, into, from, extract_sender_channel_size, extract_receiver_channel_size,
  extract_sender_max_msg_size, extract_receiver_max_msg_size, extract_flush_timeout,
  extract_retrying_strategy, extract_socket_options, extract_executor_instruments,
}
use reactive_messaging.Config.Const.RoundTrip.{IsConfig, from-into}

module _ {Instruments : Type 0} (into_instruments : Instruments → ℕ)
    (from_instruments : ℕ → Instruments) where
  -- From the word into which a configuration within the documented ranges was packed, each `extract_*`
  -- function takes its field, where `Instruments` gives back what it was converted from.
  extract-into :
      (c : ConstConfig Instruments) (w : ℕ)
      → IsConfig into_instruments c
      → from_instruments (into_instruments c.executor_instruments) ≡ c.executor_instruments
      → into into_instruments from_instruments c ≡ done w
      → (extract_sender_channel_size into_instruments from_instruments w
          ≡ done c.sender_channel_size)
        × (extract_receiver_channel_size into_instruments from_instruments w
            ≡ done c.receiver_channel_size)
        × (extract_sender_max_msg_size into_instruments from_instruments w
            ≡ done c.sender_max_msg_size)
        × (extract_receiver_max_msg_size into_instruments from_instruments w
            ≡ done c.receiver_max_msg_size)
        × (extract_flush_timeout into_instruments from_instruments w ≡ done c.flush_timeout_millis)
        × (extract_retrying_strategy into_instruments from_instruments w ≡ done c.retrying_strategy)
        × (extract_socket_options into_instruments from_instruments w ≡ done c.socket_options)
        × (extract_executor_instruments into_instruments from_instruments w
            ≡ done (into_instruments c.executor_instruments))
  unfolding extract_sender_channel_size extract_receiver_channel_size extract_sender_max_msg_size
      extract_receiver_max_msg_size extract_flush_timeout extract_retrying_strategy
      extract_socket_options extract_executor_instruments
  extract-into c w h back packed =
      let e = read_back in
      (rw e refl, rw e refl, rw e refl, rw e refl, rw e refl, rw e refl, rw e refl, rw e refl)
    where
      read_back : from into_instruments from_instruments w ≡ done c
      read_back =
          let (v, made, small, again) = from-into into_instruments from_instruments c h back in
          same v (sym made ∙ packed) again
        where
          same :
              (v : ℕ)
              → done v ≡ done w
              → from into_instruments from_instruments v ≡ done c
              → from into_instruments from_instruments w ≡ done c
          same v e again = cc (e, again)
