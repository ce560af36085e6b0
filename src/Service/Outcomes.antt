-- ===== src/Service/Outcomes.antt =====
-- What the operations of src/socket_services come to, for clients and servers alike.

-- Why `start_multi_protocol()` fails: no connection or no listener, or a second start.
pub data Refusal : Type 0 where
  not_opened : Refusal
  started_before : Refusal

-- What the closure of `termination_waiter()` comes to: `Ok`, `Err`, or neither yet.
pub data Waiting : Type 0 where
  finished : Waiting
  failed : Waiting
  waiting : Waiting
