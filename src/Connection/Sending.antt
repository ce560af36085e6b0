-- ===== src/Connection/Sending.antt =====
-- src/socket_connection/common.rs: the senders that retry as the configuration says, towards the local
-- processor (`ReactiveMessagingUniSender`) and towards the peer (`ReactiveMessagingSender`).
-- The channels are those of the crate `reactive-mutiny`, the retrying loops those of `keen-retry`:
-- both enter as parameters. Texts are built from their parts by a function that is a parameter too.
pub mod Retries
pub mod Delivery
use reactive_messaging.Prelude.{
  ℕ, Bool, true, false, Option, none, some, Eval, done, panic, ◌>>=◌, if◌then◌else◌,
}
use reactive_messaging.Config.Strategies.{
  RetryingStrategies, do_not_retry, end_communications, retry_with_backoff_up_to,
  retry_yielding_for_up_to_millis, retry_spinning_for_up_to_millis,
}

-- What one attempt answers: `RetryResult` of `keen-retry`, whose errors carry nothing here.
pub data Attempt (Input Output : Type 0) : Type 0 where
  success : Output → Attempt Input Output
  transient : Input → Attempt Input Output
  fatal : Input → Attempt Input Output

-- `Result<Output, (bool, String)>`: whether to abort the connection, and why.
pub data Outcome (Output Text : Type 0) : Type 0 where
  sent : Output → Outcome Output Text
  failed : Bool → Text → Outcome Output Text

-- The retrying loops of `keen-retry`: from the first answer and the operation to the last answer.
pub record Retrier (Input Output State : Type 0) : Type 0 where
  pub with_exponential_jitter :
      ℕ
      → (Input → State → Attempt Input Output × State)
      → Attempt Input Output × State
      → Attempt Input Output × State
  pub until_timeout :
      ℕ
      → (Input → State → Attempt Input Output × State)
      → Attempt Input Output × State
      → Attempt Input Output × State

-- The error texts: on the first attempt, and after all retries.
pub record Texts (Input Text : Type 0) : Type 0 where
  pub first : RetryingStrategies → Input → Text
  pub exhausted : RetryingStrategies → Input → Text

module _ {Input Output State Text : Type 0} where
  -- `map_input_and_errors(first_attempt_error_mapper, |..| retry_error_mapper(abort, ..)).into_result()`
  single : Bool → (Input → Text) → Attempt Input Output × State → Eval (Outcome Output Text × State)
  single abort text (success output, s) = done (sent output, s)
  single abort text (transient input, s) = done (failed abort (text input), s)
  single abort text (fatal input, s) = panic

  -- `map_input_and_errors(|..| retry_error_mapper(true, ..), ..).into()` after the retries.
  resolved : (Input → Text) → Attempt Input Output × State → Eval (Outcome Output Text × State)
  resolved text (success output, s) = done (sent output, s)
  resolved text (transient input, s) = done (failed true (text input), s)
  resolved text (fatal input, s) = done (failed true (text input), s)

  -- The `match` on the strategy that the four methods below share.
  pub by_strategy :
      Retrier Input Output State
      → Texts Input Text
      → RetryingStrategies
      → (Input → State → Attempt Input Output × State)
      → Input
      → State
      → Eval (Outcome Output Text × State)
  unfolding single resolved
  by_strategy retrier texts do_not_retry op input s =
      single false (texts.first do_not_retry) (op input s)
  by_strategy retrier texts end_communications op input s =
      single true (texts.first end_communications) (op input s)
  by_strategy retrier texts (retry_with_backoff_up_to attempts) op input s =
      resolved (texts.exhausted (retry_with_backoff_up_to attempts))
        (retrier.with_exponential_jitter attempts op (op input s))
  by_strategy retrier texts (retry_yielding_for_up_to_millis millis) op input s =
      resolved (texts.exhausted (retry_yielding_for_up_to_millis millis))
        (retrier.until_timeout millis op (op input s))
  by_strategy retrier texts (retry_spinning_for_up_to_millis millis) op input s = panic

-- A channel to the local processor (`GenericUni`).
pub record Uni (Message Slot State : Type 0) : Type 0 where
  pub send : Message → State → Attempt Message (Unit {0}) × State
  pub reserve_slot : State → Option Slot × State

-- A channel to the peer (`FullDuplexUniChannel`).
pub record Channel (Message State : Type 0) : Type 0 where
  pub send : Message → State → Attempt Message (Unit {0}) × State
  pub cancel_all_streams : State → State

module _ {Slot State : Type 0} where
  slot_answer : Option Slot × State → Attempt (Unit {0}) Slot × State
  slot_answer (some slot, s) = (success slot, s)
  slot_answer (none, s) = (transient tt, s)

module _ {Message Slot State : Type 0} where
  -- `retryable_reserve_slot` of `reserve_slot()`
  retryable_reserve_slot :
      Uni Message Slot State → Unit {0} → State → Attempt (Unit {0}) Slot × State
  unfolding slot_answer
  retryable_reserve_slot uni input s = slot_answer (uni.reserve_slot s)

module _ {Message Slot State Text : Type 0} where
  -- `ReactiveMessagingUniSender::send()`
  pub relay :
      Uni Message Slot State
      → Retrier Message (Unit {0}) State
      → Texts Message Text
      → RetryingStrategies
      → Message
      → State
      → Eval (Outcome (Unit {0}) Text × State)
  unfolding by_strategy
  relay uni retrier texts strategy message s = by_strategy retrier texts strategy uni.send message s

  -- `ReactiveMessagingUniSender::reserve_slot()`
  pub reserve_slot :
      Uni Message Slot State
      → Retrier (Unit {0}) Slot State
      → Texts (Unit {0}) Text
      → RetryingStrategies
      → State
      → Eval (Outcome Slot Text × State)
  unfolding by_strategy retryable_reserve_slot
  reserve_slot uni retrier texts strategy s =
      by_strategy retrier texts strategy (retryable_reserve_slot uni) tt s

module _ {Message State Text : Type 0} where
  -- `ReactiveMessagingSender::send()`, whose retries block the thread.
  pub send :
      Channel Message State
      → Retrier Message (Unit {0}) State
      → Texts Message Text
      → RetryingStrategies
      → Message
      → State
      → Eval (Outcome (Unit {0}) Text × State)
  unfolding by_strategy
  send channel blocking texts strategy message s =
      by_strategy blocking texts strategy channel.send message s

  -- `ReactiveMessagingSender::send_async_trait()`, whose retries suspend the task.
  pub send_async_trait :
      Channel Message State
      → Retrier Message (Unit {0}) State
      → Texts Message Text
      → RetryingStrategies
      → Message
      → State
      → Eval (Outcome (Unit {0}) Text × State)
  unfolding by_strategy
  send_async_trait channel suspending texts strategy message s =
      by_strategy suspending texts strategy channel.send message s

  close_on_abort : Channel Message State → Outcome (Unit {0}) Text × State → State
  close_on_abort channel (sent output, s) = s
  close_on_abort channel (failed abort text, s) = if abort then channel.cancel_all_streams s else s

  -- What `to_responsive_stream()` does with an item: the yielded value is made first, then the item
  -- goes out, and a failure that asks for it closes the peer.
  pub respond :
      {Yielded : Type 0}
      → Channel Message State
      → Retrier Message (Unit {0}) State
      → Texts Message Text
      → RetryingStrategies
      → (Message → Yielded)
      → Message
      → State
      → Eval (Yielded × State)
  unfolding send close_on_abort
  respond channel blocking texts strategy item_mapper outgoing s = do
    let remapped_item = item_mapper outgoing
    answer ← send channel blocking texts strategy outgoing s
    done (remapped_item, close_on_abort channel answer)
