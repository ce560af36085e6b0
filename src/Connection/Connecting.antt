-- ===== src/Connection/Connecting.antt =====
-- src/socket_connection/connection_provider.rs: `connect_retryable()`, which calls the closure of
-- Connection/Addresses as the configuration says. The retrying loops are a parameter, as for the senders.
use reactive_messaging.Prelude.{ℕ, suc, ◌≤◌, ◌≡◌, refl, ◌∙◌, Option, none, some, Eval, done, panic}
use reactive_messaging.Config.Strategies.{
  RetryingStrategies, do_not_retry, end_communications, retry_with_backoff_up_to,
  retry_yielding_for_up_to_millis, retry_spinning_for_up_to_millis,
}
use reactive_messaging.Connection.Sending.{Attempt, success, transient, fatal, Retrier}
use reactive_messaging.Connection.Sending.Retries.{
  IsRetrier, Refused, attempts_success, attempts_transient,
}

module _ {Stream State : Type 0} where
  -- `into_result()`, without the errors.
  into_result : Attempt (Unit {0}) Stream × State → Option Stream × State
  into_result (success socket, s) = (some socket, s)
  into_result (transient input, s) = (none, s)
  into_result (fatal input, s) = (none, s)

  pub connect_retryable :
      Retrier (Unit {0}) Stream State
      → RetryingStrategies
      → (Unit {0} → State → Attempt (Unit {0}) Stream × State)
      → State
      → Eval (Option Stream × State)
  unfolding into_result
  connect_retryable retrier do_not_retry closure s = done (into_result (closure tt s))
  connect_retryable retrier end_communications closure s = done (into_result (closure tt s))
  connect_retryable retrier (retry_with_backoff_up_to n) closure s =
      done (into_result (retrier.with_exponential_jitter n closure (closure tt s)))
  connect_retryable retrier (retry_yielding_for_up_to_millis millis) closure s =
      done (into_result (retrier.until_timeout millis closure (closure tt s)))
  connect_retryable retrier (retry_spinning_for_up_to_millis millis) closure s = panic

  -- With backoff, a client that is refused no more often than the limit of re-attempts and then accepted is
  -- connected, after exactly those attempts, where the retrier counts as documented.
  pub connect_within :
      (retrier : Retrier (Unit {0}) Stream State)
      (closure : Unit {0} → State → Attempt (Unit {0}) Stream × State) (limit n : ℕ) (s u t : State)
      (socket : Stream)
      → IsRetrier retrier
      → n ≤ limit
      → Refused closure tt n s u
      → closure tt u ≡ (success socket, t)
      → connect_retryable retrier (retry_with_backoff_up_to limit) closure s ≡ done (some socket, t)
  unfolding connect_retryable
  connect_within retrier closure limit n s u t socket is_retrier h r e =
      rw
        (is_retrier.counts limit closure (closure tt s) ∙ attempts_success closure tt n limit h r e)
        refl

  -- A client that is refused at the first attempt and at all re-attempts is not connected, and no attempt is
  -- made beyond the limit, where the retrier counts as documented.
  connect_exhausted :
      (retrier : Retrier (Unit {0}) Stream State)
      (closure : Unit {0} → State → Attempt (Unit {0}) Stream × State) (limit : ℕ) (s u : State)
      → IsRetrier retrier
      → Refused closure tt (suc limit) s u
      → connect_retryable retrier (retry_with_backoff_up_to limit) closure s ≡ done (none, u)
  unfolding connect_retryable
  connect_exhausted retrier closure limit s u is_retrier r =
      rw (is_retrier.counts limit closure (closure tt s) ∙ attempts_transient closure tt limit r)
        refl
