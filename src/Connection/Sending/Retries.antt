-- ===== src/Connection/Sending/Retries.antt =====
-- How often the retrying methods of the senders try, and what they answer.
use reactive_messaging.Prelude.{ℕ, zero, suc, ◌≤◌, ◌≡◌, refl, ◌∙◌, arith, true, done}
use reactive_messaging.Config.Strategies.{retry_with_backoff_up_to}
use reactive_messaging.Connection.Sending.{
  Attempt, success, transient, fatal, sent, failed, Retrier, Texts, resolved, by_strategy, Channel,
  send,
}

module _ {Input Output State : Type 0} where
  -- Up to `n` more attempts after the answer `first`, while it is transient.
  unfoldable pub attempts :
      ℕ
      → (Input → State → Attempt Input Output × State)
      → Attempt Input Output × State
      → Attempt Input Output × State
  attempts n op (success output, s) = (success output, s)
  attempts n op (fatal input, s) = (fatal input, s)
  attempts zero op (transient input, s) = (transient input, s)
  attempts (suc n) op (transient input, s) = attempts n op (op input s)

  -- What `keen-retry` documents: with backoff it re-attempts as often as it is told, and until a
  -- timeout as often as the time allows; a `Transient` answer is retried, no other.
  pub record IsRetrier (retrier : Retrier Input Output State) : Type 0 where
    pub counts :
        (n : ℕ) (op : Input → State → Attempt Input Output × State)
        (first : Attempt Input Output × State)
        → retrier.with_exponential_jitter n op first ≡ attempts n op first
    pub stops :
        (millis : ℕ) (op : Input → State → Attempt Input Output × State)
        (first : Attempt Input Output × State)
        → (n : ℕ) × (retrier.until_timeout millis op first ≡ attempts n op first)

  -- `n` attempts in a row are refused, and lead from one state to another.
  pub data Refused (op : Input → State → Attempt Input Output × State) (input : Input)
      : ℕ → State → State → Type 0 where
    here : {s : State} → Refused op input zero s s
    next :
        {n : ℕ} {s t u : State}
        → op input s ≡ (transient input, t)
        → Refused op input n t u
        → Refused op input (suc n) s u

  module _ (op : Input → State → Attempt Input Output × State) (input : Input) where
    pub attempts_success :
        (n k : ℕ) {s u t : State} {output : Output}
        → n ≤ k
        → Refused op input n s u
        → op input u ≡ (success output, t)
        → attempts k op (op input s) ≡ (success output, t)
    unfolding attempts
    attempts_success zero k h here e = rw e refl
    attempts_success (suc n) zero h (next p r) e = absurd (omega arith)
    attempts_success (suc n) (suc k) h (next p r) e = rw p (attempts_success n k (omega arith) r e)

    pub attempts_transient :
        (k : ℕ) {s u : State}
        → Refused op input (suc k) s u
        → attempts k op (op input s) ≡ (transient input, u)
    unfolding attempts
    attempts_transient zero (next p here) = rw p refl
    attempts_transient (suc k) (next p (next q r)) = rw p (attempts_transient k (next q r))

module _ {Message State Text : Type 0} (channel : Channel Message State)
    (retrier : Retrier Message (Unit {0}) State) (is_retrier : IsRetrier retrier)
    (texts : Texts Message Text) (limit : ℕ) (m : Message) where
  -- With backoff, a message that is refused `n` times and then accepted is sent, if `n` is within the
  -- limit of re-attempts, and the state is the one after exactly those attempts.
  send_within :
      (n : ℕ) {s u t : State}
      → n ≤ limit
      → Refused channel.send m n s u
      → channel.send m u ≡ (success tt, t)
      → send channel retrier texts (retry_with_backoff_up_to limit) m s ≡ done (sent tt, t)
  unfolding send by_strategy resolved
  send_within n {s} h r e =
      rw
        (is_retrier.counts limit channel.send (channel.send m s)
          ∙ attempts_success channel.send m n limit h r e)
        refl

  -- With backoff, a message that is refused at the first attempt and at all re-attempts is given up:
  -- the error asks to abort, and no attempt is made beyond the limit.
  send_exhausted :
      {s u : State}
      → Refused channel.send m (suc limit) s u
      → send channel retrier texts (retry_with_backoff_up_to limit) m s
        ≡ done (failed true (texts.exhausted (retry_with_backoff_up_to limit) m), u)
  unfolding send by_strategy resolved
  send_exhausted {s} r =
      rw
        (is_retrier.counts limit channel.send (channel.send m s)
          ∙ attempts_transient channel.send m limit r)
        refl
