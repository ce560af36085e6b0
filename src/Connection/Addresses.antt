-- ===== src/Connection/Addresses.antt =====
-- src/socket_connection/connection_provider.rs: the closure that a client connects with, which tries the
-- next address of its server at each call. Resolving a host and opening a connection are parameters.
use reactive_messaging.Prelude.{
  ℕ, zero, suc, ◌≡◌, refl, ap, ◌∙◌, sym, List, [], ◌∷◌, ◌++◌, length, append_assoc, append-nil,
  Option, none, some, Eval, done, panic, ◌>>=◌,
}
use reactive_messaging.Connection.Sending.{Attempt, success, transient, fatal}

-- The network: `to_socket_addrs()` and `TcpStream::connect()`, without their errors.
pub record Network (Address Stream World : Type 0) : Type 0 where
  pub to_socket_addrs : World → Option (List Address) × World
  pub connect : Address → World → Option Stream × World

module _ {Address Stream World : Type 0} (network : Network Address Stream World) where
  -- An answer, with `opt_addrs` and the world for the next call.
  abbrev pub Answer : Type 0
  Answer = Attempt (Unit {0}) Stream × (Option (List Address) × World)

  connected : List Address → Option Stream × World → Answer
  connected rest (some socket, w) = (success socket, (some rest, w))
  connected rest (none, w) = (transient tt, (some rest, w))

  -- `resolve!()`, and the first of the addresses; `unwrap()` panics where there is none.
  resolved : Option (List Address) → Option (List Address) × World → Eval Answer
  unfolding connected
  resolved before (none, w) = done (fatal tt, (before, w))
  resolved before (some [], w) = panic
  resolved before (some (address ∷ rest), w) = done (connected rest (network.connect address w))

  -- A call of the closure.
  unfoldable pub connect_continuation : Option (List Address) → World → Eval Answer
  unfolding resolved
  connect_continuation none w = resolved none (network.to_socket_addrs w)
  connect_continuation (some []) w = resolved (some []) (network.to_socket_addrs w)
  connect_continuation (some (address ∷ rest)) w = done (connected rest (network.connect address w))

  -- `n` calls, each after the one before was refused; the others end it.
  go_on : (Option (List Address) → World → Eval Answer) → Answer → Eval Answer
  go_on again (transient input, (addrs, w)) = again addrs w
  go_on again (success socket, s) = done (success socket, s)
  go_on again (fatal input, s) = done (fatal input, s)

  unfoldable pub calls : ℕ → Option (List Address) → World → Eval Answer
  unfolding go_on connect_continuation
  calls zero addrs w = done (transient tt, (addrs, w))
  calls (suc n) addrs w = do answer ← connect_continuation addrs w; go_on (calls n) answer

  -- A network whose host has the addresses `all`, and where no one answers.
  pub record IsDeaf (log : World → List Address) (all : List Address) : Type 0 where
    pub resolves : (w : World) → network.to_socket_addrs w ≡ (some all, w)
    pub refuses :
        (address : Address) (w : World)
        → (w' : World) × (network.connect address w ≡ (none, w')) × (log w' ≡ log w ++ address ∷ [])

  module _ (log : World → List Address) (all : List Address) (is_deaf : IsDeaf log all) where
    calls_rest :
        (rest : List Address) (w : World)
        → (w' : World) × (calls (length rest) (some rest) w ≡ done (transient tt, (some [], w')))
          × (log w' ≡ log w ++ rest)
    unfolding calls connect_continuation connected go_on
    calls_rest [] w = (w, refl, sym (append-nil (log w)))
    calls_rest (address ∷ rest) w =
        let (w1, refused, logged) = is_deaf.refuses address w in
        let (w2, ends, tried) = calls_rest rest w1 in
        (
          w2,
          rw refused ends,
          tried ∙ ap (λ l. l ++ rest) logged ∙ append_assoc (log w) (address ∷ []) rest,
        )

    -- Where no one answers, as many calls as the host has addresses, from a new closure or after the last
    -- address, try each of them once and in order; the next call starts over.
    pub calls_try_all :
        (first : Address) (rest : List Address) (w : World)
        → all ≡ first ∷ rest
        → (w' : World) × (calls (length all) none w ≡ done (transient tt, (some [], w')))
          × (calls (length all) (some []) w ≡ done (transient tt, (some [], w')))
          × (log w' ≡ log w ++ all)
    unfolding calls connect_continuation connected go_on resolved
    calls_try_all first rest w e =
        let (w1, refused, logged) = is_deaf.refuses first w in
        let (w2, ends, tried) = calls_rest rest w1 in
        (
          w2,
          rw (ap length e, is_deaf.resolves w, e, refused) ends,
          rw (ap length e, is_deaf.resolves w, e, refused) ends,
          tried
              ∙ ap (λ l. l ++ rest) logged
              ∙ append_assoc (log w) (first ∷ []) rest
              ∙ ap (log w ++◌) (sym e),
        )
