-- ===== src/Connection/PeerState.antt =====
-- src/socket_connection/peer.rs: the state that the protocol processors of a peer hand to one another.
use reactive_messaging.Prelude.{
  ℕ, ◌≡◌, refl, List, [], ◌∷◌, ◌++◌, Bool, true, false, Option, none, some, All,
}
use reactive_messaging.Dialog.Context.{SocketConnection}

-- `Peer`, without its sender. The `Mutex` is a matter of the operations.
pub record Peer (Address StateType : Type 0) : Type 0 where
  pub peer_id : ℕ
  pub peer_address : Address
  pub state : Option StateType

module _ {Address StateType : Type 0} where
  unfoldable pub new : Address → SocketConnection StateType → Peer Address StateType
  new peer_address connection = record {
    peer_id = connection.id;
    peer_address = peer_address;
    state = some connection.state;
  }

  unfoldable pub set_state : Peer Address StateType → StateType → Peer Address StateType
  set_state peer state = record peer { state = some state }

  unfoldable pub take_state : Peer Address StateType → Option StateType × Peer Address StateType
  take_state peer = (peer.state, record peer { state = none })

  -- With whether `try_lock()` gets the lock.
  unfoldable pub try_set_state :
      Bool → Peer Address StateType → StateType → Bool × Peer Address StateType
  unfolding set_state
  try_set_state true peer state = (true, set_state peer state)
  try_set_state false peer state = (false, peer)

  unfoldable pub try_take_state :
      Bool → Peer Address StateType → Option (Option StateType) × Peer Address StateType
  try_take_state true peer = (some peer.state, record peer { state = none })
  try_take_state false peer = (none, peer)

  -- The `loop`, over the answers of `try_lock()`: `none` where it still spins after them.
  unfoldable pub blocking_set_state :
      List Bool → Peer Address StateType → StateType → Option (Peer Address StateType)
  unfolding set_state
  blocking_set_state [] peer state = none
  blocking_set_state (true ∷ locks) peer state = some (set_state peer state)
  blocking_set_state (false ∷ locks) peer state = blocking_set_state locks peer state

  -- A state that is set, in any of the three ways that get the lock, is taken once: the next take finds
  -- nothing. Whoever does not get the lock changes nothing.
  set-take :
      (peer : Peer Address StateType) (state : StateType) (waits later : List Bool)
      → All (λ lock. lock ≡ false) waits
      → (blocking_set_state (waits ++ true ∷ later) peer state ≡ some (set_state peer state))
        × (try_set_state true peer state ≡ (true, set_state peer state))
        × (try_set_state false peer state ≡ (false, peer))
        × (try_take_state false peer ≡ (none, peer))
        × ((left : Peer Address StateType) × (take_state (set_state peer state)
              ≡ (some state, left))
            × (try_take_state true (set_state peer state) ≡ (some (some state), left))
            × (take_state left ≡ (none, left)))
  unfolding set_state take_state try_set_state try_take_state blocking_set_state
  set-take peer state waits later h =
      (waited waits h, refl, refl, refl, (record peer { state = none }, refl, refl, refl))
    where
      waited :
          (waits : List Bool)
          → All (λ lock. lock ≡ false) waits
          → blocking_set_state (waits ++ true ∷ later) peer state ≡ some (set_state peer state)
      waited [] h = blocked
        where
          blocked : blocking_set_state (true ∷ later) peer state ≡ some (set_state peer state)
          blocked = refl
      waited (lock ∷ waits) h = rw h.0 (waited waits h.1)
