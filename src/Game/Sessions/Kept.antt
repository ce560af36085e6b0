-- ===== src/Game/Sessions/Kept.antt =====
-- That the server's processors find the sessions and the umpires of their peers.
use reactive_messaging.Prelude.{
  ℕ, ◌≡◌, refl, sym, subst, arith, Bool, true, false, Option, none, some, done, ◌==◌, if◌then◌else◌,
}
use reactive_messaging.Game.Umpire.{Umpire}
use reactive_messaging.Game.PreGame.{
  PreGameClientMessages, PreGameServerMessages, Session, server_pre_game, client_version, config,
  client_error,
}
use reactive_messaging.Game.Sessions.{
  pre_game_events, game_events, session_of, umpire_of, Stage, absent, talking, promoted, playing,
  turned_away, over, Peers, stage_for, told, PeerStep, arrives, talks, hangs_up, backs_out,
  pre_game_ends, starts_game, plays, leaves_game, PeersReach, new_server, then_steps,
}

module _ {Number : Type 0} where
  -- What there is of a peer: a session without an umpire, one with an umpire, some session, or none.
  abbrev pub Kept : Stage → Option (Option (Umpire Number)) → Type 0
  Kept absent session = session ≡ none
  Kept talking session = session_of session ≡ done none
  Kept promoted session = (umpire : Umpire Number) × (umpire_of session ≡ done umpire)
  Kept playing session = (umpire : Umpire Number) × (umpire_of session ≡ done umpire)
  Kept turned_away session = (umpire : Option (Umpire Number)) × (session_of session ≡ done umpire)
  Kept over session = session ≡ none

  -- A session with an umpire is a session.
  with_umpire :
      (session : Option (Option (Umpire Number))) → Kept promoted session → Kept turned_away session
  unfolding umpire_of session_of
  with_umpire (some umpire) kept = (umpire, refl)
  with_umpire none (umpire, e) = absurd (cc e)

  Kept-set :
      (same : Bool) (stage other_stage : Stage) (session other : Option (Option (Umpire Number)))
      → Kept stage session
      → Kept other_stage other
      → Kept (if same then stage else other_stage) (if same then session else other)
  Kept-set true stage other_stage session other now before = now
  Kept-set false stage other_stage session other now before = before

  Kept-at_stage :
      (key id : ℕ) (stage : Stage) (peers : Peers Number) (same : Bool)
      → (id == key) ≡ same
      → Kept stage (peers.sessions key)
      → Kept (peers.stages id) (peers.sessions id)
      → Kept (if same then stage else peers.stages id) (peers.sessions id)
  Kept-at_stage key id stage peers true e now before =
      subst (λ n. Kept stage (peers.sessions n)) (ground arith) now
  Kept-at_stage key id stage peers false e now before = before

Kept-version :
    {Number : Type 0} (same : Bool) (agreed refused : Option PreGameServerMessages × Session Number)
    → Kept (stage_for agreed.1.state) (some agreed.1.umpire)
    → Kept (stage_for refused.1.state) (some refused.1.umpire)
    → Kept
        (stage_for (if same then agreed else refused).1.state)
        (some (if same then agreed else refused).1.umpire)
Kept-version true agreed refused p q = p
Kept-version false agreed refused p q = q

module _ {Number : Type 0} (protocol_version : ℕ) where
  abbrev KeptAfter : PreGameClientMessages Number → Option (Umpire Number) → Type 0
  KeptAfter message umpire =
      Kept (stage_for (told protocol_version message umpire).state)
        (some (told protocol_version message umpire).umpire)

  Kept-told : (message : PreGameClientMessages Number) → KeptAfter message none
  unfolding server_pre_game session_of umpire_of
  Kept-told (client_version version) =
      Kept-version (version == protocol_version) _ _ refl (none, refl)
  Kept-told (config match_config) = (_, refl)
  Kept-told (client_error err) = (none, refl)

  KeptAll : Peers Number → Type 0
  KeptAll peers = (id : ℕ) → Kept (peers.stages id) (peers.sessions id)

  at_its_stage :
      (peers : Peers Number)
      → KeptAll peers
      → (id : ℕ) {stage : Stage} → peers.stages id ≡ stage
      → Kept stage (peers.sessions id)
  unfolding KeptAll
  at_its_stage peers all id e = subst (λ stage. Kept stage (peers.sessions id)) e (all id)

  KeptAll-step :
      (peers peers' : Peers Number)
      → PeerStep protocol_version peers peers'
      → KeptAll peers
      → KeptAll peers'
  unfolding KeptAll pre_game_events game_events session_of umpire_of
  KeptAll-step peers _ (arrives key e) all id =
      Kept-set (id == key) talking _ (some none) _ refl (all id)
  KeptAll-step peers _ (talks key message umpire e s) all id =
      let is_none : umpire ≡ none = cc (s, at_its_stage peers all key e) in
      Kept-set (id == key) _ _ _ _ (subst (KeptAfter message) (sym is_none) (Kept-told message))
        (all id)
  KeptAll-step peers _ (hangs_up key e) all id =
      Kept-at_stage key id turned_away peers (id == key) refl (none, at_its_stage peers all key e)
        (all id)
  KeptAll-step peers _ (backs_out key e) all id =
      Kept-at_stage key id turned_away peers (id == key) refl
        (with_umpire (peers.sessions key) (at_its_stage peers all key e)) (all id)
  KeptAll-step peers _ (pre_game_ends key e f) all id = all id
  KeptAll-step peers _ (starts_game key e) all id =
      Kept-at_stage key id playing peers (id == key) refl (at_its_stage peers all key e) (all id)
  KeptAll-step peers _ (plays key umpire e) all id =
      Kept-set (id == key) playing _ (some (some umpire)) _ (umpire, refl) (all id)
  KeptAll-step peers _ (leaves_game key e) all id = Kept-set (id == key) over _ none _ refl (all id)

  -- Whatever peers come to a new server, talk, play and leave, in any order, and whether the end of a peer's
  -- stream before the game is told before or after its game starts: a peer who talks before the game has a
  -- session, still without an umpire, and one who is to play or plays has an umpire, so neither processor
  -- panics; a peer who has not come yet, or who left a game, has no session; but the session of one who
  -- left before a game stays.
  pub PeersReach-Kept :
      {peers : Peers Number}
      → PeersReach protocol_version peers
      → (id : ℕ) → Kept (peers.stages id) (peers.sessions id)
  unfolding KeptAll
  PeersReach-Kept new_server id = refl
  PeersReach-Kept (then_steps r step) id = KeptAll-step _ _ step (λ n. PeersReach-Kept r n) id
