-- ===== src/Connection/Handler/Settings.antt =====
-- The socket options that are set before a dialog, and how the connection is given back after it.
use reactive_messaging.Prelude.{
  ◌≡◌, refl, ap, ◌∙◌, sym, subst, List, [], ◌∷◌, ◌++◌, append-nil, Bool, true, false, Option, none,
  some, if◌then◌else◌,
}
use reactive_messaging.Config.Sockets.{SocketOptions}
use reactive_messaging.Dialog.Context.{SocketConnection, set_state}
use reactive_messaging.Connection.PeerState.{Peer, take_state}
use reactive_messaging.Connection.Handler.{
  Setting, set_nodelay, set_ttl, set_linger, map_setting, Surroundings, Handled, failed, with_state,
  after_flush, after_dialog, apply_then, configure, dialog_loop,
}

-- The settings that options ask for, in their order.
asked : Option Setting → List Setting
asked none = []
asked (some setting) = setting ∷ []

unfoldable pub settings : SocketOptions → List Setting
unfolding asked map_setting
settings options =
    asked (map_setting set_nodelay options.no_delay)
    ++ (asked (map_setting set_ttl options.hops_to_live)
        ++ asked (map_setting set_linger options.linger_millis))

module _ {Address StateType World : Type 0}
    (surroundings : Surroundings Address StateType World) where
  -- Settings one after the other, until one fails.
  and_apply : (World → Bool × World) → Bool × World → Bool × World
  and_apply more (true, w) = more w
  and_apply more (false, w) = (false, w)

  unfoldable pub apply_all : List Setting → World → Bool × World
  unfolding and_apply
  apply_all [] w = (true, w)
  apply_all (setting ∷ more) w = and_apply (apply_all more) (surroundings.apply setting w)

  concluded :
      SocketConnection StateType
      → Peer Address StateType
      → Bool × World
      → Handled Address StateType World
  unfolding after_dialog failed
  concluded c peer (true, w) = after_dialog surroundings (surroundings.dialog c peer w)
  concluded c peer (false, w) = failed surroundings peer w

  configure_lem :
      (c : SocketConnection StateType) (peer : Peer Address StateType) (setting : Option Setting)
      (more : List Setting) (next : World → Handled Address StateType World)
      → ((w : World) → next w ≡ concluded c peer (apply_all more w))
      → (w : World)
      → configure surroundings setting next peer w
        ≡ concluded c peer (apply_all (asked setting ++ more) w)
  unfolding configure apply_then asked apply_all concluded and_apply
  configure_lem c peer none more next h w = h w
  configure_lem c peer (some setting) more next h w = cases (surroundings.apply setting w)
    where
      cases :
          (r : Bool × World)
          → (let (applied, w') = r in if applied then next w' else failed surroundings peer w')
            ≡ concluded c peer (and_apply (apply_all more) r)
      cases (true, w') = h w'
      cases (false, w') = refl

  handled :
      (options : SocketOptions) (c : SocketConnection StateType) (peer : Peer Address StateType)
      (w : World)
      → dialog_loop surroundings options c peer w
        ≡ concluded c peer (apply_all (settings options) w)
  unfolding dialog_loop settings concluded apply_all
  handled options c peer w =
      configure_lem c peer (map_setting set_nodelay options.no_delay) _ _
        (configure_lem c peer (map_setting set_ttl options.hops_to_live) _ _ (λ v.
          configure_lem c peer (map_setting set_linger options.linger_millis) [] _ (λ u. refl) v
          ∙ ap (λ l. concluded c peer (apply_all l v))
              (append-nil (asked (map_setting set_linger options.linger_millis)))))
        w

  -- The state that a peer left for the next processor goes with the connection.
  abbrev pub restored : Option StateType → SocketConnection StateType → SocketConnection StateType
  restored none c = c
  restored (some state) c = record c { state = state }

  -- The result of a dialog with what surrounds it, by what failed in it, if anything did. Nothing is done
  -- after a failure; the processor's channel and the peer's sender are closed after a dialog that did not
  -- fail, before the flush.
  pub data Handles (options : SocketOptions) (c : SocketConnection StateType)
      (peer : Peer Address StateType) (w : World) : Handled Address StateType World → Type 0 where
    not_configured :
        (w1 : World)
        → apply_all (settings options) w ≡ (false, w1)
        → Handles options c peer w (record { socket_connection = none; peer = peer; world = w1 })
    dialog_failed :
        (c' : SocketConnection StateType) (peer' : Peer Address StateType) (w1 w2 : World)
        → apply_all (settings options) w ≡ (true, w1)
        → surroundings.dialog c peer w1 ≡ (false, c', peer', w2)
        → Handles options c peer w (record { socket_connection = none; peer = peer'; world = w2 })
    not_flushed :
        (c' : SocketConnection StateType) (peer' : Peer Address StateType) (w1 w2 w3 : World)
        → apply_all (settings options) w ≡ (true, w1)
        → surroundings.dialog c peer w1 ≡ (true, c', peer', w2)
        → surroundings.flush (surroundings.cancel_and_close (surroundings.close_processor w2))
          ≡ (false, w3)
        → Handles options c peer w (record { socket_connection = none; peer = peer'; world = w3 })
    given_back :
        (c' : SocketConnection StateType) (peer' : Peer Address StateType) (w1 w2 w3 : World)
        → apply_all (settings options) w ≡ (true, w1)
        → surroundings.dialog c peer w1 ≡ (true, c', peer', w2)
        → surroundings.flush (surroundings.cancel_and_close (surroundings.close_processor w2))
          ≡ (true, w3)
        → Handles options c peer w (record {
          socket_connection = some (restored peer'.state c');
          peer = record peer' { state = none };
          world = w3;
        })

  with_state-restored :
      (state : Option StateType) (c : SocketConnection StateType) (peer : Peer Address StateType)
      (w : World)
      → with_state surroundings (state, peer) c w
        ≡ record { socket_connection = some (restored state c); peer = peer; world = w }
  unfolding with_state set_state
  with_state-restored none c peer w = refl
  with_state-restored (some state) c peer w = refl

  after_flush-Handles :
      (options : SocketOptions) (c c' : SocketConnection StateType)
      (peer peer' : Peer Address StateType) (w w1 w2 : World) (flushed : Bool × World)
      → apply_all (settings options) w ≡ (true, w1)
      → surroundings.dialog c peer w1 ≡ (true, c', peer', w2)
      → surroundings.flush (surroundings.cancel_and_close (surroundings.close_processor w2))
        ≡ flushed
      → Handles options c peer w (after_flush surroundings c' peer' flushed)
  unfolding after_flush failed take_state
  after_flush-Handles options c c' peer peer' w w1 w2 (false, w3) a d f =
      not_flushed c' peer' w1 w2 w3 a d f
  after_flush-Handles options c c' peer peer' w w1 w2 (true, w3) a d f =
      subst (Handles options c peer w)
        (sym (with_state-restored peer'.state c' (record peer' { state = none }) w3))
        (given_back c' peer' w1 w2 w3 a d f)

  after_dialog-Handles :
      (options : SocketOptions) (c : SocketConnection StateType) (peer : Peer Address StateType)
      (w w1 : World) (result : Bool × SocketConnection StateType × Peer Address StateType × World)
      → apply_all (settings options) w ≡ (true, w1)
      → surroundings.dialog c peer w1 ≡ result
      → Handles options c peer w (after_dialog surroundings result)
  unfolding after_dialog failed
  after_dialog-Handles options c peer w w1 (false, c', peer', w2) a d =
      dialog_failed c' peer' w1 w2 a d
  after_dialog-Handles options c peer w w1 (true, c', peer', w2) a d =
      after_flush-Handles options c c' peer peer' w w1 w2 _ a d refl

  concluded-Handles :
      (options : SocketOptions) (c : SocketConnection StateType) (peer : Peer Address StateType)
      (w : World) (configured : Bool × World)
      → apply_all (settings options) w ≡ configured
      → Handles options c peer w (concluded c peer configured)
  unfolding concluded failed
  concluded-Handles options c peer w (false, w1) a = not_configured w1 a
  concluded-Handles options c peer w (true, w1) a =
      after_dialog-Handles options c peer w w1 _ a refl

  -- Whatever the options, the dialog and the socket: the settings that the options ask for are made first,
  -- in order. If one fails, if the dialog fails or if the flush after it fails, the connection is not given
  -- back, and nothing is done any more. Otherwise it is, with the state that the peer holds after the dialog
  -- if there is one, and the peer holds none any longer; the processor's channel and the peer's sender were
  -- closed before the flush.
  pub dialog_loop-Handles :
      (options : SocketOptions) (c : SocketConnection StateType) (peer : Peer Address StateType)
      (w : World)
      → Handles options c peer w (dialog_loop surroundings options c peer w)
  dialog_loop-Handles options c peer w =
      subst (Handles options c peer w) (sym (handled options c peer w))
        (concluded-Handles options c peer w _ refl)
