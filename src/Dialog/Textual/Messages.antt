-- ===== src/Dialog/Textual/Messages.antt =====
-- What one side's textual dialog sends and the other's receives.
use reactive_messaging.Prelude.{
  ℕ, ◌≡◌, refl, sym, ap, ◌∙◌, List, [], ◌∷◌, ◌++◌, true, append_assoc, append-nil, subst, fun_ext,
  inl, All,
}
use reactive_messaging.Dialog.Context.{
  flow_then, each, Services, Flow, go, stop, write_all, hand_over, running, and_then,
}
use reactive_messaging.Dialog.Textual.{
  newline, Reading, more, State, after_read, on_received, on_deserialized, handle_line, step, Event,
  to_send, dialog_loop,
}
use reactive_messaging.Dialog.Textual.Lines.{NoNewline, feed, resume}
use reactive_messaging.Dialog.Textual.Stream.{resumed, feed-append, feed_line, on_received-feed}

-- Each line, followed by a newline.
unfoldable pub wire : List (List ℕ) → List ℕ
wire [] = []
wire (line ∷ lines) = line ++ newline ∷ wire lines

module _ {Remote Local Text World : Type 0} (services : Services Remote Local Text World) where
  resume-flow_then :
      (f : World → Reading World) (g : World → Flow World) (r : Flow World)
      → resume services (λ w. resume services f (g w)) r ≡ resume services f (flow_then r g)
  unfolding resume flow_then
  resume-flow_then f g (go w) = refl
  resume-flow_then f g (stop w) = refl

  feed-newline :
      (line rest : List ℕ) (w : World)
      → feed services line (newline ∷ rest) w
        ≡ resume services (feed services [] rest) (handle_line services line w)
  unfolding feed
  feed-newline line rest w = refl

  feed-wire :
      (lines : List (List ℕ)) (tail : List ℕ) (w : World)
      → All NoNewline lines
      → NoNewline tail
      → feed services [] (wire lines ++ tail) w
        ≡ resume services (more tail) (each (handle_line services) lines w)
  unfolding wire each resume resumed
  feed-wire [] tail w h k = feed_line services tail [] w k
  feed-wire (line ∷ lines) tail w h k =
      ap (λ bytes. feed services [] bytes w) (append_assoc line (newline ∷ wire lines) tail)
      ∙ feed-append services line (newline ∷ (wire lines ++ tail)) [] w
      ∙ ap (resumed services (λ l. feed services l (newline ∷ (wire lines ++ tail))))
          (feed_line services line [] w h.0)
      ∙ feed-newline line (wire lines ++ tail) w
      ∙ ap (λ f. resume services f (handle_line services line w))
          (fun_ext (λ v. feed-wire lines tail v h.1 k))
      ∙ resume-flow_then (more tail) (each (handle_line services) lines)
          (handle_line services line w)

  -- From an empty read buffer, lines without newlines inside, each ended by one, are handled in order and
  -- once each, until one ends the dialog; what comes after the last newline stays in the buffer.
  pub on_received-wire :
      {StateType : Type 0} (s : State StateType World) (lines : List (List ℕ)) (tail : List ℕ)
      → s.read_buffer ≡ []
      → All NoNewline lines
      → NoNewline tail
      → on_received services (wire lines ++ tail) s
        ≡ after_read services s
            (resume services (more tail) (each (handle_line services) lines s.world))
  on_received-wire s lines tail empty h k =
      on_received-feed services s (wire lines ++ tail) (subst NoNewline (sym empty) tt)
      ∙ ap (λ l. after_read services s (feed services l (wire lines ++ tail) s.world)) empty
      ∙ ap (after_read services s) (feed-wire lines tail s.world h k)

  -- The serialized messages, each in the buffer that the one before left.
  unfoldable pub serialized : List Local → List ℕ → List (List ℕ)
  serialized [] buffer = []
  serialized (m ∷ messages) buffer =
      let line = services.serialize m buffer in line ∷ serialized messages (line ++ newline ∷ [])

  unfoldable pub sendings : List Local → List (Event Local)
  sendings [] = []
  sendings (m ∷ messages) = to_send m true ∷ sendings messages

  pub dialog_loop-sendings :
      {StateType : Type 0} (messages : List Local) (s : State StateType World)
      → (s' : State StateType World) × (dialog_loop services (sendings messages) s ≡ running s')
        × (s'.socket_connection.connection
            ≡ s.socket_connection.connection ++ wire (serialized messages s.serialization_buffer))
  unfolding dialog_loop sendings serialized step and_then wire
  dialog_loop-sendings [] s = (s, refl, sym (append-nil s.socket_connection.connection))
  dialog_loop-sendings (m ∷ messages) s =
      let line = services.serialize m s.serialization_buffer in
      let (s', runs, wrote) = dialog_loop-sendings messages (record s {
        serialization_buffer = line ++ newline ∷ [];
        socket_connection = write_all s.socket_connection (line ++ newline ∷ []);
      }) in
      (
        s',
        runs,
        wrote
            ∙ joined s.socket_connection.connection line
                (wire (serialized messages (line ++ newline ∷ []))),
      )
    where
      joined : (xs ys zs : List ℕ) → (xs ++ (ys ++ newline ∷ [])) ++ zs ≡ xs ++ (ys ++ newline ∷ zs)
      joined xs ys zs =
          append_assoc xs (ys ++ newline ∷ []) zs ∙ ap (xs ++◌) (append_assoc ys (newline ∷ []) zs)

module _ {Message Local Remote SenderText Text SenderWorld World : Type 0}
    (sender : Services Remote Message SenderText SenderWorld)
    (receiver : Services Message Local Text World) where
  handed_over :
      (m : Message) (line : List ℕ) (w : World)
      → receiver.deserialize line ≡ inl m
      → handle_line receiver line w ≡ hand_over receiver m w
  unfolding handle_line on_deserialized
  handed_over m line w e = rw e refl

  pub each-serialized :
      (messages : List Message) (buffer : List ℕ) (w : World)
      → ((m : Message) (b : List ℕ) → receiver.deserialize (sender.serialize m b) ≡ inl m)
      → each (handle_line receiver) (serialized sender messages buffer) w
        ≡ each (hand_over receiver) messages w
  unfolding each serialized
  each-serialized [] buffer w h = refl
  each-serialized (m ∷ messages) buffer w h =
      let line = sender.serialize m buffer in
      ap
        (λ f.
          flow_then f
            (each (handle_line receiver) (serialized sender messages (line ++ newline ∷ []))))
        (handed_over m line w (h m buffer))
      ∙ ap (flow_then (hand_over receiver m w))
          (fun_ext (λ v. each-serialized messages (line ++ newline ∷ []) v h))

  pub one_line :
      (messages : List Message) (buffer : List ℕ)
      → ((m : Message) (b : List ℕ) → NoNewline (sender.serialize m b))
      → All NoNewline (serialized sender messages buffer)
  unfolding serialized
  one_line [] buffer h = tt
  one_line (m ∷ messages) buffer h = (h m buffer, one_line messages _ h)

  -- Where the receiver's deserializer inverts the sender's serializer, which makes no newline, the loop
  -- sends messages as bytes that, received at once into an empty buffer, hand the processor the same
  -- messages in the same order, until one ends the receiving dialog.
  dialog_loop_delivers :
      {SenderState StateType : Type 0} (messages : List Message) (s : State SenderState SenderWorld)
      (r : State StateType World)
      → r.read_buffer ≡ []
      → ((m : Message) (b : List ℕ) → receiver.deserialize (sender.serialize m b) ≡ inl m)
      → ((m : Message) (b : List ℕ) → NoNewline (sender.serialize m b))
      → (s' : State SenderState SenderWorld) × (bytes : List ℕ) × (dialog_loop sender
            (sendings sender messages)
            s
          ≡ running s')
        × (s'.socket_connection.connection ≡ s.socket_connection.connection ++ bytes)
        × (on_received receiver bytes r
            ≡ after_read receiver r
                (resume receiver (more []) (each (hand_over receiver) messages r.world)))
  dialog_loop_delivers messages s r empty reads lines =
      let buffer = s.serialization_buffer in
      let bytes = wire (serialized sender messages buffer) in
      let (s', runs, wrote) = dialog_loop-sendings sender messages s in
      (
        s',
        bytes,
        runs,
        wrote,
        ap (λ b. on_received receiver b r) (sym (append-nil bytes))
            ∙ on_received-wire receiver r (serialized sender messages buffer) [] empty
                (one_line messages buffer lines) tt
            ∙ ap (λ f. after_read receiver r (resume receiver (more []) f))
                (each-serialized messages buffer r.world reads),
      )
