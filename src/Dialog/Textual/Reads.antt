-- ===== src/Dialog/Textual/Reads.antt =====
-- How the bytes of the connection are cut into reads.
use reactive_messaging.Prelude.{ℕ, ◌≡◌, refl, sym, ap, ◌∙◌, List, [], ◌∷◌, ◌++◌, true, false}
use reactive_messaging.Dialog.Context.{
  Services, and_then, Holds, holds_running, holds_over, Holds-and_then, and_then_assoc,
}
use reactive_messaging.Dialog.Textual.{
  Reading, more, ended, State, after_read, on_received, step, Event, to_send, sender_ended, read,
  would_block, read_failed, dialog_loop,
}
use reactive_messaging.Dialog.Textual.Lines.{NoNewline, feed}
use reactive_messaging.Dialog.Textual.Stream.{
  resumed, Ends, ends_more, ends_ended, feed-append, feed-NoNewline, on_received-feed,
}

module _ {Remote Local Text World StateType : Type 0}
    (services : Services Remote Local Text World) where
  -- The bytes kept between reads are part of one line.
  abbrev pub IsPartial : State StateType World → Type 0
  IsPartial s = NoNewline s.read_buffer

  after_read-IsPartial :
      (s : State StateType World) (r : Reading World)
      → Ends services NoNewline r
      → Holds IsPartial (λ c. Unit) (after_read services s r)
  unfolding after_read
  after_read-IsPartial s (more line w) (ends_more _ _ h) = holds_running _ h
  after_read-IsPartial s (ended w) (ends_ended _) = holds_over _ w tt

  step-IsPartial :
      (e : Event Local) (s : State StateType World)
      → IsPartial s
      → Holds IsPartial (λ c. Unit) (step services e s)
  unfolding step
  step-IsPartial (to_send message true) s h = holds_running _ h
  step-IsPartial (to_send message false) s h = holds_over _ _ tt
  step-IsPartial sender_ended s h = holds_over _ _ tt
  step-IsPartial (read []) s h = holds_over _ _ tt
  step-IsPartial (read (b ∷ bytes)) s h =
      rw (on_received-feed services s (b ∷ bytes) h)
        (after_read-IsPartial s _ (feed-NoNewline services (b ∷ bytes) s.read_buffer s.world h))
  step-IsPartial would_block s h = holds_running _ h
  step-IsPartial read_failed s h = holds_over _ _ tt

  -- If the read buffer holds no newline, it holds none after any events that the loop survives.
  dialog_loop-IsPartial :
      (events : List (Event Local)) (s : State StateType World)
      → IsPartial s
      → Holds IsPartial (λ c. Unit) (dialog_loop services events s)
  unfolding dialog_loop
  dialog_loop-IsPartial [] s h = holds_running s h
  dialog_loop-IsPartial (e ∷ events) s h =
      Holds-and_then IsPartial (λ c. Unit) (step services e s) (step-IsPartial e s h)
        (λ s' h'. dialog_loop-IsPartial events s' h')

  -- A read after another, where the first leaves `r`.
  after_reads :
      (s : State StateType World) (ys : List ℕ) (r : Reading World)
      → Ends services NoNewline r
      → and_then (after_read services s r) (on_received services ys)
        ≡ after_read services s (resumed services (λ l. feed services l ys) r)
  unfolding after_read and_then resumed
  after_reads s ys (more line w) (ends_more _ _ h) =
      on_received-feed services (record s { read_buffer = line; world = w }) ys h
      ∙ again (feed services line ys w)
    where
      again :
          (r : Reading World)
          → after_read services (record s { read_buffer = line; world = w }) r
            ≡ after_read services s r
      again (more line' w') = refl
      again (ended w') = refl
  after_reads s ys (ended w) h = refl

  pub on_received-append :
      (s : State StateType World) (xs ys : List ℕ)
      → IsPartial s
      → and_then (on_received services xs s) (on_received services ys)
        ≡ on_received services (xs ++ ys) s
  on_received-append s xs ys h =
      ap (λ t. and_then t (on_received services ys)) (on_received-feed services s xs h)
      ∙ after_reads s ys _ (feed-NoNewline services xs s.read_buffer s.world h)
      ∙ ap (after_read services s) (sym (feed-append services xs ys s.read_buffer s.world))
      ∙ sym (on_received-feed services s (xs ++ ys) h)

  -- Bytes that come in two reads, neither empty, are handled as if they came in one, whatever follows,
  -- where the read buffer holds no newline.
  pub dialog_loop_split_reads :
      (s : State StateType World) (x y : ℕ) (xs ys : List ℕ) (events : List (Event Local))
      → IsPartial s
      → dialog_loop services (read (x ∷ xs) ∷ read (y ∷ ys) ∷ events) s
        ≡ dialog_loop services (read ((x ∷ xs) ++ (y ∷ ys)) ∷ events) s
  unfolding dialog_loop step
  dialog_loop_split_reads s x y xs ys events h =
      and_then_assoc (on_received services (x ∷ xs) s) (on_received services (y ∷ ys))
        (dialog_loop services events)
      ∙ ap (λ t. and_then t (dialog_loop services events))
          (on_received-append s (x ∷ xs) (y ∷ ys) h)
