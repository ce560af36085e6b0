-- ===== src/Dialog/Textual/Stream.antt =====
-- The receiving side of the textual dialog over a stream of reads.
use reactive_messaging.Prelude.{
  ℕ, suc, ◌-◌, ◌≡◌, ◌≢◌, refl, sym, ap, ◌∙◌, arith, List, [], ◌∷◌, ◌++◌, length, false, ◌==◌,
  append_assoc, append-nil, Bool-cases, fun_ext, subst, inl, inr, All-append, take-append,
  length-append, ==_iff,
}
use reactive_messaging.Dialog.Context.{Services, Flow, go, stop}
use reactive_messaging.Dialog.Textual.{
  newline, Reading, more, ended, State, handle_line, read_lines, after_read, on_received,
}
use reactive_messaging.Dialog.Textual.Lines.{NoNewline, resume, feed, read_lines-feed}

module _ {Remote Local Text World : Type 0} (services : Services Remote Local Text World) where
  unfoldable pub resumed : (List ℕ → World → Reading World) → Reading World → Reading World
  resumed f (more line w) = f line w
  resumed f (ended w) = ended w

  resumed-resume :
      (f : List ℕ → World → Reading World) (g : World → Reading World) (r : Flow World)
      → resumed f (resume services g r) ≡ resume services (λ w. resumed f (g w)) r
  unfolding resumed resume
  resumed-resume f g (go w) = refl
  resumed-resume f g (stop w) = refl

  pub feed-append :
      (xs ys line : List ℕ) (w : World)
      → feed services line (xs ++ ys) w
        ≡ resumed (λ l. feed services l ys) (feed services line xs w)
  unfolding feed resumed
  feed-append [] ys line w = refl
  feed-append (b ∷ xs) ys line w = elim (Bool-cases (b == newline)) [
    | inl t ↦ rw t (
        ap (λ f. resume services f (handle_line services line w))
          (fun_ext (λ v. feed-append xs ys [] v))
        ∙ sym (
            resumed-resume (λ l. feed services l ys) (feed services [] xs)
              (handle_line services line w)))
    | inr t ↦ rw t (feed-append xs ys (line ++ b ∷ []) w)
  ]

  -- Bytes without a newline only join the line at hand.
  pub feed_line :
      (bytes line : List ℕ) (w : World)
      → NoNewline bytes
      → feed services line bytes w ≡ more (line ++ bytes) w
  unfolding feed
  feed_line [] line w h = ap (λ l. more l w) (sym (append-nil line))
  feed_line (b ∷ bytes) line w h = elim (Bool-cases (b == newline)) [
    | inl t ↦ absurd (h.0 ((==_iff b newline).0 t))
    | inr t ↦ rw t (
        feed_line bytes (line ++ b ∷ []) w h.1
        ∙ ap (λ l. more l w) (append_assoc line (b ∷ []) bytes))
  ]

  pub data Ends (P : List ℕ → Type 0) : Reading World → Type 0 where
    ends_more : (line : List ℕ) (w : World) → P line → Ends P (more line w)
    ends_ended : (w : World) → Ends P (ended w)

  Ends-resume :
      (P : List ℕ → Type 0) (f : World → Reading World) (r : Flow World)
      → ((w : World) → Ends P (f w))
      → Ends P (resume services f r)
  unfolding resume
  Ends-resume P f (go w) h = h w
  Ends-resume P f (stop w) h = ends_ended w

  pub feed-NoNewline :
      (bytes line : List ℕ) (w : World)
      → NoNewline line
      → Ends NoNewline (feed services line bytes w)
  unfolding feed
  feed-NoNewline [] line w h = ends_more line w h
  feed-NoNewline (b ∷ bytes) line w h = elim (Bool-cases (b == newline)) [
    | inl t ↦ rw t (
        Ends-resume NoNewline (feed services [] bytes) (handle_line services line w)
          (λ v. feed-NoNewline bytes [] v tt))
    | inr t ↦ rw t (
        feed-NoNewline bytes (line ++ b ∷ []) w
          (All-append (λ b. b ≢ newline) line (b ∷ []) h (other t, tt)))
  ]
    where
      other : (b == newline) ≡ false → b ≢ newline
      other t = ground arith

  module _ {StateType : Type 0} where
    -- Where the buffer holds no newline, receiving bytes is reading them one at a time, each line handed
    -- over at its newline: the search that skips the buffered bytes finds the same lines.
    pub on_received-feed :
        (s : State StateType World) (bytes : List ℕ)
        → NoNewline s.read_buffer
        → on_received services bytes s
          ≡ after_read services s (feed services s.read_buffer bytes s.world)
    unfolding on_received resumed
    on_received-feed s bytes h =
        let buffer = s.read_buffer in
        ap (after_read services s) (
          ap
            (λ n.
              read_lines services (suc (length (buffer ++ bytes))) (buffer ++ bytes) 0 n s.world)
            (seen buffer bytes)
          ∙ read_lines-feed services (suc (length (buffer ++ bytes))) (buffer ++ bytes) 0
              (length buffer) s.world (omega arith) (omega arith)
              (subst NoNewline (sym (take-append buffer bytes)) h)
          ∙ feed-append buffer bytes [] s.world
          ∙ ap (resumed (λ l. feed services l bytes)) (feed_line buffer [] s.world h))
      where
        seen : (xs ys : List ℕ) → length (xs ++ ys) - length ys ≡ length xs
        seen xs ys = omega (arith, length-append xs ys)
