-- ===== src/Dialog/Textual/Lines.antt =====
-- The inner loop of the textual dialog against a reader that takes one byte at a time.
use reactive_messaging.Prelude.{
  ℕ, zero, suc, ◌+◌, ◌-◌, ◌≤◌, ◌<◌, ◌≡◌, ◌≢◌, refl, sym, ap, ◌∙◌, arith, List, [], ◌∷◌, ◌++◌,
  length, take, drop, All, true, false, Option, none, some, ltb, leb, ◌==◌, if◌then◌else◌,
  append_assoc, append-nil, Bool-cases, Option-cases, drop-drop, drop_all, length-drop, leb→le, inl,
  inr,
}
use reactive_messaging.Dialog.Context.{Services, Flow, go, stop}
use reactive_messaging.Dialog.Textual.{
  newline, position, later, Reading, more, ended, handle_line, read_lines, round, next_round,
}

abbrev pub NoNewline : List ℕ → Type 0
NoNewline = All (λ b. b ≢ newline)

later-none : (o : Option ℕ) → later o ≡ none → o ≡ none
unfolding later
later-none none e = refl
later-none (some n) e = cc

later-some : (o : Option ℕ) (p : ℕ) → later o ≡ some p → (q : ℕ) × (p ≡ suc q) × (o ≡ some q)
unfolding later
later-some none p e = cc
later-some (some n) p e = (n, cc, refl)

position-drop-none :
    (n : ℕ) (bytes : List ℕ)
    → NoNewline (take n bytes)
    → position (drop n bytes) ≡ none
    → position bytes ≡ none
unfolding position
position-drop-none zero bytes h e = e
position-drop-none (suc n) [] h e = refl
position-drop-none (suc n) (b ∷ bytes) h e =
    ground (arith, h.0, ap later (position-drop-none n bytes h.1 e))

position-drop-some :
    (n : ℕ) (bytes : List ℕ) (p : ℕ)
    → NoNewline (take n bytes)
    → position (drop n bytes) ≡ some p
    → position bytes ≡ some (p + n)
unfolding position later
position-drop-some zero bytes p h e = e ∙ ap some (omega arith)
position-drop-some (suc n) [] p h e = cc
position-drop-some (suc n) (b ∷ bytes) p h e =
    ground (arith, h.0, ap later (position-drop-some n bytes p h.1 e))

position-lt : (bytes : List ℕ) (p : ℕ) → position bytes ≡ some p → p < length bytes
unfolding position
position-lt [] p e = cc
position-lt (b ∷ bytes) p e = elim (Bool-cases (b == newline)) [
  | inl t ↦ ground arith
  | inr t ↦
      let (q, r, f) = later-some (position bytes) p (sym (miss t) ∙ e) in
      omega (arith, r, position-lt bytes q f)
]
  where
    miss : (b == newline) ≡ false → position (b ∷ bytes) ≡ later (position bytes)
    miss t = rw t refl

-- Positions in the buffer, and in what is behind `next`.
here :
    (next start : ℕ) (buffer : List ℕ) {o : Option ℕ}
    → position (drop (next + start) buffer) ≡ o
    → position (drop start (drop next buffer)) ≡ o
here next start buffer e = ap position (sym (drop-drop next start buffer)) ∙ e

behind :
    (next start p : ℕ) (buffer : List ℕ)
    → drop (p + (next + start) + 1) buffer ≡ drop (suc (p + start)) (drop next buffer)
behind next start p buffer =
    ap (λ k. drop k buffer) (index next start p) ∙ drop-drop next (suc (p + start)) buffer
  where
    index : (a b c : ℕ) → c + (a + b) + 1 ≡ a + suc (c + b)
    index a b c = omega arith

same_line :
    (next start p : ℕ) (rest : List ℕ)
    → take (p + (next + start) - next) rest ≡ take (p + start) rest
same_line next start p rest = ap (λ k. take k rest) (index next start p)
  where
    index : (a b c : ℕ) → c + (a + b) - a ≡ c + b
    index a b c = omega arith

-- What the inner loop keeps where it finds no newline.
kept : (n : ℕ) (bytes : List ℕ) → (if ltb 0 n then drop n bytes else bytes) ≡ drop n bytes
kept zero bytes = refl
kept (suc n) bytes = ground arith

module _ {Remote Local Text World : Type 0} (services : Services Remote Local Text World) where
  -- The reader: bytes join the line at hand until a newline hands it over.
  unfoldable pub resume : (World → Reading World) → Flow World → Reading World
  resume continue (go w) = continue w
  resume continue (stop w) = ended w

  unfoldable pub feed : List ℕ → List ℕ → World → Reading World
  unfolding resume
  feed line [] w = more line w
  feed line (b ∷ bytes) w =
      if b == newline
      then resume (feed [] bytes) (handle_line services line w)
      else feed (line ++ b ∷ []) bytes w

  feed-none :
      (bytes line : List ℕ) (w : World)
      → position bytes ≡ none
      → feed line bytes w ≡ more (line ++ bytes) w
  unfolding feed position
  feed-none [] line w e = ap (λ l. more l w) (sym (append-nil line))
  feed-none (b ∷ bytes) line w e = elim (Bool-cases (b == newline)) [
    | inl t ↦ cc (e, hit t)
    | inr t ↦ rw t (
        feed-none bytes (line ++ b ∷ []) w (later-none (position bytes) (sym (miss t) ∙ e))
        ∙ ap (λ l. more l w) (append_assoc line (b ∷ []) bytes))
  ]
    where
      hit : (b == newline) ≡ true → position (b ∷ bytes) ≡ some 0
      hit t = rw t refl

      miss : (b == newline) ≡ false → position (b ∷ bytes) ≡ later (position bytes)
      miss t = rw t refl

  feed-some :
      (bytes line : List ℕ) (p : ℕ) (w : World)
      → position bytes ≡ some p
      → feed line bytes w
        ≡ resume (feed [] (drop (suc p) bytes)) (handle_line services (line ++ take p bytes) w)
  unfolding feed position
  feed-some [] line p w e = cc
  feed-some (b ∷ bytes) line p w e = elim (Bool-cases (b == newline)) [
    | inl t ↦ rw t (same (none_before p (sym e ∙ hit t)))
    | inr t ↦
        let (q, r, f) = later-some (position bytes) p (sym (miss t) ∙ e) in
        rw t (feed-some bytes (line ++ b ∷ []) q w f ∙ shifted q r)
  ]
    where
      hit : (b == newline) ≡ true → position (b ∷ bytes) ≡ some 0
      hit t = rw t refl

      miss : (b == newline) ≡ false → position (b ∷ bytes) ≡ later (position bytes)
      miss t = rw t refl

      none_before : (n : ℕ) → some n ≡ some 0 → n ≡ 0
      none_before n h = cc

      same :
          p ≡ 0
          → resume (feed [] bytes) (handle_line services line w)
            ≡ resume
                (feed [] (drop (suc p) (b ∷ bytes)))
                (handle_line services (line ++ take p (b ∷ bytes)) w)
      same z = rw (z, append-nil line) refl

      shifted :
          (q : ℕ)
          → p ≡ suc q
          → resume
              (feed [] (drop (suc q) bytes))
              (handle_line services ((line ++ b ∷ []) ++ take q bytes) w)
            ≡ resume
                (feed [] (drop (suc p) (b ∷ bytes)))
                (handle_line services (line ++ take p (b ∷ bytes)) w)
      shifted q r = rw (r, append_assoc line (b ∷ []) (take q bytes)) refl

  next_round_lem :
      (continue f : World → Reading World) (buffer : List ℕ) (n : ℕ) (r : Flow World)
      → ((w : World) → leb (length buffer) n ≡ true → more [] w ≡ f w)
      → ((w : World) → leb (length buffer) n ≡ false → continue w ≡ f w)
      → next_round services continue buffer n r ≡ resume f r
  unfolding next_round resume
  next_round_lem continue f buffer n (stop w) h k = refl
  next_round_lem continue f buffer n (go w) h k = elim (Bool-cases (leb (length buffer) n)) [
    | inl t ↦ rw t (h w t)
    | inr t ↦ rw t (k w t)
  ]

  -- The inner loop reads what is in the buffer from `next_line_index` on, byte by byte, given that
  -- the bytes it skips in its search hold no newline.
  pub read_lines-feed :
      (fuel : ℕ) (buffer : List ℕ) (next start : ℕ) (w : World)
      → next ≤ length buffer
      → length buffer - next < fuel
      → NoNewline (take start (drop next buffer))
      → read_lines services fuel buffer next start w ≡ feed [] (drop next buffer) w
  unfolding read_lines round feed
  read_lines-feed zero buffer next start w h f c = absurd (omega arith)
  read_lines-feed (suc fuel) buffer next start w h f c =
      elim (Option-cases (position (drop (next + start) buffer))) [
        | inl e ↦
            rw (e, round)
              (ap (λ l. more l w) (kept next buffer)
                ∙ sym (
                    feed-none (drop next buffer) [] w
                      (position-drop-none start (drop next buffer) c (here next start buffer e))))
        | inr (p, e) ↦
            let found =
              position-drop-some start (drop next buffer) p c (here next start buffer e) in
            let inside = position-lt (drop next buffer) (p + start) found in
            rw (e, round)
              (next_round_lem _ (feed [] (drop (suc (p + start)) (drop next buffer))) buffer
                  (p + (next + start) + 1) _
                  (λ w' t.
                    ap (λ l. feed [] l w')
                      (sym (
                        drop_all (suc (p + start)) (drop next buffer) (
                          omega (
                            arith,
                            length-drop next buffer,
                            leb→le (length buffer) (p + (next + start) + 1) t,
                          )))))
                  (λ w' t.
                    read_lines-feed fuel buffer (p + (next + start) + 1) 0 w'
                      (omega (arith, inside, length-drop next buffer))
                      (omega (arith, inside, length-drop next buffer)) tt
                    ∙ ap (λ l. feed [] l w') (behind next start p buffer))
                ∙ ap
                    (λ l.
                      resume (feed [] (drop (suc (p + start)) (drop next buffer)))
                        (handle_line services l w))
                    (same_line next start p (drop next buffer))
                ∙ sym (feed-some (drop next buffer) [] (p + start) w found))
      ]
