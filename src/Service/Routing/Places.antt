-- ===== src/Service/Routing/Places.antt =====
-- The places of a connection in a service, counted, and how its life bounds them.
use reactive_messaging.Prelude.{
  ℕ, ◌+◌, ◌≤◌, ◌≡◌, refl, arith, List, Bool, true, false, some, ◌==◌, count, one,
}
use reactive_messaging.Dialog.Context.{SocketConnection}
use reactive_messaging.Service.Routing.{
  connected, disconnected, notified, routed, dropped, shut_down,
}
use reactive_messaging.Service.Routing.Lifecycle.{
  Life, unseen, present, leaving, gone, lost, advance_if,
}

-- How often a list has the connection of an identifier.
abbrev pub times : {StateType : Type 0} → ℕ → List (SocketConnection StateType) → ℕ
times n cs = count (λ c. c.id == n) cs

abbrev pub in_unseen : Life → ℕ
in_unseen unseen = 1
in_unseen _ = 0

abbrev pub in_present : Life → ℕ
in_present present = 1
in_present _ = 0

module _ {StateType : Type 0} (Sender : Type 0) where
  -- What the life comes to with an effect, and that its bounds are kept: `h` is what processors hold.
  pub announced :
      (c : SocketConnection StateType) (b : Bool) (life : Life) (h x y : ℕ)
      → h + x ≤ in_present life
      → one b + y ≤ in_unseen life
      → (next : Life) × (advance_if {Sender = Sender} b (notified (connected c)) life ≡ some next)
        × (h + (one b + x) ≤ in_present next)
        × (y ≤ in_unseen next)
  announced c false life h x y k m = (life, refl, omega arith, omega arith)
  announced c true unseen h x y k m = (present, refl, omega arith, omega arith)
  announced c true present h x y k m = absurd (omega arith)
  announced c true leaving h x y k m = absurd (omega arith)
  announced c true gone h x y k m = absurd (omega arith)
  announced c true lost h x y k m = absurd (omega arith)

  pub taken :
      (sender : Sender) (c : SocketConnection StateType) (b : Bool) (life : Life) (h x y : ℕ)
      → h + (one b + x) ≤ in_present life
      → y ≤ in_unseen life
      → (advance_if b (routed sender c) life ≡ some life)
        × ((next : Life) × (advance_if b (dropped sender c) life ≡ some next)
            × (h + x ≤ in_present next)
            × (y ≤ in_unseen next))
  taken sender c false life h x y k m = (refl, (life, refl, omega arith, m))
  taken sender c true present h x y k m = (refl, (lost, refl, omega arith, m))
  taken sender c true unseen h x y k m = absurd (omega arith)
  taken sender c true leaving h x y k m = absurd (omega arith)
  taken sender c true gone h x y k m = absurd (omega arith)
  taken sender c true lost h x y k m = absurd (omega arith)

  pub left :
      (c : SocketConnection StateType) (b : Bool) (life : Life) (h x y : ℕ)
      → h + (one b + x) ≤ in_present life
      → y ≤ in_unseen life
      → (mid next : Life) × (advance_if {Sender = Sender} b (notified (disconnected c)) life
          ≡ some mid)
        × (advance_if {Sender = Sender} b (shut_down c) mid ≡ some next)
        × (h + x ≤ in_present next)
        × (y ≤ in_unseen next)
  left c false life h x y k m = (life, life, refl, refl, omega arith, m)
  left c true present h x y k m = (leaving, gone, refl, refl, omega arith, m)
  left c true unseen h x y k m = absurd (omega arith)
  left c true leaving h x y k m = absurd (omega arith)
  left c true gone h x y k m = absurd (omega arith)
  left c true lost h x y k m = absurd (omega arith)
