-- ===== src/Service/Routing/Safety.antt =====
-- Whatever the interleaving, a server keeps every connection at one place and leads it one life.
use reactive_messaging.Prelude.{
  ℕ, suc, Bool, true, false, ◌+◌, ◌≤◌, ◌<◌, ◌%◌, ◌^◌, ◌≡◌, refl, ap, subst, arith, List, [], ◌∷◌,
  ◌++◌, some, one, count-append, count-but, ◌==◌, leb,
}
use native.Mathlib.Nat.{mod-eq_of_lt}
use reactive_messaging.Dialog.Context.{SocketConnection, new}
use reactive_messaging.Service.Routing.{
  RoutingClosure, Task, Loop, looping, ended, task_of, server_turn, start,
}
use reactive_messaging.Service.Routing.Lifecycle.{Life, unseen, lives}
use reactive_messaging.Service.Routing.Places.{times, in_unseen, in_present}
use reactive_messaging.Service.Routing.Invariant.{Fits, Fits-server_new, Fits-server_returned}
use reactive_messaging.Service.Routing.System.{
  System, Step, accepts, counts_elsewhere, takes_new, takes_returned, finds_closed, gives_back,
  fails, hold, Reach, starts, then_steps,
}

-- Identifiers that no connection has yet.
abbrev later : ℕ → ℕ → ℕ
later connection_counter n = one (leb connection_counter n)

one_at_most : (b : Bool) → one b ≤ 1
one_at_most true = omega arith
one_at_most false = omega arith

next_later :
    (n connection_counter : ℕ)
    → one (connection_counter == n) + later (connection_counter + 1) n ≤ later connection_counter n
next_later n connection_counter = ground arith

next_id : (k : ℕ) → suc k < 2 ^ 32 → (k + 1) % 2 ^ 32 ≡ k + 1
next_id k h = mod-eq_of_lt (omega (arith, h))

fewer_later : (n k more : ℕ) → k < more → later more n ≤ later k n
fewer_later n k more h = ground arith

module _ {StateType : Type 0} where
  -- A connection takes the identifier that no connection has yet.
  counted :
      (n connection_counter : ℕ) (new_connections : List (SocketConnection StateType))
      (connection : List ℕ) (initial_state : StateType)
      → suc connection_counter < 2 ^ 32
      → times n (new_connections ++ (new connection initial_state connection_counter).0 ∷ [])
          + later ((new connection initial_state connection_counter).1) n
        ≤ times n new_connections + later connection_counter n
  unfolding new
  counted n k cs connection initial_state h = omega (
    arith,
    next_later n k,
    count-append (λ c. c.id == n) cs ((new connection initial_state k).0 ∷ []),
    ap (λ i. later i n) (next_id k h),
  )

module _ {StateType Sender Closure : Type 0} where
  pub Placed : ℕ → System StateType Sender Closure → Type 0
  Placed n s =
      Fits n (times n s.returned_connections)
        (times n s.new_connections + later s.connection_counter n) (task_of s.routing_task)

  weaken :
      {n x y x' y' : ℕ} {t t' : Task StateType Sender Closure}
      → t ≡ t'
      → x' ≤ x
      → y' ≤ y
      → Fits n x y t
      → Fits n x' y' t'
  weaken {n} {x} {y} {x'} {y'} e hx hy f = subst (Fits n x' y') e (record {
    life = f.life;
    lived = f.lived;
    held = omega (arith, f.held, hx);
    announced_once = omega (arith, f.announced_once, hy);
  })

  held_but :
      (n x y : ℕ) (before after : List (SocketConnection StateType))
      (c : SocketConnection StateType) (t : Task StateType Sender Closure)
      → t.in_processors ≡ before ++ c ∷ after
      → Fits n x y t
      → Fits n (one (c.id == n) + x) y (record t { in_processors = before ++ after })
  held_but n x y before after c t e f = record {
    life = f.life;
    lived = f.lived;
    held = omega (arith, f.held, ap (times n) e, count-but (λ c. c.id == n) before after c);
    announced_once = f.announced_once;
  }

  -- A connection that leaves the processors may turn up elsewhere.
  Fits-hold :
      (n x y : ℕ) (before after : List (SocketConnection StateType))
      (c : SocketConnection StateType) (l : Loop (Task StateType Sender Closure))
      → (task_of l).in_processors ≡ before ++ c ∷ after
      → Fits n x y (task_of l)
      → Fits n (one (c.id == n) + x) y (task_of (hold (before ++ after) l))
  Fits-hold n x y before after c (looping t) e f = held_but n x y before after c t e f
  Fits-hold n x y before after c (ended t) e f = held_but n x y before after c t e f

module _ {StateType Sender Closure : Type 0} {routing : RoutingClosure StateType Sender Closure}
    {initial_state : StateType} where
  pub Step-Placed :
      (n : ℕ) {s t : System StateType Sender Closure}
      → Step routing initial_state s t
      → Placed n s
      → Placed n t
  unfolding Placed server_turn
  Step-Placed n {s} (accepts connection h) f =
      weaken refl (omega arith)
        (counted n s.connection_counter s.new_connections connection initial_state h) f
  Step-Placed n {s} (counts_elsewhere counter more h) f =
      weaken refl (omega arith) (omega (arith, fewer_later n s.connection_counter counter more)) f
  Step-Placed n {s} (takes_new receives c rest t e loop) f =
      Fits-server_new n _ _ routing receives c t
        (weaken (ap task_of loop) (omega arith) (omega (arith, ap (times n) e)) f)
  Step-Placed n {s} (takes_returned receives c rest t e loop) f =
      Fits-server_returned n _ _ routing receives c t
        (weaken (ap task_of loop) (omega (arith, ap (times n) e)) (omega arith) f)
  Step-Placed n {s} (finds_closed receives t e loop) f =
      weaken (ap task_of loop) (omega arith) (omega arith) f
  Step-Placed n {s} (gives_back before c returned after e same room) f =
      weaken refl
        (omega (
          arith,
          count-append (λ c. c.id == n) s.returned_connections (returned ∷ []),
          ap (λ i. one (i == n)) same,
        ))
        (omega arith) (Fits-hold n _ _ before after c s.routing_task e f)
  Step-Placed n {s} (fails before c after e) f =
      weaken refl (omega arith) (omega arith) (Fits-hold n _ _ before after c s.routing_task e f)

  Reach-Placed :
      (n : ℕ) {connection_counter : ℕ} {closure : Closure} {s : System StateType Sender Closure}
      → Reach routing initial_state connection_counter closure s
      → Placed n s
  unfolding Placed start
  Reach-Placed n {connection_counter} starts = record {
    life = unseen;
    lived = refl;
    held = omega arith;
    announced_once = omega (arith, one_at_most (leb connection_counter n));
  }
  Reach-Placed n (then_steps r step) = Step-Placed n step (Reach-Placed n r)

  -- Whatever the routing closure, the processors and the interleaving, the effects on the connection of
  -- any identifier are a run of the life cycle; while it is present, it is at one place at most, among the
  -- processors and the connections given back, and in no other stage of its life is it at any; it waits to
  -- be announced once at most, and only while it was not.
  pub one_life :
      (n : ℕ) {connection_counter : ℕ} {closure : Closure} {s : System StateType Sender Closure}
      → Reach routing initial_state connection_counter closure s
      → (life : Life) × (lives n (task_of s.routing_task).effects unseen ≡ some life)
        × (times n (task_of s.routing_task).in_processors + times n s.returned_connections
            ≤ in_present life)
        × (times n s.new_connections ≤ in_unseen life)
  unfolding Placed
  one_life n r =
      let f = Reach-Placed n r in (f.life, f.lived, f.held, omega (arith, f.announced_once))
