-- ===== src/Service/Once.antt =====
-- What can be done with a client or a server but once, in any sequence of operations.
use reactive_messaging.Prelude.{
  ℕ, ◌+◌, ◌≤◌, arith, List, [], ◌∷◌, ◌++◌, Bool, true, false, Option, none, some, Eval, done, panic,
  if◌then◌else◌, one,
}
use reactive_messaging.Service.Outcomes.{Refusal, started_before}
use reactive_messaging.Service.Client as Client
use reactive_messaging.Service.Client.{CompositeSocketClient}
use reactive_messaging.Service.Server as Server
use reactive_messaging.Service.Server.{CompositeSocketServer}

-- A call of an operation of a service: a start has a connection or a listener, or not.
pub data Operation : Type 0 where
  spawn_processor : Operation
  start_multi_protocol : Bool → Operation
  termination_waiter : Operation

abbrev succeeded : Option Refusal → ℕ
succeeded none = 1
succeeded (some refusal) = 0

abbrev has : {A : Type 0} → Option A → ℕ
has none = 0
has (some a) = 1

-- How many starts succeed, and how many waiters get what they wait on.
pub record Successes : Type 0 where
  pub starts : ℕ
  pub waiters : ℕ

abbrev nothing : Successes
nothing = record { starts = 0; waiters = 0 }

abbrev started : Option Refusal → Successes → Successes
started refusal s = record s { starts = succeeded refusal + s.starts }

abbrev waited : ℕ → Successes → Successes
waited n s = record s { waiters = n + s.waiters }

abbrev pub client_run : List Operation → CompositeSocketClient → Successes
client_run [] self = nothing
client_run (spawn_processor ∷ more) self = client_run more (Client.spawn_processor self)
client_run (start_multi_protocol opened ∷ more) self =
    let (refusal, self') = Client.start_multi_protocol opened self in
    started refusal (client_run more self')
client_run (termination_waiter ∷ more) self =
    let (waiter, self') = Client.termination_waiter self in
    waited (one waiter.has_receiver) (client_run more self')

abbrev unless_panic : {S : Type 0} → (S → Successes) → Eval S → Successes
unless_panic run panic = nothing
unless_panic run (done self) = run self

abbrev pub server_run : List Operation → CompositeSocketServer ℕ → Successes
server_run [] self = nothing
server_run (spawn_processor ∷ more) self =
    unless_panic (server_run more) (Server.spawn_processor 0 self)
server_run (start_multi_protocol opened ∷ more) self =
    let (refusal, self') = Server.start_multi_protocol opened self in
    started refusal (server_run more self')
server_run (termination_waiter ∷ more) self =
    let (receivers, self') = Server.termination_waiter self in
    waited (has receivers) (server_run more self')

taken : (b : Bool) (n : ℕ) → n ≤ 0 → succeeded (if b then none else some started_before) + n ≤ one b
taken true n h = omega arith
taken false n h = omega arith

client_once :
    (operations : List Operation) (self : CompositeSocketClient)
    → ((client_run operations self).starts ≤ one self.has_returned_connection_source)
      × ((client_run operations self).waiters ≤ one self.has_local_termination_receiver)
unfolding Client.spawn_processor Client.start_multi_protocol Client.termination_waiter
client_once [] self = (omega arith, omega arith)
client_once (spawn_processor ∷ more) self = client_once more (Client.spawn_processor self)
client_once (start_multi_protocol false ∷ more) self =
    let (s, w) = client_once more self in (omega (arith, s), w)
client_once (start_multi_protocol true ∷ more) self =
    let (s, w) = client_once more (record self { has_returned_connection_source = false }) in
    (taken self.has_returned_connection_source _ s, w)
client_once (termination_waiter ∷ more) self =
    let (s, w) = client_once more (record self { has_local_termination_receiver = false }) in
    (s, omega (arith, w))

server_spawn_once :
    (more : List Operation) (self : CompositeSocketServer ℕ) (receivers : Option (List ℕ))
    → ((self' : CompositeSocketServer ℕ)
        → ((server_run more self').starts ≤ one self'.has_returned_connections_source)
          × ((server_run more self').waiters ≤ has self'.processor_termination_complete_receivers))
    → let run = unless_panic (server_run more) (Server.push_receiver receivers 0 self) in
      (run.starts ≤ one self.has_returned_connections_source) × (run.waiters ≤ has receivers)
unfolding Server.push_receiver
server_spawn_once more self none h = (omega arith, omega arith)
server_spawn_once more self (some receivers) h =
    h (record self { processor_termination_complete_receivers = some (receivers ++ 0 ∷ []) })

server_once :
    (operations : List Operation) (self : CompositeSocketServer ℕ)
    → ((server_run operations self).starts ≤ one self.has_returned_connections_source)
      × ((server_run operations self).waiters ≤ has self.processor_termination_complete_receivers)
unfolding Server.spawn_processor Server.start_multi_protocol Server.termination_waiter
server_once [] self = (omega arith, omega arith)
server_once (spawn_processor ∷ more) self =
    server_spawn_once more self self.processor_termination_complete_receivers (server_once more)
server_once (start_multi_protocol false ∷ more) self =
    let (s, w) = server_once more self in (omega (arith, s), w)
server_once (start_multi_protocol true ∷ more) self =
    let (s, w) =
      server_once more
        (record self { has_connection_provider = true; has_returned_connections_source = false }) in
    (taken self.has_returned_connections_source _ s, w)
server_once (termination_waiter ∷ more) self =
    let (s, w) =
      server_once more (record self { processor_termination_complete_receivers = none }) in
    (s, omega (arith, w))

-- Whatever the operations on a new client or a new server, and in whatever order, it is started with
-- success at most once, and at most one waiter has something to wait on: the others fail.
pub services_once :
    (operations : List Operation)
    → ((client_run operations Client.new).starts ≤ 1)
      × ((client_run operations Client.new).waiters ≤ 1)
      × ((server_run operations Server.new).starts ≤ 1)
      × ((server_run operations Server.new).waiters ≤ 1)
unfolding Client.new Server.new
services_once operations =
    let (cs, cw) = client_once operations Client.new in
    let (ss, sw) = server_once operations Server.new in (cs, cw, ss, sw)
