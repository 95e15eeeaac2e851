-- ===== src/Prod.antt =====
-- crates/lichtung-prod: the production runtime. `A` is the type of the actors' states.
pub mod System
pub mod Weight
pub mod InFlight
mod Notify
mod Watch
pub mod Quiescence
pub mod Writer
pub mod Backend
pub mod Run
pub mod Recorded
pub mod Handler
use lichtung.Prelude.{
  ℕ, zero, suc, String, List, [], ◌∷◌, ◌++◌, Option, none, some, Bool, true, false, ◌+◌, ◌%◌, ◌-◌,
  ◌==◌, if◌then◌else◌,
}
use lichtung.Prelude.Words.{u64_mod, u64_max}
use lichtung.Clock.{VectorClock, Lamport}
use lichtung.Log.{CausalEvent}
use lichtung.Core.{Dispatch, Actor, Action}
use lichtung.Core.Event.{Envelope}

-- `SharedRuntime`. `permit` is what `Notify` stores of a `notify_one`. `events` is what was handed to
-- the sender of the channel: the log task receives it up to where it ends, and the rest is dropped.
pub record SharedRuntime : Type 0 where
  pub msg_id : ℕ
  pub in_flight : ℕ
  pub permit : Bool
  pub events : List CausalEvent

abbrev pub new_runtime : SharedRuntime
new_runtime = record { msg_id = 0; in_flight = 0; permit = false; events = [] }

-- `fetch_add(1) + 1`
unfoldable pub next_msg_id : SharedRuntime → SharedRuntime × ℕ
next_msg_id s = let n = (s.msg_id + 1) % u64_mod in (record s { msg_id = n }, n)

unfoldable pub record_event : CausalEvent → SharedRuntime → SharedRuntime
record_event ev s = record s { events = s.events ++ ev ∷ [] }

unfoldable pub inc_in_flight : SharedRuntime → SharedRuntime
inc_in_flight s = record s { in_flight = (s.in_flight + 1) % u64_mod }

-- The `fetch_sub` of `dec_in_flight`, and whether the count was 1.
unfoldable pub sub_in_flight : SharedRuntime → SharedRuntime × Bool
sub_in_flight s = (record s { in_flight = (s.in_flight + u64_max) % u64_mod }, s.in_flight == 1)

unfoldable pub notify_one : SharedRuntime → SharedRuntime
notify_one s = record s { permit = true }

-- The whole of it, where no other thread comes between its two operations.
unfoldable pub dec_in_flight : SharedRuntime → SharedRuntime
unfolding sub_in_flight notify_one
dec_in_flight s = let (s', last) = sub_in_flight s in if last then notify_one s' else s'

-- Where an actor's loop stands. Each phase ends before the next operation on what tasks share. The
-- flag of the phases inside the handler says whether a message is handled, or `started` runs. At
-- `finished_last` and `refused_last` the loop stands inside `dec_in_flight`, before `notify_one`.
pub data Phase (P : Type 0) : Type 0 where
  created waiting finished finished_last ended : Phase P
  received : Envelope P → Phase P
  running : Bool → List (Action P) → Phase P
  numbered logged counted : ℕ → Envelope P → Bool → List (Action P) → Phase P
  refused refused_last : Bool → List (Action P) → Phase P

-- The variables of `actor_loop`, and the actor's mailbox.
pub record Task (A P : Type 0) : Type 0 where
  pub id : String
  pub actor : Actor A P
  pub state : A
  pub clock : VectorClock
  pub lamport : Lamport
  pub seq : ℕ
  pub inbox : List (Envelope P)
  pub phase : Phase P

-- The receiver of an ended task is dropped.
abbrev pub is_closed : {P : Type 0} → Phase P → Bool
is_closed ended = true
is_closed _ = false

-- `TokioTx::try_send` to the mailbox with number `sink`; `none` where it gives the envelope back.
unfoldable pub deliver :
    {A P : Type 0} → ℕ → Envelope P → List (Task A P) → Option (List (Task A P))
deliver sink env [] = none
deliver zero env (t ∷ tasks) =
    if is_closed t.phase then none else some (record t { inbox = t.inbox ++ env ∷ [] } ∷ tasks)
deliver (suc sink) env (t ∷ tasks) = elim (deliver sink env tasks) [
  | none ↦ none
  | some tasks' ↦ some (t ∷ tasks')
]

-- The whole of `ProdDispatch::deliver`.
unfoldable pub dispatch_deliver :
    {A P : Type 0}
    → ℕ
    → Envelope P
    → SharedRuntime × List (Task A P)
    → SharedRuntime × List (Task A P)
unfolding deliver inc_in_flight dec_in_flight
dispatch_deliver sink env (s, tasks) = elim (deliver sink env tasks) [
  | some tasks' ↦ (inc_in_flight s, tasks')
  | none ↦ (dec_in_flight (inc_in_flight s), tasks)
]

-- `impl Dispatch for ProdDispatch`
unfoldable pub prod_dispatch : {A P : Type 0} → Dispatch (SharedRuntime × List (Task A P)) P
unfolding next_msg_id record_event dispatch_deliver
prod_dispatch = record {
  next_msg_id = λ (s, tasks). let (s', n) = next_msg_id s in ((s', tasks), n);
  record_event = λ event (s, tasks). (record_event event s, tasks);
  deliver = dispatch_deliver;
}
