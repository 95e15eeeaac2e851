-- ===== src/Prod/System.antt =====
-- crates/lichtung-prod/src/system.rs: the actors' loops and the main thread, interleaved at their
-- operations on the shared runtime and on the mailboxes.
use lichtung.Prelude.{
  ℕ, String, List, [], ◌∷◌, ◌++◌, none, some, Bool, true, false, ◌+◌, ◌%◌, ◌==◌, ◌≡◌, length,
  get_elem?, set, if◌then◌else◌,
}
use lichtung.Prelude.Words.{u64_mod}
use lichtung.Prelude.Counts.{one_if}
use lichtung.Clock.{new, start, increment, merge, tick, update}
use lichtung.Core.{Actor, Action, send_to, compute_step, Addr}
use lichtung.Core.Event.{Envelope, emit_event, recv_event, compute_event}
use lichtung.Prod.{
  SharedRuntime, new_runtime, next_msg_id, record_event, inc_in_flight, sub_in_flight, notify_one,
  Phase, Task, deliver, created, waiting, finished, ended, received, running, numbered, logged,
  counted, refused, finished_last, refused_last,
}

module _ {A P : Type 0} where
  -- `rx.recv()` and the stamps of the receipt.
  unfoldable pub receive : Task A P → Task A P
  receive t = elim t.inbox [
    | [] ↦ t
    | env ∷ rest ↦
        let (lamport, lam) = update t.lamport env.lamport in
        record t {
          inbox = rest;
          clock = increment (merge t.clock env.vclock) t.id;
          lamport = lamport;
          seq = (t.seq + 1) % u64_mod;
          phase = received env;
        }
  ]

  -- `downcast`, and the call of `handle`.
  unfoldable pub dispatch_message : Envelope P → Task A P → Task A P
  dispatch_message env t =
      if t.actor.accepts t.state env.msg
      then (let (state, calls) = t.actor.handle t.state env.msg in
          record t { state = state; phase = running true calls })
      else record t { phase = finished }

  -- `Context::send`, up to the number of the message.
  unfoldable pub begin_send :
      Addr → P → Bool → List (Action P) → Task A P → SharedRuntime → Task A P × SharedRuntime
  begin_send to msg busy rest t s =
      let clock = increment t.clock t.id in
      let (lamport, lam) = tick t.lamport in
      let (s', msg_id) = next_msg_id s in
      let env : Envelope P = record {
        msg = msg;
        vclock = clock;
        lamport = record { value = lam };
        msg_id = msg_id;
        src = t.id;
        dst = to.id;
      } in
      (
        record t {
          clock = clock;
          lamport = lamport;
          seq = (t.seq + 1) % u64_mod;
          phase = numbered to.sink env busy rest;
        },
        s',
      )

  -- `Context::compute`
  unfoldable pub do_compute :
      Bool → List (Action P) → Task A P → SharedRuntime → Task A P × SharedRuntime
  do_compute busy rest t s =
      let clock = increment t.clock t.id in
      let (lamport, lam) = tick t.lamport in
      let seq = (t.seq + 1) % u64_mod in
      (
        record t { clock = clock; lamport = lamport; seq = seq; phase = running busy rest },
        record_event (compute_event t.id seq clock lam) s,
      )

  -- The next operation of a loop that stands at the phase, but for a delivery.
  unfoldable pub advance : Phase P → Task A P → SharedRuntime → Task A P × SharedRuntime
  unfolding receive dispatch_message begin_send do_compute
  advance created t s =
      let (state, calls) = t.actor.started t.state in
      (record t { state = state; phase = running false calls }, s)
  advance waiting t s = (receive t, s)
  advance (received env) t s =
      (dispatch_message env t, record_event (recv_event t.id t.seq t.clock t.lamport.value env) s)
  advance (running busy (send_to to msg ∷ rest)) t s = begin_send to msg busy rest t s
  advance (running busy (compute_step ∷ rest)) t s = do_compute busy rest t s
  advance (running true []) t s = (record t { phase = finished }, s)
  advance (running false []) t s = (record t { phase = waiting }, s)
  advance (numbered sink env busy rest) t s =
      (record t { phase = logged sink env busy rest }, record_event (emit_event t.id t.seq env) s)
  advance (logged sink env busy rest) t s =
      (record t { phase = counted sink env busy rest }, inc_in_flight s)
  advance (counted sink env busy rest) t s = (t, s)
  advance (refused busy rest) t s =
      let (s', last) = sub_in_flight s in
      (record t { phase = if last then refused_last busy rest else running busy rest }, s')
  advance (refused_last busy rest) t s = (record t { phase = running busy rest }, notify_one s)
  advance finished t s =
      let (s', last) = sub_in_flight s in
      (record t { phase = if last then finished_last else waiting }, s')
  advance finished_last t s = (record t { phase = waiting }, notify_one s)
  advance ended t s = (t, s)

-- The main thread between its operations: in `send_external`, and in the loop of
-- `run_until_quiescent`.
pub data Main (P : Type 0) : Type 0 where
  ready checking sleeping quiescent : Main P
  origin_numbered origin_logged origin_counted : ℕ → Envelope P → Main P

-- `lost` is a history variable: the messages that were counted and will not be handled.
pub record System (A P : Type 0) : Type 0 where
  pub shared : SharedRuntime
  pub tasks : List (Task A P)
  pub main : Main P
  pub lost : ℕ

module _ {A P : Type 0} where
  -- `System::new`
  abbrev pub new_system : System A P
  new_system = record { shared = new_runtime; tasks = []; main = ready; lost = 0 }

  -- The delivery of task `i`, which stands at `counted`.
  unfoldable pub finish_send :
      ℕ → Task A P → ℕ → Envelope P → Bool → List (Action P) → System A P → System A P
  finish_send i t sink env busy rest s =
      elim (deliver sink env (set s.tasks i (record t { phase = running busy rest }))) [
        | some tasks ↦ record s { tasks = tasks }
        | none ↦ record s { tasks = set s.tasks i (record t { phase = refused busy rest }) }
      ]

  unfoldable pub step_at : ℕ → Task A P → Phase P → System A P → System A P
  unfolding finish_send advance
  step_at i t (counted sink env busy rest) s = finish_send i t sink env busy rest s
  step_at i t phase s =
      let (t', shared) = advance phase t s.shared in
      record s { tasks = set s.tasks i t'; shared = shared }

  -- A step of the task with number `i`.
  unfoldable pub step_task : System A P → ℕ → System A P
  unfolding step_at
  step_task s i = elim (get_elem? s.tasks i) [ none ↦ s | some t ↦ step_at i t t.phase s ]

  unfoldable pub panic_at : ℕ → Task A P → Phase P → System A P → System A P
  panic_at i t (running busy rest) s = record s {
    tasks = set s.tasks i (record t { inbox = []; phase = ended });
    lost = s.lost + length t.inbox + one_if busy;
  }
  panic_at i t phase s = s

  -- A panic of the actor with number `i`: it unwinds the task, and drops the mailbox.
  unfoldable pub panic : System A P → ℕ → System A P
  unfolding panic_at
  panic s i = elim (get_elem? s.tasks i) [ none ↦ s | some t ↦ panic_at i t t.phase s ]

  unfoldable pub abort_at : ℕ → Task A P → Phase P → System A P → System A P
  abort_at i t created s = record s {
    tasks = set s.tasks i (record t { inbox = []; phase = ended });
    lost = s.lost + length t.inbox;
  }
  abort_at i t waiting s = record s {
    tasks = set s.tasks i (record t { inbox = []; phase = ended });
    lost = s.lost + length t.inbox;
  }
  abort_at i t phase s = s

  -- `abort` takes effect where the loop with number `i` awaits, or before it is first run.
  unfoldable pub abort : System A P → ℕ → System A P
  unfolding abort_at
  abort s i = elim (get_elem? s.tasks i) [ none ↦ s | some t ↦ abort_at i t t.phase s ]

  abbrev pub spawned : String → Actor A P → A → Task A P
  spawned name actor state = record {
    id = name;
    actor = actor;
    state = state;
    clock = new;
    lamport = start;
    seq = 0;
    inbox = [];
    phase = created;
  }

  -- `System::spawn`; the address has the number of tasks so far as its sink.
  unfoldable pub spawn : String → Actor A P → A → System A P → System A P
  spawn name actor state s = record s { tasks = s.tasks ++ spawned name actor state ∷ [] }

  -- `System::send_external`, up to the number of the message.
  unfoldable pub send_external : Addr → P → System A P → System A P
  send_external to msg s =
      let (shared, msg_id) = next_msg_id s.shared in
      let env : Envelope P = record {
        msg = msg;
        vclock = increment new "world";
        lamport = record { value = 1 };
        msg_id = msg_id;
        src = "world";
        dst = to.id;
      } in
      record s { shared = shared; main = origin_numbered to.sink env }

  unfoldable pub step_main_at : Main P → System A P → System A P
  step_main_at ready s = s
  step_main_at (origin_numbered sink env) s = record s {
    shared = record_event (emit_event "world" 1 env) s.shared;
    main = origin_logged sink env;
  }
  step_main_at (origin_logged sink env) s = record s {
    shared = inc_in_flight s.shared;
    main = origin_counted sink env;
  }
  step_main_at (origin_counted sink env) s = elim (deliver sink env s.tasks) [
    | some tasks ↦ record s { tasks = tasks; main = ready }
    | none ↦ record s { main = ready; lost = s.lost + 1 }
  ]
  step_main_at checking s = record s {
    main = if s.shared.in_flight == 0 then quiescent else sleeping;
  }
  step_main_at sleeping s =
      if s.shared.permit
      then record s { shared = record s.shared { permit = false }; main = checking }
      else s
  step_main_at quiescent s = s

  -- The next operation of the main thread inside a call.
  unfoldable pub step_main : System A P → System A P
  unfolding step_main_at
  step_main s = step_main_at s.main s

  -- One operation of some thread. Between its calls the main thread chooses the next. Behind the loop
  -- of `run_until_quiescent` it aborts the tasks.
  pub data Step (s : System A P) : System A P → Type 0 where
    task : (i : ℕ) → Step s (step_task s i)
    panics : (i : ℕ) → Step s (panic s i)
    main : Step s (step_main s)
    aborts : (i : ℕ) → s.main ≡ quiescent → Step s (abort s i)
    spawns :
        (name : String) (actor : Actor A P) (state : A)
        → s.main ≡ ready
        → Step s (spawn name actor state s)
    sends : (to : Addr) (msg : P) → s.main ≡ ready → Step s (send_external to msg s)
    runs : s.main ≡ ready → Step s (record s { main = checking })
