-- ===== src/Prod/Weight.antt =====
-- What is in flight in crates/lichtung-prod: messages in mailboxes, and those that a loop handles or
-- sends.
use lichtung.Prelude.{
  ℕ, zero, suc, List, [], ◌∷◌, ◌++◌, Option, none, some, true, false, ◌+◌, ◌≡◌, ◌≤◌, ◌<◌, refl,
  arith, length, length-append, Bool-cases, inl, inr, ap, ◌⊎◌,
}
use lichtung.Prelude.Words.{u64_max}
use lichtung.Prelude.Counts.{one_if}
use lichtung.Prelude.Sums.{sum_by}
use lichtung.Core.{send_to, compute_step}
use lichtung.Core.Event.{Envelope}
use lichtung.Prod.{
  SharedRuntime, next_msg_id, record_event, inc_in_flight, sub_in_flight, notify_one, finished_last,
  refused_last, Phase, Task, deliver, created, waiting, finished, ended, received, running,
  numbered, logged, counted, refused, is_closed,
}
use lichtung.Prod.System.{
  System, Main, advance, receive, dispatch_message, begin_send, do_compute, origin_counted,
}

module _ {P : Type 0} where
  -- How many counted messages a loop holds: one that it handles, and one that it is sending.
  abbrev pub held : Phase P → ℕ
  held created = 0
  held waiting = 0
  held finished = 1
  held finished_last = 0
  held ended = 0
  held (received env) = 1
  held (running busy rest) = one_if busy
  held (numbered sink env busy rest) = one_if busy
  held (logged sink env busy rest) = one_if busy
  held (counted sink env busy rest) = suc (one_if busy)
  held (refused busy rest) = suc (one_if busy)
  held (refused_last busy rest) = one_if busy

  pub inbox_cases :
      (l : List (Envelope P))
      → (l ≡ []) ⊎ ((env : Envelope P) × (rest : List (Envelope P)) × (l ≡ env ∷ rest))
  inbox_cases [] = inl refl
  inbox_cases (env ∷ rest) = inr (env, rest, refl)

  abbrev pub held_by_main : Main P → ℕ
  held_by_main (origin_counted sink env) = 1
  held_by_main _ = 0

module _ {A P : Type 0} where
  abbrev pub weight : Task A P → ℕ
  weight t = length t.inbox + held t.phase

  abbrev pub total : List (Task A P) → ℕ
  total = sum_by weight

  -- The messages that are counted and not yet handled, and those that never will be.
  abbrev pub outstanding : System A P → ℕ
  outstanding s = total s.tasks + held_by_main s.main + s.lost

  -- The measure of the tasks is raised where there are tasks.
  unfoldable pub Raises : (Task A P → ℕ) → ℕ → List (Task A P) → Option (List (Task A P)) → Type 0
  Raises f k tasks none = Unit
  Raises f k tasks (some tasks') = sum_by f tasks' ≡ sum_by f tasks + k

  -- A delivery raises what a message in a mailbox raises.
  pub deliver-Raises :
      (f : Task A P → ℕ) (k sink : ℕ) (env : Envelope P) (tasks : List (Task A P))
      → ((t : Task A P) → f (record t { inbox = t.inbox ++ env ∷ [] }) ≡ f t + k)
      → Raises f k tasks (deliver sink env tasks)
  unfolding deliver sum_by Raises
  deliver-Raises f k sink env [] more = tt
  deliver-Raises f k zero env (t ∷ tasks) more = elim (Bool-cases (is_closed t.phase)) [
    | inl closed ↦ rw closed tt
    | inr opened ↦ rw opened (omega (arith, more t))
  ]
  deliver-Raises f k (suc sink) env (t ∷ tasks) more =
      behind (deliver sink env tasks) (deliver-Raises f k sink env tasks more)
    where
      behind :
          (r : Option (List (Task A P)))
          → Raises f k tasks r
          → Raises f k (t ∷ tasks) (elim r [ none ↦ none | some tasks' ↦ some (t ∷ tasks') ])
      behind none h = tt
      behind (some tasks') h = omega arith

  abbrev pub Grows : List (Task A P) → Option (List (Task A P)) → Type 0
  Grows = Raises weight 1

  -- A delivery puts one message into a mailbox.
  pub deliver-Grows :
      (sink : ℕ) (env : Envelope P) (tasks : List (Task A P)) → Grows tasks (deliver sink env tasks)
  deliver-Grows sink env tasks =
      deliver-Raises weight 1 sink env tasks (λ t. omega (arith, length-append t.inbox (env ∷ [])))

  weight-receive : (t : Task A P) → t.phase ≡ waiting → weight (receive t) ≡ weight t
  unfolding receive
  weight-receive t e = elim (inbox_cases t.inbox) [
    | inl none_ ↦ rw none_ refl
    | inr (env, rest, some_) ↦ rw (some_, e) (omega arith)
  ]

  weight-dispatch_message :
      (env : Envelope P) (t : Task A P)
      → t.phase ≡ received env
      → weight (dispatch_message env t) ≡ weight t
  unfolding dispatch_message
  weight-dispatch_message env t e = elim (Bool-cases (t.actor.accepts t.state env.msg)) [
    | inl good ↦ rw (good, e) refl
    | inr bad ↦ rw (bad, e) refl
  ]

  -- An operation of a loop moves the count and what the loop holds alike.
  pub advance_balance :
      (p : Phase P) (t : Task A P) (s : SharedRuntime)
      → t.phase ≡ p
      → weight t ≤ s.in_flight
      → s.in_flight < u64_max
      → (advance p t s).1.in_flight + weight t ≡ s.in_flight + weight (advance p t s).0
  unfolding advance receive dispatch_message begin_send do_compute inc_in_flight sub_in_flight
      notify_one record_event next_msg_id
  advance_balance created t s e h b = rw e (omega arith)
  advance_balance waiting t s e h b = omega (arith, weight-receive t e)
  advance_balance finished t s e h b = ground (arith, ap held e)
  advance_balance finished_last t s e h b = rw e (omega arith)
  advance_balance ended t s e h b = omega arith
  advance_balance (received env) t s e h b = omega (arith, weight-dispatch_message env t e)
  advance_balance (running busy (send_to to msg ∷ rest)) t s e h b = rw e (omega arith)
  advance_balance (running busy (compute_step ∷ rest)) t s e h b = rw e (omega arith)
  advance_balance (running true []) t s e h b = rw e (omega arith)
  advance_balance (running false []) t s e h b = rw e (omega arith)
  advance_balance (numbered sink env busy rest) t s e h b = rw e (omega arith)
  advance_balance (logged sink env busy rest) t s e h b = rw e (omega arith)
  advance_balance (counted sink env busy rest) t s e h b = omega arith
  advance_balance (refused busy rest) t s e h b = ground (arith, ap held e)
  advance_balance (refused_last busy rest) t s e h b = rw e (omega arith)
