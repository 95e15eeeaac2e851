-- ===== src/Prod/Handler/Returns.antt =====
-- The loop of crates/lichtung-prod/src/system.rs comes back to its mailbox.
use lichtung.Prelude.{
  ℕ, List, [], Option, none, some, Bool, true, false, ◌≡◌, ◌≢◌, ◌==◌, refl, get_elem?, set, ap, ◌∙◌,
  inl, inr, Bool-cases, if◌then◌else◌,
}
use lichtung.Core.{Action}
use lichtung.Core.Event.{Envelope}
use lichtung.Prod.{
  SharedRuntime, sub_in_flight, Task, Phase, created, waiting, finished, ended, received, running,
  numbered, logged, counted, refused, finished_last, refused_last, deliver,
}
use lichtung.Prod.System.{System, step_task, step_at, advance, finish_send, dispatch_message}
use lichtung.Prod.Recorded.Deliver.{deliver-Delivered}
use lichtung.Prod.Handler.{Alone, stop, Alone-trans, get_elem?-set_self}
use lichtung.Prod.Handler.Operations.{step_is, first}
use lichtung.Prod.Handler.Sends.{Got-same}
use lichtung.Prod.Handler.Calls.{handler_refines}

module _ {A P : Type 0} where
  -- By its own operations the loop of task `i` comes to the call of `recv`.
  pub record Returns (i : ℕ) (s : System A P) : Type 0 where
    pub after : System A P
    pub task : Task A P
    pub alone : Alone i s after
    pub there : get_elem? after.tasks i ≡ some task
    pub phase : task.phase ≡ waiting

  -- Some operations first.
  after_some : {i : ℕ} {s s' : System A P} → Alone i s s' → Returns i s' → Returns i s
  after_some {i} a r = record {
    after = r.after;
    task = r.task;
    alone = Alone-trans i a r.alone;
    there = r.there;
    phase = r.phase;
  }

-- A task that is found at the phase returns.
abbrev AllReturn : (A P : Type 0) → ℕ → Phase P → Type 0
AllReturn A P i p =
    (s : System A P) (t : Task A P) → get_elem? s.tasks i ≡ some t → t.phase ≡ p → Returns i s

module _ {A P : Type 0} where
  module _ (i : ℕ) where
    -- An operation that is no delivery.
    onward :
        (p q : Phase P) (s : System A P) (t t' : Task A P) (shared : SharedRuntime)
        → get_elem? s.tasks i ≡ some t
        → t.phase ≡ p
        → step_at i t p s ≡ record s { tasks = set s.tasks i t'; shared = shared }
        → t'.phase ≡ q
        → AllReturn A P i q
        → Returns i s
    onward p q s t t' shared at e m e' returns =
        after_some (first (step_is i t s p at e ∙ m) stop) (
          returns (record s { tasks = set s.tasks i t'; shared = shared }) t'
            (get_elem?-set_self s.tasks i t t' at) e')

    waiting_returns : AllReturn A P i waiting
    waiting_returns s t at e = record { after = s; task = t; alone = stop; there = at; phase = e }

    finished_last_returns : AllReturn A P i finished_last
    unfolding step_at advance
    finished_last_returns s t at e =
        onward finished_last waiting s t _ _ at e refl refl waiting_returns

    finished_returns : AllReturn A P i finished
    unfolding step_at advance sub_in_flight
    finished_returns s t at e = elim (Bool-cases (s.shared.in_flight == 1)) [
      | inl last ↦
          onward finished finished_last s t _ _ at e refl (ap choice last) finished_last_returns
      | inr more ↦ onward finished waiting s t _ _ at e refl (ap choice more) waiting_returns
    ]
      where
        choice : Bool → Phase P
        choice last = if last then finished_last else waiting

    handled_returns : (busy : Bool) → AllReturn A P i (running busy [])
    unfolding step_at advance
    handled_returns true s t at e =
        onward (running true []) finished s t _ _ at e refl refl finished_returns
    handled_returns false s t at e =
        onward (running false []) waiting s t _ _ at e refl refl waiting_returns

    running_returns : (busy : Bool) (calls : List (Action P)) → AllReturn A P i (running busy calls)
    running_returns busy calls s t at e =
        let r = handler_refines calls busy i t s at e in
        after_some r.alone (handled_returns busy r.after r.task r.there r.phase)

    created_returns : AllReturn A P i created
    unfolding step_at advance
    created_returns s t at e =
        onward created (running false _) s t _ _ at e refl refl (running_returns false _)

    received_returns : (env : Envelope P) → AllReturn A P i (received env)
    unfolding step_at advance dispatch_message
    received_returns env s t at e = elim (Bool-cases (t.actor.accepts t.state env.msg)) [
      | inl good ↦
          onward (received env) (running true _) s t _ _ at e refl (ap phase_of (ap choice good))
            (running_returns true _)
      | inr bad ↦
          onward (received env) finished s t _ _ at e refl (ap phase_of (ap choice bad))
            finished_returns
    ]
      where
        phase_of : Task A P → Phase P
        phase_of u = u.phase

        choice : Bool → Task A P
        choice b =
            if b
            then (let (state, calls) = t.actor.handle t.state env.msg in
                record t { state = state; phase = running true calls })
            else record t { phase = finished }

    refused_last_returns :
        (busy : Bool) (rest : List (Action P)) → AllReturn A P i (refused_last busy rest)
    unfolding step_at advance
    refused_last_returns busy rest s t at e =
        onward (refused_last busy rest) (running busy rest) s t _ _ at e refl refl
          (running_returns busy rest)

    refused_returns : (busy : Bool) (rest : List (Action P)) → AllReturn A P i (refused busy rest)
    unfolding step_at advance sub_in_flight
    refused_returns busy rest s t at e = elim (Bool-cases (s.shared.in_flight == 1)) [
      | inl last ↦
          onward (refused busy rest) (refused_last busy rest) s t _ _ at e refl (ap choice last)
            (refused_last_returns busy rest)
      | inr more ↦
          onward (refused busy rest) (running busy rest) s t _ _ at e refl (ap choice more)
            (running_returns busy rest)
    ]
      where
        choice : Bool → Phase P
        choice last = if last then refused_last busy rest else running busy rest

    counted_returns :
        (sink : ℕ) (env : Envelope P) (busy : Bool) (rest : List (Action P))
        → AllReturn A P i (counted sink env busy rest)
    unfolding step_at finish_send
    counted_returns sink env busy rest s t at e = cases (deliver sink env (set s.tasks i sent)) refl
      where
        sent : Task A P
        sent = record t { phase = running busy rest }

        answer : Option (List (Task A P)) → System A P
        answer r = elim r [
          | some tasks ↦ record s { tasks = tasks }
          | none ↦ record s { tasks = set s.tasks i (record t { phase = refused busy rest }) }
        ]

        moves :
            (r : Option (List (Task A P)))
            → deliver sink env (set s.tasks i sent) ≡ r
            → step_task s i ≡ answer r
        moves r q = step_is i t s (counted sink env busy rest) at e ∙ ap answer q

        cases :
            (r : Option (List (Task A P))) → deliver sink env (set s.tasks i sent) ≡ r → Returns i s
        cases none q = after_some (first (moves none q) stop) (
            refused_returns busy rest (answer none) (record t { phase = refused busy rest })
              (get_elem?-set_self s.tasks i t _ at) refl)
        cases (some tasks) q =
            let (u, there, got) =
              (deliver-Delivered sink env (set s.tasks i sent) tasks q).to i sent
                (get_elem?-set_self s.tasks i t sent at) in
            after_some (first (moves (some tasks) q) stop) (
              running_returns busy rest (answer (some tasks)) u there
                (Got-same env sent u (λ u. u.phase) refl got))

    logged_returns :
        (sink : ℕ) (env : Envelope P) (busy : Bool) (rest : List (Action P))
        → AllReturn A P i (logged sink env busy rest)
    unfolding step_at advance
    logged_returns sink env busy rest s t at e =
        onward (logged sink env busy rest) (counted sink env busy rest) s t _ _ at e refl refl
          (counted_returns sink env busy rest)

    numbered_returns :
        (sink : ℕ) (env : Envelope P) (busy : Bool) (rest : List (Action P))
        → AllReturn A P i (numbered sink env busy rest)
    unfolding step_at advance
    numbered_returns sink env busy rest s t at e =
        onward (numbered sink env busy rest) (logged sink env busy rest) s t _ _ at e refl refl
          (logged_returns sink env busy rest)

    phase_returns : (p : Phase P) → p ≢ ended → AllReturn A P i p
    phase_returns created ne = created_returns
    phase_returns waiting ne = waiting_returns
    phase_returns finished ne = finished_returns
    phase_returns finished_last ne = finished_last_returns
    phase_returns ended ne = absurd (ne refl)
    phase_returns (received env) ne = received_returns env
    phase_returns (running busy calls) ne = running_returns busy calls
    phase_returns (numbered sink env busy rest) ne = numbered_returns sink env busy rest
    phase_returns (logged sink env busy rest) ne = logged_returns sink env busy rest
    phase_returns (counted sink env busy rest) ne = counted_returns sink env busy rest
    phase_returns (refused busy rest) ne = refused_returns busy rest
    phase_returns (refused_last busy rest) ne = refused_last_returns busy rest

    -- No loop blocks outside `recv`: wherever a task that has not ended stands, in any state of the
    -- system, finitely many operations of its own loop bring it back to the call of `recv`.
    pub loop-Returns :
        (s : System A P) (t : Task A P)
        → get_elem? s.tasks i ≡ some t
        → t.phase ≢ ended
        → Returns i s
    loop-Returns s t at ne = phase_returns t.phase ne s t at refl
