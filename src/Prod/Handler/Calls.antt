-- ===== src/Prod/Handler/Calls.antt =====
-- The calls of a handler, `Context::send` and `Context::compute` of crates/lichtung-core/src/context.rs,
-- as the operations of a loop of crates/lichtung-prod.
use lichtung.Prelude.{ℕ, List, [], ◌∷◌, some, Bool, ◌≡◌, refl, get_elem?}
use lichtung.Core.{Action, send_to, compute_step, run_actions}
use lichtung.Prod.{Task, running, prod_dispatch}
use lichtung.Prod.System.{System}
use lichtung.Prod.Handler.{context, stop, Reaches, Reaches-trans}
use lichtung.Prod.Handler.Operations.{compute-Reaches}
use lichtung.Prod.Handler.Sends.{send-Reaches}

module _ {A P : Type 0} where
  -- A handler that no other thread interrupts does what the calls of `Context` do with the backend
  -- `ProdDispatch`: from the start of its calls, the operations of its loop alone come to their end, and
  -- leave the context and the backend that `run_actions` gives, with the same state of the actor. The
  -- main thread stands still and no message is lost.
  pub handler_refines :
      (calls : List (Action P)) (busy : Bool) (i : ℕ) (t : Task A P) (s : System A P)
      → get_elem? s.tasks i ≡ some t
      → t.phase ≡ running busy calls
      → Reaches i t s (running busy []) (run_actions prod_dispatch (context i t s) calls)
  unfolding run_actions
  handler_refines [] busy i t s at e = record {
    after = s;
    task = t;
    alone = stop;
    there = at;
    phase = e;
    state = refl;
    seen = refl;
    main = refl;
    lost = refl;
  }
  handler_refines (send_to to msg ∷ rest) busy i t s at e =
      let r = send-Reaches i t s at to msg busy rest e in
      Reaches-trans i t s (running busy rest) (running busy []) _ _ r
        (rw r.seen at (handler_refines rest busy i r.task r.after r.there r.phase))
  handler_refines (compute_step ∷ rest) busy i t s at e =
      let r = compute-Reaches i t s at busy rest e in
      Reaches-trans i t s (running busy rest) (running busy []) _ _ r
        (rw r.seen at (handler_refines rest busy i r.task r.after r.there r.phase))
