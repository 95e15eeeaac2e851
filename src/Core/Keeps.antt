-- ===== src/Core/Keeps.antt =====
-- What every operation of a backend keeps, the calls of a handler keep.
use lichtung.Prelude.{ℕ, List, [], ◌∷◌}
use lichtung.Log.{CausalEvent}
use lichtung.Core.{
  Context, Dispatch, Action, send_to, compute_step, perform, run_actions, send, compute,
}
use lichtung.Core.Event.{Envelope}

pub record Keeps {S P : Type 0} (d : Dispatch S P) (Good : S → Type 0) : Type 0 where
  pub numbering : (b : S) → Good b → Good (d.next_msg_id b).0
  pub recording : (e : CausalEvent) (b : S) → Good b → Good (d.record_event e b)
  pub delivering : (sink : ℕ) (env : Envelope P) (b : S) → Good b → Good (d.deliver sink env b)

module _ {S P : Type 0} (d : Dispatch S P) (Good : S → Type 0) (k : Keeps d Good) where
  perform_keeps : (c : Context S) (a : Action P) → Good c.backend → Good (perform d c a).backend
  unfolding perform send compute
  perform_keeps c (send_to to msg) g =
      k.delivering to.sink _ _ (k.recording _ _ (k.numbering c.backend g))
  perform_keeps c compute_step g = k.recording _ c.backend g

  pub run_actions_keeps :
      (c : Context S) (actions : List (Action P))
      → Good c.backend
      → Good (run_actions d c actions).backend
  unfolding run_actions
  run_actions_keeps c [] g = g
  run_actions_keeps c (a ∷ actions) g =
      run_actions_keeps (perform d c a) actions (perform_keeps c a g)
