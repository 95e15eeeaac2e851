-- ===== src/Examples/Contexts.antt =====
-- A context over the production backend: the calls of one handler, and the names of events.
use lichtung.Prelude.{ℕ, String, List, [], ◌∷◌, ◌++◌, ◌≡◌, refl, arith}
use lichtung.Map.{lookup}
use lichtung.Clock.{new}
use lichtung.Log.{CausalEvent}
use lichtung.Core.{Context, Action, send_to, compute_step, run_actions}
use lichtung.Core.Names.{id_of_inj}
use lichtung.Prod.{SharedRuntime, Task, new_runtime, prod_dispatch}
use lichtung.Prod.Backend.{prod_logged}
use lichtung.Core.Stamps.{IsWorldLine, run_actions-IsWorldLine}

-- The production backend, with no task.
abbrev Backend : Type 0
Backend = SharedRuntime × List (Task ℕ ℕ)

abbrev fresh : Context Backend
fresh = record {
  id = "a";
  clock = new;
  lamport = record { value = 0 };
  seq = 0;
  backend = (new_runtime, []);
}

abbrev calls : List (Action ℕ)
calls = send_to (record { id = "b"; sink = 0 }) 42 ∷ compute_step ∷ []

run_actions-IsWorldLine_example :
    (es : List CausalEvent) × ((run_actions prod_dispatch fresh calls).backend.0.events ≡ [] ++ es)
    × IsWorldLine "a" 0 0 new calls es
unfolding lookup prod_logged
run_actions-IsWorldLine_example =
    run_actions-IsWorldLine prod_dispatch prod_logged fresh calls (omega arith) (omega arith)
      (omega arith)

abbrev name : String
name = "a:1"

abbrev seven : ℕ
seven = 7

id_of_inj_example : (name ≡ name) × (seven ≡ seven)
id_of_inj_example = id_of_inj name name seven seven (omega arith) (omega arith) refl
