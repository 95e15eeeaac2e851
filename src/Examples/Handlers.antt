-- ===== src/Examples/Handlers.antt =====
-- Loops of the production runtime that run by themselves.
use lichtung.Prelude.{ℕ, List, [], ◌∷◌, true, false, ◌≢◌, refl}
use lichtung.Core.{Actor, Action, Addr, send_to, compute_step, run_actions}
use lichtung.Prod.{Task, ended, running, prod_dispatch}
use lichtung.Prod.System.{System, new_system, spawned}
use lichtung.Prod.Handler.{Reaches, context}
use lichtung.Prod.Handler.Calls.{handler_refines}
use lichtung.Prod.Handler.Returns.{Returns, loop-Returns}

abbrev self_addr : Addr
self_addr = record { id = "a"; sink = 0 }

abbrev nobody : Addr
nobody = record { id = "b"; sink = 1 }

-- Calls to itself, to a mailbox that is closed, and of `compute`.
abbrev calls : List (Action ℕ)
calls = send_to self_addr 7 ∷ send_to nobody 8 ∷ compute_step ∷ []

abbrev starter : Actor ℕ ℕ
starter = record { started = λ a. (a, calls); accepts = λ a m. true; handle = λ a m. (m, []) }

abbrev starting : Task ℕ ℕ
starting = record (spawned "a" starter 0) { phase = running false calls }

abbrev system : System ℕ ℕ
system = record (new_system {A = ℕ} {P = ℕ}) { tasks = starting ∷ [] }

handler_refines_example :
    Reaches 0 starting system
      (running false [])
      (run_actions prod_dispatch (context 0 starting system) calls)
handler_refines_example = handler_refines calls false 0 starting system refl refl

not_ended : starting.phase ≢ ended
not_ended e = cc

loop-Returns_example : Returns 0 system
loop-Returns_example = loop-Returns 0 system starting refl not_ended
