-- ===== src/Core/Event.antt =====
-- crates/lichtung-core/src/envelope.rs and event.rs: envelopes, and the events that the runtimes log.
use lichtung.Prelude.{ℕ, String, Option, none, some}
use lichtung.Prelude.Decimal.{show}
use Prim.Native.String.{◌++◌}
use lichtung.Clock.{VectorClock, Lamport, to_string_map}
use lichtung.Log.{CausalEvent, emit, recv, compute}

pub record Envelope (P : Type 0) : Type 0 where
  pub msg : P
  pub vclock : VectorClock
  pub lamport : Lamport
  pub msg_id : ℕ
  pub src : String
  pub dst : String

unfoldable pub id_of : String → ℕ → String
id_of actor seq = actor ++ ":" ++ show seq

unfoldable pub mid : ℕ → Option String
mid msg_id = some ("m" ++ show msg_id)

unfoldable pub emit_event : {P : Type 0} → String → ℕ → Envelope P → CausalEvent
emit_event actor seq env = record {
  id = id_of actor seq;
  actor = actor;
  seq = seq;
  op = emit;
  vclock = to_string_map env.vclock;
  lamport = env.lamport.value;
  msg_id = mid env.msg_id;
  src = some env.src;
  dst = some env.dst;
  value = none;
  payload_hash = none;
}

-- `clock` and `lamport` are the receiver's after the receipt.
unfoldable pub recv_event : {P : Type 0} → String → ℕ → VectorClock → ℕ → Envelope P → CausalEvent
recv_event actor seq clock lamport env = record {
  id = id_of actor seq;
  actor = actor;
  seq = seq;
  op = recv;
  vclock = to_string_map clock;
  lamport = lamport;
  msg_id = mid env.msg_id;
  src = some env.src;
  dst = some actor;
  value = none;
  payload_hash = none;
}

unfoldable pub compute_event : String → ℕ → VectorClock → ℕ → CausalEvent
compute_event actor seq clock lamport = record {
  id = id_of actor seq;
  actor = actor;
  seq = seq;
  op = compute;
  vclock = to_string_map clock;
  lamport = lamport;
  msg_id = none;
  src = none;
  dst = none;
  value = none;
  payload_hash = none;
}
