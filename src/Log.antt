-- ===== src/Log.antt =====
-- crates/lichtung-log/src/lib.rs: the events of the causal log.
pub mod Lines
pub mod Equality
use lichtung.Prelude.{
  ℕ, String, List, [], ◌∷◌, Option, none, some, Bool, true, false, ◌+◌, ◌%◌, ◌/◌, ◌^◌, ◌&&◌, ◌||◌,
  not, str_eq, ◌==◌, if◌then◌else◌,
}
use lichtung.Map.{Map}

pub data Op : Type 0 where
  emit recv compute report drop : Op

-- `value` holds the 64 bits of an `f64`.
pub record CausalEvent : Type 0 where
  pub id : String
  pub actor : String
  pub seq : ℕ
  pub op : Op
  pub vclock : Map ℕ
  pub lamport : ℕ
  pub msg_id : Option String
  pub src : Option String
  pub dst : Option String
  pub value : Option ℕ
  pub payload_hash : Option String

unfoldable pub op_eq : Op → Op → Bool
op_eq emit emit = true
op_eq recv recv = true
op_eq compute compute = true
op_eq report report = true
op_eq drop drop = true
op_eq _ _ = false

unfoldable pub option_eq : {A : Type 0} → (A → A → Bool) → Option A → Option A → Bool
option_eq same none none = true
option_eq same (some a) (some b) = same a b
option_eq same _ _ = false

-- `==` of `BTreeMap<String, u64>`: the entries in order.
unfoldable pub map_eq : Map ℕ → Map ℕ → Bool
map_eq [] [] = true
map_eq ((k, v) ∷ m) ((j, w) ∷ n) = str_eq k j && (v == w) && map_eq m n
map_eq _ _ = false

-- `==` of `f64` on the bits: a NaN equals nothing, and the two zeros are equal.
abbrev pub is_nan : ℕ → Bool
is_nan bits = (bits / 2 ^ 52 % 2 ^ 11 == 2047) && not (bits % 2 ^ 52 == 0)

abbrev pub is_float_zero : ℕ → Bool
is_float_zero bits = bits % 2 ^ 63 == 0

unfoldable pub float_eq : ℕ → ℕ → Bool
float_eq a b = not (is_nan a || is_nan b) && ((a == b) || (is_float_zero a && is_float_zero b))

-- The derived `PartialEq`.
unfoldable pub event_eq : CausalEvent → CausalEvent → Bool
event_eq a b =
    str_eq a.id b.id
    && str_eq a.actor b.actor
    && (a.seq == b.seq)
    && op_eq a.op b.op
    && map_eq a.vclock b.vclock
    && (a.lamport == b.lamport)
    && option_eq str_eq a.msg_id b.msg_id
    && option_eq str_eq a.src b.src
    && option_eq str_eq a.dst b.dst
    && option_eq float_eq a.value b.value
    && option_eq str_eq a.payload_hash b.payload_hash
