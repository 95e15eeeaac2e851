-- ===== src/Prelude/Words.antt =====
-- `u64`: the release build's wrap-around.
use Prim.Native.Nat.{ℕ, ◌-◌, ◌^◌}

abbrev pub u64_mod : ℕ
u64_mod = 2 ^ 64

abbrev pub u64_max : ℕ
u64_max = 2 ^ 64 - 1
