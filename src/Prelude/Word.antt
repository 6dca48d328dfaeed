-- ===== src/Prelude/Word.antt =====
-- `uint64` and `int64`: plain numbers, whose operations wrap.
use Prim.Native.Nat.{ℕ, ◌+◌, ◌-◌, ◌%◌, ◌^◌, ◌<◌, ◌≤◌}
use mathlib.Core.Path.{◌≡◌}
use native.Mathlib.Omega.{arith}
use go_hop_exchange.Prelude.Tests.{ltb, if◌then◌else◌}
use go_hop_exchange.Prelude.Int.{ℤ, pos, pos_part, neg_part, sub_ℕ}

abbrev pub u64_mod : ℕ
u64_mod = 2 ^ 64

-- What a `uint64` keeps of a sum.
abbrev pub u64 : ℕ → ℕ
u64 n = n % u64_mod

-- `a - b` on `uint64`: below zero it wraps.
abbrev pub sub_u64 : ℕ → ℕ → ℕ
sub_u64 a b = (a + u64_mod - b) % u64_mod

-- `big.NewInt(int64(x))`, `abi.NewTokenAmount(int64(x))` for a `uint64` x.
abbrev pub from_int64 : ℕ → ℤ
from_int64 x = if ltb x (2 ^ 63) then pos x else sub_ℕ x u64_mod

-- `z.Uint64()`: the low 64 bits of the magnitude.
abbrev pub to_uint64 : ℤ → ℕ
to_uint64 z = (pos_part z + neg_part z) % u64_mod

pub u64_small : (n : ℕ) → n < u64_mod → u64 n ≡ n
u64_small n h = omega arith

pub sub_u64_le : (a b : ℕ) → b ≤ a → a < u64_mod → sub_u64 a b ≡ a - b
sub_u64_le a b h k = omega arith

pub from_int64_small : (x : ℕ) → x < 2 ^ 63 → from_int64 x ≡ pos x
from_int64_small x h = ground arith
