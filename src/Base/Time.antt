-- ===== src/Base/Time.antt =====
-- `time.Time` as nanoseconds since the zero time, and `Time.Sub`, which saturates at 64 bits.
use Prim.Native.Nat.{ℕ, ◌^◌}
use adaptive_api_routing_gat.Base.Tests.{ltb, ◌==◌, if◌then◌else◌}
use mathlib.Core.Bool.{Bool}
use adaptive_api_routing_gat.Base.Int.{ℤ, pos, negsuc, pos_part, neg_part, sub_ℕ, max_int}

abbrev pub Time : Type 0
Time = ℕ

-- `t.IsZero()`
abbrev pub is_zero : Time → Bool
is_zero t = t == 0

abbrev pub saturate : ℤ → ℤ
saturate z =
    if ltb max_int (pos_part z)
    then pos max_int
    else if ltb (2 ^ 63) (neg_part z)
    then negsuc max_int
    else z

-- `now.Sub(t)`, and `time.Since(t)` at the time `now`.
unfoldable pub since : Time → Time → ℤ
since now t = saturate (sub_ℕ now t)

abbrev pub second : ℕ
second = 1_000_000_000
