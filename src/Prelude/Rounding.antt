-- ===== src/Prelude/Rounding.antt =====
-- Python's rounding division.
use Prim.Native.Nat.{ℕ, ◌+◌, ◌*◌, ◌/◌, ◌%◌}
use localplaud.Prelude.Tests.{ltb, ◌==◌, if◌then◌else◌}

-- round(n / d), and a timedelta's division by a whole number: half to even.
unfoldable pub round_div : ℕ → ℕ → ℕ
round_div n d =
    let q = n / d in
    let twice = 2 * (n % d) in
    if ltb twice d then q else if ltb d twice then q + 1 else if q % 2 == 0 then q else q + 1
