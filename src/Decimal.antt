-- ===== src/Decimal.antt =====
-- Python's `float` and `Decimal`, and PostgreSQL's `NUMERIC(14,2)`.
-- A finite number is its decimal rendering: `above m k` is m / 10 ^ k, and `below m k` is its
-- negative. A `float` is its `repr`, which is how `Decimal(str(value))` reads it; since `repr`
-- rounds back to the float, it compares with a whole number as the float does.
use reimbursement_analyzer.Prelude.{
  ℕ, ◌+◌, ◌*◌, ◌/◌, ◌^◌, Bool, true, false, Option, none, some, ltb, leb, ◌==◌, if◌then◌else◌,
}

pub data Decimal : Type 0 where
  nan pos_inf neg_inf : Decimal
  above below : ℕ → ℕ → Decimal

-- `value <= n`
abbrev pub at_most : Decimal → ℕ → Bool
at_most nan n = false
at_most pos_inf n = false
at_most neg_inf n = true
at_most (above m k) n = leb m (n * 10 ^ k)
at_most (below m k) n = true

-- `value > n`
abbrev pub exceeds : Decimal → ℕ → Bool
exceeds nan n = false
exceeds pos_inf n = true
exceeds neg_inf n = false
exceeds (above m k) n = ltb (n * 10 ^ k) m
exceeds (below m k) n = false

-- `value >= 0`
abbrev pub nonneg : Decimal → Bool
nonneg nan = false
nonneg pos_inf = true
nonneg neg_inf = false
nonneg (above m k) = true
nonneg (below m k) = m == 0

-- The nearest number of hundredths, halves away from zero.
abbrev pub hundredths : ℕ → ℕ → ℕ
hundredths m k = (m * 200 + 10 ^ k) / (2 * 10 ^ k)

-- What a NUMERIC(14,2) column stores; `none` is a numeric overflow.
unfoldable pub to_numeric : Decimal → Option Decimal
to_numeric nan = some nan
to_numeric pos_inf = none
to_numeric neg_inf = none
to_numeric (above m k) =
    if ltb (hundredths m k) (10 ^ 14) then some (above (hundredths m k) 2) else none
to_numeric (below m k) =
    if ltb (hundredths m k) (10 ^ 14) then some (below (hundredths m k) 2) else none
