-- ===== src/Store/Dto/Scalars.antt =====
-- Scalars of the database and of chrono. A NUMERIC column of this program holds a number that came
-- from an unsigned integer, so a `Decimal` is a natural number here; a `DateTime` counts nanoseconds
-- from a fixed instant before all that is stored.
use delegation_strategy.Prelude.{ℕ, ◌*◌}

abbrev pub Decimal : Type 0
Decimal = ℕ

abbrev pub DateTime : Type 0
DateTime = ℕ

-- `Duration::minutes`.
unfoldable pub minutes : ℕ → ℕ
minutes n = n * 60_000_000_000
