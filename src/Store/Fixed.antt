-- ===== src/Store/Fixed.antt =====
-- store/src/utils.rs: `to_fixed` and `to_fixed_for_sort`.
use delegation_strategy.Prelude.{ℕ, F64}

module _ (f64 : F64) where
  abbrev pub to_fixed : f64.Float → ℕ → ℕ
  to_fixed a decimals = f64.round_u64 (f64.mul a (f64.powi (f64.of_nat 10) decimals))

  abbrev pub to_fixed_for_sort : f64.Float → ℕ
  to_fixed_for_sort a = to_fixed a 4
