-- ===== src/Prelude/Floats.antt =====
-- The machine's `f64`, of which the program uses these operations. The language's floats have no
-- model here: what is proved holds for every choice of them.
use Prim.Native.Nat.{ℕ}
use mathlib.Core.Bool.{Bool}

pub record F64 : Type 1 where
  pub Float : Type 0
  pub of_nat : ℕ → Float
  pub add : Float → Float → Float
  pub sub : Float → Float → Float
  pub mul : Float → Float → Float
  pub div : Float → Float → Float
  pub powf : Float → Float → Float
  pub powi : Float → ℕ → Float
  pub lt : Float → Float → Bool
  pub is_nan : Float → Bool
  pub round_u64 : Float → ℕ
