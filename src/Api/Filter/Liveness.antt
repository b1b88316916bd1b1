-- ===== src/Api/Filter/Liveness.antt =====
-- What every listed validator has: the first `retain`, read off the result.
use delegation_strategy.Prelude.{ℕ, ◌≡◌, String, Bool, true, F64}
use delegation_strategy.Store.Ranks.{Validators}
use delegation_strategy.Store.Dto.Validators.{ValidatorRecord}
use delegation_strategy.Api.Filter.{has_stats, has_credits_or_stake}

module _ (f64 : F64) (to_lowercase : String → String) (str_contains : String → String → Bool) where
  -- Statistics of an epoch, and of one with stake or credits.
  abbrev pub IsListedIn : ℕ → ValidatorRecord f64.Float → Type 0
  IsListedIn epoch v =
      (has_stats f64 to_lowercase str_contains v epoch ≡ true)
      × (has_credits_or_stake f64 to_lowercase str_contains v epoch ≡ true)
