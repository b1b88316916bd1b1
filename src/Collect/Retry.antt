-- ===== src/Collect/Retry.antt =====
-- collect/src/common.rs: `retry_blocking` and `QuadraticBackoffStrategy`. The call is a closure with
-- effects: `make_call n` is what its n-th invocation returns, counted from 0. The result comes with
-- what was passed to `on_error` and slept: the error, the attempt's number and the backoff in seconds.
pub mod Outcomes
use delegation_strategy.Prelude.{ℕ, suc, ◌+◌, mul_u64, List, [], ◌∷◌, map}
use delegation_strategy.Store.Query.{Result, ok, err}

pub record Failure (E : Type 0) : Type 0 where
  pub error : E
  pub attempt : ℕ
  pub backoff : ℕ

module _ {E A : Type 0} (make_call : ℕ → Result E A) where
  -- The loop, from the attempt with index `attempt_index` on.
  pub retry_from : ℕ → List ℕ → Result E A × List (Failure E)
  retry_from attempt_index [] = (make_call attempt_index, [])
  retry_from attempt_index (backoff ∷ backoffs) =
      let (result, failures) = retry_from (attempt_index + 1) backoffs in
      elim (make_call attempt_index) [
        | ok value ↦ (ok value, [])
        | err e ↦ (
          result,
          record { error = e; attempt = attempt_index + 1; backoff = backoff } ∷ failures,
        )
      ]

  unfoldable pub retry_blocking : List ℕ → Result E A × List (Failure E)
  unfolding retry_from
  retry_blocking backoff_strategy = retry_from 0 backoff_strategy

-- The numbers from `first` on, `n` of them.
abbrev pub count_from : ℕ → ℕ → List ℕ
count_from first ℕ.zero = []
count_from first (ℕ.suc n) = first ∷ count_from (suc first) n

unfoldable pub iter_durations : ℕ → List ℕ
iter_durations max_attempts = map (λ attempt. mul_u64 attempt attempt) (count_from 1 max_attempts)
