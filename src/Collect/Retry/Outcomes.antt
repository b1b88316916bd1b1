-- ===== src/Collect/Retry/Outcomes.antt =====
-- How a retried call ends.
use delegation_strategy.Prelude.{
  ℕ, zero, suc, ◌+◌, ◌≤◌, ◌<◌, ◌≡◌, refl, ap, subst, List, [], ◌∷◌, map, arith, length, take,
}
use delegation_strategy.Store.Query.{Result, ok, err}
use delegation_strategy.Collect.Retry.{Failure, retry_from, retry_blocking}

module _ {E A : Type 0} (make_call : ℕ → Result E A) where
  -- Calls `from`, …, `from + n - 1` fail.
  abbrev pub Fail : ℕ → ℕ → Type 0
  Fail from n = (k : ℕ) → k < n → (e : E) × (make_call (from + k) ≡ err e)

  abbrev backoffs_of : List (Failure E) → List ℕ
  backoffs_of = map λ f. f.backoff

  fails_now : (from n : ℕ) → Fail from n → 0 < n → (e : E) × (make_call from ≡ err e)
  fails_now from n f lt = subst (λ i. (e : E) × (make_call i ≡ err e)) (omega arith) (f 0 lt)

  fails_later : (from n : ℕ) → Fail from (suc n) → Fail (from + 1) n
  fails_later from n f k lt =
      subst (λ i. (e : E) × (make_call i ≡ err e)) (omega arith) (f (suc k) (omega arith))

  retry_from-succeeds :
      (from n : ℕ) (bs : List ℕ) (value : A)
      → n ≤ length bs
      → Fail from n
      → make_call (from + n) ≡ ok value
      → ((retry_from make_call from bs).0 ≡ ok value)
        × (backoffs_of (retry_from make_call from bs).1 ≡ take n bs)
  unfolding retry_from
  retry_from-succeeds from zero [] value h f s =
      (subst (λ i. make_call i ≡ ok value) (omega arith) s, refl)
  retry_from-succeeds from zero (b ∷ bs) value h f s =
      let now : make_call from ≡ ok value = subst (λ i. make_call i ≡ ok value) (omega arith) s in
      rw (now, retry_from) (refl, refl)
  retry_from-succeeds from (suc n) [] value h f s = absurd (omega arith)
  retry_from-succeeds from (suc n) (b ∷ bs) value h f s =
      let now = fails_now from (suc n) f (omega arith) in
      let rest =
        retry_from-succeeds (from + 1) n bs value (omega arith) (fails_later from n f)
          (subst (λ i. make_call i ≡ ok value) (omega arith) s) in
      rw (now.1, retry_from) (rest.0, ap (λ l. b ∷ l) rest.1)

  retry_from-fails :
      (from : ℕ) (bs : List ℕ) (e : E)
      → Fail from (length bs)
      → make_call (from + length bs) ≡ err e
      → ((retry_from make_call from bs).0 ≡ err e)
        × (backoffs_of (retry_from make_call from bs).1 ≡ bs)
  unfolding retry_from
  retry_from-fails from [] e f s = (subst (λ i. make_call i ≡ err e) (omega arith) s, refl)
  retry_from-fails from (b ∷ bs) e f s =
      let now = fails_now from (suc (length bs)) f (omega arith) in
      let rest =
        retry_from-fails (from + 1) bs e (fails_later from (length bs) f)
          (subst (λ i. make_call i ≡ err e) (omega arith) s) in
      rw (now.1, retry_from) (rest.0, ap (λ l. b ∷ l) rest.1)

  -- A call that fails `n` times and then succeeds, with at least `n` backoffs in the strategy, gives
  -- its value, and the backoffs slept are the first `n` of the strategy.
  pub retry_blocking-succeeds :
      (strategy : List ℕ) (n : ℕ) (value : A)
      → n ≤ length strategy
      → Fail 0 n
      → make_call n ≡ ok value
      → ((retry_blocking make_call strategy).0 ≡ ok value)
        × (backoffs_of (retry_blocking make_call strategy).1 ≡ take n strategy)
  unfolding retry_blocking
  retry_blocking-succeeds strategy n value h f s =
      retry_from-succeeds 0 n strategy value h f
        (subst (λ i. make_call i ≡ ok value) (omega arith) s)

  -- A call that fails once for each backoff of the strategy and once more gives its last error, and
  -- every backoff of the strategy was slept.
  pub retry_blocking-fails :
      (strategy : List ℕ) (e : E)
      → Fail 0 (length strategy)
      → make_call (length strategy) ≡ err e
      → ((retry_blocking make_call strategy).0 ≡ err e)
        × (backoffs_of (retry_blocking make_call strategy).1 ≡ strategy)
  unfolding retry_blocking
  retry_blocking-fails strategy e f s =
      retry_from-fails 0 strategy e f (subst (λ i. make_call i ≡ err e) (omega arith) s)
