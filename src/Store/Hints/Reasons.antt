-- ===== src/Store/Hints/Reasons.antt =====
-- Which hints a vote account gets.
use delegation_strategy.Prelude.{
  ℕ, ◌≡◌, sym, subst, ap, ◌∙◌, String, Bool, true, ◌&&◌, ◌||◌, List, [], ◌∷◌, HashMap, get, update,
  get-update, or_default, contains, add, contains-add, string_discrete, any, ltb, holds,
  if◌then◌else◌, arith, F64,
}
use delegation_strategy.Store.Dto.Scores.{UnstakeHint}
use delegation_strategy.Store.Hints.{
  Hints, hint_discrete, mark, hints_of, is_low, max_allowed_commission,
}

-- The account has the hint.
abbrev pub has : UnstakeHint → String → Hints → Bool
has hint vote_account hints =
    contains hint_discrete hint (or_default [] (get string_discrete vote_account hints))

-- An entry of the account passes the test.
abbrev pub has_entry : {V : Type 0} → (V → Bool) → String → HashMap String V → Bool
has_entry p vote_account = any (λ e. holds (string_discrete e.0 vote_account) && p e.1)

has-update :
    (h hint : UnstakeHint) (v w : String) (hints : Hints)
    → has h v (update string_discrete w [] (add hint_discrete hint) hints)
      ≡ (has h v hints || (holds (string_discrete w v) && holds (hint_discrete hint h)))
has-update h hint v w hints = elim (string_discrete w v) [
  | yes e ↦ subst (λ i. goal i) (sym e) at
  | no n ↦ ground (arith, get-update string_discrete w v [] (add hint_discrete hint) hints)
]
  where
    goal : String → Type 0
    goal i =
        has h v (update string_discrete i [] (add hint_discrete hint) hints)
        ≡ (has h v hints || (holds (string_discrete i v) && holds (hint_discrete hint h)))

    at : goal v
    at = ground (
      arith,
      get-update string_discrete v v [] (add hint_discrete hint) hints,
      contains-add hint_discrete hint h (or_default [] (get string_discrete v hints)),
    )

has-mark :
    {V : Type 0} (p : V → Bool) (h hint : UnstakeHint) (v : String) (entries : HashMap String V)
    (hints : Hints)
    → has h v (mark p hint entries hints)
      ≡ (has h v hints || (holds (hint_discrete hint h) && has_entry p v entries))
unfolding mark
has-mark p h hint v [] hints = ground arith
has-mark p h hint v ((w, x) ∷ entries) hints =
    has-mark p h hint v entries
      (if p x then update string_discrete w [] (add hint_discrete hint) hints else hints)
    ∙ ground (arith, has-update h hint v w hints)

module _ (f64 : F64) where
  -- A vote account gets each hint for its own reason, and for no other: a commission above 10 in the
  -- epoch, one in the epoch before, a place on the blacklist, credits below half of the average.
  pub hints_of-reasons :
      (this previous : HashMap String ℕ) (blacklist : HashMap String (List String))
      (performances : HashMap String f64.Float) (v : String)
      → (has UnstakeHint.high_commission v (hints_of f64 this previous blacklist performances)
          ≡ has_entry (ltb max_allowed_commission) v this)
        × (has UnstakeHint.high_commission_in_previous_epoch v
              (hints_of f64 this previous blacklist performances)
            ≡ has_entry (ltb max_allowed_commission) v previous)
        × (has UnstakeHint.blacklist v (hints_of f64 this previous blacklist performances)
            ≡ has_entry (λ _. true) v blacklist)
        × (has UnstakeHint.low_credits v (hints_of f64 this previous blacklist performances)
            ≡ has_entry (is_low f64) v performances)
  unfolding hints_of hint_discrete get contains
  hints_of-reasons this previous blacklist performances v = (
    all_four UnstakeHint.high_commission ∙ ground arith,
    all_four UnstakeHint.high_commission_in_previous_epoch ∙ ground arith,
    all_four UnstakeHint.blacklist ∙ ground arith,
    all_four UnstakeHint.low_credits ∙ ground arith,
  )
    where
      high : Hints
      high = mark (ltb max_allowed_commission) UnstakeHint.high_commission this []

      before : Hints
      before =
          mark (ltb max_allowed_commission) UnstakeHint.high_commission_in_previous_epoch previous
            high

      listed : Hints
      listed = mark (λ _. true) UnstakeHint.blacklist blacklist before

      all_four :
          (h : UnstakeHint)
          → has h v (hints_of f64 this previous blacklist performances) ≡ (
              (((has h v []
                    || (holds (hint_discrete UnstakeHint.high_commission h)
                        && has_entry (ltb max_allowed_commission) v this))
                  || (holds (hint_discrete UnstakeHint.high_commission_in_previous_epoch h)
                      && has_entry (ltb max_allowed_commission) v previous))
                || (holds (hint_discrete UnstakeHint.blacklist h)
                    && has_entry (λ _. true) v blacklist))
              || (holds (hint_discrete UnstakeHint.low_credits h)
                  && has_entry (is_low f64) v performances))
      all_four h =
          has-mark (is_low f64) h UnstakeHint.low_credits v performances listed
          ∙ ap
              (λ b.
                b
                || (holds (hint_discrete UnstakeHint.low_credits h)
                    && has_entry (is_low f64) v performances))
              (has-mark (λ _. true) h UnstakeHint.blacklist v blacklist before
                ∙ ap
                    (λ b.
                      b
                      || (holds (hint_discrete UnstakeHint.blacklist h)
                          && has_entry (λ _. true) v blacklist))
                    (has-mark (ltb max_allowed_commission) h
                        UnstakeHint.high_commission_in_previous_epoch v previous high
                      ∙ ap
                          (λ b.
                            b
                            || (holds
                                  (hint_discrete UnstakeHint.high_commission_in_previous_epoch h)
                                && has_entry (ltb max_allowed_commission) v previous))
                          (has-mark (ltb max_allowed_commission) h UnstakeHint.high_commission v
                            this [])))
