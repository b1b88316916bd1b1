-- ===== src/Store/Hints.antt =====
-- store/src/scoring.rs: the unstake hints. The rows of the queries and of the blacklist are given, each
-- as the result of its load.
pub mod Reasons
use delegation_strategy.Prelude.{
  ℕ, refl, zero, suc, String, Bool, true, Option, none, some, List, [], ◌∷◌, map, filter_map,
  HashMap, get, insert, update, add, string_discrete, ltb, if◌then◌else◌, F64,
}
use delegation_strategy.Store.Query.{Result, ok, err}
use delegation_strategy.Store.Dto.Scores.{
  UnstakeHint, UnstakeHintRecord, GlobalUnstakeHintRecord, BlacklistRecord,
}

abbrev pub max_allowed_commission : ℕ
max_allowed_commission = 10

-- Hints have a decidable equality.
unfoldable pub hint_discrete : Discrete UnstakeHint
hint_discrete UnstakeHint.high_commission UnstakeHint.high_commission = yes refl
hint_discrete UnstakeHint.high_commission UnstakeHint.high_commission_in_previous_epoch =
    no (λ e. cc)
hint_discrete UnstakeHint.high_commission UnstakeHint.blacklist = no (λ e. cc)
hint_discrete UnstakeHint.high_commission UnstakeHint.low_credits = no (λ e. cc)
hint_discrete UnstakeHint.high_commission_in_previous_epoch UnstakeHint.high_commission =
    no (λ e. cc)
hint_discrete UnstakeHint.high_commission_in_previous_epoch
      UnstakeHint.high_commission_in_previous_epoch =
    yes refl
hint_discrete UnstakeHint.high_commission_in_previous_epoch UnstakeHint.blacklist = no (λ e. cc)
hint_discrete UnstakeHint.high_commission_in_previous_epoch UnstakeHint.low_credits = no (λ e. cc)
hint_discrete UnstakeHint.blacklist UnstakeHint.high_commission = no (λ e. cc)
hint_discrete UnstakeHint.blacklist UnstakeHint.high_commission_in_previous_epoch = no (λ e. cc)
hint_discrete UnstakeHint.blacklist UnstakeHint.blacklist = yes refl
hint_discrete UnstakeHint.blacklist UnstakeHint.low_credits = no (λ e. cc)
hint_discrete UnstakeHint.low_credits UnstakeHint.high_commission = no (λ e. cc)
hint_discrete UnstakeHint.low_credits UnstakeHint.high_commission_in_previous_epoch = no (λ e. cc)
hint_discrete UnstakeHint.low_credits UnstakeHint.blacklist = no (λ e. cc)
hint_discrete UnstakeHint.low_credits UnstakeHint.low_credits = yes refl

-- Commissions in a `u8`, by vote account: the rows of one epoch. `e` is the error of the conversion.
pub voter_max_commission :
    {E : Type 0} → E → List (String × ℕ) → HashMap String ℕ → Result E (HashMap String ℕ)
voter_max_commission e [] commissions = ok commissions
voter_max_commission e ((vote_account, commission) ∷ rows) commissions =
    let rest =
      voter_max_commission e rows (insert string_discrete vote_account commission commissions) in
    if ltb commission 256 then rest else err e

-- The fold of `load_blacklist`.
unfoldable pub blacklist_of :
    List BlacklistRecord → HashMap String (List String) → HashMap String (List String)
blacklist_of [] acc = acc
blacklist_of (r ∷ rs) acc =
    blacklist_of rs (update string_discrete r.vote_account [] (add string_discrete r.code) acc)

-- The hints of each vote account, as a set.
abbrev pub Hints : Type 0
Hints = HashMap String (List UnstakeHint)

-- One of the four loops: the hint for the entries that pass the test.
unfoldable pub mark : {V : Type 0} → (V → Bool) → UnstakeHint → HashMap String V → Hints → Hints
mark p hint [] hints = hints
mark p hint ((vote_account, v) ∷ entries) hints =
    mark p hint entries
      (if p v then update string_discrete vote_account [] (add hint_discrete hint) hints else hints)

-- What `load_unstake_hints` loads.
pub record HintLoads (Float E : Type 0) : Type 0 where
  pub commissions : ℕ → Result E (List (String × ℕ))
  pub conversion_error : E
  pub credits_performance : ℕ → Result E (HashMap String Float)
  pub blacklist : Result E (List BlacklistRecord)
  pub marinade_stake : ℕ → Result E (HashMap String Float)

infixl 5 ◌>>?◌
abbrev pub ◌>>?◌ : {E A B : Type 0} → Result E A → (A → Result E B) → Result E B
ok a >>? f = f a
err e >>? f = err e

module _ (f64 : F64) where
  -- `performance < 0.5`
  abbrev pub is_low : f64.Float → Bool
  is_low performance = f64.lt performance (f64.div (f64.of_nat 1) (f64.of_nat 2))

  -- The four loops.
  unfoldable pub hints_of :
      HashMap String ℕ
      → HashMap String ℕ
      → HashMap String (List String)
      → HashMap String f64.Float
      → Hints
  unfolding mark
  hints_of this previous blacklist performances =
      let high = mark (ltb max_allowed_commission) UnstakeHint.high_commission this [] in
      let before =
        mark (ltb max_allowed_commission) UnstakeHint.high_commission_in_previous_epoch previous
          high in
      let listed = mark (λ _. true) UnstakeHint.blacklist blacklist before in
      mark is_low UnstakeHint.low_credits performances listed

  abbrev pub hint_record : Hints → String × f64.Float → Option (UnstakeHintRecord f64.Float)
  hint_record hints (vote_account, marinade_stake) = elim (get string_discrete vote_account hints) [
    | none ↦ none
    | some of_account ↦ some (record {
      vote_account = vote_account;
      marinade_stake = marinade_stake;
      hints = of_account;
    })
  ]

module _ (f64 : F64) {E : Type 0} where
  abbrev pub voter_max_commission_in_epoch : HintLoads f64.Float E → ℕ → Result E (HashMap String ℕ)
  voter_max_commission_in_epoch loads epoch =
      loads.commissions epoch >>? λ rows. voter_max_commission loads.conversion_error rows []

  abbrev pub commissions_in_previous_epoch : HintLoads f64.Float E → ℕ → Result E (HashMap String ℕ)
  commissions_in_previous_epoch loads zero = ok []
  commissions_in_previous_epoch loads (suc epoch) = voter_max_commission_in_epoch loads epoch

  unfoldable pub load_unstake_hints : HintLoads f64.Float E → ℕ → Result E Hints
  unfolding hints_of voter_max_commission blacklist_of
  load_unstake_hints loads epoch = voter_max_commission_in_epoch loads epoch >>? λ this.
      (commissions_in_previous_epoch loads epoch >>? λ previous.
      (loads.credits_performance epoch >>? λ performances.
      (loads.blacklist >>? λ rows.
      ok (hints_of f64 this previous (blacklist_of rows []) performances))))

  unfoldable pub load_marinade_unstake_hint_records :
      HintLoads f64.Float E → ℕ → Result E (List (UnstakeHintRecord f64.Float))
  unfolding load_unstake_hints
  load_marinade_unstake_hint_records loads epoch = load_unstake_hints loads epoch >>? λ hints.
      (loads.marinade_stake epoch >>? λ staked. ok (filter_map (hint_record f64 hints) staked))

  unfoldable pub load_global_unstake_hint_records :
      HintLoads f64.Float E → ℕ → Result E (List GlobalUnstakeHintRecord)
  unfolding load_unstake_hints
  load_global_unstake_hint_records loads epoch = load_unstake_hints loads epoch >>? λ hints.
      ok (map (λ e. record { vote_account = e.0; hints = e.1 }) hints)
