-- ===== src/Collect/Jito/Reading.antt =====
-- What is true of the entries of a collected snapshot, and of those that its readers pass on.
use delegation_strategy.Prelude.{
  ℕ, ◌≡◌, refl, sym, subst, ◌∙◌, String, Option, List, [], ◌∷◌, Bool-cases, inl, inr, if-true,
  if-false, HashMap, insert, All, All-insert, DistinctKeys, DistinctKeys-insert, ◌==◌,
  string_discrete,
}
use delegation_strategy.Store.Dto.Scalars.{DateTime}
use delegation_strategy.Store.Query.{Result, ok, and_then-eq-ok, ok_injective}
use delegation_strategy.Collect.Jito.{
  JitoAccountType, mev_tip_distribution, priority_fee_distribution, ValidatorSnapshot, of_mev,
  of_priority_fee, JitoSnapshot, MevTipDistributionValidatorSnapshot,
  PriorityFeeDistributionValidatorSnapshot, mev_validators_of, priority_fee_validators_of,
  mev_validators_for, priority_fee_validators_for, get_mev_validators, get_priority_fee_validators,
}
use delegation_strategy.Collect.Jito.Snapshot.{vote_account, epoch}
use delegation_strategy.Collect.Jito.Accounts.{
  Layout, Fetch, jito_accounts, deserialize, deserialize_accounts, deserialize_mev_tip_distribution,
  deserialize_priority_fee_distribution, collect_jito_info, mev_snapshot_of,
  priority_fee_snapshot_of,
}

-- An entry stands under its vote account, with the given epoch.
abbrev pub IsEntry : ℕ → String × ValidatorSnapshot → Type 0
IsEntry at e = (vote_account e.1 ≡ e.0) × (epoch e.1 ≡ at)

abbrev pub IsCollected : ℕ → HashMap String ValidatorSnapshot → Type 0
IsCollected at validators = DistinctKeys string_discrete validators × All (IsEntry at) validators

module _ {E Data : Type 0} (layout : Layout E Data) (at : ℕ)
    (entry : layout.Account → ValidatorSnapshot)
    (entry_ok : (a : layout.Account) → IsEntry at (layout.validator_vote_account a, entry a)) where
  deserialize_accounts-IsCollected :
      (accounts : List Data) (validators result : HashMap String ValidatorSnapshot)
      → IsCollected at validators
      → deserialize_accounts layout at entry accounts validators ≡ ok result
      → IsCollected at result
  unfolding deserialize_accounts
  deserialize_accounts-IsCollected [] validators result h e = subst (IsCollected at) (cc) h
  deserialize_accounts-IsCollected (d ∷ accounts) validators result h e =
      let later = λ (v : HashMap String ValidatorSnapshot).
        deserialize_accounts-IsCollected accounts v result in
      let (a, read, rest) = and_then-eq-ok (layout.try_deserialize d) _ result e in
      elim (Bool-cases (layout.epoch_created_at a == at)) [
        | inl t ↦
            later (insert string_discrete (layout.validator_vote_account a) (entry a) validators)
              (
                DistinctKeys-insert string_discrete _ (entry a) validators h.0,
                All-insert string_discrete (IsEntry at) _ (entry a) validators (entry_ok a) h.1,
              )
              (sym (if-true _ _ _ t) ∙ rest)
        | inr t ↦ later validators h (sym (if-false _ _ _ t) ∙ rest)
      ]

module _ {E Data : Type 0} (fetch : Fetch E Data) (tips fees : Layout E Data) where
  deserialize-IsCollected :
      (account_type : JitoAccountType) (at : ℕ) (accounts : List Data)
      (result : HashMap String ValidatorSnapshot)
      → deserialize tips fees account_type at accounts ≡ ok result
      → IsCollected at result
  unfolding deserialize_mev_tip_distribution deserialize_priority_fee_distribution
  deserialize-IsCollected mev_tip_distribution at accounts result =
      deserialize_accounts-IsCollected tips at (λ a. of_mev (mev_snapshot_of tips at a))
        (λ a. (refl, refl)) accounts [] result (tt, tt)
  deserialize-IsCollected priority_fee_distribution at accounts result =
      deserialize_accounts-IsCollected fees at
        (λ a. of_priority_fee (priority_fee_snapshot_of fees at a)) (λ a. (refl, refl)) accounts []
        result (tt, tt)

  -- In a collected snapshot the validators have distinct vote accounts, each stands under its own, and
  -- each has the snapshot's epoch; the snapshot is of the account type asked for.
  pub collect_jito_info-IsCollected :
      (override : Option ℕ) (created_at : DateTime) (epoch_info : Result E (ℕ × ℕ))
      (account_type : JitoAccountType) (snapshot : JitoSnapshot)
      → collect_jito_info fetch tips fees override created_at epoch_info account_type ≡ ok snapshot
      → (snapshot.account_type ≡ account_type) × IsCollected snapshot.epoch snapshot.validators
  unfolding collect_jito_info
  collect_jito_info-IsCollected override created_at epoch_info account_type snapshot e =
      let (current, _, e1) = and_then-eq-ok epoch_info _ snapshot e in
      let (accounts, _, e2) = and_then-eq-ok (jito_accounts fetch account_type _) _ snapshot e1 in
      let (validators, e3, e4) =
        and_then-eq-ok (deserialize tips fees account_type _ accounts) _ snapshot e2 in
      subst (λ s. (s.account_type ≡ account_type) × IsCollected s.epoch s.validators)
        (ok_injective (ok _) _ snapshot refl e4)
        (refl, deserialize-IsCollected account_type _ accounts validators e3)

module _ (at : ℕ) where
  abbrev pub IsMevEntry : String × MevTipDistributionValidatorSnapshot → Type 0
  IsMevEntry e = (e.1.vote_account ≡ e.0) × (e.1.epoch ≡ at)

  abbrev pub IsPriorityFeeEntry : String × PriorityFeeDistributionValidatorSnapshot → Type 0
  IsPriorityFeeEntry e = (e.1.vote_account ≡ e.0) × (e.1.epoch ≡ at)

  mev_validators_of-IsMevEntry :
      (validators : HashMap String ValidatorSnapshot)
      (result : HashMap String MevTipDistributionValidatorSnapshot)
      → All (IsEntry at) validators
      → DistinctKeys string_discrete result × All IsMevEntry result
      → DistinctKeys string_discrete (mev_validators_of validators result)
        × All IsMevEntry (mev_validators_of validators result)
  unfolding mev_validators_of
  mev_validators_of-IsMevEntry [] result h r = r
  mev_validators_of-IsMevEntry ((va, of_mev s) ∷ vs) result h r =
      mev_validators_of-IsMevEntry vs (insert string_discrete va s result) h.1 (
        DistinctKeys-insert string_discrete va s result r.0,
        All-insert string_discrete IsMevEntry va s result h.0 r.1,
      )
  mev_validators_of-IsMevEntry ((va, of_priority_fee s) ∷ vs) result h r =
      mev_validators_of-IsMevEntry vs result h.1 r

  priority_fee_validators_of-IsPriorityFeeEntry :
      (validators : HashMap String ValidatorSnapshot)
      (result : HashMap String PriorityFeeDistributionValidatorSnapshot)
      → All (IsEntry at) validators
      → DistinctKeys string_discrete result × All IsPriorityFeeEntry result
      → DistinctKeys string_discrete (priority_fee_validators_of validators result)
        × All IsPriorityFeeEntry (priority_fee_validators_of validators result)
  unfolding priority_fee_validators_of
  priority_fee_validators_of-IsPriorityFeeEntry [] result h r = r
  priority_fee_validators_of-IsPriorityFeeEntry ((va, of_priority_fee s) ∷ vs) result h r =
      priority_fee_validators_of-IsPriorityFeeEntry vs (insert string_discrete va s result) h.1 (
        DistinctKeys-insert string_discrete va s result r.0,
        All-insert string_discrete IsPriorityFeeEntry va s result h.0 r.1,
      )
  priority_fee_validators_of-IsPriorityFeeEntry ((va, of_mev s) ∷ vs) result h r =
      priority_fee_validators_of-IsPriorityFeeEntry vs result h.1 r

pub get_mev_validators-IsMevEntry :
    (s : JitoSnapshot)
    → All (IsEntry s.epoch) s.validators
    → DistinctKeys string_discrete (get_mev_validators s)
      × All (IsMevEntry s.epoch) (get_mev_validators s)
unfolding get_mev_validators
get_mev_validators-IsMevEntry s h = by_type s.account_type
  where
    by_type :
        (t : JitoAccountType)
        → DistinctKeys string_discrete (mev_validators_for t s.validators)
          × All (IsMevEntry s.epoch) (mev_validators_for t s.validators)
    by_type mev_tip_distribution = mev_validators_of-IsMevEntry s.epoch s.validators [] h (tt, tt)
    by_type priority_fee_distribution = (tt, tt)

pub get_priority_fee_validators-IsPriorityFeeEntry :
    (s : JitoSnapshot)
    → All (IsEntry s.epoch) s.validators
    → DistinctKeys string_discrete (get_priority_fee_validators s)
      × All (IsPriorityFeeEntry s.epoch) (get_priority_fee_validators s)
unfolding get_priority_fee_validators
get_priority_fee_validators-IsPriorityFeeEntry s h = by_type s.account_type
  where
    by_type :
        (t : JitoAccountType)
        → DistinctKeys string_discrete (priority_fee_validators_for t s.validators)
          × All (IsPriorityFeeEntry s.epoch) (priority_fee_validators_for t s.validators)
    by_type mev_tip_distribution = (tt, tt)
    by_type priority_fee_distribution =
        priority_fee_validators_of-IsPriorityFeeEntry s.epoch s.validators [] h (tt, tt)
