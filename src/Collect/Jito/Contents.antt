-- ===== src/Collect/Jito/Contents.antt =====
-- collect/src/validators_jito.rs: which validators a collected snapshot has, from the accounts that the
-- client answers with.
use delegation_strategy.Prelude.{
  ℕ, ◌≡◌, refl, ap, ◌∙◌, String, Bool, Option, none, some, or_else, map_option, Option-cases, inl,
  inr, List, [], ◌∷◌, ◌++◌, HashMap, insert, get, get-insert, string_discrete, holds, ◌==◌, ◌&&◌,
  if◌then◌else◌, true, false, subst, or_default, sub_u64, arith,
}
use delegation_strategy.Store.Dto.Scalars.{DateTime}
use delegation_strategy.Store.Query.{ok, and_then-ok, and_then-eq-ok, map_rows, ok_injective}
use delegation_strategy.Collect.Jito.{
  JitoAccountType, mev_tip_distribution, priority_fee_distribution, ValidatorSnapshot, of_mev,
  of_priority_fee, JitoSnapshot, jito_snapshot_version,
}
use delegation_strategy.Collect.Jito.Accounts.{
  Layout, Fetch, jito_accounts, deserialize, deserialize_accounts, deserialize_mev_tip_distribution,
  deserialize_priority_fee_distribution, collect_jito_info, mev_snapshot_of,
  priority_fee_snapshot_of,
}

if-call :
    {A B : Type 0} (f : A → B) (b : Bool) (x y : A)
    → (if b then f x else f y) ≡ f (if b then x else y)
if-call f true x y = refl
if-call f false x y = refl

or_else-none : {A : Type 0} (o : Option A) → or_else o none ≡ o
or_else-none none = refl
or_else-none (some a) = refl

module _ {E Data : Type 0} (layout : Layout E Data) (at : ℕ) where
  -- The account is a validator's, created at the epoch.
  abbrev pub is_own : String → layout.Account → Bool
  is_own va a =
      (layout.epoch_created_at a == at)
      && holds (string_discrete (layout.validator_vote_account a) va)

  -- The last such account.
  pub last_own : String → List layout.Account → Option layout.Account
  last_own va [] = none
  last_own va (a ∷ accounts) = or_else (last_own va accounts) (if is_own va a then some a else none)

  module _ (entry : layout.Account → ValidatorSnapshot) where
    put : layout.Account → HashMap String ValidatorSnapshot → HashMap String ValidatorSnapshot
    put a m =
        if layout.epoch_created_at a == at
        then insert string_discrete (layout.validator_vote_account a) (entry a) m
        else m

    put_all :
        List layout.Account → HashMap String ValidatorSnapshot → HashMap String ValidatorSnapshot
    put_all [] m = m
    put_all (a ∷ accounts) m = put_all accounts (put a m)

    get-put :
        (va : String) (a : layout.Account) (m : HashMap String ValidatorSnapshot)
        → get string_discrete va (put a m)
          ≡ or_else
              (map_option entry (if is_own va a then some a else none))
              (get string_discrete va m)
    unfolding put
    get-put va a m =
        ground (arith, get-insert string_discrete (layout.validator_vote_account a) va (entry a) m)

    get-put_all :
        (va : String) (accounts : List layout.Account) (m : HashMap String ValidatorSnapshot)
        → get string_discrete va (put_all accounts m)
          ≡ or_else (map_option entry (last_own va accounts)) (get string_discrete va m)
    unfolding put_all last_own
    get-put_all va [] m = refl
    get-put_all va (a ∷ accounts) m =
        get-put_all va accounts (put a m) ∙ elim (Option-cases (last_own va accounts)) [
          | inl e ↦ rw e (get-put va a m)
          | inr (b, e) ↦ rw e refl
        ]

    deserialize_accounts-put_all :
        (accounts : List Data) (read : List layout.Account) (m : HashMap String ValidatorSnapshot)
        → map_rows layout.try_deserialize accounts ≡ ok read
        → deserialize_accounts layout at entry accounts m ≡ ok (put_all read m)
    unfolding deserialize_accounts put_all put
    deserialize_accounts-put_all [] read m h =
        ap (λ r. ok (put_all r m)) (ok_injective (ok []) [] read refl h)
    deserialize_accounts-put_all (d ∷ accounts) read m h =
        let (a, e, rest) = and_then-eq-ok (layout.try_deserialize d) _ read h in
        let (later, f, g) = and_then-eq-ok (map_rows layout.try_deserialize accounts) _ read rest in
        subst (λ r. deserialize_accounts layout at entry (d ∷ accounts) m ≡ ok (put_all r m))
          (ok_injective (ok (a ∷ later)) (a ∷ later) read refl g)
          (and_then-ok (layout.try_deserialize d) _ a e
            ∙ if-call (deserialize_accounts layout at entry accounts)
                (layout.epoch_created_at a == at) _ m
            ∙ deserialize_accounts-put_all accounts later (put a m) f)

-- The layout of an account type, and the snapshot of an account.
abbrev pub layout_of :
    {E Data : Type 0} → Layout E Data → Layout E Data → JitoAccountType → Layout E Data
layout_of tips fees mev_tip_distribution = tips
layout_of tips fees priority_fee_distribution = fees

abbrev pub entry_of :
    {E Data : Type 0}
    → JitoAccountType
    → (layout : Layout E Data) → ℕ
    → layout.Account
    → ValidatorSnapshot
entry_of mev_tip_distribution layout at a = of_mev (mev_snapshot_of layout at a)
entry_of priority_fee_distribution layout at a =
    of_priority_fee (priority_fee_snapshot_of layout at a)

module _ {E Data : Type 0} (fetch : Fetch E Data) (tips fees : Layout E Data) where
  deserialize-put_all :
      (account_type : JitoAccountType) (at : ℕ) (accounts : List Data)
      (read : List (layout_of tips fees account_type).Account)
      → map_rows (layout_of tips fees account_type).try_deserialize accounts ≡ ok read
      → deserialize tips fees account_type at accounts
        ≡ ok (
            put_all
              (layout_of tips fees account_type)
              at
              (entry_of account_type (layout_of tips fees account_type) at)
              read
              [])
  unfolding deserialize_mev_tip_distribution deserialize_priority_fee_distribution
  deserialize-put_all mev_tip_distribution at accounts read h =
      deserialize_accounts-put_all tips at (λ a. of_mev (mev_snapshot_of tips at a)) accounts read
        [] h
  deserialize-put_all priority_fee_distribution at accounts read h =
      deserialize_accounts-put_all fees at
        (λ a. of_priority_fee (priority_fee_snapshot_of fees at a)) accounts read [] h

  -- What a collection has for the vote account `va`, from the accounts that were read.
  abbrev pub HasLast :
      (account_type : JitoAccountType)
      → ℕ
      → List (layout_of tips fees account_type).Account
      → HashMap String ValidatorSnapshot
      → String
      → Type 0
  HasLast account_type at read validators va =
      get string_discrete va validators
      ≡ map_option (entry_of account_type (layout_of tips fees account_type) at)
          (last_own (layout_of tips fees account_type) at va read)

  -- If the client answers for both positions of the epoch and its accounts can be read, a collection
  -- succeeds. Its snapshot is of the account type and the epoch asked for, or of the epoch before the
  -- current one, with the current epoch and slot; for each vote account it has the snapshot of the last
  -- of the account's entries that were created at the epoch, at both positions in their order, and
  -- nothing for a vote account without one.
  pub collect_jito_info-last :
      (override : Option ℕ) (created_at : DateTime) (epoch slot_index : ℕ)
      (account_type : JitoAccountType) (before_update updated : List Data)
      (read : List (layout_of tips fees account_type).Account)
      → fetch account_type 73 (or_default (sub_u64 epoch 1) override) ≡ ok before_update
      → fetch account_type 137 (or_default (sub_u64 epoch 1) override) ≡ ok updated
      → map_rows (layout_of tips fees account_type).try_deserialize (before_update ++ updated)
        ≡ ok read
      → (snapshot : JitoSnapshot) × (collect_jito_info fetch tips fees override created_at
            (ok (epoch, slot_index))
            account_type
          ≡ ok snapshot)
        × (snapshot.account_type ≡ account_type)
        × (snapshot.epoch ≡ or_default (sub_u64 epoch 1) override)
        × (snapshot.loaded_at_epoch ≡ epoch)
        × (snapshot.loaded_at_slot_index ≡ slot_index)
        × ((va : String) → HasLast account_type snapshot.epoch read snapshot.validators va)
  unfolding collect_jito_info jito_accounts get
  collect_jito_info-last override created_at epoch slot_index account_type before_update updated
        read h1 h2 h3 =
      let at = or_default (sub_u64 epoch 1) override in
      let layout = layout_of tips fees account_type in
      let entry = entry_of account_type layout at in
      let all = deserialize-put_all account_type at (before_update ++ updated) read h3 in
      (
        record {
          epoch = at;
          version = jito_snapshot_version;
          account_type = account_type;
          loaded_at_epoch = epoch;
          loaded_at_slot_index = slot_index;
          created_at = created_at;
          validators = put_all layout at entry read [];
        },
        rw (h1, h2) (and_then-ok _ _ _ all),
        refl,
        refl,
        refl,
        refl,
        λ va. get-put_all layout at entry va read [] ∙ or_else-none _,
      )
