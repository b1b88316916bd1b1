-- ===== src/Store/Load/Grouped.antt =====
-- store/src/utils.rs: `load_incidents`, `load_uptimes`, `load_versions`, `load_commissions` and
-- `load_ruggers`, after their queries. A row has the columns of its query; `now` is the clock as it is
-- read for a row.
pub mod Listed
use delegation_strategy.Prelude.{
  ℕ, ◌-◌, String, Option, none, some, List, [], ◌∷◌, ◌++◌, HashMap, map, update, insert, or_default,
  string_discrete, ℤ, pos, negsuc, u64_mod,
}
use delegation_strategy.Store.Query.{Result, ok, err, and_then}
use delegation_strategy.Store.Dto.Scalars.{Decimal, DateTime}
use delegation_strategy.Store.Dto.Validators.{IncidentRecord}
use delegation_strategy.Store.Dto.Records.{
  UptimeRecord, VersionRecord, CommissionRecord, RuggerRecord,
}
use delegation_strategy.Store.Load.{to_u64, signed_to_u64, signed_to_u8, or_error}

-- `as u64`, from a signed number.
abbrev pub as_u64 : ℤ → ℕ
as_u64 (pos n) = n
as_u64 (negsuc n) = u64_mod - 1 - n

-- The loop that the four functions share: a row's record is pushed at its vote account.
unfoldable pub group_rows :
    {R A E : Type 0}
    → (R → String)
    → (R → Result E A)
    → List R
    → HashMap String (List A)
    → Result E (HashMap String (List A))
group_rows account record_of [] records = ok records
group_rows account record_of (row ∷ rows) records = and_then (record_of row) (λ a.
    group_rows account record_of rows
      (update string_discrete (account row) [] (λ l. l ++ a ∷ []) records))

pub record IncidentRow : Type 0 where
  pub vote_account : String
  pub epoch : Decimal
  pub start_at : DateTime
  pub end_at : DateTime
  pub downtime_seconds : ℤ

pub record UptimeRow : Type 0 where
  pub vote_account : String
  pub status : String
  pub epoch : Decimal
  pub epoch_start : Option DateTime
  pub epoch_end : Option DateTime
  pub start_at : DateTime
  pub end_at : DateTime

pub record VersionRow : Type 0 where
  pub vote_account : String
  pub version : Option String
  pub epoch : Decimal
  pub created_at : DateTime

pub record CommissionRow : Type 0 where
  pub vote_account : String
  pub commission : ℤ
  pub epoch : Decimal
  pub epoch_start : Option DateTime
  pub epoch_end : Option DateTime
  pub epoch_slot : Decimal
  pub created_at : DateTime

pub record RuggerRow : Type 0 where
  pub vote_account : String
  pub events_count : ℤ
  pub epochs : List Decimal
  pub commission_observed_values : List ℤ
  pub commission_min_observed_values : List ℤ

module _ {E : Type 0} (out_of_range : E) where
  unfoldable pub incident_of : IncidentRow → Result E IncidentRecord
  incident_of row = and_then (or_error out_of_range (to_u64 row.epoch)) (λ epoch.
      and_then (or_error out_of_range (signed_to_u64 row.downtime_seconds)) (λ downtime_seconds.
        ok (record {
          epoch = epoch;
          start_at = row.start_at;
          end_at = row.end_at;
          downtime_seconds = downtime_seconds;
        })))

  unfoldable pub load_incidents :
      Result E (List IncidentRow) → Result E (HashMap String (List IncidentRecord))
  unfolding group_rows incident_of
  load_incidents answer =
      and_then answer (λ rows. group_rows (λ row. row.vote_account) incident_of rows [])

  unfoldable pub uptime_of :
      (UptimeRow → DateTime) → (UptimeRow → DateTime) → UptimeRow → Result E UptimeRecord
  uptime_of now_for_end now_for_start row =
      and_then (or_error out_of_range (to_u64 row.epoch)) (λ epoch. ok (record {
        epoch = epoch;
        epoch_end_at = or_default (now_for_end row) row.epoch_end;
        epoch_start_at = or_default (now_for_start row) row.epoch_start;
        status = row.status;
        start_at = row.start_at;
        end_at = row.end_at;
      }))

  unfoldable pub load_uptimes :
      (UptimeRow → DateTime)
      → (UptimeRow → DateTime)
      → Result E (List UptimeRow)
      → Result E (HashMap String (List UptimeRecord))
  unfolding group_rows uptime_of
  load_uptimes now_for_end now_for_start answer =
      and_then answer
        (λ rows. group_rows (λ row. row.vote_account) (uptime_of now_for_end now_for_start) rows [])

  unfoldable pub version_of : VersionRow → Result E VersionRecord
  version_of row =
      and_then (or_error out_of_range (to_u64 row.epoch))
        (λ epoch. ok (record { epoch = epoch; version = row.version; created_at = row.created_at }))

  unfoldable pub load_versions :
      Result E (List VersionRow) → Result E (HashMap String (List VersionRecord))
  unfolding group_rows version_of
  load_versions answer =
      and_then answer (λ rows. group_rows (λ row. row.vote_account) version_of rows [])

  unfoldable pub commission_of :
      (CommissionRow → DateTime)
      → (CommissionRow → DateTime)
      → CommissionRow
      → Result E CommissionRecord
  commission_of now_for_end now_for_start row =
      and_then (or_error out_of_range (to_u64 row.epoch)) (λ epoch.
        and_then (or_error out_of_range (to_u64 row.epoch_slot)) (λ epoch_slot.
          and_then (or_error out_of_range (signed_to_u8 row.commission)) (λ commission. ok (record {
            epoch = epoch;
            epoch_end_at = or_default (now_for_end row) row.epoch_end;
            epoch_start_at = or_default (now_for_start row) row.epoch_start;
            epoch_slot = epoch_slot;
            commission = commission;
            created_at = row.created_at;
          }))))

  unfoldable pub load_commissions :
      (CommissionRow → DateTime)
      → (CommissionRow → DateTime)
      → Result E (List CommissionRow)
      → Result E (HashMap String (List CommissionRecord))
  unfolding group_rows commission_of
  load_commissions now_for_end now_for_start answer = and_then answer (λ rows.
      group_rows (λ row. row.vote_account) (commission_of now_for_end now_for_start) rows [])

  -- One row per vote account.
  unfoldable pub insert_ruggers :
      (RuggerRow → DateTime)
      → List RuggerRow
      → HashMap String RuggerRecord
      → Result E (HashMap String RuggerRecord)
  insert_ruggers now [] records = ok records
  insert_ruggers now (row ∷ rows) records =
      and_then (or_error out_of_range (signed_to_u64 row.events_count)) (λ occurrences.
        insert_ruggers now rows (
          insert string_discrete row.vote_account
            (record {
              epochs = map (λ e. or_default 0 (to_u64 e)) row.epochs;
              occurrences = occurrences;
              observed_commissions = map as_u64 row.commission_observed_values;
              min_commissions = map as_u64 row.commission_min_observed_values;
              created_at = now row;
            })
            records))

  unfoldable pub load_ruggers :
      (RuggerRow → DateTime) → Result E (List RuggerRow) → Result E (HashMap String RuggerRecord)
  unfolding insert_ruggers
  load_ruggers now answer = and_then answer (λ rows. insert_ruggers now rows [])
