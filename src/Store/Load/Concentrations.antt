-- ===== src/Store/Load/Concentrations.antt =====
-- store/src/utils.rs: `load_dc_concentration_stats`, `load_block_production_stats` and
-- `load_cluster_stats`. How a number is shown as text is the standard library's, and a parameter.
pub mod Sums
use delegation_strategy.Prelude.{
  ℤ, ℕ, zero, suc, ◌+◌, ◌-◌, String, ◌<>◌, Option, none, some, List, [], ◌∷◌, ◌++◌, HashMap, map,
  update, or_default, add_u64, min, ltb, keep, ◌==◌, string_discrete, F64,
}
use delegation_strategy.Store.Query.{Result, ok, err, and_then}
use delegation_strategy.Store.Dto.Scalars.{Decimal}
use delegation_strategy.Store.Dto.Rows.{Validator}
use delegation_strategy.Store.Dto.Records.{DcConcentrationStats, BlockProductionStats, ClusterStats}
use delegation_strategy.Store.Load.{to_u64, or_error, get_last_epoch, first_of}

-- `*stakes.entry(key).or_insert(0) += stake`
abbrev pub add_stake : String → ℕ → HashMap String ℕ → HashMap String ℕ
add_stake key stake stakes = update string_discrete key 0 (λ n. add_u64 n stake) stakes

-- CONCAT takes a NULL as an empty text.
abbrev pub full_city : {Float : Type 0} → Validator Float → String
full_city v =
    or_default "" v.dc_continent
    <> ("/" <> (or_default "" v.dc_country <> ("/" <> or_default "" v.dc_city)))

pub record Stakes : Type 0 where
  pub total_active_stake : ℕ
  pub by_aso : HashMap String ℕ
  pub by_asn : HashMap String ℕ
  pub by_city : HashMap String ℕ
  pub by_country : HashMap String ℕ

abbrev pub no_stakes : Stakes
no_stakes = record {
  total_active_stake = 0;
  by_aso = [];
  by_asn = [];
  by_city = [];
  by_country = [];
}

module _ (f64 : F64) (show : ℤ → String) where
  abbrev pub aso_of : Validator f64.Float → String
  aso_of v = or_default "Unknown" v.dc_aso

  abbrev pub shown : Option ℤ → String
  shown none = "Unknown"
  shown (some n) = show n

  abbrev pub asn_of : Validator f64.Float → String
  asn_of v = shown v.dc_asn

  abbrev pub country_of : Validator f64.Float → String
  country_of v = or_default "Unknown" v.dc_country

  abbrev pub add_row : Validator f64.Float → ℕ → Stakes → Stakes
  add_row v stake s = record {
    total_active_stake = add_u64 s.total_active_stake stake;
    by_aso = add_stake (aso_of v) stake s.by_aso;
    by_asn = add_stake (asn_of v) stake s.by_asn;
    by_city = add_stake (full_city v) stake s.by_city;
    by_country = add_stake (country_of v) stake s.by_country;
  }

  abbrev pub map_stake_to_concentration : HashMap String ℕ → ℕ → HashMap String f64.Float
  map_stake_to_concentration stakes total =
      map (λ e. (e.0, f64.div (f64.of_nat e.1) (f64.of_nat total))) stakes

  abbrev pub stats_of : ℕ → Stakes → DcConcentrationStats f64.Float
  stats_of epoch s = record {
    epoch = epoch;
    total_activated_stake = s.total_active_stake;
    dc_concentration_by_aso = map_stake_to_concentration s.by_aso s.total_active_stake;
    dc_stake_by_aso = s.by_aso;
    dc_concentration_by_asn = map_stake_to_concentration s.by_asn s.total_active_stake;
    dc_stake_by_asn = s.by_asn;
    dc_concentration_by_city = map_stake_to_concentration s.by_city s.total_active_stake;
    dc_stake_by_city = s.by_city;
    dc_concentration_by_country = map_stake_to_concentration s.by_country s.total_active_stake;
    dc_stake_by_country = s.by_country;
  }

  module _ {E : Type 0} (out_of_range : E) where
    -- The loop over the rows of one epoch.
    unfoldable pub add_rows : List (Validator f64.Float) → Stakes → Result E Stakes
    add_rows [] s = ok s
    add_rows (v ∷ rows) s =
        and_then (or_error out_of_range (to_u64 v.activated_stake))
          (λ stake. add_rows rows (add_row v stake s))

    -- The loop over `n` epochs, down to `first`; `rows_at` is the query of an epoch.
    unfoldable pub epochs_down :
        (ℕ → Result E (List (Validator f64.Float)))
        → ℕ
        → ℕ
        → Result E (List (DcConcentrationStats f64.Float))
    unfolding add_rows
    epochs_down rows_at first zero = ok []
    epochs_down rows_at first (suc n) = and_then (rows_at (first + n)) (λ rows.
        and_then (add_rows rows no_stakes) (λ stakes.
          and_then (epochs_down rows_at first n)
            (λ later. ok (stats_of (first + n) stakes ∷ later))))

    abbrev pub dc_stats_from :
        (ℕ → Result E (List (Validator f64.Float)))
        → ℕ
        → Option ℕ
        → Result E (List (DcConcentrationStats f64.Float))
    dc_stats_from rows_at epochs none = ok []
    dc_stats_from rows_at epochs (some last_epoch) =
        let first_epoch = first_of last_epoch epochs in
        epochs_down rows_at first_epoch (last_epoch + 1 - first_epoch)

    -- `table` answers the query of the last epoch.
    unfoldable pub load_dc_concentration_stats :
        Result E (List (Validator f64.Float))
        → (ℕ → Result E (List (Validator f64.Float)))
        → ℕ
        → Result E (List (DcConcentrationStats f64.Float))
    unfolding get_last_epoch epochs_down
    load_dc_concentration_stats table rows_at epochs =
        and_then (get_last_epoch table) (dc_stats_from rows_at epochs)

    -- A row of the query of the epochs after the given one.
    pub record BlockProductionRow : Type 0 where
      pub epoch : Decimal
      pub blocks_produced : Decimal
      pub leader_slots : Decimal
      pub avg_skip_rate : f64.Float

    unfoldable pub block_production_rows :
        List BlockProductionRow → Result E (List (BlockProductionStats f64.Float))
    block_production_rows [] = ok []
    block_production_rows (row ∷ rows) =
        and_then (or_error out_of_range (to_u64 row.epoch)) (λ epoch.
          and_then (or_error out_of_range (to_u64 row.blocks_produced)) (λ blocks_produced.
            and_then (or_error out_of_range (to_u64 row.leader_slots)) (λ leader_slots.
              and_then (block_production_rows rows) (λ stats. ok (
                record {
                  epoch = epoch;
                  blocks_produced = blocks_produced;
                  leader_slots = leader_slots;
                  avg_skip_rate = row.avg_skip_rate;
                }
                ∷ stats)))))

    abbrev pub block_stats_from :
        (ℕ → Result E (List BlockProductionRow))
        → ℕ
        → Option ℕ
        → Result E (List (BlockProductionStats f64.Float))
    block_stats_from rows_after epochs none = ok []
    block_stats_from rows_after epochs (some last_epoch) =
        and_then (rows_after (first_of last_epoch epochs)) block_production_rows

    unfoldable pub load_block_production_stats :
        Result E (List (Validator f64.Float))
        → (ℕ → Result E (List BlockProductionRow))
        → ℕ
        → Result E (List (BlockProductionStats f64.Float))
    unfolding get_last_epoch block_production_rows
    load_block_production_stats table rows_after epochs =
        and_then (get_last_epoch table) (block_stats_from rows_after epochs)

    unfoldable pub load_cluster_stats :
        Result E (List (Validator f64.Float))
        → (ℕ → Result E (List BlockProductionRow))
        → (ℕ → Result E (List (Validator f64.Float)))
        → ℕ
        → Result E (ClusterStats f64.Float)
    unfolding load_block_production_stats load_dc_concentration_stats
    load_cluster_stats table rows_after rows_at epochs =
        and_then (load_block_production_stats table rows_after epochs) (λ blocks.
          and_then (load_dc_concentration_stats table rows_at epochs) (λ concentrations.
            ok (record {
              block_production_stats = blocks;
              dc_concentration_stats = concentrations;
            })))
