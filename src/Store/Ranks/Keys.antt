-- ===== src/Store/Ranks/Keys.antt =====
-- Ranking keeps the vote accounts distinct.
use delegation_strategy.Prelude.{
  ℕ, ◌+◌, ◌-◌, String, Option, none, some, [], ◌∷◌, HashMap, get, length, ascending, sort_by, Each,
  Each->>=, Each-chain, string_discrete, DistinctKeys, DistinctKeys-insert,
}
use delegation_strategy.Store.Dto.Validators.{ValidatorEpochStats}
use delegation_strategy.Store.Ranks.{
  Validators, EpochEntries, stat, next_same, write_stat, write_rank, rank_loop, rank_epoch,
  rank_epochs, update_validators_ranks, stats_by_epoch,
}

module _ {Float : Type 0}
    (rank_updater : ValidatorEpochStats Float → ℕ → ValidatorEpochStats Float) where
  abbrev Keeps : Option (Validators Float) → Type 0
  Keeps = Each (DistinctKeys string_discrete)

  write_rank-DistinctKeys :
      (epoch : ℕ) (va : String) (rank : ℕ) (vs : Validators Float)
      → DistinctKeys string_discrete vs
      → Keeps (write_rank rank_updater epoch va rank vs)
  unfolding write_rank
  write_rank-DistinctKeys epoch va rank vs d =
      Each->>= (DistinctKeys string_discrete) (get string_discrete va vs) _ (λ r _.
        Each->>= (DistinctKeys string_discrete) (write_stat rank_updater epoch rank r.epoch_stats) _
          (λ stats _. DistinctKeys-insert string_discrete va _ vs d))

  rank_loop-DistinctKeys :
      (epoch total index : ℕ) (previous : Option ℕ) (same_ranks : ℕ) (entries : EpochEntries)
      (vs : Validators Float)
      → DistinctKeys string_discrete vs
      → Keeps (rank_loop rank_updater epoch total index previous same_ranks entries vs)
  unfolding rank_loop
  rank_loop-DistinctKeys epoch total index previous same_ranks [] vs d = d
  rank_loop-DistinctKeys epoch total index previous same_ranks ((va, value) ∷ rest) vs d =
      let same_ranks' = next_same previous value same_ranks in
      let later = λ (vs' : Validators Float) (d' : DistinctKeys string_discrete vs').
        rank_loop-DistinctKeys epoch total (index + 1) (some value) same_ranks' rest vs' d' in
      Each-chain (DistinctKeys string_discrete)
        (write_rank rank_updater epoch va (total - index + same_ranks') vs) _
        (write_rank-DistinctKeys epoch va (total - index + same_ranks') vs d) later

  rank_epochs-DistinctKeys :
      (groups : HashMap ℕ EpochEntries) (vs : Validators Float)
      → DistinctKeys string_discrete vs
      → Keeps (rank_epochs rank_updater groups vs)
  unfolding rank_epochs rank_epoch
  rank_epochs-DistinctKeys [] vs d = d
  rank_epochs-DistinctKeys ((epoch, stats) ∷ rest) vs d =
      let sorted = sort_by (ascending stat) stats in
      let later = λ (vs' : Validators Float) (d' : DistinctKeys string_discrete vs').
        rank_epochs-DistinctKeys rest vs' d' in
      Each-chain (DistinctKeys string_discrete)
        (rank_loop rank_updater epoch (length sorted) 0 none 0 sorted vs) _
        (rank_loop-DistinctKeys epoch (length sorted) 0 none 0 sorted vs d) later

  pub update_validators_ranks-DistinctKeys :
      (field_extractor : ValidatorEpochStats Float → ℕ) (vs : Validators Float)
      → DistinctKeys string_discrete vs
      → Keeps (update_validators_ranks rank_updater field_extractor vs)
  unfolding update_validators_ranks
  update_validators_ranks-DistinctKeys field_extractor vs d =
      rank_epochs-DistinctKeys (stats_by_epoch field_extractor vs []) vs d
