-- ===== src/Store/Load/Scores/Written.antt =====
-- Which scores the validators get.
use delegation_strategy.Prelude.{
  ℕ, zero, suc, ◌+◌, ◌-◌, ◌≤◌, ◌≡◌, refl, sym, ap, fun_ext, ◌∙◌, String, Bool, true, ◌&&◌, Option,
  none, some, is_some, map_option, or_else, Option-cases, ◌⊎◌, inl, inr, List, [], ◌∷◌, HashMap,
  keys, map, get, get-insert, maximum, leb, ltb, if◌then◌else◌, string_discrete, ℕ_discrete, holds,
  arith,
}
use delegation_strategy.Store.Dto.Validators.{ValidatorRecord}
use delegation_strategy.Store.Ranks.{Validators}
use delegation_strategy.Store.Averages.{in_range, map_values}
use delegation_strategy.Store.Load.Scores.{
  insert_scores, put_answer, answers, load_scores_in_epochs, latest_epoch, stat_score, with_scores,
  with_latest, update_validators_with_scores,
}

-- The greatest key of a map is one of its keys.
get-maximum :
    {V : Type 0} (e : ℕ × V) (m : HashMap ℕ V)
    → is_some (get ℕ_discrete (maximum (keys (e ∷ m))) (e ∷ m)) ≡ true
unfolding get
get-maximum (k, v) [] = ground arith
get-maximum (k, v) (e ∷ m) = ground (arith, get-maximum e m)

le-maximum :
    {V : Type 0} (k : ℕ) (m : HashMap ℕ V)
    → is_some (get ℕ_discrete k m) ≡ true
    → k ≤ maximum (keys m)
unfolding get
le-maximum k [] h = cc
le-maximum k ((j, v) ∷ m) h = ground (arith, le-maximum k m)

module _ {Float : Type 0} (service : ℕ → Option (List (String × Float))) where
  -- The scores of an epoch.
  abbrev pub answered : ℕ → Option (HashMap String Float)
  answered e = map_option (λ s. insert_scores s []) (service e)

  get-put_answer :
      (e j : ℕ) (a : Option (List (String × Float))) (m : HashMap ℕ (HashMap String Float))
      → get ℕ_discrete j (put_answer service e a m) ≡ (
          if holds (ℕ_discrete e j)
          then or_else (map_option (λ s. insert_scores s []) a) (get ℕ_discrete j m)
          else get ℕ_discrete j m)
  get-put_answer e j none m = ground arith
  get-put_answer e j (some s) m = ground (arith, get-insert ℕ_discrete e j (insert_scores s []) m)

  get-answers :
      (j first n : ℕ) (m : HashMap ℕ (HashMap String Float))
      → get ℕ_discrete j (answers service first n m)
        ≡ or_else
            (if leb first j && ltb j (first + n) then answered j else none)
            (get ℕ_discrete j m)
  unfolding answers
  get-answers j first zero m = ground arith
  get-answers j first (suc n) m = ground (
    arith,
    get-answers j (first + 1) n (put_answer service first (service first) m),
    get-put_answer first j (service first) m,
    moved,
  )
    where
      moved : first ≡ j → answered first ≡ answered j
      moved e = ap answered e

  module _ (first last : ℕ) where
    -- The scores of an epoch that is asked for.
    abbrev pub scores_for : ℕ → Option (HashMap String Float)
    scores_for e = if in_range first last e then answered e else none

    get-load_scores_in_epochs :
        (e : ℕ) → get ℕ_discrete e (load_scores_in_epochs service first last) ≡ scores_for e
    unfolding load_scores_in_epochs get
    get-load_scores_in_epochs e =
        get-answers e first (last + 1 - first) []
        ∙ right_none (leb first e && ltb e (first + (last + 1 - first))) (in_range first last e)
            (answered e) (ground arith)
      where
        right_none :
            {A : Type 0} (b c : Bool) (o : Option A)
            → b ≡ c
            → or_else (if b then o else none) none ≡ (if c then o else none)
        right_none b c o h = ground arith

    -- The scores that are written to a validator: each epoch's to its statistics, and `latest` to itself.
    abbrev pub scored_by : HashMap String Float → ValidatorRecord Float → ValidatorRecord Float
    scored_by latest v = record v {
      epoch_stats = map (λ s. stat_score v.vote_account (scores_for s.epoch) s) v.epoch_stats;
      score = get string_discrete v.vote_account latest;
    }

    abbrev pub IsLatest : ℕ → HashMap String Float → Type 0
    IsLatest e latest =
        (scores_for e ≡ some latest) × ((k : ℕ) → is_some (scores_for k) ≡ true → k ≤ e)

    -- Either no epoch has scores, and nothing is changed; or those of the latest one that has are written.
    abbrev pub IsScored : Validators Float → Option (Validators Float) → Type 0
    IsScored validators o =
        (((e : ℕ) → scores_for e ≡ none) × (o ≡ some validators))
        ⊎ ((e : ℕ) × (latest : HashMap String Float) × IsLatest e latest
            × (o ≡ some (map_values (scored_by latest) validators)))

    with_latest-IsScored :
        (m : HashMap ℕ (HashMap String Float)) (validators : Validators Float)
        → ((e : ℕ) → get ℕ_discrete e m ≡ scores_for e)
        → IsScored validators (with_latest m (latest_epoch m) validators)
    unfolding get with_scores
    with_latest-IsScored [] validators h = inl (λ e. sym (h e), refl)
    with_latest-IsScored (x ∷ m) validators h =
        let top = maximum (keys (x ∷ m)) in
        elim (Option-cases (get ℕ_discrete top (x ∷ m))) [
          | inl absent ↦ absurd (ground (arith, get-maximum x m, absent))
          | inr (latest, found) ↦ inr (
            top,
            latest,
            (sym (h top) ∙ found, λ k present. le-maximum k (x ∷ m) (ap is_some (h k) ∙ present)),
            rw found (
                ap
                  (λ f. some (
                    map_values
                      (λ (v : ValidatorRecord Float). record v {
                        epoch_stats =
                            map (λ s. stat_score v.vote_account (f s.epoch) s) v.epoch_stats;
                        score = get string_discrete v.vote_account latest;
                      })
                      validators))
                  (fun_ext h)),
          )
        ]

    -- Writing the scores never panics. If the service has scores for no epoch of the range, nothing
    -- changes. Else each statistic of an epoch that has scores takes the validator's score of that
    -- epoch, and each validator takes its score of the latest epoch that has scores, none where the answer
    -- has no such vote account; the other statistics stay.
    pub update_validators_with_scores-IsScored :
        (validators : Validators Float)
        → IsScored validators (update_validators_with_scores service first last validators)
    unfolding update_validators_with_scores
    update_validators_with_scores-IsScored validators =
        with_latest-IsScored (load_scores_in_epochs service first last) validators
          get-load_scores_in_epochs
