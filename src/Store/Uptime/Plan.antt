-- ===== src/Store/Uptime/Plan.antt =====
-- The loop of `store_uptime` over the latest rows: what it plans for each row.
use delegation_strategy.Prelude.{
  ℕ, ◌+◌, ◌≡◌, refl, sym, ◌∙◌, subst, ◌≢◌, inl, inr, String, Bool, false, ◌&&◌, ◌||◌, Option, none,
  some, List, [], ◌∷◌, HashMap, map, arith, ◌==◌, if◌then◌else◌, holds, string_discrete, ℕ_discrete,
  get, get-insert, contains, contains-add, keep, any, All, All-both, Bool-cases,
}
use delegation_strategy.Store.Dto.Scalars.{DateTime, minutes}
use delegation_strategy.Collect.Performance.{ValidatorsPerformanceSnapshot}
use delegation_strategy.Store.Uptime.{
  UptimeRow, of_account, is_id, ended, extend_rows, is_recent, is_same_status, extend_one,
  extend_all,
}
use delegation_strategy.Store.Uptime.History.{DistinctIds}

abbrev pub Plan : Type 0
Plan = List String × HashMap ℕ DateTime

module _ {Float : Type 0} (snapshot : ValidatorsPerformanceSnapshot Float) where
  -- What one round of the loop does with a row: the end that it records, and the mark that it sets.
  unfoldable pub planned : UptimeRow → Option DateTime
  unfolding is_recent is_same_status
  planned row = elim (get string_discrete row.vote_account snapshot.validators) [
    | none ↦ none
    | some v ↦
        if is_recent snapshot row
        then if is_same_status snapshot v row
          then some (snapshot.created_at + minutes 1)
          else some snapshot.created_at
        else none
  ]

  unfoldable pub extends : UptimeRow → Bool
  unfolding is_recent is_same_status
  extends row = elim (get string_discrete row.vote_account snapshot.validators) [
    | none ↦ false
    | some v ↦ if is_recent snapshot row then is_same_status snapshot v row else false
  ]

  -- Who is not in the snapshot has no plan.
  pub planned-absent :
      (r : UptimeRow)
      → get string_discrete r.vote_account snapshot.validators ≡ none
      → planned r ≡ none
  unfolding planned
  planned-absent r h = ground (arith, h)

  abbrev pub or_else : Option DateTime → Option DateTime → Option DateTime
  or_else none o = o
  or_else (some e) o = some e

  pub extend_one-get :
      (row : UptimeRow) (plan : Plan) (i : ℕ)
      → get ℕ_discrete i (extend_one snapshot row plan).1 ≡ (
          if row.id == i
          then or_else (planned row) (get ℕ_discrete i plan.1)
          else get ℕ_discrete i plan.1)
  unfolding extend_one planned
  extend_one-get row (es, xs) i = ground (
    arith,
    get-insert ℕ_discrete row.id i (snapshot.created_at + minutes 1) xs,
    get-insert ℕ_discrete row.id i snapshot.created_at xs,
  )

  pub extend_one-contains :
      (row : UptimeRow) (plan : Plan) (va : String)
      → contains string_discrete va (extend_one snapshot row plan).0 ≡ (
          (holds (string_discrete row.vote_account va) && extends row)
          || contains string_discrete va plan.0)
  unfolding extend_one extends
  extend_one-contains row (es, xs) va =
      ground (arith, contains-add string_discrete row.vote_account va es)

  module _ (p : UptimeRow → Bool) where
    pub extend_all-get_absent :
        (rs : List UptimeRow) (plan : Plan) (i : ℕ)
        → All (λ r. r.id ≢ i) rs
        → get ℕ_discrete i (extend_all snapshot (keep p rs) plan).1 ≡ get ℕ_discrete i plan.1
    unfolding extend_all
    extend_all-get_absent [] plan i h = refl
    extend_all-get_absent (r ∷ rs) plan i h = elim (Bool-cases (p r)) [
      | inl e ↦ rw e (
          extend_all-get_absent rs (extend_one snapshot r plan) i h.1
          ∙ extend_one-get r plan i
          ∙ ground (arith, h.0))
      | inr e ↦ rw e (extend_all-get_absent rs plan i h.1)
    ]

    -- The end of a row, where the loop goes over rows that `p` selects, from `plan` on.
    abbrev pub expected : Plan → UptimeRow → Option DateTime
    expected plan r =
        if p r then or_else (planned r) (get ℕ_discrete r.id plan.1) else get ℕ_discrete r.id plan.1

    abbrev pub after : UptimeRow → Plan → Plan
    after r plan = if p r then extend_one snapshot r plan else plan

    pub extend_all-cons :
        (r : UptimeRow) (rs : List UptimeRow) (plan : Plan)
        → extend_all snapshot (keep p (r ∷ rs)) plan
          ≡ extend_all snapshot (keep p rs) (after r plan)
    unfolding extend_all
    extend_all-cons r rs plan = elim (Bool-cases (p r)) [ inl e ↦ rw e | inr e ↦ rw e ]

    pub get-after_self :
        (r : UptimeRow) (plan : Plan) → get ℕ_discrete r.id (after r plan).1 ≡ expected plan r
    get-after_self r plan = elim (Bool-cases (p r)) [
      | inl e ↦ rw e (extend_one-get r plan r.id ∙ ground arith)
      | inr e ↦ rw e
    ]

    pub get-after_ne :
        (r t : UptimeRow) (plan : Plan) → t.id ≢ r.id → expected (after r plan) t ≡ expected plan t
    get-after_ne r t plan n = elim (Bool-cases (p r)) [
      | inl e ↦ rw e (ground (arith, n, extend_one-get r plan t.id))
      | inr e ↦ rw e
    ]

    -- Of distinct ids each is planned by its own row.
    pub extend_all-get :
        (rs : List UptimeRow) (plan : Plan)
        → DistinctIds rs
        → All
            (λ t. get ℕ_discrete t.id (extend_all snapshot (keep p rs) plan).1 ≡ expected plan t)
            rs
    extend_all-get [] plan d = tt
    extend_all-get (r ∷ rs) plan d =
        subst (λ (q : Plan). All (λ t. get ℕ_discrete t.id q.1 ≡ expected plan t) (r ∷ rs))
          (sym (extend_all-cons r rs plan))
          (
            extend_all-get_absent rs (after r plan) r.id d.0 ∙ get-after_self r plan,
            All-both (λ t. t.id ≢ r.id)
                (λ t.
                  get ℕ_discrete t.id (extend_all snapshot (keep p rs) (after r plan)).1
                  ≡ expected (after r plan) t)
                (λ t.
                  get ℕ_discrete t.id (extend_all snapshot (keep p rs) (after r plan)).1
                  ≡ expected plan t)
                rs (λ t n f. f ∙ get-after_ne r t plan n) d.0
                (extend_all-get rs (after r plan) d.1),
          )

  pub extend_all-contains :
      (rs : List UptimeRow) (plan : Plan) (va : String)
      → contains string_discrete va (extend_all snapshot rs plan).0 ≡ (
          any (λ r. holds (string_discrete r.vote_account va) && extends r) rs
          || contains string_discrete va plan.0)
  unfolding extend_all
  extend_all-contains [] plan va = refl
  extend_all-contains (r ∷ rs) plan va =
      ground (
        arith,
        extend_all-contains rs (extend_one snapshot r plan) va,
        extend_one-contains r plan va,
      )

  pub extend_rows-of_account :
      (p : UptimeRow → Bool) (q : Option UptimeRow) (va : String) (xs : HashMap ℕ DateTime)
      (rs : List UptimeRow)
      → All (λ r. get ℕ_discrete r.id xs ≡ (if p r then or_else (planned r) none else none)) rs
      → ((r : UptimeRow) → r.vote_account ≡ va → p r ≡ is_id r.id q)
      → of_account va (extend_rows xs rs)
        ≡ map
            (λ r. ended r (if is_id r.id q then or_else (planned r) none else none))
            (of_account va rs)
  unfolding extend_rows
  extend_rows-of_account p q va xs [] h same = refl
  extend_rows-of_account p q va xs (r ∷ rs) h same =
      ground (arith, h.0, same r, extend_rows-of_account p q va xs rs h.1 same)
