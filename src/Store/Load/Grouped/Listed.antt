-- ===== src/Store/Load/Grouped/Listed.antt =====
-- What stands under a vote account after the rows are grouped, and when grouping fails.
use delegation_strategy.Prelude.{
  ◌≡◌, refl, sym, ap, ◌∙◌, String, List, [], ◌∷◌, ◌++◌, append-nil, append_assoc, inl, inr, HashMap,
  get, update, get-update, or_default, keep, holds, string_discrete, arith,
}
use delegation_strategy.Store.Query.{Result, ok, err, map_rows, and_then-eq-ok, Result-cases}
use delegation_strategy.Store.Dto.Scalars.{DateTime}
use delegation_strategy.Store.Load.Grouped.{
  group_rows, IncidentRow, UptimeRow, VersionRow, CommissionRow, incident_of, uptime_of, version_of,
  commission_of, load_incidents, load_uptimes, load_versions, load_commissions,
}

module _ {R A E : Type 0} (account : R → String) (record_of : R → Result E A) where
  -- The rows of a vote account, in order.
  abbrev pub rows_of : String → List R → List R
  rows_of va = keep (λ r. holds (string_discrete (account r) va))

  abbrev pub records_at : String → HashMap String (List A) → List A
  records_at va m = or_default [] (get string_discrete va m)

  group_rows-fails :
      (rows : List R) (m : HashMap String (List A)) (e : E)
      → map_rows record_of rows ≡ err e
      → group_rows account record_of rows m ≡ err e
  unfolding group_rows
  group_rows-fails [] m e h = cc
  group_rows-fails (r ∷ rows) m e h = elim (Result-cases (record_of r)) [
    | inr (e', p) ↦ ground (arith, p)
    | inl (a, p) ↦ elim (Result-cases (map_rows record_of rows)) [
      | inl (records, q) ↦ ground (arith, p, q)
      | inr (e', q) ↦ ground (
        arith,
        p,
        q,
        group_rows-fails rows (update string_discrete (account r) [] (λ l. l ++ a ∷ []) m) e' q,
      )
    ]
  ]

  group_rows-succeeds :
      (rows : List R) (records : List A) (m : HashMap String (List A))
      → map_rows record_of rows ≡ ok records
      → (m' : HashMap String (List A)) × (group_rows account record_of rows m ≡ ok m')
        × ((va : String)
            → (new : List A) × (map_rows record_of (rows_of va rows) ≡ ok new)
              × (records_at va m' ≡ records_at va m ++ new))
  unfolding group_rows
  group_rows-succeeds [] records m h =
      (m, refl, λ va. ([], refl, sym (append-nil (records_at va m))))
  group_rows-succeeds (r ∷ rows) records m h =
      let (a, p, h') = and_then-eq-ok (record_of r) _ records h in
      let (later, q, _) = and_then-eq-ok (map_rows record_of rows) _ records h' in
      let pushed = update string_discrete (account r) [] (λ l. l ++ a ∷ []) m in
      let (m', done, each) = group_rows-succeeds rows later pushed q in
      (
        m',
        rw p done,
        λ va.
            let (new, n1, n2) = each va in
            let found = get-update string_discrete (account r) va [] (λ l. l ++ a ∷ []) m in
            elim (string_discrete (account r) va) [
              | yes e ↦ (
                a ∷ new,
                ground (arith, n1, e, p),
                ground (
                  arith,
                  found,
                  n2,
                  e,
                  append_assoc (records_at va m) (a ∷ []) new,
                  ap (λ x. get string_discrete x m) e,
                ),
              )
              | no n ↦ (new, ground (arith, n1, n), ground (arith, found, n2, n))
            ],
      )

  -- What grouping gives, by what becomes of all rows.
  abbrev pub IsGrouping : List R → Result E (List A) → Result E (HashMap String (List A)) → Type 0
  IsGrouping rows (err e) result = result ≡ err e
  IsGrouping rows (ok records) result =
      (m : HashMap String (List A)) × (result ≡ ok m)
      × ((va : String) → map_rows record_of (rows_of va rows) ≡ ok (records_at va m))

  pub group_rows-IsGrouping :
      (rows : List R)
      → IsGrouping rows (map_rows record_of rows) (group_rows account record_of rows [])
  unfolding get
  group_rows-IsGrouping rows = by_result (map_rows record_of rows) refl
    where
      by_result :
          (o : Result E (List A))
          → map_rows record_of rows ≡ o
          → IsGrouping rows o (group_rows account record_of rows [])
      by_result (err e) h = group_rows-fails rows [] e h
      by_result (ok records) h =
          let (m, done, each) = group_rows-succeeds rows records [] h in
          (m, done, λ va. let (new, n1, n2) = each va in n1 ∙ ap ok (sym n2))

module _ {E : Type 0} (out_of_range : E) where
  -- If the numbers of a row do not fit, loading the incidents, the uptimes, the versions or the
  -- commissions fails with that error; else each vote account has the records of exactly its rows, in
  -- the order of the query, and an account without rows has none.
  pub loaders-IsGrouping :
      (incidents : List IncidentRow) (uptimes : List UptimeRow) (versions : List VersionRow)
      (commissions : List CommissionRow) (uptime_end uptime_start : UptimeRow → DateTime)
      (commission_end commission_start : CommissionRow → DateTime)
      → IsGrouping
          (λ r. r.vote_account)
          (incident_of out_of_range)
          incidents
          (map_rows (incident_of out_of_range) incidents)
          (load_incidents out_of_range (ok incidents))
        × IsGrouping
            (λ r. r.vote_account)
            (uptime_of out_of_range uptime_end uptime_start)
            uptimes
            (map_rows (uptime_of out_of_range uptime_end uptime_start) uptimes)
            (load_uptimes out_of_range uptime_end uptime_start (ok uptimes))
        × IsGrouping
            (λ r. r.vote_account)
            (version_of out_of_range)
            versions
            (map_rows (version_of out_of_range) versions)
            (load_versions out_of_range (ok versions))
        × IsGrouping
            (λ r. r.vote_account)
            (commission_of out_of_range commission_end commission_start)
            commissions
            (map_rows (commission_of out_of_range commission_end commission_start) commissions)
            (load_commissions out_of_range commission_end commission_start (ok commissions))
  unfolding load_incidents load_uptimes load_versions load_commissions
  loaders-IsGrouping incidents uptimes versions commissions uptime_end uptime_start commission_end
        commission_start =
      (
        group_rows-IsGrouping (λ r. r.vote_account) (incident_of out_of_range) incidents,
        group_rows-IsGrouping (λ r. r.vote_account) (uptime_of out_of_range uptime_end uptime_start)
            uptimes,
        group_rows-IsGrouping (λ r. r.vote_account) (version_of out_of_range) versions,
        group_rows-IsGrouping (λ r. r.vote_account)
            (commission_of out_of_range commission_end commission_start) commissions,
      )
