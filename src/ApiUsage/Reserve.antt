-- ===== src/ApiUsage/Reserve.antt =====
-- A reservation of units, against a ledger that holds the used units of each period.
use tc_backend.Table.Rows.{
  count_where-and, count_where-update_same, first_where-counted, first_where_sound, count_where,
  first_where-update_where, update_where, first_where,
}
use tc_backend.ApiUsage.Keys.{
  create_if_absent-OnePerPeriod, create_if_absent-present, create_if_absent-used_of, is_period-ne,
  same_period_lem, units_of, used_of, OnePerPeriod,
}
use tc_backend.ApiUsage.{
  postgresql, sqlite, effective_limit, usage_done, create_if_absent, target_period, units_too_few,
  generic_dialect, Clock, usage_failed, MonthlyLimits, Dialect, reserve_usage, UsageResult,
  initialize_period, reserve_period, count_where, take_quota, has_quota, update_where, is_period,
  first_where, UsageRow, same_period, Period,
}
use tc_backend.Prelude.{
  ℕ, ◌+◌, ◌≡◌, refl, ap, ◌∙◌, ◌≢◌, inl, inr, Bool, false, ◌&&◌, Option, some, List, arith, String,
  ltb, leb, ◌==◌, if◌then◌else◌, Bool-cases, Option-cases,
}

-- The abstract reservation: units are spent where they fit under the limit.
abbrev pub spend : Period → ℕ → ℕ → (Period → ℕ) → Bool × (Period → ℕ)
spend k limit units ledger =
    let fits = leb (ledger k + units) limit in
    (fits, λ q. if fits && same_period k q then ledger q + units else ledger q)

take_quota-period :
    (q : Period) (units limit moment : ℕ) (row : UsageRow)
    → is_period q (take_quota units limit moment row) ≡ is_period q row
unfolding take_quota is_period
take_quota-period q units limit moment row = refl

-- The units after the UPDATE, where the period has a row.
update-used_of :
    (k q : Period) (units limit moment : ℕ) (rows : List UsageRow) (row : UsageRow)
    → first_where (is_period k) rows ≡ some row
    → used_of (update_where (has_quota k units limit) (take_quota units limit moment) rows) q ≡ (
        if leb (row.used_unit + units) limit && same_period k q
        then used_of rows q + units
        else used_of rows q)
update-used_of k q units limit moment rows row e =
    ap units_of (
      first_where-update_where (is_period q) (has_quota k units limit)
        (take_quota units limit moment) rows (take_quota-period q units limit moment))
    ∙ (elim (Bool-cases (same_period k q)) [
      | inl t ↦
          let same : k ≡ q = (same_period_lem k q).0 t in
          let hit = first_where_sound (is_period k) rows row e in
          rw t (rw (← same) (rw e (unfold has_quota take_quota in rw hit (ground arith))))
      | inr t ↦ rw t (elim (Option-cases (first_where (is_period q) rows)) [
        | inl n ↦ rw n (ground arith)
        | inr (r, n) ↦
            let miss = is_period-ne k q r t (first_where_sound (is_period q) rows r n) in
            rw n (unfold has_quota in rw miss (ground arith))
      ])
    ])

update-count :
    (k q : Period) (units limit moment : ℕ) (rows : List UsageRow)
    → count_where
        (is_period q)
        (update_where (has_quota k units limit) (take_quota units limit moment) rows)
      ≡ count_where (is_period q) rows
update-count k q units limit moment rows =
    count_where-update_same (is_period q) (has_quota k units limit) (take_quota units limit moment)
      rows (take_quota-period q units limit moment)

-- The UPDATE of a table that has the row is the abstract reservation.
update-spend :
    (k : Period) (units limit moment : ℕ) (rows : List UsageRow)
    → count_where (is_period k) rows ≡ 1
    → ((count_where (has_quota k units limit) rows == 1) ≡ (spend k limit units (used_of rows)).0)
      × ((q : Period)
          → used_of (update_where (has_quota k units limit) (take_quota units limit moment) rows) q
            ≡ (spend k limit units (used_of rows)).1 q)
update-spend k units limit moment rows h =
    let (row, e) = first_where-counted (is_period k) rows (omega arith) in
    let counted =
      count_where-and (is_period k) (λ r. leb (r.used_unit + units) limit) rows row h e in
    (
      unfold has_quota in rw counted (rw e (ground arith)),
      λ q. update-used_of k q units limit moment rows row e ∙ rw e refl,
    )

initialize_period_lem :
    (dialect : Dialect) (k : Period) (limit : ℕ) (rows : List UsageRow)
    → dialect ≢ generic_dialect
    → initialize_period dialect k limit rows ≡ create_if_absent k limit rows
unfolding initialize_period
initialize_period_lem postgresql k limit rows h = refl
initialize_period_lem sqlite k limit rows h = refl
initialize_period_lem generic_dialect k limit rows h = absurd (h refl)

-- The rows agree with a ledger, and have no period twice.
abbrev pub Keeps : List UsageRow → (Period → ℕ) → Type 0
Keeps rows ledger = ((q : Period) → used_of rows q ≡ ledger q) × OnePerPeriod rows

reserve_period_lem :
    (dialect : Dialect) (k : Period) (units limit moment : ℕ) (rows : List UsageRow)
    → dialect ≢ generic_dialect
    → OnePerPeriod rows
    → ((reserve_period dialect k units limit moment rows).0
        ≡ (spend k limit units (used_of rows)).0)
      × Keeps
          (reserve_period dialect k units limit moment rows).1
          (spend k limit units (used_of rows)).1
unfolding reserve_period
reserve_period_lem dialect k units limit moment rows d h =
    let ready = create_if_absent k limit rows in
    let same : used_of ready ≡ used_of rows = λ i q. create_if_absent-used_of q k limit rows i in
    let (granted, after) =
      update-spend k units limit moment ready (create_if_absent-present k limit rows h) in
    rw (initialize_period_lem dialect k limit rows d) (
      granted ∙ ap (λ l. (spend k limit units l).0) same,
      (
        (λ q. after q ∙ ap (λ l. (spend k limit units l).1 q) same),
        λ q.
            rw (update-count k q units limit moment ready)
              (create_if_absent-OnePerPeriod k limit rows h q),
      ),
    )

-- The abstract `reserve_usage`: fewer units than one are refused, and changes nothing.
abbrev pub abstract_reserve : Period → ℕ → ℕ → (Period → ℕ) → UsageResult Bool × (Period → ℕ)
abstract_reserve k limit units ledger =
    let (fits, after) = spend k limit units ledger in
    if ltb units 1 then (usage_failed units_too_few, ledger) else (usage_done fits, after)

-- On PostgreSQL and SQLite, over rows with at most one for each period, `reserve_usage` is the
-- reservation of the abstract ledger, which has only the used units of each period: it fails for
-- fewer than one unit; otherwise it answers whether the units still fit under the effective limit,
-- spends them in that period alone when they do and nothing when they do not, and leaves at most
-- one row for each period.
pub reserve_usage-abstract_reserve :
    (settings : MonthlyLimits) (dialect : Dialect) (now : Clock) (provider api_name : String)
    (units : ℕ) (year month : Option ℕ) (rows : List UsageRow)
    → dialect ≢ generic_dialect
    → OnePerPeriod rows
    → let k = target_period provider api_name year month now in
      let limit = effective_limit settings api_name in
      let out = reserve_usage settings dialect now provider api_name units year month rows in
      let abstract = abstract_reserve k limit units (used_of rows) in
      (out.0 ≡ abstract.0) × Keeps out.1 abstract.1
unfolding reserve_usage
reserve_usage-abstract_reserve settings dialect now provider api_name units year month rows d h =
    let k = target_period provider api_name year month now in
    let limit = effective_limit settings api_name in
    let (granted, after) = reserve_period_lem dialect k units limit now.moment rows d h in
    elim (Bool-cases (ltb units 1)) [
      | inl e ↦ rw e (refl, ((λ q. refl), h))
      | inr e ↦ elim (Bool-cases (ltb limit units)) [
        | inl m ↦
            let over : leb (used_of rows k + units) limit ≡ false = ground arith in
            rw e (rw m (rw over (refl, ((λ q. refl), h))))
        | inr m ↦ rw e (rw m (ap usage_done granted, after))
      ]
    ]
