-- ===== src/ApiUsage.antt =====
-- app/common/repositories/api_usage_repository.py and app/common/models/api_usage.py: the monthly
-- allowance of each external service.
pub mod Keys
pub mod Reserve
pub mod Cap
pub mod Granted
use tc_backend.Table.Rows.{first_where, update_where, count_where}
use tc_backend.Prelude.{
  ℕ, zero, suc, ◌+◌, ◌-◌, ◌*◌, ◌/◌, ◌%◌, ◌≤◌, ◌<◌, ◌≡◌, refl, sym, ap, subst, ◌∙◌, ◌≢◌, ◌⊎◌, inl,
  inr, Bool, true, false, not, ◌&&◌, ◌||◌, Option, none, some, List, [], ◌∷◌, ◌++◌, map, arith,
  String, str_eq, eq_iff, ltb, leb, ◌==◌, ==_iff, if◌then◌else◌, Bool-cases, Option-cases, is_null,
  null_lt, null_eq, or_default, length, take, drop, first, All, Has, Unique, All-take, Unique-take,
  All-map,
}

-- a configured limit, which may be negative
pub data ℤ : Type 0 where
  pos : ℕ → ℤ
  negsuc : ℕ → ℤ

-- the columns of the unique constraint
pub record Period : Type 0 where
  pub provider : String
  pub api_name : String
  pub year : ℕ
  pub month : ℕ

-- `CommonApiUsage`; `id`, `created_at` and `updated_at` are read nowhere in the repository class.
pub record UsageRow : Type 0 where
  pub period : Period
  pub used_unit : ℕ
  pub limit_unit : ℕ
  pub remaining_unit : ℕ
  pub last_called_at : Option ℕ
  pub deleted : Bool

-- the `*_MONTHLY_LIMIT` settings of app/common/config.py
pub record MonthlyLimits : Type 0 where
  pub vision : ℤ
  pub geocoding : ℤ
  pub weather : ℤ
  pub platesolve : ℤ

-- the clock's year and month, and the moment itself
pub record Clock : Type 0 where
  pub this_year : ℕ
  pub this_month : ℕ
  pub moment : ℕ

pub data Dialect : Type 0 where
  postgresql sqlite generic_dialect : Dialect

-- ValueError, ApiUsageLimitExceeded, and the IntegrityError of an INSERT of a second row for a period
pub data UsageError : Type 0 where
  units_too_few limit_exceeded duplicate_period : UsageError

pub data UsageResult (A : Type 0) : Type 0 where
  usage_failed : UsageError → UsageResult A
  usage_done : A → UsageResult A

abbrev pub vision_safe_monthly_limit : ℕ
vision_safe_monthly_limit = 900

-- `max(0, configured_limit)`
unfoldable pub clamp : ℤ → ℕ
clamp (pos n) = n
clamp (negsuc n) = 0

unfoldable pub configured_limit : MonthlyLimits → String → ℤ
configured_limit settings api_name =
    if str_eq api_name "VISION"
    then settings.vision
    else if str_eq api_name "GEOCODING"
    then settings.geocoding
    else if str_eq api_name "PLACES"
    then settings.geocoding
    else if str_eq api_name "WEATHER"
    then settings.weather
    else if str_eq api_name "PLATESOLVE"
    then settings.platesolve
    else pos 0

-- `effective_limit`, where nothing is configured by the caller
unfoldable pub effective_limit : MonthlyLimits → String → ℕ
unfolding configured_limit clamp
effective_limit settings api_name =
    let limit = clamp (configured_limit settings api_name) in
    if str_eq api_name "VISION"
    then (if leb limit vision_safe_monthly_limit then limit else vision_safe_monthly_limit)
    else limit

-- the period of a call, whose year and month are this month's unless they are given
unfoldable pub target_period : String → String → Option ℕ → Option ℕ → Clock → Period
target_period provider api_name year month now = record {
  provider = provider;
  api_name = api_name;
  year = or_default year now.this_year;
  month = or_default month now.this_month;
}

unfoldable pub same_period : Period → Period → Bool
same_period p q =
    str_eq p.provider q.provider
    && (str_eq p.api_name q.api_name && (p.year == q.year && p.month == q.month))

unfoldable pub is_period : Period → UsageRow → Bool
unfolding same_period
is_period k row = same_period row.period k

unfoldable pub new_usage : Period → ℕ → UsageRow
new_usage k limit = record {
  period = k;
  used_unit = 0;
  limit_unit = limit;
  remaining_unit = limit;
  last_called_at = none;
  deleted = false;
}

-- INSERT ... ON CONFLICT DO NOTHING on the columns of the period
unfoldable pub create_if_absent : Period → ℕ → List UsageRow → List UsageRow
unfolding is_period new_usage count_where
create_if_absent k limit rows =
    if count_where (is_period k) rows == 0 then rows ++ new_usage k limit ∷ [] else rows

unfoldable pub initialize_period : Dialect → Period → ℕ → List UsageRow → List UsageRow
unfolding create_if_absent
initialize_period postgresql k limit rows = create_if_absent k limit rows
initialize_period sqlite k limit rows = create_if_absent k limit rows
initialize_period generic_dialect k limit rows = rows

-- the WHERE clauses and the values of the conditional UPDATE
unfoldable pub has_quota : Period → ℕ → ℕ → UsageRow → Bool
unfolding is_period
has_quota k units limit row = is_period k row && leb (row.used_unit + units) limit

unfoldable pub take_quota : ℕ → ℕ → ℕ → UsageRow → UsageRow
take_quota units limit moment row = record row {
  used_unit = row.used_unit + units;
  limit_unit = limit;
  remaining_unit = limit - (row.used_unit + units);
  last_called_at = some moment;
  deleted = false;
}

-- `reserve_usage` from the INSERT on: whether one row was updated, and the rows
unfoldable pub reserve_period : Dialect → Period → ℕ → ℕ → ℕ → List UsageRow → Bool × List UsageRow
unfolding initialize_period has_quota take_quota count_where update_where
reserve_period dialect k units limit moment rows =
    let ready = initialize_period dialect k limit rows in
    (
      count_where (has_quota k units limit) ready == 1,
      update_where (has_quota k units limit) (take_quota units limit moment) ready,
    )

unfoldable pub reserve_usage :
    MonthlyLimits
    → Dialect
    → Clock
    → String
    → String
    → ℕ
    → Option ℕ
    → Option ℕ
    → List UsageRow
    → UsageResult Bool × List UsageRow
unfolding effective_limit target_period reserve_period
reserve_usage settings dialect now provider api_name units year month rows =
    let limit = effective_limit settings api_name in
    let k = target_period provider api_name year month now in
    let (reserved, after) = reserve_period dialect k units limit now.moment rows in
    if ltb units 1
    then (usage_failed units_too_few, rows)
    else if ltb limit units
    then (usage_done false, rows)
    else (usage_done reserved, after)

-- the limit is configured anew
unfoldable pub refresh_limit : ℕ → UsageRow → UsageRow
refresh_limit limit row =
    if row.limit_unit == limit
    then row
    else record row { limit_unit = limit; remaining_unit = limit - row.used_unit }

-- the row that a query of `_get_or_create` finds
unfoldable pub is_live_period : Period → UsageRow → Bool
unfolding is_period
is_live_period k row = not row.deleted && is_period k row

-- what `_get_or_create` does with the row that it finds or misses; an object that was loaded is
-- written as the row of its period
unfoldable pub load_or_create :
    Period → ℕ → List UsageRow → Option UsageRow → UsageResult UsageRow × List UsageRow
unfolding is_live_period refresh_limit new_usage is_period count_where update_where
load_or_create k limit rows (some row) = (
  usage_done (refresh_limit limit row),
  update_where (is_live_period k) (refresh_limit limit) rows,
)
load_or_create k limit rows none =
    if count_where (is_period k) rows == 0
    then (usage_done (new_usage k limit), rows ++ new_usage k limit ∷ [])
    else (usage_failed duplicate_period, rows)

-- `_get_or_create`
unfoldable pub get_period : Period → ℕ → List UsageRow → UsageResult UsageRow × List UsageRow
unfolding load_or_create is_live_period first_where
get_period k limit rows = load_or_create k limit rows (first_where (is_live_period k) rows)

unfoldable pub get_usage :
    MonthlyLimits
    → Clock
    → String
    → String
    → Option ℕ
    → Option ℕ
    → List UsageRow
    → UsageResult UsageRow × List UsageRow
unfolding effective_limit target_period get_period
get_usage settings now provider api_name year month rows =
    get_period (target_period provider api_name year month now) (effective_limit settings api_name)
      rows

-- what a function makes of the value of a call that does not fail
unfoldable pub map_result : {A B : Type 0} → (A → B) → UsageResult A → UsageResult B
map_result f (usage_failed e) = usage_failed e
map_result f (usage_done a) = usage_done (f a)

unfoldable pub remaining :
    MonthlyLimits
    → Clock
    → String
    → String
    → Option ℕ
    → Option ℕ
    → List UsageRow
    → UsageResult ℕ × List UsageRow
unfolding get_usage map_result
remaining settings now provider api_name year month rows =
    let (result, after) = get_usage settings now provider api_name year month rows in
    (map_result (λ row. row.limit_unit - row.used_unit) result, after)

unfoldable pub can_use :
    MonthlyLimits
    → Clock
    → String
    → String
    → ℕ
    → Option ℕ
    → Option ℕ
    → List UsageRow
    → UsageResult Bool × List UsageRow
unfolding remaining map_result
can_use settings now provider api_name units year month rows =
    let (result, after) = remaining settings now provider api_name year month rows in
    (map_result (λ left. leb units left) result, after)

-- the values that `increase_usage` writes without a reservation
unfoldable pub add_usage : ℕ → ℕ → UsageRow → UsageRow
add_usage units moment row = record row {
  used_unit = row.used_unit + units;
  remaining_unit = row.limit_unit - (row.used_unit + units);
  last_called_at = some moment;
}

-- `increase_usage` after the row of the period was loaded or not
unfoldable pub write_usage :
    Period → ℕ → ℕ → UsageResult UsageRow → List UsageRow → UsageResult UsageRow × List UsageRow
unfolding add_usage is_live_period update_where
write_usage k units moment (usage_failed e) rows = (usage_failed e, rows)
write_usage k units moment (usage_done row) rows = (
  usage_done (add_usage units moment row),
  update_where (is_live_period k) (add_usage units moment) rows,
)

-- `increase_usage` of a service that is not reserved
unfoldable pub add_to_period :
    Period → ℕ → ℕ → ℕ → List UsageRow → UsageResult UsageRow × List UsageRow
unfolding get_period write_usage
add_to_period k limit units moment rows =
    let (result, after) = get_period k limit rows in write_usage k units moment result after

-- `increase_usage` of Google's VISION after the reservation
unfoldable pub after_reservation :
    UsageResult Bool
    → UsageResult UsageRow × List UsageRow
    → List UsageRow
    → UsageResult UsageRow × List UsageRow
after_reservation (usage_failed e) usage rows = (usage_failed e, rows)
after_reservation (usage_done false) usage rows = (usage_failed limit_exceeded, rows)
after_reservation (usage_done true) usage rows = usage

unfoldable pub increase_usage :
    MonthlyLimits
    → Dialect
    → Clock
    → String
    → String
    → ℕ
    → Option ℕ
    → Option ℕ
    → List UsageRow
    → UsageResult UsageRow × List UsageRow
unfolding reserve_usage get_usage add_to_period target_period effective_limit after_reservation
increase_usage settings dialect now provider api_name units year month rows =
    let (result, after) =
      reserve_usage settings dialect now provider api_name units year month rows in
    if str_eq provider "GOOGLE" && str_eq api_name "VISION"
    then after_reservation result (get_usage settings now provider api_name year month after) after
    else add_to_period (target_period provider api_name year month now)
        (effective_limit settings api_name) units now.moment rows

-- A call of the repository, with its arguments and the time it is made at
pub record UsageRequest : Type 0 where
  pub now : Clock
  pub provider : String
  pub api_name : String
  pub units : ℕ
  pub year : Option ℕ
  pub month : Option ℕ

pub data UsageCall : Type 0 where
  reserve_call increase_call get_call remaining_call can_use_call : UsageRequest → UsageCall

-- the rows after a call
unfoldable pub run_call : MonthlyLimits → Dialect → UsageCall → List UsageRow → List UsageRow
unfolding reserve_usage increase_usage get_usage remaining can_use
run_call settings dialect (reserve_call q) rows =
    (reserve_usage settings dialect q.now q.provider q.api_name q.units q.year q.month rows).1
run_call settings dialect (increase_call q) rows =
    (increase_usage settings dialect q.now q.provider q.api_name q.units q.year q.month rows).1
run_call settings dialect (get_call q) rows =
    (get_usage settings q.now q.provider q.api_name q.year q.month rows).1
run_call settings dialect (remaining_call q) rows =
    (remaining settings q.now q.provider q.api_name q.year q.month rows).1
run_call settings dialect (can_use_call q) rows =
    (can_use settings q.now q.provider q.api_name q.units q.year q.month rows).1

unfoldable pub run_calls : MonthlyLimits → Dialect → List UsageCall → List UsageRow → List UsageRow
unfolding run_call
run_calls settings dialect [] rows = rows
run_calls settings dialect (call ∷ calls) rows =
    run_calls settings dialect calls (run_call settings dialect call rows)
