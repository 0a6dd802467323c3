-- ===== src/Examples/Usage.antt =====
-- The usage limits at a table with a row of Google's VISION.
use tc_backend.ApiUsage.Reserve.{reserve_usage-abstract_reserve, Keeps, abstract_reserve}
use tc_backend.ApiUsage.Granted.{
  reserve_requests-granted_units, granted_units, reserve_requests, reserve_request,
}
use tc_backend.ApiUsage.Keys.{used_of, OnePerPeriod}
use tc_backend.Table.Rows.{first_where, count_where}
use tc_backend.ApiUsage.{
  usage_done, sqlite, negsuc, pos, is_period, postgresql, reserve_period, UsageRow, UsageRequest,
  reserve_usage, MonthlyLimits, effective_limit, Clock, target_period,
}
use tc_backend.Prelude.{◌⊎◌, ◌+◌, ◌≤◌, ◌≡◌, refl, true, false, none, some, [], ◌∷◌, arith}

abbrev settings : MonthlyLimits
settings = record { vision = pos 2000; geocoding = pos 100; weather = negsuc 4; platesolve = pos 7 }

abbrev now : Clock
now = record { this_year = 2026; this_month = 3; moment = 50 }

abbrev used_row : UsageRow
used_row = record {
  period = record { provider = "GOOGLE"; api_name = "VISION"; year = 2026; month = 3 };
  used_unit = 898;
  limit_unit = 900;
  remaining_unit = 2;
  last_called_at = some 40;
  deleted = false;
}

abbrev vision_request : UsageRequest
vision_request = record {
  now = now;
  provider = "GOOGLE";
  api_name = "VISION";
  units = 2;
  year = none;
  month = none;
}

used_row-OnePerPeriod : OnePerPeriod (used_row ∷ [])
unfolding count_where
used_row-OnePerPeriod k = ground arith

-- The first of two requests takes the last two units.
requests_run : (reserve_request settings sqlite vision_request (used_row ∷ [])).0 ≡ usage_done true
unfolding reserve_usage effective_limit target_period reserve_period
requests_run = refl

second_run :
    (reserve_request settings sqlite vision_request
      (reserve_requests settings sqlite (vision_request ∷ []) (used_row ∷ []))).0
    ≡ usage_done false
unfolding reserve_usage effective_limit target_period reserve_period
second_run = refl

reserve_usage-abstract_reserve_example :
    let k = target_period "GOOGLE" "VISION" none none now in
    let out = reserve_usage settings postgresql now "GOOGLE" "VISION" 2 none none (used_row ∷ []) in
    let abstract =
      abstract_reserve k (effective_limit settings "VISION") 2 (used_of (used_row ∷ [])) in
    (out.0 ≡ abstract.0) × Keeps out.1 abstract.1
reserve_usage-abstract_reserve_example =
    reserve_usage-abstract_reserve settings postgresql now "GOOGLE" "VISION" 2 none none
      (used_row ∷ []) (λ e. ground arith) used_row-OnePerPeriod

reserve_requests-granted_units_example :
    (used_of
        (reserve_requests settings sqlite (vision_request ∷ vision_request ∷ []) (used_row ∷ []))
        used_row.period
      ≡ 898
        + granted_units settings sqlite used_row.period
            (vision_request ∷ vision_request ∷ [])
            (used_row ∷ []))
    × ((used_of
            (reserve_requests settings sqlite
              (vision_request ∷ vision_request ∷ [])
              (used_row ∷ []))
            used_row.period
          ≡ 898)
        ⊎ (used_of
              (reserve_requests settings sqlite
                (vision_request ∷ vision_request ∷ [])
                (used_row ∷ []))
              used_row.period
            ≤ 900))
unfolding effective_limit is_period first_where
reserve_requests-granted_units_example =
    reserve_requests-granted_units settings sqlite used_row.period
      (vision_request ∷ vision_request ∷ []) (used_row ∷ []) (λ e. ground arith)
      used_row-OnePerPeriod
