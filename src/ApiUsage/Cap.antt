-- ===== src/ApiUsage/Cap.antt =====
-- Sequences of calls of the repository, by any number of workers: its rows stay well formed, and the
-- reservations of a period stay under its limit.
use tc_backend.Table.Rows.{count_where}
use tc_backend.ApiUsage.{count_where, Period, UsageRow}
use tc_backend.Prelude.{◌-◌, ◌≤◌, ◌≡◌, Bool, true, ◌&&◌, str_eq}

abbrev pub is_vision : Period → Bool
is_vision k = str_eq k.provider "GOOGLE" && str_eq k.api_name "VISION"

-- The remaining units are those under the limit; of Google's VISION, 900 units at most are used.
abbrev pub IsUsage : UsageRow → Type 0
IsUsage row =
    (row.remaining_unit ≡ row.limit_unit - row.used_unit)
    × (is_vision row.period ≡ true → row.used_unit ≤ 900)
