-- ===== src/Priority.antt =====
-- app/common/services/priority_calculator.py, with times in microseconds since the epoch in UTC.
use tc_backend.Prelude.{
  ℕ, ◌+◌, ◌-◌, ◌*◌, ◌/◌, ◌≤◌, ◌≡◌, Bool, true, false, Option, none, some, arith, leb, ◌==◌,
  if◌then◌else◌,
}
use Prim.Native.Nat.{min, max}

abbrev pub day : ℕ
day = 86400000000

-- `_is_same_day`
unfoldable pub is_same_day : ℕ → ℕ → Bool
is_same_day left right = left / day == right / day

abbrev pub upload_bonus : Option ℕ → ℕ → ℕ
upload_bonus none current = 0
upload_bonus (some uploaded) current =
    if is_same_day uploaded current then 50 else if leb (current - 30 * day) uploaded then 30 else 0

unfoldable pub calculate : Option ℕ → Bool → Bool → Bool → ℕ → Option ℕ
calculate uploaded_at has_gps is_favorite vision_completed current =
    if vision_completed
    then none
    else let priority =
        upload_bonus uploaded_at current
        + ((if has_gps then 0 else 20) + (if is_favorite then 30 else 0)) in
      some (max 0 (min 100 priority))

-- A completed analysis gets no priority; any other file gets one from 0 to 100, which is the sum of
-- the bonuses: the policy never reaches the upper bound.
pub calculate_bounds :
    (uploaded_at : Option ℕ) (has_gps is_favorite : Bool) (current : ℕ)
    → (calculate uploaded_at has_gps is_favorite true current ≡ none)
      × (calculate uploaded_at has_gps is_favorite false current
          ≡ some (
              upload_bonus uploaded_at current
              + ((if has_gps then 0 else 20) + (if is_favorite then 30 else 0))))
      × (upload_bonus uploaded_at current
            + ((if has_gps then 0 else 20) + (if is_favorite then 30 else 0))
          ≤ 100)
unfolding calculate
calculate_bounds uploaded_at has_gps is_favorite current =
    (ground arith, ground arith, ground arith)
