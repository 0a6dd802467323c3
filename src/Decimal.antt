-- ===== src/Decimal.antt =====
-- `str` of a natural number, as the f-strings of worker/background_worker.py print one.
pub mod Value
use tc_backend.ClaimLog.{Text}
use tc_backend.Prelude.{
  ℕ, zero, suc, ◌+◌, ◌-◌, ◌*◌, ◌/◌, ◌%◌, ◌≤◌, ◌<◌, ◌≡◌, refl, sym, ap, subst, ◌∙◌, ◌≢◌, ◌⊎◌, inl,
  inr, Bool, true, false, not, ◌&&◌, ◌||◌, Option, none, some, List, [], ◌∷◌, ◌++◌, map, arith,
  String, str_eq, eq_iff, ltb, leb, ◌==◌, ==_iff, if◌then◌else◌, Bool-cases, Option-cases, is_null,
  null_lt, null_eq, or_default, length, take, drop, first, All, Has, Unique, All-take, Unique-take,
  All-map,
}

-- the decimal digits of a number; a number has fewer digits than its successor's value
unfoldable pub decimal_fuel : ℕ → ℕ → Text
decimal_fuel zero n = []
decimal_fuel (suc fuel) n =
    let more = decimal_fuel fuel (n / 10) in
    if ltb n 10 then (n + 48) ∷ [] else more ++ (n % 10 + 48) ∷ []

unfoldable pub decimal : ℕ → Text
unfolding decimal_fuel
decimal n = decimal_fuel (suc n) n
