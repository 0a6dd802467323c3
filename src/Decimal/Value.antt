-- ===== src/Decimal/Value.antt =====
-- The digits of a number are digits, and give the number back.
use tc_backend.Table.Rows.{All-append}
use tc_backend.HttpRange.{is_empty, decimal_value}
use tc_backend.WorkerStatus.{is_digit}
use tc_backend.Decimal.{decimal_fuel, decimal}
use tc_backend.ClaimLog.{Text}
use tc_backend.Prelude.{
  ℕ, zero, suc, ◌+◌, ◌-◌, ◌*◌, ◌/◌, ◌%◌, ◌<◌, ◌≡◌, refl, ◌∙◌, inl, inr, true, false, [], ◌∷◌, ◌++◌,
  arith, ltb, Bool-cases, All,
}

decimal_value-append :
    (xs : Text) (acc d : ℕ)
    → decimal_value acc (xs ++ d ∷ []) ≡ decimal_value acc xs * 10 + (d - 48)
unfolding decimal_value
decimal_value-append [] acc d = refl
decimal_value-append (x ∷ xs) acc d = decimal_value-append xs (acc * 10 + (x - 48)) d

digit : (n : ℕ) → n < 10 → is_digit (n + 48) ≡ true
unfolding is_digit
digit n h = ground arith

decimal_fuel-All : (fuel n : ℕ) → All (λ c. is_digit c ≡ true) (decimal_fuel fuel n)
unfolding decimal_fuel
decimal_fuel-All zero n = tt
decimal_fuel-All (suc fuel) n = elim (Bool-cases (ltb n 10)) [
  | inl e ↦ rw e (digit n (ground arith), tt)
  | inr e ↦ rw e (
      All-append _ (decimal_fuel fuel (n / 10)) _ (decimal_fuel-All fuel (n / 10))
        (digit (n % 10) (omega arith), tt))
]

decimal_fuel-value : (fuel n : ℕ) → n < fuel → decimal_value 0 (decimal_fuel fuel n) ≡ n
unfolding decimal_fuel
decimal_fuel-value zero n h = absurd (omega arith)
decimal_fuel-value (suc fuel) n h = elim (Bool-cases (ltb n 10)) [
  | inl e ↦ rw e (unfold decimal_value in omega arith)
  | inr e ↦
      let smaller : n / 10 < fuel = ground arith in
      rw e (
        decimal_value-append (decimal_fuel fuel (n / 10)) 0 (n % 10 + 48)
        ∙ rw (decimal_fuel-value fuel (n / 10) smaller) (omega arith))
]

pub decimal-All : (n : ℕ) → All (λ c. is_digit c ≡ true) (decimal n)
unfolding decimal
decimal-All n = decimal_fuel-All (suc n) n

pub decimal-value : (n : ℕ) → decimal_value 0 (decimal n) ≡ n
unfolding decimal
decimal-value n = decimal_fuel-value (suc n) n (omega arith)

is_empty-append : (xs : Text) (c : ℕ) → is_empty (xs ++ c ∷ []) ≡ false
is_empty-append [] c = refl
is_empty-append (x ∷ xs) c = refl

pub decimal-ne-empty : (n : ℕ) → is_empty (decimal n) ≡ false
unfolding decimal decimal_fuel
decimal-ne-empty n = elim (Bool-cases (ltb n 10)) [
  | inl e ↦ rw e refl
  | inr e ↦ rw e (is_empty-append (decimal_fuel n (n / 10)) (n % 10 + 48))
]
