-- ===== src/WorkerStatus.antt =====
-- app/common/models/worker_status.py, and the reading of a live worker's current job in
-- app/common/repositories/vision_job_repository.py.
use tc_backend.Prelude.{
  ℕ, ◌+◌, ◌*◌, ◌-◌, ◌≡◌, refl, Bool, true, false, not, ◌&&◌, ◌||◌, Option, none, some, List, [],
  ◌∷◌, ◌++◌, leb, ◌==◌, if◌then◌else◌, is_null,
}
use tc_backend.Table.Rows.{select, map_some}
use tc_backend.ClaimLog.{Text, codes, is_space, after_prefix}

pub record WorkerStatus : Type 0 where
  pub worker_name : Text
  pub status : Text
  pub last_heartbeat : Option ℕ
  pub current_job_id : Option Text

unfoldable pub text_eq : Text → Text → Bool
text_eq [] [] = true
text_eq [] (d ∷ ds) = false
text_eq (c ∷ cs) [] = false
text_eq (c ∷ cs) (d ∷ ds) = c == d && text_eq cs ds

unfoldable pub is_digit : ℕ → Bool
is_digit c = leb 48 c && leb c 57

unfoldable pub strip_left : Text → Text
strip_left [] = []
strip_left (c ∷ cs) = let rest = strip_left cs in if is_space c then rest else c ∷ cs

-- what stands before trailing white space
unfoldable pub strip_right : Text → Text
strip_right [] = []
strip_right (c ∷ cs) = elim (strip_right cs) [
  | [] ↦ if is_space c then [] else c ∷ []
  | d ∷ ds ↦ c ∷ d ∷ ds
]

-- Decimal digits, single underscores between them; the flag says that a digit must follow.
unfoldable pub digits_value : Bool → ℕ → Text → Option ℕ
unfolding is_digit
digits_value true acc [] = none
digits_value false acc [] = some acc
digits_value must acc (c ∷ cs) =
    let digit = digits_value false (acc * 10 + (c - 48)) cs in
    let under = digits_value true acc cs in
    if is_digit c then digit else if c == 95 && not must then under else none

-- Python's `int(text)` over ASCII digits: the sign, and the absolute value.
unfoldable pub int_of_text : Text → Option (Bool × ℕ)
unfolding strip_left strip_right digits_value
int_of_text text = elim (strip_right (strip_left text)) [
  | [] ↦ none
  | c ∷ cs ↦
      if c == 45
      then map_some (λ n. (true, n)) (digits_value true 0 cs)
      else if c == 43
      then map_some (λ n. (false, n)) (digits_value true 0 cs)
      else map_some (λ n. (false, n)) (digits_value true 0 (c ∷ cs))
]

-- the integer is the number
abbrev pub is_int : Option (Bool × ℕ) → ℕ → Bool
is_int none id = false
is_int (some (negative, n)) id = n == id && (not negative || n == 0)

-- `worker_name == prefix or worker_name LIKE 'prefix-%'`, for a prefix with no LIKE wildcard
unfoldable pub is_worker_of : Text → Text → Bool
unfolding text_eq after_prefix
is_worker_of prefix name =
    text_eq name prefix || not (is_null (after_prefix (prefix ++ codes "-") name))

-- the conditions on a row of common_worker_status that protects a job
unfoldable pub is_live : Text → ℕ → WorkerStatus → Bool
unfolding is_worker_of
is_live prefix live_after w =
    text_eq w.status (codes "RUNNING")
    && ((elim w.last_heartbeat [ none ↦ false | some t ↦ leb live_after t ])
        && (not (is_null w.current_job_id) && is_worker_of prefix w.worker_name))

abbrev pub names_job : ℕ → WorkerStatus → Bool
names_job id w = elim w.current_job_id [ none ↦ false | some text ↦ is_int (int_of_text text) id ]

unfoldable pub any {ℓ} : {A : Type ℓ} → (A → Bool) → List A → Bool
any p [] = false
any p (x ∷ xs) = p x || any p xs

-- membership in the set that `_live_processing_job_ids` returns
unfoldable pub is_protected : Text → ℕ → List WorkerStatus → ℕ → Bool
unfolding any select is_live int_of_text
is_protected prefix live_after workers id =
    any (names_job id) (select (is_live prefix live_after) workers)

reads_current_job :
    (int_of_text (codes " +1_024 ") ≡ some (false, 1024))
    × (int_of_text (codes "1__0") ≡ none)
    × (int_of_text (codes "-7") ≡ some (true, 7))
    × (int_of_text (codes "job") ≡ none)
unfolding int_of_text is_space
reads_current_job = (refl, refl, refl, refl)
