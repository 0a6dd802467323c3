-- ===== src/ApiUsage/Granted.antt =====
-- The units that a sequence of reservations was granted, by any number of workers.
use tc_backend.ApiUsage.Keys.{used_of, OnePerPeriod, same_period_lem}
use tc_backend.ApiUsage.Reserve.{reserve_usage-abstract_reserve, abstract_reserve}
use tc_backend.ApiUsage.{
  generic_dialect, reserve_usage, same_period, UsageRow, usage_failed, effective_limit,
  target_period, Dialect, usage_done, UsageResult, UsageRequest, MonthlyLimits, Period,
}
use tc_backend.Prelude.{
  ℕ, ◌+◌, ◌≤◌, ◌≡◌, refl, subst, ◌∙◌, ◌≢◌, ◌⊎◌, inl, inr, Bool, true, false, ◌&&◌, List, [], ◌∷◌,
  arith, ltb, leb, if◌then◌else◌, Bool-cases,
}

abbrev pub is_granted : UsageResult Bool → Bool
is_granted (usage_done true) = true
is_granted (usage_done false) = false
is_granted (usage_failed e) = false

abbrev pub request_period : UsageRequest → Period
request_period q = target_period q.provider q.api_name q.year q.month q.now

abbrev pub reserve_request :
    MonthlyLimits → Dialect → UsageRequest → List UsageRow → UsageResult Bool × List UsageRow
reserve_request settings dialect q rows =
    reserve_usage settings dialect q.now q.provider q.api_name q.units q.year q.month rows

-- the rows after the reservations of a list
abbrev pub reserve_requests :
    MonthlyLimits → Dialect → List UsageRequest → List UsageRow → List UsageRow
reserve_requests settings dialect [] rows = rows
reserve_requests settings dialect (q ∷ qs) rows =
    reserve_requests settings dialect qs (reserve_request settings dialect q rows).1

-- the units that they were granted in a period
abbrev pub granted_units : MonthlyLimits → Dialect → Period → List UsageRequest → List UsageRow → ℕ
granted_units settings dialect k [] rows = 0
granted_units settings dialect k (q ∷ qs) rows =
    let (result, after) = reserve_request settings dialect q rows in
    (if is_granted result && same_period (request_period q) k then q.units else 0)
    + granted_units settings dialect k qs after

-- The abstract reservation counts what it grants.
abstract_reserve_lem :
    (k q : Period) (limit units : ℕ) (ledger : Period → ℕ)
    → (abstract_reserve k limit units ledger).1 q
      ≡ ledger q
        + (if is_granted (abstract_reserve k limit units ledger).0 && same_period k q
            then units
            else 0)
abstract_reserve_lem k q limit units ledger = elim (Bool-cases (ltb units 1)) [
  | inl e ↦ rw e (omega arith)
  | inr e ↦ elim (Bool-cases (leb (ledger k + units) limit)) [
    | inl f ↦
        rw (e, f)
          (elim (Bool-cases (same_period k q)) [ inl t ↦ rw t refl | inr t ↦ rw t (omega arith) ])
    | inr f ↦ rw (e, f) (omega arith)
  ]
]

-- A reservation leaves a period's units as they are, or at most the limit.
abstract_reserve_bound :
    (settings : MonthlyLimits) (k q : Period) (units : ℕ) (ledger : Period → ℕ)
    → ((abstract_reserve k (effective_limit settings k.api_name) units ledger).1 q ≡ ledger q)
      ⊎ ((abstract_reserve k (effective_limit settings k.api_name) units ledger).1 q
          ≤ effective_limit settings q.api_name)
abstract_reserve_bound settings k q units ledger = elim (Bool-cases (ltb units 1)) [
  | inl e ↦ rw e (inl refl)
  | inr e ↦ elim (Bool-cases (leb (ledger k + units) (effective_limit settings k.api_name))) [
    | inl f ↦
        rw (e, f)
          (elim (Bool-cases (same_period k q)) [
            | inl t ↦
                let same : k ≡ q = (same_period_lem k q).0 t in
                let fits : ledger k + units ≤ effective_limit settings k.api_name = ground arith in
                rw t (
                  inr
                    (subst (λ p. ledger p + units ≤ effective_limit settings p.api_name) same fits))
            | inr t ↦ rw t (inl refl)
          ])
    | inr f ↦ rw (e, f) (inl refl)
  ]
]

-- The limit of the period of a call is that of its service.
request_limit :
    (settings : MonthlyLimits) (q : UsageRequest) → (request_period q).api_name ≡ q.api_name
unfolding target_period
request_limit settings q = refl

reserve_request_lem :
    (settings : MonthlyLimits) (dialect : Dialect) (q : UsageRequest) (k : Period)
    (rows : List UsageRow)
    → dialect ≢ generic_dialect
    → OnePerPeriod rows
    → let (result, after) = reserve_request settings dialect q rows in
      (used_of after k
        ≡ used_of rows k
          + (if is_granted result && same_period (request_period q) k then q.units else 0))
      × ((used_of after k ≡ used_of rows k)
          ⊎ (used_of after k ≤ effective_limit settings k.api_name))
      × OnePerPeriod after
reserve_request_lem settings dialect q k rows d h =
    let (answer, (kept, one)) =
      reserve_usage-abstract_reserve settings dialect q.now q.provider q.api_name q.units q.year
        q.month rows d h in
    (
      kept k
          ∙ rw answer (
              abstract_reserve_lem (request_period q) k (effective_limit settings q.api_name)
                q.units (used_of rows)),
      rw (kept k) (
          unfold target_period in
          abstract_reserve_bound settings (request_period q) k q.units (used_of rows)),
      one,
    )

unchanged_or_bounded :
    (a b c limit : ℕ) → (b ≡ a) ⊎ (b ≤ limit) → (c ≡ b) ⊎ (c ≤ limit) → (c ≡ a) ⊎ (c ≤ limit)
unchanged_or_bounded a b c limit h (inr g) = inr g
unchanged_or_bounded a b c limit (inl h) (inl g) = inl (g ∙ h)
unchanged_or_bounded a b c limit (inr h) (inl g) = inr (rw g h)

-- On PostgreSQL and SQLite, over rows with at most one for each period: after any sequence of
-- reservations, by any number of workers and of any services, a period's used units are those before
-- plus exactly the units that were granted in it, also where a lowered limit is below them already;
-- and they are either unchanged, or at most the period's effective limit.
pub reserve_requests-granted_units :
    (settings : MonthlyLimits) (dialect : Dialect) (k : Period) (qs : List UsageRequest)
    (rows : List UsageRow)
    → dialect ≢ generic_dialect
    → OnePerPeriod rows
    → (used_of (reserve_requests settings dialect qs rows) k
        ≡ used_of rows k + granted_units settings dialect k qs rows)
      × ((used_of (reserve_requests settings dialect qs rows) k ≡ used_of rows k)
          ⊎ (used_of (reserve_requests settings dialect qs rows) k
              ≤ effective_limit settings k.api_name))
reserve_requests-granted_units settings dialect k [] rows d h = (omega arith, inl refl)
reserve_requests-granted_units settings dialect k (q ∷ qs) rows d h =
    let (step, bound, one) = reserve_request_lem settings dialect q k rows d h in
    let (rest, final) =
      reserve_requests-granted_units settings dialect k qs
        (reserve_request settings dialect q rows).1 d one in
    (rest ∙ rw step (omega arith), unchanged_or_bounded _ _ _ _ bound final)
