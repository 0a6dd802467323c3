-- ===== src/Watcher/Stable.antt =====
-- A file counts as complete only after sizes that do not change.
use tc_backend.Watcher.{
  wait_until_stable, stable_checks, gone, locked_file, sized, Observation, is_repeated,
  watch_rounds,
}
use tc_backend.Prelude.{
  ℕ, zero, suc, ◌+◌, ◌≤◌, ◌<◌, ◌≡◌, refl, sym, ◌∙◌, ◌⊎◌, inl, inr, Bool, true, false, ◌&&◌, List,
  [], ◌∷◌, arith, ltb, leb, ◌==◌, if◌then◌else◌, Bool-cases, first,
}

-- the sizes of the first attempts, latest first
abbrev pub sizes_seen : (ℕ → Observation) → ℕ → List ℕ
sizes_seen observe zero = []
sizes_seen observe (suc n) = elim (observe n) [
  | gone ↦ sizes_seen observe n
  | locked_file ↦ sizes_seen observe n
  | sized size ↦ size ∷ sizes_seen observe n
]

-- how often in a row the latest size is that of the attempt before it
abbrev repeats : List ℕ → ℕ
repeats [] = 0
repeats (s ∷ []) = 0
repeats (s ∷ t ∷ older) = if s == t && ltb 0 s then suc (repeats (t ∷ older)) else 0

abbrev pub IsSteady : (ℕ → Observation) → ℕ → Type 0
IsSteady observe limit =
    (n : ℕ) × (s : ℕ) × (older : List ℕ) × (n ≤ limit)
    × (0 < s)
    × (sizes_seen observe n ≡ s ∷ s ∷ s ∷ s ∷ older)

repeats-next :
    (size : ℕ) (seen : List ℕ)
    → repeats (size ∷ seen) ≡ (if is_repeated (first seen) size then suc (repeats seen) else 0)
unfolding is_repeated
repeats-next size [] = refl
repeats-next size (s ∷ []) = refl
repeats-next size (s ∷ t ∷ older) = refl

repeats-shape :
    (seen : List ℕ)
    → 3 ≤ repeats seen
    → (s : ℕ) × (older : List ℕ) × (0 < s) × (seen ≡ s ∷ s ∷ s ∷ s ∷ older)
repeats-shape [] h = absurd (omega arith)
repeats-shape (a ∷ []) h = absurd (omega arith)
repeats-shape (a ∷ b ∷ []) h = absurd (ground arith)
repeats-shape (a ∷ b ∷ c ∷ []) h = absurd (ground arith)
repeats-shape (a ∷ b ∷ c ∷ d ∷ older) h =
    let ab : b ≡ a = ground arith in
    let bc : c ≡ a = ground arith in
    let cd : d ≡ a = ground arith in
    let positive : 0 < a = ground arith in (a, older, positive, rw (ab, bc, cd) refl)

Observation-cases :
    (o : Observation) → (o ≡ gone) ⊎ ((o ≡ locked_file) ⊎ ((size : ℕ) × (o ≡ sized size)))
Observation-cases gone = inl refl
Observation-cases locked_file = inr (inl refl)
Observation-cases (sized size) = inr (inr (size, refl))

IsSteady-weaken :
    (observe : ℕ → Observation) (limit other : ℕ)
    → limit ≡ other
    → IsSteady observe limit
    → IsSteady observe other
IsSteady-weaken observe limit other e h = rw (← e) h

-- The loop looks on from the sizes that it has seen.
abbrev looks : ℕ → (ℕ → Observation) → ℕ → List ℕ → Bool
looks rounds observe attempt seen = watch_rounds rounds observe attempt (first seen) (repeats seen)

looks-gone :
    (rounds : ℕ) (observe : ℕ → Observation) (attempt : ℕ) (seen : List ℕ)
    → observe attempt ≡ gone
    → looks (suc rounds) observe attempt seen ≡ false
unfolding watch_rounds
looks-gone rounds observe attempt seen o = rw (o, watch_rounds) refl

looks-locked :
    (rounds : ℕ) (observe : ℕ → Observation) (attempt : ℕ) (seen : List ℕ)
    → observe attempt ≡ locked_file
    → looks (suc rounds) observe attempt seen ≡ looks rounds observe (suc attempt) seen
unfolding watch_rounds
looks-locked rounds observe attempt seen o = rw (o, watch_rounds) refl

looks-sized :
    (rounds : ℕ) (observe : ℕ → Observation) (attempt size : ℕ) (seen : List ℕ)
    → observe attempt ≡ sized size
    → looks (suc rounds) observe attempt seen ≡ (
        if is_repeated (first seen) size && leb stable_checks (repeats (size ∷ seen))
        then true
        else looks rounds observe (suc attempt) (size ∷ seen))
unfolding watch_rounds
looks-sized rounds observe attempt size seen o =
    rw (o, watch_rounds) (rw (repeats-next size seen) refl)

looks_lem :
    (rounds : ℕ) (observe : ℕ → Observation) (attempt : ℕ)
    → looks rounds observe attempt (sizes_seen observe attempt) ≡ true
    → IsSteady observe (attempt + rounds)
looks_lem zero observe attempt e = absurd (unfold watch_rounds in ground arith)
looks_lem (suc rounds) observe attempt e =
    let seen = sizes_seen observe attempt in
    elim (Observation-cases (observe attempt)) [
      | inl o ↦ absurd (let no = looks-gone rounds observe attempt seen o in ground arith)
      | inr (inl o) ↦
          let same : sizes_seen observe (suc attempt) ≡ seen = rw (o, sizes_seen) refl in
          IsSteady-weaken observe (suc attempt + rounds) _ (omega arith) (
            looks_lem rounds observe (suc attempt)
              (rw same (sym (looks-locked rounds observe attempt seen o) ∙ e)))
      | inr (inr (size, o)) ↦
          let more : sizes_seen observe (suc attempt) ≡ size ∷ seen = rw (o, sizes_seen) refl in
          let step = sym (looks-sized rounds observe attempt size seen o) ∙ e in
          elim (Bool-cases
            (is_repeated (first seen) size && leb stable_checks (repeats (size ∷ seen)))) [
              | inl t ↦
                  let (s, older, positive, shape) = repeats-shape (size ∷ seen) (ground arith) in
                  (suc attempt, s, older, omega arith, positive, more ∙ shape)
              | inr t ↦
                  IsSteady-weaken observe (suc attempt + rounds) _ (omega arith)
                    (looks_lem rounds observe (suc attempt) (rw more (ground arith)))
            ]
    ]

-- A file that the wait lets through showed the same positive size four times in a row, among at most
-- fifteen looks; looks that could not read the size are passed over.
pub wait_until_stable_lem :
    (observe : ℕ → Observation) → wait_until_stable observe ≡ true → IsSteady observe 15
unfolding wait_until_stable
wait_until_stable_lem observe e = looks_lem 15 observe 0 e
