-- ===== src/UploadQueue/ClaimedWorker.antt =====
-- A worker that writes its claim into the log is the worker that is read back from the log.
use tc_backend.UploadJob.{UploadJob}
use tc_backend.UploadQueue.{UploadJob, start_line, claim_line, claimed_log}
use tc_backend.Prelude.{
  or_default, ==_iff, All-map, ℕ, zero, suc, ◌+◌, ◌-◌, ◌≤◌, ◌≡◌, ◌≢◌, refl, ap, ◌∙◌, true, ◌&&◌,
  some, List, [], ◌∷◌, ◌++◌, arith, ◌==◌, length, All, inl, inr, Bool-cases, Option-cases,
}
use mathlib.Core.List.{append_assoc}
use tc_backend.Table.Rows.{All-append, map_some}
use tc_backend.ClaimLog.{
  nonempty, Text, codes, newline_mark, replace_newlines, in_worker_class, take_run, after_prefix,
  claim_prefix, claim_at, find_claims, last, extract_claimed_worker,
}

-- A written mark becomes a line feed wherever it stands.
replace-mark :
    (xs ys : Text)
    → replace_newlines (xs ++ 92 ∷ 110 ∷ ys) ≡ replace_newlines xs ++ 10 ∷ replace_newlines ys
unfolding replace_newlines
replace-mark [] ys = refl
replace-mark (c ∷ []) ys = elim (Bool-cases (c == 92)) [
  | inl e ↦ rw (e, replace_newlines)
  | inr e ↦ rw (e, replace_newlines)
]
replace-mark (c ∷ d ∷ cs) ys = elim (Bool-cases (c == 92 && d == 110)) [
  | inl e ↦ rw (e, replace_newlines) (ap (λ t. 10 ∷ t) (replace-mark cs ys))
  | inr e ↦ rw (e, replace_newlines) (ap (λ t. c ∷ t) (replace-mark (d ∷ cs) ys))
]

replace_plain : (xs : Text) → All (λ c. c ≢ 92) xs → replace_newlines xs ≡ xs
unfolding replace_newlines
replace_plain [] a = refl
replace_plain (c ∷ []) a = refl
replace_plain (c ∷ d ∷ cs) a = ground (arith, a.0, replace_plain (d ∷ cs) a.1)

-- A line feed ends a run, and is in no prefix.
take_run-line : (xs ys : Text) → take_run (xs ++ 10 ∷ ys) ≡ take_run xs
unfolding take_run in_worker_class
take_run-line [] ys = refl
take_run-line (c ∷ cs) ys = rw (take_run-line cs ys)

after_prefix-line :
    (ps xs ys : Text)
    → All (λ p. p ≢ 10) ps
    → after_prefix ps (xs ++ 10 ∷ ys) ≡ map_some (λ r. r ++ 10 ∷ ys) (after_prefix ps xs)
unfolding after_prefix
after_prefix-line [] xs ys a = refl
after_prefix-line (p ∷ ps) [] ys a = ground (arith, a.0)
after_prefix-line (p ∷ ps) (c ∷ cs) ys a = ground (arith, after_prefix-line ps cs ys a.1)

-- the prefix has no line feed
prefix_plain : All (λ p. p ≢ 10) claim_prefix
prefix_plain = omega arith

claim_at-line : (xs ys : Text) → claim_at (xs ++ 10 ∷ ys) ≡ claim_at xs
unfolding claim_at
claim_at-line xs ys =
    rw (after_prefix-line claim_prefix xs ys prefix_plain, claim_at)
      (elim (Option-cases (after_prefix claim_prefix xs)) [
        | inl e ↦ rw (e, claim_at)
        | inr (r, e) ↦ rw (e, claim_at) (rw (take_run-line r ys))
      ])

-- A match is no longer than the text.
length-take_run : (xs : Text) → length (take_run xs) ≤ length xs
unfolding take_run
length-take_run [] = omega arith
length-take_run (c ∷ cs) = ground (arith, length-take_run cs)

length-after_prefix :
    (ps xs r : Text) → after_prefix ps xs ≡ some r → length xs ≡ length ps + length r
unfolding after_prefix
length-after_prefix [] xs r h = ground arith
length-after_prefix (p ∷ ps) [] r h = absurd (ground arith)
length-after_prefix (p ∷ ps) (c ∷ cs) r h = ground (arith, length-after_prefix ps cs r)

nonempty-eq : (t w : Text) → nonempty t ≡ some w → t ≡ w
nonempty-eq [] w h = absurd (ground arith)
nonempty-eq (c ∷ cs) w h = ground arith

length-claim_at : (xs w : Text) → claim_at xs ≡ some w → 15 + length w ≤ length xs
unfolding claim_at
length-claim_at xs w h = elim (Option-cases (after_prefix claim_prefix xs)) [
  | inl e ↦ absurd (ground arith)
  | inr (r, e) ↦
      let fits = length-after_prefix claim_prefix xs r e in
      let run = length-take_run r in
      let same = nonempty-eq (take_run r) w (rw (e, claim_at) at h) in omega (arith, ap length same)
]

-- A line feed separates the matches before it from those behind it.
find_claims-line :
    (skip : ℕ) (xs ys : Text)
    → skip ≤ length xs
    → find_claims skip (xs ++ 10 ∷ ys) ≡ find_claims skip xs ++ find_claims 0 ys
unfolding find_claims
find_claims-line zero [] ys h = refl
find_claims-line (suc skip) [] ys h = absurd (omega arith)
find_claims-line (suc skip) (c ∷ cs) ys h = find_claims-line skip cs ys (omega arith)
find_claims-line zero (c ∷ cs) ys h =
    rw (claim_at-line (c ∷ cs) ys, find_claims)
      (elim (Option-cases (claim_at (c ∷ cs))) [
        | inl e ↦ rw (e, find_claims) (find_claims-line 0 cs ys (omega arith))
        | inr (w, e) ↦
            let fits = length-claim_at (c ∷ cs) w e in
            rw (e, find_claims)
              (ap (λ t. w ∷ t)
                (find_claims-line (length claim_prefix + length w - 1) cs ys (omega arith)))
      ])

find_claims_skip : (xs ys : Text) → find_claims (length xs) (xs ++ ys) ≡ find_claims 0 ys
unfolding find_claims
find_claims_skip [] ys = refl
find_claims_skip (c ∷ cs) ys = find_claims_skip cs ys

last-append {ℓ} : {A : Type ℓ} (xs : List A) (x : A) → last (xs ++ x ∷ []) ≡ some x
last-append [] x = refl
last-append (y ∷ []) x = refl
last-append (y ∷ z ∷ zs) x = last-append (z ∷ zs) x

extract-last :
    (xs : Text) → extract_claimed_worker (some xs) ≡ last (find_claims 0 (replace_newlines xs))
unfolding extract_claimed_worker
extract-last [] = refl
extract-last (c ∷ cs) = refl

take_run-All : (w : Text) → All (λ c. in_worker_class c ≡ true) w → take_run w ≡ w
unfolding take_run
take_run-All [] a = refl
take_run-All (c ∷ cs) a = rw (a.0, take_run-All cs a.1)

class-ne : (c : ℕ) → in_worker_class c ≡ true → c ≢ 92
unfolding in_worker_class
class-ne c h e = ground arith

worker_plain : (w : Text) → All (λ c. in_worker_class c ≡ true) w → All (λ c. c ≢ 92) w
worker_plain w a = All-map _ _ w class-ne a

after_prefix_self : (ps xs : Text) → after_prefix ps (ps ++ xs) ≡ some xs
unfolding after_prefix
after_prefix_self [] xs = refl
after_prefix_self (p ∷ ps) xs = rw ((==_iff p p).1 refl) (after_prefix_self ps xs)

find_claims_hit :
    (d : ℕ) (ds w : Text)
    → claim_at (d ∷ ds) ≡ some w
    → 14 + length w ≡ length ds
    → find_claims 0 (d ∷ ds) ≡ w ∷ []
unfolding find_claims
find_claims_hit d ds w h fits =
    let skip : length claim_prefix + length w - 1 ≡ length ds = omega arith in
    rw (h, find_claims) (rw skip (ap (λ t. w ∷ t) (rest ds)))
  where
    rest : (xs : Text) → find_claims (length xs) xs ≡ []
    rest [] = refl
    rest (x ∷ xs) = rest xs

claim_at_hit :
    (text r w : Text)
    → after_prefix claim_prefix text ≡ some r
    → nonempty (take_run r) ≡ some w
    → claim_at text ≡ some w
unfolding claim_at
claim_at_hit text r w h e = rw (h, claim_at) e

-- the line of a claim, alone
claim_found :
    (c : ℕ) (w : Text)
    → All (λ d. in_worker_class d ≡ true) (c ∷ w)
    → find_claims 0 (claim_prefix ++ c ∷ w) ≡ (c ∷ w) ∷ []
claim_found c w a =
    find_claims_hit 67 (codes "LAIMED worker=" ++ c ∷ w) (c ∷ w)
      (claim_at_hit (claim_prefix ++ c ∷ w) (c ∷ w) (c ∷ w) (after_prefix_self claim_prefix (c ∷ w))
        (rw (take_run-All (c ∷ w) a)))
      (omega arith)

line_plain : (w : Text) → All (λ c. c ≢ 92) w → All (λ c. c ≢ 92) (claim_prefix ++ w)
line_plain w a = All-append (λ c. c ≢ 92) claim_prefix w (omega arith) a

start_found : find_claims 0 (replace_newlines start_line) ≡ []
unfolding find_claims replace_newlines start_line
start_found = refl

-- a log that is empty or ends in a written line mark, as every log that the program writes does
pub data EndsLine : Text → Type 0 where
  empty : EndsLine []
  line : (before : Text) → EndsLine (before ++ newline_mark)

claimed_lines :
    (c : ℕ) (w : Text)
    → All (λ d. in_worker_class d ≡ true) (c ∷ w)
    → replace_newlines (claim_line (c ∷ w) ++ start_line)
      ≡ (claim_prefix ++ c ∷ w) ++ 10 ∷ replace_newlines start_line
unfolding claim_line
claimed_lines c w a =
    ap replace_newlines (ap (λ t. claim_prefix ++ c ∷ t) (append_assoc w newline_mark start_line))
    ∙ replace-mark (claim_prefix ++ c ∷ w) start_line
    ∙ rw (replace_plain (claim_prefix ++ c ∷ w) (line_plain (c ∷ w) (worker_plain (c ∷ w) a)))

claims_of_line :
    (c : ℕ) (w : Text)
    → All (λ d. in_worker_class d ≡ true) (c ∷ w)
    → find_claims 0 (replace_newlines (claim_line (c ∷ w) ++ start_line)) ≡ (c ∷ w) ∷ []
claims_of_line c w a =
    ap (find_claims 0) (claimed_lines c w a)
    ∙ find_claims-line 0 (claim_prefix ++ c ∷ w) (replace_newlines start_line) (omega arith)
    ∙ rw (claim_found c w a, start_found)

claims_of_log :
    (log : Text) (c : ℕ) (w : Text)
    → EndsLine log
    → All (λ d. in_worker_class d ≡ true) (c ∷ w)
    → last (find_claims 0 (replace_newlines (log ++ (claim_line (c ∷ w) ++ start_line))))
      ≡ some (c ∷ w)
claims_of_log log c w empty a = rw (claims_of_line c w a)
claims_of_log log c w (line before) a =
    ap (λ t. last (find_claims 0 (replace_newlines t)))
      (append_assoc before newline_mark (claim_line (c ∷ w) ++ start_line))
    ∙ ap (λ t. last (find_claims 0 t)) (replace-mark before (claim_line (c ∷ w) ++ start_line))
    ∙ ap last (find_claims-line 0 (replace_newlines before) _ (omega arith))
    ∙ rw (claims_of_line c w a) (last-append (find_claims 0 (replace_newlines before)) (c ∷ w))

-- After a claim by a worker whose id is not empty and has no white space and no backslash, on a job
-- whose log is empty or ends a line, the claimed job's log gives back that worker, whatever claims
-- the log held before.
pub extract-claimed_log :
    (job : UploadJob) (c : ℕ) (w : Text)
    → EndsLine (or_default job.processing_log [])
    → All (λ d. in_worker_class d ≡ true) (c ∷ w)
    → extract_claimed_worker (some (claimed_log (c ∷ w) job)) ≡ some (c ∷ w)
unfolding claimed_log
extract-claimed_log job c w e a =
    extract-last (or_default job.processing_log [] ++ (claim_line (c ∷ w) ++ start_line))
    ∙ claims_of_log (or_default job.processing_log []) c w e a
