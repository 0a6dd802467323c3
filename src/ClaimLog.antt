-- ===== src/ClaimLog.antt =====
-- The processing log of an upload job as a text, and `extract_claimed_worker` of
-- app/common/repositories/upload_job_repository.py, which reads the last claim back from it.
use Prim.Native.Char.{code}
use Prim.Native.String.{String}
use tc_backend.Prelude.{
  ℕ, zero, suc, ◌-◌, ◌+◌, Bool, true, false, Option, none, some, List, [], ◌∷◌, ◌&&◌, ◌||◌, not,
  leb, ◌==◌, if◌then◌else◌, length,
}

-- a text as its code points
abbrev pub Text : Type 0
Text = List ℕ

abbrev pub codes : String → Text
codes String.[] = []
codes (String.◌∷◌ c s) = code c ∷ codes s

-- The source writes "\\n": a backslash and the letter n.
abbrev pub newline_mark : Text
newline_mark = 92 ∷ 110 ∷ []

-- `str.isspace` for one character, which is what `\s` matches in a text pattern.
unfoldable pub is_space : ℕ → Bool
is_space c =
    (leb 9 c && leb c 13)
    || (leb 28 c && leb c 32)
    || (c == 133)
    || (c == 160)
    || (c == 5760)
    || (leb 8192 c && leb c 8202)
    || (leb 8232 c && leb c 8233)
    || (c == 8239)
    || (c == 8287)
    || (c == 12288)

-- `processing_log.replace("\\n", "\n")`
unfoldable pub replace_newlines : Text → Text
replace_newlines [] = []
replace_newlines (c ∷ []) = c ∷ []
replace_newlines (c ∷ d ∷ cs) = elim (c == 92 && d == 110) [
  | true ↦ 10 ∷ replace_newlines cs
  | false ↦ c ∷ replace_newlines (d ∷ cs)
]

-- a character of the class [^\s\\]
unfoldable pub in_worker_class : ℕ → Bool
unfolding is_space
in_worker_class c = not (is_space c || c == 92)

-- the longest run of such characters
unfoldable pub take_run : Text → Text
take_run [] = []
take_run (c ∷ cs) = let rest = take_run cs in if in_worker_class c then c ∷ rest else []

abbrev pub claim_prefix : Text
claim_prefix = codes "CLAIMED worker="

-- what follows the prefix, where the text begins with it
unfoldable pub after_prefix : Text → Text → Option Text
after_prefix [] text = some text
after_prefix (p ∷ ps) [] = none
after_prefix (p ∷ ps) (c ∷ cs) = let rest = after_prefix ps cs in if p == c then rest else none

-- `+` wants one character at least
abbrev pub nonempty : Text → Option Text
nonempty [] = none
nonempty (c ∷ cs) = some (c ∷ cs)

-- the group that the pattern `CLAIMED worker=([^\s\\]+)` captures at the head of the text
unfoldable pub claim_at : Text → Option Text
unfolding after_prefix take_run in_worker_class
claim_at text = elim (after_prefix claim_prefix text) [
  | none ↦ none
  | some rest ↦ nonempty (take_run rest)
]

-- `findall`: matches do not overlap, so the first argument counts the characters of the last match
-- that are still to be passed over.
unfoldable pub find_claims : ℕ → Text → List Text
unfolding claim_at
find_claims skip [] = []
find_claims (suc skip) (c ∷ cs) = find_claims skip cs
find_claims zero (c ∷ cs) = elim (claim_at (c ∷ cs)) [
  | none ↦ find_claims zero cs
  | some w ↦ w ∷ find_claims (length claim_prefix + length w - 1) cs
]

abbrev pub last {ℓ} : {A : Type ℓ} → List A → Option A
last [] = none
last (x ∷ []) = some x
last (x ∷ y ∷ ys) = last (y ∷ ys)

-- An empty log is falsy, and has no match either.
unfoldable pub extract_claimed_worker : Option Text → Option Text
unfolding find_claims replace_newlines
extract_claimed_worker none = none
extract_claimed_worker (some []) = none
extract_claimed_worker (some (c ∷ cs)) = last (find_claims 0 (replace_newlines (c ∷ cs)))
