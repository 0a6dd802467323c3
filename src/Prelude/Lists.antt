-- ===== src/Prelude/Lists.antt =====
-- Lists measured by native numbers under the library's names, and predicates on lists by recursion.
use Prim.Native.Nat.{ℕ, zero, suc, ◌+◌, ◌≤◌}
use mathlib.Core.Path.{◌≡◌, refl}
use mathlib.Core.Logic.{◌≢◌, ◌⊎◌, inl}
use mathlib.Core.List.{List, [], ◌∷◌, ◌++◌}
use mathlib.Core.Option.{Option, none, some}
use native.Mathlib.Omega.{arith}

module _ {ℓ} {A : Type ℓ} where
  abbrev pub length : List A → ℕ
  length [] = 0
  length (x ∷ xs) = suc (length xs)

  abbrev pub take : ℕ → List A → List A
  take zero xs = []
  take (suc n) [] = []
  take (suc n) (x ∷ xs) = x ∷ take n xs

  abbrev pub drop : ℕ → List A → List A
  drop zero xs = xs
  drop (suc n) [] = []
  drop (suc n) (x ∷ xs) = drop n xs

  -- the first element, as `.first()` returns it
  abbrev pub first : List A → Option A
  first [] = none
  first (x ∷ xs) = some x

  pub length-take_le : (n : ℕ) (xs : List A) → length (take n xs) ≤ n
  length-take_le zero xs = omega arith
  length-take_le (suc n) [] = omega arith
  length-take_le (suc n) (x ∷ xs) = omega (arith, length-take_le n xs)

  pub length-append : (xs ys : List A) → length (xs ++ ys) ≡ length xs + length ys
  length-append [] ys = omega arith
  length-append (x ∷ xs) ys = omega (arith, length-append xs ys)

-- every element
abbrev pub All {ℓ κ} : {A : Type ℓ} → (A → Type κ) → List A → Type κ
All P [] = Unit
All P (x ∷ xs) = P x × All P xs

-- `x` is an element
abbrev pub Has : {A : Type 0} → A → List A → Type 0
Has x [] = ⊥
Has x (y ∷ ys) = (x ≡ y) ⊎ Has x ys

-- the keys are pairwise different
abbrev pub Unique {ℓ κ} : {A : Type ℓ} {K : Type κ} → (A → K) → List A → Type κ
Unique key [] = Unit
Unique key (x ∷ xs) = All (λ y. key x ≢ key y) xs × Unique key xs

pub All-take {ℓ κ} :
    {A : Type ℓ} (P : A → Type κ) (n : ℕ) (xs : List A) → All P xs → All P (take n xs)
All-take P zero xs a = tt
All-take P (suc n) [] a = tt
All-take P (suc n) (x ∷ xs) a = (a.0, All-take P n xs a.1)

pub Unique-take {ℓ κ} :
    {A : Type ℓ} {K : Type κ} (key : A → K) (n : ℕ) (xs : List A)
    → Unique key xs
    → Unique key (take n xs)
Unique-take key zero xs u = tt
Unique-take key (suc n) [] u = tt
Unique-take key (suc n) (x ∷ xs) u =
    (All-take (λ y. key x ≢ key y) n xs u.0, Unique-take key n xs u.1)

pub All-map {ℓ κ μ} :
    {A : Type ℓ} (P : A → Type κ) (Q : A → Type μ) (xs : List A)
    → ((x : A) → P x → Q x)
    → All P xs
    → All Q xs
All-map P Q [] h a = tt
All-map P Q (x ∷ xs) h a = (h x a.0, All-map P Q xs h a.1)

-- A first element is an element.
pub first-Has : {A : Type 0} (xs : List A) (x : A) → first xs ≡ some x → Has x xs
first-Has [] x h = absurd (ground arith)
first-Has (y ∷ ys) x h = inl (ground arith)

pub first-none : {A : Type 0} (xs : List A) → first xs ≡ none → xs ≡ []
first-none [] h = refl
first-none (x ∷ xs) h = cc
