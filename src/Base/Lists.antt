-- ===== src/Base/Lists.antt =====
-- Lists with native lengths, Go's `slices` functions, and predicates on lists.
use Prim.Native.Nat.{ℕ, suc, ◌+◌, ◌≤◌}
use Prim.Native.String.{String}
use mathlib.Core.Path.{◌≡◌, refl}
use mathlib.Core.Bool.{Bool, true, false, ◌&&◌, ◌||◌, not}
use mathlib.Core.Option.{Option, none, some, some-injective}
use mathlib.Core.List.{List, [], ◌∷◌, ◌++◌}
use native.Mathlib.Omega.{arith}
use mathlib.Core.Logic.{inl, inr}
use uni_compute.Base.Tests.{Bool-cases, if◌then◌else◌, ◌==◌, string_eq}

module _ {ℓ} {A : Type ℓ} where
  abbrev pub length : List A → ℕ
  length [] = 0
  length (x ∷ xs) = suc (length xs)

  abbrev pub is_some : Option A → Bool
  is_some none = false
  is_some (some _) = true

  -- The element at `slices.IndexFunc`, if there is one.
  abbrev pub find : (A → Bool) → List A → Option A
  find p [] = none
  find p (x ∷ xs) = let rest = find p xs in if p x then some x else rest

  -- What `slices.DeleteFunc` removes is `p`.
  abbrev pub delete_func : (A → Bool) → List A → List A
  delete_func p [] = []
  delete_func p (x ∷ xs) = let rest = delete_func p xs in if p x then rest else x ∷ rest

  abbrev pub any : (A → Bool) → List A → Bool
  any p [] = false
  any p (x ∷ xs) = p x || any p xs

  abbrev pub count : (A → Bool) → List A → ℕ
  count p [] = 0
  count p (x ∷ xs) = let rest = count p xs in if p x then suc rest else rest

  abbrev pub total : (A → ℕ) → List A → ℕ
  total f [] = 0
  total f (x ∷ xs) = f x + total f xs

  pub length-append : (xs ys : List A) → length (xs ++ ys) ≡ length xs + length ys
  length-append [] ys = omega arith
  length-append (x ∷ xs) ys = omega (arith, length-append xs ys)

  pub count-append : (p : A → Bool) (xs ys : List A) → count p (xs ++ ys) ≡ count p xs + count p ys
  count-append p [] ys = omega arith
  count-append p (x ∷ xs) ys = ground (arith, count-append p xs ys)

  pub count-le-length : (p : A → Bool) (xs : List A) → count p xs ≤ length xs
  count-le-length p [] = omega arith
  count-le-length p (x ∷ xs) = ground (arith, count-le-length p xs)

module _ {ℓ κ} {A : Type ℓ} where
  -- Holds of every element.
  abbrev pub All : (A → Type κ) → List A → Type κ
  All P [] = Unit
  All P (x ∷ xs) = P x × All P xs

-- `slices.Contains` at texts.
abbrev pub contains : List String → String → Bool
contains [] s = false
contains (t ∷ ts) s = t == s || contains ts s

-- No text is listed twice.
abbrev pub Distinct : List String → Type 0
Distinct [] = Unit
Distinct (t ∷ ts) = (contains ts t ≡ false) × Distinct ts

-- Is no text listed twice?
abbrev pub distinct : List String → Bool
distinct [] = true
distinct (t ∷ ts) = not (contains ts t) && distinct ts

pub distinct-eq-true : (ts : List String) → distinct ts ≡ true → Distinct ts
distinct-eq-true [] h = tt
distinct-eq-true (t ∷ ts) h = ground (arith, distinct-eq-true ts)

pub distinct-eq-false : (ts : List String) → distinct ts ≡ false → ¬ Distinct ts
distinct-eq-false [] h = cc
distinct-eq-false (t ∷ ts) h = ground (arith, distinct-eq-false ts)

-- Two answers, one for distinct texts and one for others, are one answer by the test.
pub by-distinct {ℓ} :
    {A : Type ℓ} (ts : List String) (r a b : A)
    → (Distinct ts → r ≡ a) × (¬ Distinct ts → r ≡ b)
    → r ≡ (if distinct ts then a else b)
by-distinct ts r a b h = elim (Bool-cases (distinct ts)) [
  | inl e ↦ rw e (h.0 (distinct-eq-true ts e))
  | inr e ↦ rw e (h.1 (distinct-eq-false ts e))
]

pub contains-append :
    (xs ys : List String) (s : String) → contains (xs ++ ys) s ≡ (contains xs s || contains ys s)
contains-append [] ys s = refl
contains-append (x ∷ xs) ys s = ground (arith, contains-append xs ys s)

-- A new text can be added at the end.
pub Distinct-append_one :
    (xs : List String) (s : String)
    → contains xs s ≡ false
    → Distinct xs
    → Distinct (xs ++ (s ∷ []))
Distinct-append_one [] s fresh d = (refl, tt)
Distinct-append_one (x ∷ xs) s fresh d =
    ground (arith, contains-append xs (s ∷ []) x, Distinct-append_one xs s)

-- What stands before an element of a list of distinct texts differs from it.
pub Distinct-append_fresh :
    (xs : List String) (y : String) (ys : List String)
    → Distinct (xs ++ (y ∷ ys))
    → contains xs y ≡ false
Distinct-append_fresh [] y ys d = refl
Distinct-append_fresh (x ∷ xs) y ys d =
    ground (arith, contains-append xs (y ∷ ys) x, Distinct-append_fresh xs y ys d.1)

-- What is found passes the test.
pub find-passes {ℓ} :
    {A : Type ℓ} (p : A → Bool) (xs : List A) {x : A} → find p xs ≡ some x → p x ≡ true
find-passes p [] h = cc
find-passes p (y ∷ xs) {x} h = ground (arith, find-passes p xs {x = x})

pub find-All {ℓ} :
    {A : Type ℓ} (P : A → Type 0) (p : A → Bool) (xs : List A) {x : A}
    → All P xs
    → find p xs ≡ some x
    → P x
find-All P p [] h e = cc
find-All P p (y ∷ xs) {x} h e = elim (Bool-cases (p y)) [
  | inl hit ↦ rw (← some-injective y x (rw hit at e)) h.0
  | inr miss ↦ find-All P p xs {x = x} h.1 (rw miss at e)
]
