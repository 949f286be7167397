-- ===== src/Base/Sort.antt =====
-- `strings.Compare` and `slices.SortFunc` by a text key. Where keys are distinct, every sort gives
-- the same list; this one is by insertion.
use Prim.Native.Nat.{ℕ, suc, ◌+◌}
use Prim.Native.Char.{code}
use Prim.Native.String.{String}
use mathlib.Core.Path.{◌≡◌, refl, ◌∙◌, ap}
use mathlib.Core.Logic.{◌⊎◌, inl, inr}
use mathlib.Core.Bool.{Bool, true, false, ◌&&◌, ◌||◌}
use mathlib.Core.List.{List, [], ◌∷◌}
use native.Mathlib.Omega.{arith}
use uni_compute.Base.Tests.{if◌then◌else◌, ltb, eqb, Bool-cases}
use uni_compute.Base.Tests.{string_eq}
use uni_compute.Base.Lists.{length, count, total, All, contains, Distinct}
use mathlib.Core.List.{map}

abbrev pub codes : String → List ℕ
codes String.[] = []
codes (String.◌∷◌ c s) = code c ∷ codes s

-- The order of UTF-8 bytes is that of code points.
codes_leb : List ℕ → List ℕ → Bool
codes_leb [] t = true
codes_leb (a ∷ s) [] = false
codes_leb (a ∷ s) (b ∷ t) = let rest = codes_leb s t in ltb a b || (eqb a b && rest)

codes_leb_total : (s t : List ℕ) → (codes_leb s t ≡ true) ⊎ (codes_leb t s ≡ true)
unfolding codes_leb
codes_leb_total [] t = inl refl
codes_leb_total (a ∷ s) [] = inr refl
codes_leb_total (a ∷ s) (b ∷ t) = ground (arith, codes_leb_total s t)

-- `strings.Compare(s, t) <= 0`
unfoldable pub text_leb : String → String → Bool
unfolding codes_leb
text_leb s t = codes_leb (codes s) (codes t)

pub text_leb_total : (s t : String) → (text_leb s t ≡ true) ⊎ (text_leb t s ≡ true)
unfolding text_leb
text_leb_total s t = codes_leb_total (codes s) (codes t)

codes_leb_trans :
    (r s t : List ℕ) → codes_leb r s ≡ true → codes_leb s t ≡ true → codes_leb r t ≡ true
unfolding codes_leb
codes_leb_trans [] s t p q = refl
codes_leb_trans (a ∷ r) [] t p q = cc
codes_leb_trans (a ∷ r) (b ∷ s) [] p q = cc
codes_leb_trans (a ∷ r) (b ∷ s) (c ∷ t) p q = ground (arith, p, q, codes_leb_trans r s t)

pub text_leb_trans :
    (r s t : String) → text_leb r s ≡ true → text_leb s t ≡ true → text_leb r t ≡ true
unfolding text_leb
text_leb_trans r s t p q = codes_leb_trans (codes r) (codes s) (codes t) p q

module _ {ℓ} {A : Type ℓ} (key : A → String) where
  insert_by : A → List A → List A
  insert_by a [] = a ∷ []
  insert_by a (x ∷ xs) =
      let rest = insert_by a xs in if text_leb (key a) (key x) then a ∷ x ∷ xs else x ∷ rest

  unfoldable pub sort_by : List A → List A
  unfolding insert_by
  sort_by [] = []
  sort_by (x ∷ xs) = insert_by x (sort_by xs)

  -- Neighbours are in order.
  abbrev pub IsSorted : List A → Type 0
  IsSorted [] = Unit
  IsSorted (x ∷ []) = Unit
  IsSorted (x ∷ y ∷ r) = (text_leb (key x) (key y) ≡ true) × IsSorted (y ∷ r)

  insert_by-IsSorted : (a : A) (xs : List A) → IsSorted xs → IsSorted (insert_by a xs)
  unfolding insert_by
  insert_by-IsSorted a [] s = tt
  insert_by-IsSorted a (x ∷ []) s = ground (arith, text_leb_total (key a) (key x))
  insert_by-IsSorted a (x ∷ y ∷ r) s =
      ground (arith, text_leb_total (key a) (key x), insert_by-IsSorted a (y ∷ r) s.1)

  pub sort_by-IsSorted : (xs : List A) → IsSorted (sort_by xs)
  unfolding sort_by
  sort_by-IsSorted [] = tt
  sort_by-IsSorted (x ∷ xs) = insert_by-IsSorted x (sort_by xs) (sort_by-IsSorted xs)

  count-insert_by :
      (p : A → Bool) (a : A) (xs : List A) → count p (insert_by a xs) ≡ count p (a ∷ xs)
  unfolding insert_by
  count-insert_by p a [] = refl
  count-insert_by p a (x ∷ xs) = ground (arith, count-insert_by p a xs)

  -- A sort keeps how often each kind of element occurs.
  pub count-sort_by : (p : A → Bool) (xs : List A) → count p (sort_by xs) ≡ count p xs
  unfolding sort_by
  count-sort_by p [] = refl
  count-sort_by p (x ∷ xs) = ground (arith, count-insert_by p x (sort_by xs), count-sort_by p xs)

  total-insert_by : (f : A → ℕ) (a : A) (xs : List A) → total f (insert_by a xs) ≡ f a + total f xs
  unfolding insert_by
  total-insert_by f a [] = refl
  total-insert_by f a (x ∷ xs) = ground (arith, total-insert_by f a xs)

  pub total-sort_by : (f : A → ℕ) (xs : List A) → total f (sort_by xs) ≡ total f xs
  unfolding sort_by
  total-sort_by f [] = refl
  total-sort_by f (x ∷ xs) = omega (arith, total-insert_by f x (sort_by xs), total-sort_by f xs)

  All-insert_by {κ} :
      (P : A → Type κ) (a : A) (xs : List A) → P a → All P xs → All P (insert_by a xs)
  unfolding insert_by
  All-insert_by P a [] h hs = (h, tt)
  All-insert_by P a (x ∷ xs) h hs = elim (Bool-cases (text_leb (key a) (key x))) [
    | inl e ↦ rw e (h, hs)
    | inr e ↦ rw e (hs.0, All-insert_by P a xs h hs.1)
  ]

  pub All-sort_by {κ} : (P : A → Type κ) (xs : List A) → All P xs → All P (sort_by xs)
  unfolding sort_by
  All-sort_by P [] hs = tt
  All-sort_by P (x ∷ xs) hs = All-insert_by P x (sort_by xs) hs.0 (All-sort_by P xs hs.1)

  contains-insert_by :
      (a : A) (xs : List A) (s : String)
      → contains (map key (insert_by a xs)) s ≡ contains (map key (a ∷ xs)) s
  unfolding insert_by
  contains-insert_by a [] s = refl
  contains-insert_by a (x ∷ xs) s = ground (arith, contains-insert_by a xs s)

  contains-sort_by :
      (xs : List A) (s : String) → contains (map key (sort_by xs)) s ≡ contains (map key xs) s
  unfolding sort_by
  contains-sort_by [] s = refl
  contains-sort_by (x ∷ xs) s =
      ground (arith, contains-insert_by x (sort_by xs) s, contains-sort_by xs s)

  Distinct-insert_by :
      (a : A) (xs : List A)
      → contains (map key xs) (key a) ≡ false
      → Distinct (map key xs)
      → Distinct (map key (insert_by a xs))
  unfolding insert_by
  Distinct-insert_by a [] fresh d = (refl, tt)
  Distinct-insert_by a (x ∷ xs) fresh d =
      ground (arith, contains-insert_by a xs (key x), Distinct-insert_by a xs)

  -- Distinct keys stay distinct.
  pub Distinct-sort_by : (xs : List A) → Distinct (map key xs) → Distinct (map key (sort_by xs))
  unfolding sort_by
  Distinct-sort_by [] d = tt
  Distinct-sort_by (x ∷ xs) d =
      Distinct-insert_by x (sort_by xs) (contains-sort_by xs (key x) ∙ d.0)
        (Distinct-sort_by xs d.1)

  length-insert_by : (a : A) (xs : List A) → length (insert_by a xs) ≡ suc (length xs)
  unfolding insert_by
  length-insert_by a [] = refl
  length-insert_by a (x ∷ xs) = ground (arith, length-insert_by a xs)

  pub length-sort_by : (xs : List A) → length (sort_by xs) ≡ length xs
  unfolding sort_by
  length-sort_by [] = refl
  length-sort_by (x ∷ xs) = length-insert_by x (sort_by xs) ∙ ap suc (length-sort_by xs)
