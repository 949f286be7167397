-- ===== src/Base/Listings.antt =====
-- What a listing shows: filters, a sort by name, and conversions.
use Prim.Native.String.{String}
use mathlib.Core.Path.{◌≡◌, refl}
use mathlib.Core.Bool.{Bool, true, false, not, ◌&&◌}
use mathlib.Core.List.{List, [], ◌∷◌, map}
use native.Mathlib.Omega.{arith}
use uni_compute.Base.Tests.{if◌then◌else◌}
use uni_compute.Base.Lists.{delete_func, count, All}
use uni_compute.Base.Sort.{text_leb, IsSorted, text_leb_trans}

module _ {ℓ} {A : Type ℓ} where
  pub count-delete_func :
      (p q : A → Bool) (xs : List A) → count p (delete_func q xs) ≡ count (λ x. p x && not (q x)) xs
  count-delete_func p q [] = refl
  count-delete_func p q (x ∷ xs) = ground (arith, count-delete_func p q xs)

  pub count-map {κ} :
      {B : Type κ} (p : B → Bool) (f : A → B) (xs : List A)
      → count p (map f xs) ≡ count (λ x. p (f x)) xs
  count-map p f [] = refl
  count-map p f (x ∷ xs) = ground (arith, count-map p f xs)

  pub count_cong : (p q : A → Bool) (xs : List A) → ((x : A) → p x ≡ q x) → count p xs ≡ count q xs
  count_cong p q [] e = refl
  count_cong p q (x ∷ xs) e = rw (e x, count_cong p q xs e) refl

  pub All-delete_func {κ} :
      (P : A → Type κ) (q : A → Bool) (xs : List A) → All P xs → All P (delete_func q xs)
  All-delete_func P q [] h = tt
  All-delete_func P q (x ∷ xs) h = ground (arith, h, All-delete_func P q xs h.1)

  pub IsSorted-map {κ} :
      {B : Type κ} (key : B → String) (f : A → B) (xs : List A)
      → IsSorted (λ x. key (f x)) xs
      → IsSorted key (map f xs)
  IsSorted-map key f [] s = tt
  IsSorted-map key f (x ∷ []) s = tt
  IsSorted-map key f (x ∷ y ∷ r) s = (s.0, IsSorted-map key f (y ∷ r) s.1)

  module _ (key : A → String) where
    abbrev IsBefore : A → List A → Type 0
    IsBefore x = All λ y. text_leb (key x) (key y) ≡ true

    IsSorted-IsBefore : (x : A) (xs : List A) → IsSorted key (x ∷ xs) → IsBefore x xs
    IsSorted-IsBefore x [] s = tt
    IsSorted-IsBefore x (y ∷ r) s = (s.0, later r (IsSorted-IsBefore y r s.1))
      where
        later : (r : List A) → IsBefore y r → IsBefore x r
        later [] b = tt
        later (z ∷ r) b = (text_leb_trans (key x) (key y) (key z) s.0 b.0, later r b.1)

    IsSorted-tail : (x : A) (xs : List A) → IsSorted key (x ∷ xs) → IsSorted key xs
    IsSorted-tail x [] s = tt
    IsSorted-tail x (y ∷ r) s = s.1

    cons-IsSorted : (x : A) (xs : List A) → IsBefore x xs → IsSorted key xs → IsSorted key (x ∷ xs)
    cons-IsSorted x [] b s = tt
    cons-IsSorted x (y ∷ r) b s = (b.0, s)

    -- A filter leaves a sorted list sorted.
    pub IsSorted-delete_func :
        (q : A → Bool) (xs : List A) → IsSorted key xs → IsSorted key (delete_func q xs)
    IsSorted-delete_func q [] s = tt
    IsSorted-delete_func q (x ∷ xs) s =
        keep (q x) (IsSorted-delete_func q xs (IsSorted-tail x xs s))
          (All-delete_func _ q xs (IsSorted-IsBefore x xs s))
      where
        keep :
            (b : Bool)
            → IsSorted key (delete_func q xs)
            → IsBefore x (delete_func q xs)
            → IsSorted key (if b then delete_func q xs else x ∷ delete_func q xs)
        keep true rest before = rest
        keep false rest before = cons-IsSorted x (delete_func q xs) before rest
