-- ===== src/Base/State.antt =====
-- Code that changes a state and can fail. A change made before an error stays made.
use mathlib.Core.Path.{◌≡◌, refl}
use uni_compute.Base.Result.{Error, Result, ok, err, panic}

abbrev pub Comp : Type 0 → Type 0 → Type 0
Comp S A = S → Result A × S

module _ {S : Type 0} where
  abbrev pub bind : {A B : Type 0} → Result A × S → (A → Comp S B) → Result B × S
  bind (ok a, s) f = f a s
  bind (err e, s) f = (err e, s)
  bind (panic, s) f = (panic, s)

  infixl 5 ◌>>=◌ ◌>>◌
  abbrev pub ◌>>=◌ : {A B : Type 0} → Comp S A → (A → Comp S B) → Comp S B
  ◌>>=◌ m f s = bind (m s) f

  abbrev pub ◌>>◌ : {B : Type 0} → Comp S (Unit {0}) → Comp S B → Comp S B
  m >> k = m >>= λ _. k

  abbrev pub pure : {A : Type 0} → A → Comp S A
  pure a s = (ok a, s)

  abbrev pub fail : {A : Type 0} → Error → Comp S A
  fail e s = (err e, s)

  -- A computation that reads no state.
  abbrev pub lift : {A : Type 0} → Result A → Comp S A
  lift r s = (r, s)

  abbrev pub get : Comp S S
  get s = (ok s, s)

  abbrev pub modify : (S → S) → Comp S (Unit {0})
  modify f s = (ok tt, f s)

  -- Inversion of a bind that succeeds.
  pub bind-eq-ok :
      {A B : Type 0} (m : Result A × S) (f : A → Comp S B) {b : B} {t : S}
      → bind m f ≡ (ok b, t)
      → (a : A) × (m ≡ (ok a, m.1)) × (f a m.1 ≡ (ok b, t))
  bind-eq-ok (ok a, s) f h = (a, refl, h)
  bind-eq-ok (err e, s) f h = cc
  bind-eq-ok (panic, s) f h = cc

-- The result is no panic, and a success satisfies `P`.
abbrev pub Fine : {A : Type 0} → (A → Type 0) → Result A → Type 0
Fine P (ok a) = P a
Fine P (err e) = Unit
Fine P panic = ⊥

module _ {S A B : Type 0} where
  pub bind-Fine :
      (P : A → Type 0) (Q : B → Type 0) (m : Result A × S) (f : A → Comp S B)
      → Fine P m.0
      → ((a : A) → P a → Fine Q (f a m.1).0)
      → Fine Q (bind m f).0
  bind-Fine P Q (ok a, s) f h k = k a h
  bind-Fine P Q (err e, s) f h k = tt
  bind-Fine P Q (panic, s) f h k = absurd h

pub Fine-mono :
    {A : Type 0} (P Q : A → Type 0) (r : Result A) → Fine P r → ((a : A) → P a → Q a) → Fine Q r
Fine-mono P Q (ok a) h k = k a h
Fine-mono P Q (err e) h k = tt
Fine-mono P Q panic h k = absurd h
