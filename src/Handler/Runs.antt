-- ===== src/Handler/Runs.antt =====
-- How the handlers of pkg/server/handler run: what holds of the history after a step holds up to the
-- next.
use uni_compute.Base.{◌≡◌, refl, Bool, true, false, if◌then◌else◌}
use uni_compute.Base.Result.{Result, ok, err, panic}
use uni_compute.Base.State.{Comp, bind}
use uni_compute.External.Catalog.{HandlerHistory}

-- A run after which `I` holds; its success satisfies `Q`.
abbrev pub Quiet :
    {A : Type 0} → (HandlerHistory → Type 0) → (A → Type 0) → Result A × HandlerHistory → Type 0
Quiet I Q (ok a, t) = I t × Q a
Quiet I Q (err e, t) = I t
Quiet I Q (panic, t) = I t

module _ (I : HandlerHistory → Type 0) where
  pub bind-Quiet :
      {A B : Type 0} (Q : A → Type 0) (R : B → Type 0) (m : Result A × HandlerHistory)
      (f : A → Comp HandlerHistory B)
      → Quiet I Q m
      → ((a : A) (t : HandlerHistory) → I t → Q a → Quiet I R (f a t))
      → Quiet I R (bind m f)
  bind-Quiet Q R (ok a, t) f q k = k a t q.0 q.1
  bind-Quiet Q R (err e, t) f q k = q
  bind-Quiet Q R (panic, t) f q k = q

  -- The same, where what follows ends in `E`, which `I` implies.
  pub bind-Ends :
      {A B : Type 0} (Q : A → Type 0) (E : HandlerHistory → Type 0) (m : Result A × HandlerHistory)
      (f : A → Comp HandlerHistory B)
      → ((t : HandlerHistory) → I t → E t)
      → Quiet I Q m
      → ((a : A) (t : HandlerHistory) → I t → Q a → E (f a t).1)
      → E (bind m f).1
  bind-Ends Q E (ok a, t) f stop q k = k a t q.0 q.1
  bind-Ends Q E (err e, t) f stop q k = stop t q
  bind-Ends Q E (panic, t) f stop q k = stop t q

  pub lift-Quiet :
      {A : Type 0} (Q : A → Type 0) (r : Result A) (h : HandlerHistory)
      → I h
      → ((a : A) → r ≡ ok a → Q a)
      → Quiet I Q (r, h)
  lift-Quiet Q (ok a) h at k = (at, k a refl)
  lift-Quiet Q (err e) h at k = at
  lift-Quiet Q panic h at k = at

  -- A check whose value is not used.
  pub check-Quiet :
      {A : Type 0} (r : Result A) (h : HandlerHistory) → I h → Quiet I (λ _. Unit {0}) (r, h)
  check-Quiet r h at = lift-Quiet (λ _. Unit {0}) r h at λ _ _. tt

-- Both branches of a test end well.
pub either_way :
    (E : HandlerHistory → Type 0) {A : Type 0} (b : Bool) (m k : Comp HandlerHistory A)
    (h : HandlerHistory)
    → E (m h).1
    → E (k h).1
    → E ((if b then m else k) h).1
either_way E true m k h p q = p
either_way E false m k h p q = q
