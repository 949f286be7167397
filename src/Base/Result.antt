-- ===== src/Base/Result.antt =====
-- Go's error returns and panics, and code that also changes a state. A state change made before
-- an error stays made.
use Prim.Native.Nat.{ℕ}
use mathlib.Core.Path.{◌≡◌, refl}

-- The kinds of error that callers can tell apart. `transport` is a request that got no reply, and
-- `api_status` a reply with a status code that the caller did not expect.
pub data Error : Type 0 where
  consistency yielded resource_dependency invalid_request not_found conflict : Error
  -- An error that wraps no kind of its own.
  unspecified : Error
  transport : ℕ → Error
  api_status : ℕ → Error

pub data Result (A : Type 0) : Type 0 where
  ok : A → Result A
  panic : Result A
  err : Error → Result A

module _ {A B : Type 0} where
  infixl 5 ◌>>=◌
  -- The rest of a function, after a step that may have returned early.
  abbrev pub ◌>>=◌ : Result A → (A → Result B) → Result B
  panic >>= rest = panic
  err e >>= rest = err e
  ok a >>= rest = rest a

  -- Inversion of a bind that succeeds.
  pub >>=-eq-ok :
      (m : Result A) (rest : A → Result B) {b : B}
      → (m >>= rest) ≡ ok b
      → (a : A) × (m ≡ ok a) × (rest a ≡ ok b)
  >>=-eq-ok panic rest h = cc
  >>=-eq-ok (err e) rest h = cc
  >>=-eq-ok (ok a) rest h = (a, refl, h)
