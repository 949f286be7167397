-- ===== src/Base/Dict.antt =====
-- Go maps with text keys, as association lists in the order in which `range` visits them. That
-- order is arbitrary in Go: what is stated for every list holds for every order.
use Prim.Native.Nat.{suc}
use Prim.Native.String.{String}
use mathlib.Core.Path.{◌≡◌, refl, ap}
use mathlib.Core.Bool.{Bool, false}
use mathlib.Core.Option.{Option, none, some}
use mathlib.Core.List.{List, [], ◌∷◌, ◌++◌}
use native.Mathlib.Omega.{arith}
use uni_compute.Base.Tests.{if◌then◌else◌, ◌==◌, string_eq}
use uni_compute.Base.Lists.{contains, Distinct, count, length, is_some}

abbrev pub Dict {ℓ} : Type ℓ → Type ℓ
Dict V = List (String × V)

module _ {ℓ} {V : Type ℓ} where
  abbrev pub keys : Dict V → List String
  keys [] = []
  keys ((k, _) ∷ m) = k ∷ keys m

  abbrev pub values : Dict V → List V
  values [] = []
  values ((_, v) ∷ m) = v ∷ values m

  pub length-values : (m : Dict V) → length (values m) ≡ length m
  length-values [] = refl
  length-values ((_, v) ∷ m) = ap suc (length-values m)

  unfoldable pub lookup : String → Dict V → Option V
  lookup k [] = none
  lookup k ((j, v) ∷ m) = let rest = lookup k m in if j == k then some v else rest

  -- `m[k] = v`
  unfoldable pub insert : String → V → Dict V → Dict V
  insert k v [] = (k, v) ∷ []
  insert k v ((j, w) ∷ m) = let rest = insert k v m in if j == k then (k, v) ∷ m else (j, w) ∷ rest

  -- `delete(m, k)`
  unfoldable pub erase : String → Dict V → Dict V
  erase k [] = []
  erase k ((j, w) ∷ m) = let rest = erase k m in if j == k then rest else (j, w) ∷ rest

  -- `m[k]` where a missing key gives the zero value.
  unfoldable pub lookup_or : V → String → Dict V → V
  unfolding lookup
  lookup_or d k m = elim (lookup k m) [ none ↦ d | some v ↦ v ]

  pub lookup-insert :
      (j k : String) (v : V) (m : Dict V)
      → lookup j (insert k v m) ≡ (if k == j then some v else lookup j m)
  unfolding lookup insert
  lookup-insert j k v [] = ground arith
  lookup-insert j k v (_ ∷ m) = ground (arith, lookup-insert j k v m)

  pub lookup-erase :
      (j k : String) (m : Dict V) → lookup j (erase k m) ≡ (if k == j then none else lookup j m)
  unfolding lookup erase
  lookup-erase j k [] = ground arith
  lookup-erase j k (_ ∷ m) = ground (arith, lookup-erase j k m)

  pub contains-keys : (k : String) (m : Dict V) → contains (keys m) k ≡ is_some (lookup k m)
  unfolding lookup
  contains-keys k [] = refl
  contains-keys k (_ ∷ m) = ground (arith, contains-keys k m)

  -- A new key goes to the end.
  pub insert_new :
      (k : String) (v : V) (m : Dict V)
      → contains (keys m) k ≡ false
      → insert k v m ≡ m ++ ((k, v) ∷ [])
  unfolding insert
  insert_new k v [] h = refl
  insert_new k v (_ ∷ m) h = ground (arith, insert_new k v m)

  pub erase_missing : (k : String) (m : Dict V) → contains (keys m) k ≡ false → erase k m ≡ m
  unfolding erase
  erase_missing k [] h = refl
  erase_missing k (_ ∷ m) h = ground (arith, erase_missing k m)

  pub keys-append : (m n : Dict V) → keys (m ++ n) ≡ keys m ++ keys n
  keys-append [] n = refl
  keys-append ((k, _) ∷ m) n = ap (◌∷◌ k) (keys-append m n)

  pub values-append : (m n : Dict V) → values (m ++ n) ≡ values m ++ values n
  values-append [] n = refl
  values-append ((_, v) ∷ m) n = ap (◌∷◌ v) (values-append m n)

  pub contains-erase :
      (j k : String) (m : Dict V)
      → contains (keys (erase k m)) j ≡ (if j == k then false else contains (keys m) j)
  unfolding erase
  contains-erase j k [] = ground arith
  contains-erase j k (_ ∷ m) = ground (arith, contains-erase j k m)

  pub erase-Distinct : (k : String) (m : Dict V) → Distinct (keys m) → Distinct (keys (erase k m))
  unfolding erase
  erase-Distinct k [] d = tt
  erase-Distinct k ((j, _) ∷ m) d = ground (arith, contains-erase j k m, erase-Distinct k m d.1)

  -- A key that is there takes exactly its own value with it.
  pub count-erase :
      (p : V → Bool) (k : String) {v : V} (m : Dict V)
      → Distinct (keys m)
      → lookup k m ≡ some v
      → count p (values m) ≡ count p (v ∷ values (erase k m))
  unfolding lookup erase
  count-erase p k [] d h = cc
  count-erase p k {v} ((j, w) ∷ m) d h =
      ground (arith, erase_missing k m, count-erase p k {v = v} m d.1)

  pub length-erase :
      (k : String) {v : V} (m : Dict V)
      → Distinct (keys m)
      → lookup k m ≡ some v
      → length m ≡ suc (length (erase k m))
  unfolding lookup erase
  length-erase k [] d h = cc
  length-erase k {v} ((j, w) ∷ m) d h =
      ground (arith, erase_missing k m, length-erase k {v = v} m d.1)
