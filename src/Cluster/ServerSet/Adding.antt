-- ===== src/Cluster/ServerSet/Adding.antt =====
-- Adding entries one by one to a map that refuses a key it has: the loops of `newServerSet`,
-- `newSecurityGroupSet` and `generateSecurityGroupCreateSet`.
use mathlib.Core.List.{append-nil, append_assoc}
use uni_compute.Base.{
  ◌≡◌, refl, ◌∙◌, ap, String, true, false, ◌⊎◌, inl, inr, [], ◌∷◌, ◌++◌, contains, Distinct,
  Distinct-append_one, Distinct-append_fresh, if◌then◌else◌, Bool-cases, arith,
}
use uni_compute.Base.Dict.{Dict, keys, insert_new, keys-append, contains-keys}
use uni_compute.Base.Result.{Result, ok, err, consistency, ◌>>=◌}
use uni_compute.Base.State.{Fine}
use uni_compute.Cluster.ServerSet.{add}

-- A name that is in the set is refused, and any other goes to its end.
pub add_lem :
    {V : Type 0} (name : String) (v : V) (set : Dict V)
    → add name v set
      ≡ (if contains (keys set) name then err consistency else ok (set ++ ((name, v) ∷ [])))
unfolding add
add_lem name v set = ground (arith, contains-keys name set, insert_new name v set)

module _ {V : Type 0} where
  unfoldable pub add_all : Dict V → Dict V → Result (Dict V)
  add_all set [] = ok set
  add_all set ((name, v) ∷ entries) = add name v set >>= λ set'. add_all set' entries

  module _ (name : String) (v : V) (entries set : Dict V) where
    -- The keys so far and those that are to come.
    pending_keys :
        keys (set ++ ((name, v) ∷ [])) ++ keys entries ≡ keys set ++ (name ∷ keys entries)
    pending_keys = rw (keys-append set ((name, v) ∷ [])) (append_assoc (keys set) _ _)

    add_all_step :
        contains (keys set) name ≡ false
        → add_all set ((name, v) ∷ entries) ≡ add_all (set ++ ((name, v) ∷ [])) entries
    unfolding add_all
    add_all_step fresh = rw (add_lem name v set, fresh)

    add_all_clash :
        contains (keys set) name ≡ true → add_all set ((name, v) ∷ entries) ≡ err consistency
    unfolding add_all
    add_all_clash clash = rw (add_lem name v set, clash)

  add_all-distinct :
      (entries set : Dict V)
      → Distinct (keys set ++ keys entries)
      → add_all set entries ≡ ok (set ++ entries)
  unfolding add_all
  add_all-distinct [] set d = rw append-nil
  add_all-distinct ((name, v) ∷ entries) set d =
      add_all_step name v entries set (Distinct-append_fresh (keys set) name (keys entries) d)
      ∙ add_all-distinct entries (set ++ ((name, v) ∷ [])) (rw (pending_keys name v entries set) d)
      ∙ ap ok (append_assoc set _ _)

  -- The loop ends with all entries or with the consistency error.
  add_all_cases :
      (entries set : Dict V)
      → Distinct (keys set)
      → Distinct (keys set ++ keys entries) ⊎ (add_all set entries ≡ err consistency)
  add_all_cases [] set d = inl (rw append-nil d)
  add_all_cases ((name, v) ∷ entries) set d = elim (Bool-cases (contains (keys set) name)) [
    | inl clash ↦ inr (add_all_clash name v entries set clash)
    | inr fresh ↦
        let extended : Distinct (keys (set ++ ((name, v) ∷ []))) =
          rw (keys-append set ((name, v) ∷ [])) (Distinct-append_one (keys set) name fresh d) in
        elim (add_all_cases entries (set ++ ((name, v) ∷ [])) extended) [
          | inl all ↦ inl (rw (← pending_keys name v entries set) all)
          | inr failed ↦ inr (add_all_step name v entries set fresh ∙ failed)
        ]
  ]

  -- Entries with distinct keys are all added, in their order; any others give the consistency error.
  pub add_all_lem :
      (entries : Dict V)
      → (Distinct (keys entries) → add_all [] entries ≡ ok entries)
        × (¬ Distinct (keys entries) → add_all [] entries ≡ err consistency)
  add_all_lem entries = (
    add_all-distinct entries [],
    λ shared. elim (add_all_cases entries [] tt) [
      | inl d ↦ absurd (shared d)
      | inr failed ↦ failed
    ],
  )

  -- If the loop succeeds, all entries were added.
  pub add_all-Fine : (entries : Dict V) → Fine (λ set. set ≡ entries) (add_all [] entries)
  add_all-Fine entries = elim (add_all_cases entries [] tt) [
    | inl d ↦ rw (add_all-distinct entries [] d) refl
    | inr failed ↦ rw failed tt
  ]
