-- ===== src/Cluster/SecurityGroups/Loops.antt =====
-- The loops of `reconcileSecurityGroups` look up only what is there.
use mathlib.Core.List.{append-nil, append_assoc}
use uni_compute.Base.{
  ◌≡◌, ◌∙◌, ap, String, Bool, true, false, not, List, [], ◌∷◌, ◌++◌, contains, contains-append,
  delete_func, All, ◌==◌, string_eq, Bool-cases, inl, inr, arith,
}
use uni_compute.Base.Dict.{Dict, keys, contains-keys, keys-append}
use uni_compute.Base.State.{Fine, bind-Fine, Fine-mono}
use uni_compute.External.Env.{Env}
use uni_compute.External.Region.{SecurityGroupRead, SecurityGroupWrite, security_group_spec_eq}
use uni_compute.Cluster.State.{State}
use uni_compute.Cluster.Client.{create_security_group, update_security_group, delete_security_group}
use uni_compute.Cluster.ServerSet.{add}
use uni_compute.Cluster.ServerSet.Adding.{add_lem}
use uni_compute.Cluster.SecurityGroups.{
  SecurityGroupSet, SecurityGroupCreateSet, deref, create_groups, update_groups, remove_groups,
  schedule_server_groups,
}

-- Every name is a key of the map.
abbrev pub AreKeys : {V : Type 0} → Dict V → List String → Type 0
AreKeys m = All (λ name. contains (keys m) name ≡ true)

deref-Fine :
    {V : Type 0} (name : String) (m : Dict V)
    → contains (keys m) name ≡ true
    → Fine (λ _. Unit {0}) (deref name m)
deref-Fine name m h = ground (arith, contains-keys name m)

module _ (env : Env) where
  create-Fine :
      (request : SecurityGroupWrite) (s : State)
      → Fine (λ _. Unit {0}) (create_security_group env request s).0
  unfolding create_security_group
  create-Fine request s = ground arith

  update-Fine :
      (id : String) (request : SecurityGroupWrite) (s : State)
      → Fine (λ _. Unit {0}) (update_security_group env id request s).0
  unfolding update_security_group
  update-Fine id request s = ground arith

  delete-Fine : (id : String) (s : State) → Fine (λ _. Unit {0}) (delete_security_group env id s).0
  unfolding delete_security_group
  delete-Fine id s = ground arith

  add-Fine :
      (name : String) (group : SecurityGroupRead) (set : SecurityGroupSet)
      → Fine (λ set'. keys set' ≡ keys set ++ (name ∷ [])) (add name group set)
  add-Fine name group set = elim (Bool-cases (contains (keys set) name)) [
    | inl e ↦ rw (add_lem name group set, e) tt
    | inr e ↦ rw (add_lem name group set, e) (keys-append set ((name, group) ∷ []))
  ]

  pub create_groups-Fine :
      (required : SecurityGroupCreateSet) (names : List String) (set : SecurityGroupSet) (s : State)
      → AreKeys required names
      → Fine (λ set'. keys set' ≡ keys set ++ names) (create_groups env required names set s).0
  unfolding create_groups
  create_groups-Fine required [] set s h = rw append-nil
  create_groups-Fine required (name ∷ names) set s h =
      bind-Fine (λ _. Unit {0}) _ (deref name required, s) _ (deref-Fine name required h.0)
        λ request _.
          bind-Fine (λ _. Unit {0}) _ (create_security_group env request s) _
            (create-Fine request s)
            λ group _.
              bind-Fine (λ set'. keys set' ≡ keys set ++ (name ∷ [])) _
                (add name group set, (create_security_group env request s).1) _
                (add-Fine name group set)
                λ set' e.
                  Fine-mono (λ out. keys out ≡ keys set' ++ names) _ _
                    (create_groups-Fine required names set' _ h.1)
                    λ out grown. grown ∙ rw e (append_assoc (keys set) (name ∷ []) names)

  pub update_groups-Fine :
      (required : SecurityGroupCreateSet) (set : SecurityGroupSet) (names : List String) (s : State)
      → AreKeys required names
      → AreKeys set names
      → Fine (λ _. Unit {0}) (update_groups env required set names s).0
  unfolding update_groups
  update_groups-Fine required set [] s h k = tt
  update_groups-Fine required set (name ∷ names) s h k =
      bind-Fine (λ _. Unit {0}) _ (deref name set, s) _ (deref-Fine name set k.0)
        λ current _.
          bind-Fine (λ _. Unit {0}) _ (deref name required, s) _ (deref-Fine name required h.0)
            λ request _. elim (Bool-cases (current.rules == request.rules)) [
              | inl e ↦ rw e (update_groups-Fine required set names s h.1 k.1)
              | inr e ↦ rw e (
                  bind-Fine (λ _. Unit {0}) _ (update_security_group env current.id request s) _
                    (update-Fine current.id request s)
                    λ _ _. update_groups-Fine required set names _ h.1 k.1)
            ]

  pub remove_groups-Fine :
      (set : SecurityGroupSet) (names : List String) (s : State)
      → AreKeys set names
      → Fine (λ _. Unit {0}) (remove_groups env set names s).0
  unfolding remove_groups
  remove_groups-Fine set [] s h = tt
  remove_groups-Fine set (name ∷ names) s h =
      bind-Fine (λ _. Unit {0}) _ (deref name set, s) _ (deref-Fine name set h.0)
        λ group _.
          bind-Fine (λ _. Unit {0}) _ (delete_security_group env group.id s) _
            (delete-Fine group.id s) λ _ _. remove_groups-Fine set names _ h.1

pub AreKeys-of :
    {V : Type 0} (m : Dict V) (names : List String)
    → ((name : String) → contains names name ≡ true → contains (keys m) name ≡ true)
    → AreKeys m names
AreKeys-of m [] h = tt
AreKeys-of m (n ∷ names) h =
    (h n (ground arith), AreKeys-of m names (λ name c. h name (ground arith)))

-- Every member of a sublist of names that passes a test.
AreKeys-delete_func :
    {V : Type 0} (m : Dict V) (p : String → Bool) (names : List String)
    → ((name : String)
        → contains names name ≡ true
        → p name ≡ false
        → contains (keys m) name ≡ true)
    → AreKeys m (delete_func p names)
AreKeys-delete_func m p [] h = tt
AreKeys-delete_func m p (n ∷ names) h =
    let rest = AreKeys-delete_func m p names (λ name c. h name (ground arith)) in
    elim (Bool-cases (p n)) [ inl e ↦ rw e rest | inr e ↦ rw e (h n (ground arith) e, rest) ]

module _ (current : SecurityGroupSet) (requested : SecurityGroupCreateSet) where
  pub create-AreKeys : AreKeys requested (schedule_server_groups current requested).0
  unfolding schedule_server_groups
  create-AreKeys =
      AreKeys-delete_func requested (contains (keys current)) (keys requested) (λ name c e. c)

  pub update-AreKeys :
      AreKeys requested (schedule_server_groups current requested).1
      × AreKeys current (schedule_server_groups current requested).1
  unfolding schedule_server_groups
  update-AreKeys = (
    AreKeys-delete_func requested (λ n. not (contains (keys requested) n)) (keys current)
        (λ name c e. ground arith),
    AreKeys-delete_func current (λ n. not (contains (keys requested) n)) (keys current)
        (λ name c e. c),
  )

  pub remove-AreKeys : AreKeys current (schedule_server_groups current requested).2
  unfolding schedule_server_groups
  remove-AreKeys =
      AreKeys-delete_func current (contains (keys requested)) (keys current) (λ name c e. c)

pub AreKeys-grown :
    {V : Type 0} (m n : Dict V) (more names : List String)
    → keys n ≡ keys m ++ more
    → AreKeys m names
    → AreKeys n names
AreKeys-grown m n more [] e h = tt
AreKeys-grown m n more (name ∷ names) e h = (
  ap (λ ks. contains ks name) e ∙ ground (arith, h.0, contains-append (keys m) more name),
  AreKeys-grown m n more names e h.1,
)
