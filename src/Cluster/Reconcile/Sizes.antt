-- ===== src/Cluster/Reconcile/Sizes.antt =====
-- The size of one pool of reconcileServers in
-- pkg/provisioners/managers/cluster/server.go while servers are deleted and rebuilt.
pub mod Pools
use native.Mathlib.Nat.{le_refl, le_trans}
use uni_compute.Base.{
  ℕ, zero, suc, ◌+◌, ◌≤◌, ◌<◌, ◌≡◌, refl, ◌∙◌, sym, ap, String, Bool, true, false, not, Option,
  none, some, List, [], ◌∷◌, All, contains, length, if◌then◌else◌, ◌==◌, string_eq, Bool-cases,
  Option-cases, inl, inr, arith, ltb, Distinct, ==_self, ◌||◌,
}
use uni_compute.Base.Dict.{Dict, keys, values, lookup, insert, erase, contains-erase, length-erase}
use uni_compute.Base.Int.{ℤ, pos, ◌-ℤ◌, exceeds, is_negative, pos_part}
use uni_compute.Base.Result.{Result, ok, err, panic}
use uni_compute.Base.State.{Comp, bind}
use uni_compute.External.Region.{ServerRead, ServerWrite, SecurityGroupRead}
use uni_compute.External.Env.{Env}
use uni_compute.Api.{ComputeClusterWorkloadPoolSpec}
use uni_compute.Api.Accessors.{get_workload_pool}
use uni_compute.Cluster.State.{State}
use uni_compute.Cluster.Client.{update_server}
use uni_compute.Cluster.ServerSet.{
  ServerSet, select_deletion_candidate, needs_update, needs_rebuild,
}
use uni_compute.Cluster.ServerSet.Laws.{IsKeyed, IsNamed}
use uni_compute.Cluster.ServerSet.Candidates.{candidate, erase-IsNamed}
use uni_compute.Cluster.Reconcile.{
  delete_server_wrapper, delete_all, delete_one, scale_down, generate_server, rebuild_or_update,
  refresh_one, refresh, shrink_and_refresh, reconcile_pools, creations,
}
use uni_compute.Cluster.Reconcile.Deletions.{OnOk}

pub bind-OnOk :
    {A B : Type 0} (P : A → Type 0) (Q : B → Type 0) (m : Result A × State) (f : A → Comp State B)
    → OnOk P m.0
    → ((a : A) (t : State) → P a → OnOk Q (f a t).0)
    → OnOk Q (bind m f).0
bind-OnOk P Q (ok a, t) f h k = k a t h
bind-OnOk P Q (err e, t) f h k = tt
bind-OnOk P Q (panic, t) f h k = tt

pub any-OnOk : {A : Type 0} (r : Result A) → OnOk (λ _. Unit {0}) r
any-OnOk (ok a) = tt
any-OnOk (err e) = tt
any-OnOk panic = tt

pub length-erase_le : (name : String) (set : ServerSet) → length (erase name set) ≤ length set
unfolding erase
length-erase_le name [] = omega arith
length-erase_le name (e ∷ set) = ground (arith, length-erase_le name set)

-- A name that is there is overwritten.
pub keys-insert :
    (name : String) (v : ServerRead) (set : ServerSet)
    → contains (keys set) name ≡ true
    → (keys (insert name v set) ≡ keys set) × (length (insert name v set) ≡ length set)
unfolding insert
keys-insert name v [] h = cc
keys-insert name v ((k, w) ∷ set) h = ground (arith, keys-insert name v set)

-- The names of the entries are names of the set.
abbrev pub AreIn : ServerSet → ServerSet → Type 0
AreIn set = All (λ e. contains (keys set) e.0 ≡ true)

pub AreIn-erase :
    (name : String) (set entries : ServerSet)
    → contains (keys entries) name ≡ false
    → AreIn set entries
    → AreIn (erase name set) entries
AreIn-erase name set [] h i = tt
AreIn-erase name set ((k, v) ∷ entries) h i = (
  ground (arith, h, i.0, contains-erase k name set),
  AreIn-erase name set entries (ground (arith, h)) i.1,
)

pub AreIn-more :
    (set more entries : ServerSet) → keys more ≡ keys set → AreIn set entries → AreIn more entries
AreIn-more set more [] e i = tt
AreIn-more set more (entry ∷ entries) e i =
    (ap (λ ks. contains ks entry.0) e ∙ i.0, AreIn-more set more entries e i.1)

AreIn-cons :
    (e : String × ServerRead) (set entries : ServerSet)
    → AreIn set entries
    → AreIn (e ∷ set) entries
AreIn-cons e set [] i = tt
AreIn-cons e set (entry ∷ entries) i = (ground (arith, i.0), AreIn-cons e set entries i.1)

pub AreIn-self : (set : ServerSet) → AreIn set set
AreIn-self [] = tt
AreIn-self ((k, v) ∷ set) = (ground (arith, ==_self k), AreIn-cons (k, v) set set (AreIn-self set))

-- A set of servers under their names that is no larger than `n`.
pub record Fits (n : ℕ) (set : ServerSet) : Type 0 where
  pub named : IsNamed set
  pub bounded : length set ≤ n

module _ (env : Env) where
  delete_one-shrinks :
      (preferred : List String) (set : ServerSet) (s : State)
      → IsNamed set
      → 0 < length set
      → OnOk
          (λ kept. IsNamed kept × (length set ≡ suc (length kept)))
          (delete_one env preferred set s).0
  unfolding delete_one
  delete_one-shrinks preferred set s named some_left =
      let (v, picked, pick) = candidate preferred set named some_left in
      rw picked (
        bind-OnOk (λ _. Unit {0}) _ (delete_server_wrapper env v s) _ (any-OnOk _)
          λ _ t _. (
            erase-IsNamed v.name set named,
            length-erase v.name {v = v} set named.distinct pick.held,
          ))

  pub scale_down-Fits :
      (fuel n : ℕ) (preferred : List String) (set : ServerSet) (s : State)
      → IsNamed set
      → length set ≤ fuel + n
      → OnOk (Fits n) (scale_down env fuel (pos n) preferred set s).0
  unfolding scale_down
  scale_down-Fits zero n preferred set s named h = record {
    named = named;
    bounded = omega (arith, h);
  }
  scale_down-Fits (suc fuel) n preferred set s named h = elim (Bool-cases (ltb n (length set))) [
    | inr e ↦ rw e (record { named = named; bounded = ground arith })
    | inl e ↦ rw e (
        bind-OnOk _ (Fits n) (delete_one env preferred set s) _
          (delete_one-shrinks preferred set s named (ground arith))
          λ kept t less. scale_down-Fits fuel n preferred kept t less.0 (omega (arith, less.1, h)))
  ]
