-- ===== src/Cluster/Reconcile/Convergence.antt =====
-- A reconcile of server.go that only has to create servers, and the reconcile after it.
pub mod Grouping
pub mod Growing
pub mod Reached
use mathlib.Core.Path.{subst}
use uni_compute.Base.{
  ℕ, ◌≡◌, refl, sym, ap, ◌∙◌, String, Bool, true, false, Option, none, some, List, [], ◌∷◌, All,
  contains, length, is_some, if◌then◌else◌, ◌==◌, string_eq, ==_self, ==_sound, Bool-cases,
  Option-cases, inl, inr, arith, Distinct,
}
use uni_compute.Base.Dict.{Dict, keys, lookup, contains-keys}
use uni_compute.Base.Int.{ℤ, pos, exceeds, ◌-ℤ◌, -ℤ_zero}
use uni_compute.Base.Result.{Result, ok, err, panic}
use uni_compute.External.Region.{ServerRead, SecurityGroupRead}
use uni_compute.External.Env.{Env}
use uni_compute.Api.{ComputeClusterWorkloadPoolSpec}
use uni_compute.Api.Accessors.{get_workload_pool}
use uni_compute.Cluster.ServerSet.{ServerSet, generate_security_group, server_spec}
use uni_compute.Cluster.Reconcile.{creations}
use uni_compute.Cluster.Reconcile.Settled.{IsCurrent, IsSettledPool}
use uni_compute.Cluster.Reconcile.Convergence.Grouping.{Groups, set_at, IsPlaced, members}

module _ {V : Type 0} (P : String × V → Type 0) where
  -- What holds of all that is looked up holds of all entries.
  All-lookup :
      (m : Dict V)
      → Distinct (keys m)
      → ((k : String) (v : V) → lookup k m ≡ some v → P (k, v))
      → All P m
  unfolding lookup
  All-lookup [] d h = tt
  All-lookup ((k, v) ∷ m) d h = (
    h k v (ground (arith, ==_self k)),
    All-lookup m d.1 λ j w e. h j w (ground (arith, e, d.0, contains-keys j m, ==_sound k j)),
  )

module _ (env : Env) (network_id : String) (groups : Dict SecurityGroupRead)
    (pools : List ComputeClusterWorkloadPoolSpec) where
  -- The cluster has the pool.
  abbrev pub Known : String → Type 0
  Known name = (pool : ComputeClusterWorkloadPoolSpec) × (get_workload_pool pools name ≡ some pool)

  -- The server has the specification that the pool of the name asks for.
  abbrev pub Good : String → ServerRead → Type 0
  Good name server =
      (pool : ComputeClusterWorkloadPoolSpec) (group : Option (List String))
      → get_workload_pool pools name ≡ some pool
      → generate_security_group pool groups ≡ ok group
      → server.spec ≡ server_spec network_id pool group

  -- Each pool has the security group that its servers refer to.
  abbrev pub AreGrouped : Type 0
  AreGrouped =
      (name : String) (pool : ComputeClusterWorkloadPoolSpec)
      → get_workload_pool pools name ≡ some pool
      → (group : Option (List String)) × (generate_security_group pool groups ≡ ok group)

  -- No pool has more servers than `size` says.
  abbrev pub AreWithin : (String → ℕ) → Type 0
  AreWithin size =
      (name : String) (pool : ComputeClusterWorkloadPoolSpec)
      → get_workload_pool pools name ≡ some pool
      → exceeds (size name) pool.replicas ≡ false

  All-IsCurrent :
      (name : String) (pool : ComputeClusterWorkloadPoolSpec) (group : Option (List String))
      (set : ServerSet)
      → get_workload_pool pools name ≡ some pool
      → generate_security_group pool groups ≡ ok group
      → All (λ e. Good name e.1) set
      → All (IsCurrent env network_id groups pool group) set
  All-IsCurrent name pool group [] found grouped good = tt
  All-IsCurrent name pool group ((_, server) ∷ set) found grouped good =
      (good.0 pool group found grouped, All-IsCurrent name pool group set found grouped good.1)

  pub Groups-AreSettled :
      (size : String → ℕ) (sets : Dict ServerSet)
      → AreGrouped
      → AreWithin size
      → Groups Known Good size sets
      → All (IsSettledPool env network_id groups pools) sets
  Groups-AreSettled size sets grouped within g =
      All-lookup (IsSettledPool env network_id groups pools) sets g.distinct λ name set e.
        let here : set_at name sets ≡ set = rw (e, set_at) refl in
        let (pool, found) = g.known name (rw e refl) in
        let (group, made) = grouped name pool found in
        record {
          pool = pool;
          group = group;
          found = found;
          sized =
              ap (λ n. exceeds n pool.replicas) (ap length (sym here) ∙ g.sized name)
              ∙ within name pool found;
          grouped = made;
          current =
              All-IsCurrent name pool group set found made
                (subst (All λ e. Good name e.1) here (g.good name));
        }

  pub creations_lem :
      (size : String → ℕ) (sets : Dict ServerSet) (pool : ComputeClusterWorkloadPoolSpec)
      → Groups Known Good size sets
      → creations pool sets ≡ pool.replicas -ℤ pos (size pool.name)
  unfolding creations
  creations_lem size sets pool g = elim (Option-cases (lookup pool.name sets)) [
    | inl e ↦
        let here : set_at pool.name sets ≡ [] = rw (e, set_at) refl in
        rw (e, creations)
          (sym (-ℤ_zero pool.replicas)
            ∙ ap (λ n. pool.replicas -ℤ pos n) (ap length (sym here) ∙ g.sized pool.name))
    | inr (set, e) ↦
        let here : set_at pool.name sets ≡ set = rw (e, set_at) refl in
        rw (e, creations)
          (ap (λ n. pool.replicas -ℤ pos n) (ap length (sym here) ∙ g.sized pool.name))
  ]
