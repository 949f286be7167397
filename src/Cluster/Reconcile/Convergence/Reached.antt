-- ===== src/Cluster/Reconcile/Convergence/Reached.antt =====
-- A reconcile of server.go that only has to create servers creates all of them, and the reconcile after
-- it has nothing to do.
use mathlib.Core.Path.{subst}
use uni_compute.Base.{
  ℕ, ◌+◌, ◌≤◌, ◌≡◌, refl, sym, ap, ◌∙◌, String, false, none, some, List, [], ◌∷◌, map, total, All,
  length, ◌==◌, string_eq, ==_sound, arith, Distinct, find-All, find-passes,
}
use uni_compute.Base.Dict.{Dict, lookup}
use uni_compute.Base.Int.{ℤ, pos, negsuc, exceeds, ◌-ℤ◌, is_negative, pos_part}
use uni_compute.Base.Result.{Result, ok}
use uni_compute.External.Region.{SecurityGroupRead}
use uni_compute.External.Env.{Env}
use uni_compute.Api.{ComputeClusterWorkloadPoolSpec}
use uni_compute.Api.Accessors.{get_workload_pool}
use uni_compute.Cluster.State.{State}
use uni_compute.Cluster.ServerSet.{ServerSet, new_server_pool_set}
use uni_compute.Cluster.Reconcile.{
  reconcile_servers, scale_up, clear_hint, creations, deletion_hint, preferred_deletion_ids,
}
use uni_compute.Cluster.Reconcile.Settled.{
  IsSettledPool, reconcile_pools-idle, reconcile_servers-idle,
}
use uni_compute.Cluster.Reconcile.Convergence.{
  Known, Good, AreGrouped, AreWithin, Groups-AreSettled, creations_lem,
}
use uni_compute.Cluster.Reconcile.Convergence.Grouping.{Groups, members, new_server_pool_set-Groups}
use uni_compute.Cluster.Reconcile.Convergence.Growing.{
  IsCreating, Growing, lacking, scale_up-Grows, lacking_own,
}

rest_fits : (n : ℕ) (z : ℤ) → exceeds n z ≡ false → is_negative (z -ℤ pos n) ≡ false
unfolding ◌-ℤ◌
rest_fits n (pos m) e = ground (arith, e)
rest_fits n (negsuc m) e = cc

rest_fills : (n : ℕ) (z : ℤ) → exceeds n z ≡ false → pos (n + pos_part (z -ℤ pos n)) ≡ z
unfolding ◌-ℤ◌
rest_fills n (pos m) e = ground (arith, e)
rest_fills n (negsuc m) e = cc

nothing_left : (n : ℕ) → pos n -ℤ pos n ≡ pos 0
unfolding ◌-ℤ◌
nothing_left n = ground arith

full_fits : (n : ℕ) → exceeds n (pos n) ≡ false
full_fits n = ground arith

succeeded : (m : Result (Unit {0}) × State) → m.0 ≡ ok tt → m ≡ (ok tt, m.1)
succeeded (r, t) e = rw e refl

module _ (env : Env) (network_id : String) (groups : Dict SecurityGroupRead) (limit : ℕ) where
  -- The cluster has pools of different names, with their security groups, and no eviction is pending;
  -- its servers are as their pools ask, and no pool has too many.
  pub record CanGrow (s : State) : Type 0 where
    pub names : Distinct (map (λ pool. pool.name) s.cluster.spec.workload_pools)
    pub own :
        All
          (λ pool. get_workload_pool s.cluster.spec.workload_pools pool.name ≡ some pool)
          s.cluster.spec.workload_pools
    pub calm : lookup deletion_hint s.cluster.annotations ≡ none
    pub grouped : AreGrouped env network_id groups s.cluster.spec.workload_pools
    pub growing : Growing env network_id groups s.cluster.spec.workload_pools limit 0 s
    -- One name for each server and one for each creation are left.
    pub room :
        (sets : Dict ServerSet)
        → new_server_pool_set s.servers ≡ ok sets
        → s.draws
            + (total (λ (e : String × ServerSet). length e.1) sets
                + total (λ pool. pos_part (creations pool sets)) s.cluster.spec.workload_pools)
          ≤ limit
    pub within :
        AreWithin env network_id groups s.cluster.spec.workload_pools
          (λ name. members name s.servers)

  -- A reconcile succeeds with as many servers in each pool as it should have, and the next one succeeds
  -- and only draws random suffixes.
  pub record Converges (s : State) : Type 0 where
    pub next : State
    pub run : reconcile_servers env network_id groups s ≡ (ok tt, next)
    pub same : next.cluster ≡ s.cluster
    pub filled :
        All
          (λ pool. pos (members pool.name next.servers) ≡ pool.replicas)
          s.cluster.spec.workload_pools
    pub draws : ℕ
    pub idle : reconcile_servers env network_id groups next ≡ (ok tt, record next { draws = draws })

  module _ (creating : IsCreating env limit) (s : State) (can : CanGrow s) where
    abbrev pools : List ComputeClusterWorkloadPoolSpec
    pools = s.cluster.spec.workload_pools

    abbrev AreGroups : Dict ServerSet → Type 0
    AreGroups sets =
        Groups (Known env network_id groups pools) (Good env network_id groups pools)
          (λ name. members name s.servers) sets

    -- What holds of the pools holds of those that are found.
    of_found :
        (P : ComputeClusterWorkloadPoolSpec → Type 0) (name : String)
        (pool : ComputeClusterWorkloadPoolSpec)
        → All P pools
        → get_workload_pool pools name ≡ some pool
        → P pool × (pool.name ≡ name)
    of_found P name pool all e = (
      find-All P (λ p. p.name == name) pools {x = pool} all e,
      ==_sound pool.name name (find-passes (λ p. p.name == name) pools {x = pool} e),
    )

    all_fit :
        (some_of : List ComputeClusterWorkloadPoolSpec) (sets : Dict ServerSet)
        → All (λ pool. get_workload_pool pools pool.name ≡ some pool) some_of
        → AreGroups sets
        → All (λ pool. is_negative (creations pool sets) ≡ false) some_of
    all_fit [] sets own g = tt
    all_fit (pool ∷ some_of) sets own g = (
      ap is_negative
            (creations_lem env network_id groups pools (λ name. members name s.servers) sets pool g)
          ∙ rest_fits (members pool.name s.servers) pool.replicas (can.within pool.name pool own.0),
      all_fit some_of sets own.1 g,
    )

    -- Each pool then has the servers that it had and those that it lacked.
    all_filled :
        (some_of : List ComputeClusterWorkloadPoolSpec) (sets : Dict ServerSet) (after : ServerSet)
        → All (λ pool. get_workload_pool pools pool.name ≡ some pool) some_of
        → All
            (λ pool.
              lacking env network_id groups pools limit creating can.grouped sets pools pool.name
              ≡ pos_part (creations pool sets))
            some_of
        → AreGroups sets
        → ((name : String)
            → members name after
              ≡ members name s.servers
                + lacking env network_id groups pools limit creating can.grouped sets pools name)
        → All (λ pool. pos (members pool.name after) ≡ pool.replicas) some_of
    all_filled [] sets after own lacks g adds = tt
    all_filled (pool ∷ some_of) sets after own lacks g adds =
        let had = members pool.name s.servers in
        let lacked =
          lacks.0
          ∙ ap pos_part (
              creations_lem env network_id groups pools (λ name. members name s.servers) sets pool
                g) in
        (
          ap pos (adds pool.name ∙ ap (had +◌) lacked)
              ∙ rest_fills had pool.replicas (can.within pool.name pool own.0),
          all_filled some_of sets after own.1 lacks.1 g adds,
        )

    module _ (after : ServerSet)
        (filled : All (λ pool. pos (members pool.name after) ≡ pool.replicas) pools) where
      filled_within : AreWithin env network_id groups pools (λ name. members name after)
      filled_within name pool e =
          let (full, named) =
            of_found (λ p. pos (members p.name after) ≡ p.replicas) name pool filled e in
          ap (exceeds (members name after)) (sym full ∙ ap (λ n. pos (members n after)) named)
          ∙ full_fits (members name after)

      no_creations :
          (some_of : List ComputeClusterWorkloadPoolSpec) (sets : Dict ServerSet)
          → All (λ pool. pos (members pool.name after) ≡ pool.replicas) some_of
          → Groups
              (Known env network_id groups pools)
              (Good env network_id groups pools)
              (λ name. members name after)
              sets
          → All (λ pool. creations pool sets ≡ pos 0) some_of
      no_creations [] sets full g = tt
      no_creations (pool ∷ some_of) sets full g = (
        creations_lem env network_id groups pools (λ name. members name after) sets pool g
            ∙ ap (λ z. z -ℤ pos (members pool.name after)) (sym full.0)
            ∙ nothing_left (members pool.name after),
        no_creations some_of sets full.1 g,
      )

    -- The reconcile of a state with these pools, filled, and servers as they ask.
    next_is_idle :
        (t : State)
        → t.cluster ≡ s.cluster
        → Growing env network_id groups pools limit 0 t
        → All (λ pool. pos (members pool.name t.servers) ≡ pool.replicas) pools
        → (k : ℕ) × (reconcile_servers env network_id groups t ≡ (ok tt, record t { draws = k }))
    next_is_idle t same growing filled =
        let (sets, read, g) =
          new_server_pool_set-Groups (Known env network_id groups pools)
            (Good env network_id groups pools) t.servers growing.distinct growing.placed in
        reconcile_servers-idle env network_id groups t {sets = sets} read
          (ap (λ c. lookup deletion_hint c.annotations) same ∙ can.calm)
          (subst (λ c. All (IsSettledPool env network_id groups c.spec.workload_pools) sets)
            (sym same)
            (Groups-AreSettled env network_id groups pools (λ name. members name t.servers) sets
              can.grouped (filled_within t.servers filled) g))
          (subst (λ c. All (λ pool. creations pool sets ≡ pos 0) c.spec.workload_pools) (sym same)
            (no_creations t.servers filled pools sets filled g))

    -- If the region service creates the servers that it is asked for, random suffixes do not repeat up
    -- to a limit that is enough for one name for each server and each creation, names drawn later are
    -- new, pools have different names and their security groups, every server is being deleted or has
    -- the specification that its pool asks for, no pool has too many and no eviction is pending, then
    -- one reconcile succeeds, after it every pool has exactly as many servers as it should, and the
    -- reconcile after that succeeds with no request and no change.
    pub reconcile_servers-Converges : Converges s
    unfolding reconcile_servers preferred_deletion_ids clear_hint
    reconcile_servers-Converges =
        let size = λ (name : String). members name s.servers in
        let (sets, read, g) =
          new_server_pool_set-Groups (Known env network_id groups pools)
            (Good env network_id groups pools) s.servers can.growing.distinct can.growing.placed in
        let settled =
          Groups-AreSettled env network_id groups pools size sets can.grouped can.within g in
        let (k, waits, later) =
          reconcile_pools-idle env network_id groups pools [] sets s settled in
        let ready : State = record s { draws = k } in
        let out = scale_up env network_id groups pools sets ready in
        let grows =
          scale_up-Grows env network_id groups pools limit creating can.grouped pools sets ready
            can.own (all_fit pools sets can.own g)
            (record {
              distinct = can.growing.distinct;
              placed = can.growing.placed;
              fresh = λ j p e b. can.growing.fresh j p (omega (arith, later, e)) b;
              room = omega (arith, later, can.room sets read);
            }) in
        let filled =
          all_filled pools sets out.1.servers can.own
            (lacking_own env network_id groups pools limit creating can.grouped sets pools
              can.names)
            g grows.adds in
        let (n, idle) = next_is_idle out.1 grows.same grows.growing filled in
        record {
          next = out.1;
          run = rw (read, can.calm, preferred_deletion_ids, waits) (succeeded out grows.succeeds);
          same = grows.same;
          filled = filled;
          draws = n;
          idle = idle;
        }
