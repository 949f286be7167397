-- ===== src/Cluster/Reconcile/Sizes/Pools.antt =====
-- The sizes of the pools that reconcileServers of
-- pkg/provisioners/managers/cluster/server.go is left with before its last loop.
use mathlib.Core.Option.{some-injective}
use native.Mathlib.Nat.{le_refl}
use uni_compute.Base.{
  ℕ, suc, ◌≤◌, ◌≡◌, refl, ◌∙◌, sym, String, true, false, some, List, [], ◌∷◌, All, contains, length,
  ◌==◌, string_eq, Bool-cases, Option-cases, inl, inr, arith, ==_sound,
}
use uni_compute.Base.Dict.{Dict, keys, values, lookup, insert}
use uni_compute.Base.Int.{ℤ, pos, ◌-ℤ◌, is_negative, pos_part, negsuc}
use uni_compute.Base.Result.{Result, ok, err, panic}
use uni_compute.External.Region.{ServerRead, ServerWrite, SecurityGroupRead}
use uni_compute.External.Env.{Env}
use uni_compute.Api.{ComputeClusterWorkloadPoolSpec}
use uni_compute.Api.Accessors.{get_workload_pool}
use uni_compute.Cluster.State.{State}
use uni_compute.Cluster.Client.{update_server}
use uni_compute.Cluster.ServerSet.{ServerSet, needs_update, needs_rebuild}
use uni_compute.Cluster.ServerSet.Laws.{IsNamed}
use uni_compute.Cluster.Reconcile.{
  delete_server_wrapper, delete_all, scale_down, generate_server, rebuild_or_update, refresh_one,
  refresh, shrink_and_refresh, reconcile_pools, creations,
}
use uni_compute.Cluster.Reconcile.Deletions.{OnOk}
use uni_compute.Cluster.Reconcile.Sizes.{
  bind-OnOk, any-OnOk, length-erase_le, keys-insert, AreIn, AreIn-erase, AreIn-more, AreIn-self,
  Fits, scale_down-Fits,
}

-- The pool of the entry exists and has no more servers than it should.
abbrev Within : List ComputeClusterWorkloadPoolSpec → String × ServerSet → Type 0
Within pools (name, set) =
    (pool : ComputeClusterWorkloadPoolSpec) × (get_workload_pool pools name ≡ some pool)
    × (length set ≤ pos_part pool.replicas)

-- No pool is larger than it should be.
abbrev pub AreFilled : List ComputeClusterWorkloadPoolSpec → Dict ServerSet → Type 0
AreFilled pools kept = All (λ pool. is_negative (creations pool kept) ≡ false) pools

counted : (z : ℤ) → is_negative z ≡ false → z ≡ pos (pos_part z)
counted (pos n) h = refl
counted (negsuc n) h = cc

found_counts :
    (pools : List ComputeClusterWorkloadPoolSpec) (name : String)
    {pool : ComputeClusterWorkloadPoolSpec}
    → All (λ p. is_negative p.replicas ≡ false) pools
    → get_workload_pool pools name ≡ some pool
    → is_negative pool.replicas ≡ false
found_counts [] name c e = cc
found_counts (p ∷ pools) name {pool} c e = elim (Bool-cases (p.name == name)) [
  | inl same ↦ let eq = some-injective p pool (rw same at e) in rw (← eq) c.0
  | inr differs ↦ found_counts pools name {pool = pool} c.1 (rw differs at e)
]

lookup-Within :
    (pools : List ComputeClusterWorkloadPoolSpec) (name : String) (kept : Dict ServerSet)
    {set : ServerSet} {pool : ComputeClusterWorkloadPoolSpec}
    → All (Within pools) kept
    → get_workload_pool pools name ≡ some pool
    → lookup name kept ≡ some set
    → length set ≤ pos_part pool.replicas
unfolding lookup
lookup-Within pools name [] w g e = cc
lookup-Within pools name ((k, other) ∷ kept) {set} {pool} w g e = elim (Bool-cases (k == name)) [
  | inl same ↦
      let (p, found, bound) = w.0 in
      let set_eq = some-injective other set (rw (same, lookup) at e) in
      let name_eq = ==_sound k name same in
      let found_there : get_workload_pool pools name ≡ some p = rw name_eq at found in
      let pool_eq = some-injective p pool (sym found_there ∙ g) in rw (← set_eq, ← pool_eq) bound
  | inr differs ↦
      lookup-Within pools name kept {set = set} {pool = pool} w.1 g (rw (differs, lookup) at e)
]

difference_fits :
    (z : ℤ) (n : ℕ) → is_negative z ≡ false → n ≤ pos_part z → is_negative (z -ℤ pos n) ≡ false
unfolding ◌-ℤ◌
difference_fits (pos m) n h b = ground (arith, b)
difference_fits (negsuc m) n h b = cc

creations_fit :
    (pools : List ComputeClusterWorkloadPoolSpec) (pool : ComputeClusterWorkloadPoolSpec)
    (kept : Dict ServerSet)
    → get_workload_pool pools pool.name ≡ some pool
    → is_negative pool.replicas ≡ false
    → All (Within pools) kept
    → is_negative (creations pool kept) ≡ false
unfolding creations
creations_fit pools pool kept own count w = elim (Option-cases (lookup pool.name kept)) [
  | inl e ↦ rw (e, creations) count
  | inr (set, e) ↦
      rw (e, creations)
        (difference_fits pool.replicas (length set) count
          (lookup-Within pools pool.name kept {set = set} {pool = pool} w own e))
]

filled :
    (pools : List ComputeClusterWorkloadPoolSpec)
    → All (λ pool. get_workload_pool pools pool.name ≡ some pool) pools
    → All (λ pool. is_negative pool.replicas ≡ false) pools
    → (r : Result (Dict ServerSet)) → OnOk (All (Within pools)) r
    → OnOk (AreFilled pools) r
filled pools own counts (err e) h = tt
filled pools own counts panic h = tt
filled pools own counts (ok kept) h = each pools own counts
  where
    each :
        (some_of : List ComputeClusterWorkloadPoolSpec)
        → All (λ pool. get_workload_pool pools pool.name ≡ some pool) some_of
        → All (λ pool. is_negative pool.replicas ≡ false) some_of
        → AreFilled some_of kept
    each [] o c = tt
    each (pool ∷ rest) o c = (creations_fit pools pool kept o.0 c.0 h, each rest o.1 c.1)

module _ (env : Env) (network_id : String) (groups : Dict SecurityGroupRead) where
  -- The set has not grown, and still has the entries that are to come.
  abbrev HasKept : ℕ → ServerSet → ServerSet → Type 0
  HasKept n rest set = (length set ≤ n) × AreIn set rest

  rebuild_or_update-HasKept :
      (name : String) (server : ServerRead) (required : ServerWrite) (rest set : ServerSet)
      (s : State)
      → name ≡ server.name
      → contains (keys rest) name ≡ false
      → contains (keys set) name ≡ true
      → AreIn set rest
      → OnOk
          (HasKept (length set) rest)
          (rebuild_or_update env network_id groups name server required set s).0
  unfolding rebuild_or_update
  rebuild_or_update-HasKept name server required rest set s e new old i =
      elim (Bool-cases (needs_rebuild server required)) [
        | inl yes_ ↦ rw yes_ (
            bind-OnOk (λ _. Unit {0}) (HasKept (length set) rest)
              (delete_server_wrapper env server s) _ (any-OnOk _)
              λ _ t _.
                (length-erase_le server.name set, AreIn-erase server.name set rest (rw e at new) i))
        | inr no_ ↦ rw no_ (
            bind-OnOk (λ _. Unit {0}) (HasKept (length set) rest)
              (update_server env server.id (record required { name = name }) s) _ (any-OnOk _)
              λ updated t _.
                let k = keys-insert name updated set old in
                (omega (arith, k.1), AreIn-more set (insert name updated set) rest k.0 i))
      ]

  refresh_one-HasKept :
      (pool : ComputeClusterWorkloadPoolSpec) (name : String) (server : ServerRead)
      (rest set : ServerSet) (s : State)
      → name ≡ server.name
      → contains (keys rest) name ≡ false
      → contains (keys set) name ≡ true
      → AreIn set rest
      → OnOk
          (HasKept (length set) rest)
          (refresh_one env network_id groups pool name server set s).0
  unfolding refresh_one
  refresh_one-HasKept pool name server rest set s e new old i =
      bind-OnOk (λ _. Unit {0}) _ (generate_server env network_id groups pool s) _ (any-OnOk _)
        λ required t _. elim (Bool-cases (needs_update server required)) [
          | inl yes_ ↦
              rw yes_ (rebuild_or_update-HasKept name server required rest set t e new old i)
          | inr no_ ↦ rw no_ (le_refl (length set), i)
        ]

  refresh-bounded :
      (pool : ComputeClusterWorkloadPoolSpec) (n : ℕ) (entries set : ServerSet) (s : State)
      → IsNamed entries
      → AreIn set entries
      → length set ≤ n
      → OnOk (λ kept. length kept ≤ n) (refresh env network_id groups pool entries set s).0
  unfolding refresh
  refresh-bounded pool n [] set s named i h = h
  refresh-bounded pool n ((name, server) ∷ entries) set s named i h =
      bind-OnOk (HasKept (length set) entries) _
        (refresh_one env network_id groups pool name server set s) _
        (refresh_one-HasKept pool name server entries set s named.keyed.0 named.distinct.0 i.0 i.1)
        λ kept t has.
          refresh-bounded pool n entries kept t
            (record { keyed = named.keyed.1; distinct = named.distinct.1 }) has.1
            (omega (arith, has.0, h))

  shrink_and_refresh-bounded :
      (pool : ComputeClusterWorkloadPoolSpec) (n : ℕ) (preferred : List String) (set : ServerSet)
      (s : State)
      → pool.replicas ≡ pos n
      → IsNamed set
      → OnOk
          (λ kept. length kept ≤ n)
          (shrink_and_refresh env network_id groups pool preferred set s).0
  unfolding shrink_and_refresh
  shrink_and_refresh-bounded pool n preferred set s e named =
      bind-OnOk (Fits n) (λ kept. length kept ≤ n)
        (scale_down env (suc (length set)) pool.replicas preferred set s) _
        (rw e (scale_down-Fits env (suc (length set)) n preferred set s named (omega arith)))
        λ kept t fits. refresh-bounded pool n kept kept t fits.named (AreIn-self kept) fits.bounded

  reconcile_pools-Within :
      (pools : List ComputeClusterWorkloadPoolSpec) (preferred : List String)
      (sets : Dict ServerSet) (s : State)
      → All (λ pool. is_negative pool.replicas ≡ false) pools
      → All (λ e. IsNamed e.1) sets
      → OnOk (All (Within pools)) (reconcile_pools env network_id groups pools preferred sets s).0
  unfolding reconcile_pools
  reconcile_pools-Within pools preferred [] s counts named = tt
  reconcile_pools-Within pools preferred ((name, set) ∷ sets) s counts named =
      elim (Option-cases (get_workload_pool pools name)) [
        | inl e ↦
            rw (e, reconcile_pools)
              (bind-OnOk (λ _. Unit {0}) (All (Within pools)) (delete_all env (values set) s) _
                (any-OnOk _) λ _ t _. reconcile_pools-Within pools preferred sets t counts named.1)
        | inr (pool, e) ↦
            let n = pos_part pool.replicas in
            let size = counted pool.replicas (found_counts pools name {pool = pool} counts e) in
            rw (e, reconcile_pools)
              (bind-OnOk (λ kept. length kept ≤ n) (All (Within pools))
                (shrink_and_refresh env network_id groups pool preferred set s) _
                (shrink_and_refresh-bounded pool n preferred set s size named.0)
                λ kept t bound.
                  bind-OnOk (All (Within pools)) (All (Within pools))
                    (reconcile_pools env network_id groups pools preferred sets t) _
                    (reconcile_pools-Within pools preferred sets t counts named.1)
                    λ done u rest. ((pool, e, bound), rest))
      ]

  -- If the pools have distinct names and sizes that are not negative, then after deletions, rebuilds
  -- and updates no pool has more servers than it should, whatever the services answer, so that the
  -- last loop never fails for a pool that is larger than required.
  pub reconcile_pools-AreFilled :
      (pools : List ComputeClusterWorkloadPoolSpec) (preferred : List String)
      (sets : Dict ServerSet) (s : State)
      → All (λ pool. get_workload_pool pools pool.name ≡ some pool) pools
      → All (λ pool. is_negative pool.replicas ≡ false) pools
      → All (λ e. IsNamed e.1) sets
      → OnOk (AreFilled pools) (reconcile_pools env network_id groups pools preferred sets s).0
  reconcile_pools-AreFilled pools preferred sets s own counts named =
      filled pools own counts _ (reconcile_pools-Within pools preferred sets s counts named)
