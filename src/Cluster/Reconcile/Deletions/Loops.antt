-- ===== src/Cluster/Reconcile/Deletions/Loops.antt =====
-- The loops of a reconcile delete no foreign servers.
use uni_compute.Base.{
  ℕ, zero, suc, String, List, [], ◌∷◌, All, length, string_eq, Bool-cases, Option-cases, inl, inr,
  arith,
}
use uni_compute.Base.Dict.{Dict, values}
use uni_compute.Base.Int.{is_negative, pos_part}
use uni_compute.Base.Result.{err, consistency}
use uni_compute.External.Region.{ServerRead, ServerWrite, SecurityGroupRead}
use uni_compute.External.Env.{Env}
use uni_compute.Api.{ComputeClusterWorkloadPoolSpec}
use uni_compute.Api.Accessors.{get_workload_pool}
use uni_compute.Cluster.State.{State}
use uni_compute.Cluster.Client.{get_region_client, create_server, update_server, delete_server}
use uni_compute.Cluster.ServerSet.{ServerSet, needs_update}
use uni_compute.Cluster.Reconcile.{
  delete_server_wrapper, delete_all, clear_hint, store_cluster, generate_server, rebuild_or_update,
  refresh_one, refresh, shrink_and_refresh, reconcile_pools, creations, create_one, create_servers,
  scale_up,
}
use uni_compute.Cluster.Reconcile.Deletions.{
  IsSafe, Known, KnownEntry, KnownPool, bind-IsSafe, pure-IsSafe, lift-IsSafe, values-Known,
  delete_all-IsSafe, scale_down-IsSafe,
}

module _ (ids : List String) (env : Env) where
  module _ (network_id : String) (groups : Dict SecurityGroupRead) where
    generate_server-IsSafe :
        (pool : ComputeClusterWorkloadPoolSpec) (s : State)
        → IsSafe ids (λ _. Unit {0}) s (generate_server env network_id groups pool s)
    unfolding generate_server
    generate_server-IsSafe pool s = ground arith

    rebuild_or_update-IsSafe :
        (name : String) (server : ServerRead) (required : ServerWrite) (set : ServerSet) (s : State)
        → Known ids server
        → IsSafe ids
            (λ _. Unit {0})
            s
            (rebuild_or_update env network_id groups name server required set s)
    unfolding rebuild_or_update update_server delete_server_wrapper delete_server
    rebuild_or_update-IsSafe name server required set s k = ground (arith, k)

    refresh_one-IsSafe :
        (pool : ComputeClusterWorkloadPoolSpec) (name : String) (server : ServerRead)
        (set : ServerSet) (s : State)
        → Known ids server
        → IsSafe ids (λ _. Unit {0}) s (refresh_one env network_id groups pool name server set s)
    unfolding refresh_one
    refresh_one-IsSafe pool name server set s k =
        bind-IsSafe ids (λ _. Unit {0}) _ s (generate_server env network_id groups pool s) _
          (generate_server-IsSafe pool s)
          λ required t _. elim (Bool-cases (needs_update server required)) [
            | inl e ↦ rw e (rebuild_or_update-IsSafe name server required set t k)
            | inr e ↦ rw e (pure-IsSafe ids (λ _. Unit {0}) t set tt)
          ]

    refresh-IsSafe :
        (pool : ComputeClusterWorkloadPoolSpec) (entries set : ServerSet) (s : State)
        → All (KnownEntry ids) entries
        → IsSafe ids (λ _. Unit {0}) s (refresh env network_id groups pool entries set s)
    unfolding refresh
    refresh-IsSafe pool [] set s k = pure-IsSafe ids _ s set tt
    refresh-IsSafe pool ((name, server) ∷ entries) set s k =
        bind-IsSafe ids (λ _. Unit {0}) _ s
          (refresh_one env network_id groups pool name server set s) _
          (refresh_one-IsSafe pool name server set s k.0)
          λ kept t _. refresh-IsSafe pool entries kept t k.1

    shrink_and_refresh-IsSafe :
        (pool : ComputeClusterWorkloadPoolSpec) (preferred : List String) (set : ServerSet)
        (s : State)
        → All (KnownEntry ids) set
        → IsSafe ids
            (λ _. Unit {0})
            s
            (shrink_and_refresh env network_id groups pool preferred set s)
    unfolding shrink_and_refresh
    shrink_and_refresh-IsSafe pool preferred set s k =
        bind-IsSafe ids (All (KnownEntry ids)) _ s _ _
          (scale_down-IsSafe ids env (suc (length set)) pool.replicas preferred set s k)
          λ kept t known. refresh-IsSafe pool kept kept t known

    pub reconcile_pools-IsSafe :
        (pools : List ComputeClusterWorkloadPoolSpec) (preferred : List String)
        (sets : Dict ServerSet) (s : State)
        → All (KnownPool ids) sets
        → IsSafe ids
            (λ _. Unit {0})
            s
            (reconcile_pools env network_id groups pools preferred sets s)
    unfolding reconcile_pools
    reconcile_pools-IsSafe pools preferred [] s k = pure-IsSafe ids _ s [] tt
    reconcile_pools-IsSafe pools preferred ((name, set) ∷ sets) s k =
        elim (Option-cases (get_workload_pool pools name)) [
          | inl e ↦
              rw (e, reconcile_pools)
                (bind-IsSafe ids (λ _. Unit {0}) (λ _. Unit {0}) s (delete_all env (values set) s) _
                  (delete_all-IsSafe ids env (values set) s (values-Known ids set k.0))
                  λ _ t _. reconcile_pools-IsSafe pools preferred sets t k.1)
          | inr (pool, e) ↦
              rw (e, reconcile_pools)
                (bind-IsSafe ids (λ _. Unit {0}) (λ _. Unit {0}) s
                  (shrink_and_refresh env network_id groups pool preferred set s) _
                  (shrink_and_refresh-IsSafe pool preferred set s k.0)
                  λ kept t _.
                    bind-IsSafe ids (λ _. Unit {0}) (λ _. Unit {0}) t
                      (reconcile_pools env network_id groups pools preferred sets t) _
                      (reconcile_pools-IsSafe pools preferred sets t k.1)
                      λ done u _. pure-IsSafe ids (λ _. Unit {0}) u ((name, kept) ∷ done) tt)
        ]

    create_one-IsSafe :
        (pool : ComputeClusterWorkloadPoolSpec) (s : State)
        → IsSafe ids (λ _. Unit {0}) s (create_one env network_id groups pool s)
    unfolding create_one generate_server create_server
    create_one-IsSafe pool s = ground arith

    create_servers-IsSafe :
        (n : ℕ) (pool : ComputeClusterWorkloadPoolSpec) (s : State)
        → IsSafe ids (λ _. Unit {0}) s (create_servers env network_id groups n pool s)
    unfolding create_servers
    create_servers-IsSafe zero pool s = pure-IsSafe ids _ s tt tt
    create_servers-IsSafe (suc n) pool s =
        bind-IsSafe ids (λ _. Unit {0}) _ s (create_one env network_id groups pool s) _
          (create_one-IsSafe pool s) λ _ t _. create_servers-IsSafe n pool t

    pub scale_up-IsSafe :
        (pools : List ComputeClusterWorkloadPoolSpec) (sets : Dict ServerSet) (s : State)
        → IsSafe ids (λ _. Unit {0}) s (scale_up env network_id groups pools sets s)
    unfolding scale_up
    scale_up-IsSafe [] sets s = pure-IsSafe ids _ s tt tt
    scale_up-IsSafe (pool ∷ pools) sets s = elim (Bool-cases (is_negative (creations pool sets))) [
      | inl e ↦ rw e (lift-IsSafe ids (λ _. Unit {0}) s (err consistency) tt)
      | inr e ↦ rw e (
          bind-IsSafe ids (λ _. Unit {0}) (λ _. Unit {0}) s
            (create_servers env network_id groups (pos_part (creations pool sets)) pool s) _
            (create_servers-IsSafe (pos_part (creations pool sets)) pool s)
            λ _ t _. scale_up-IsSafe pools sets t)
    ]

  pub clear_hint-IsSafe :
      (preferred : List String) (s : State)
      → IsSafe ids (λ _. Unit {0}) s (clear_hint env preferred s)
  unfolding clear_hint store_cluster get_region_client
  clear_hint-IsSafe [] s = pure-IsSafe ids _ s tt tt
  clear_hint-IsSafe (_ ∷ _) s = ground arith
