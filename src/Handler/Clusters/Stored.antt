-- ===== src/Handler/Clusters/Stored.antt =====
-- The writes of the cluster handler's client.go: every stored cluster names its identity and network.
use uni_compute.Base.{
  String, none, some, List, ◌∷◌, Option-cases, inl, inr, string_eq, arith, ==_self,
}
use uni_compute.Base.Result.{Result, ok, err, panic}
use uni_compute.External.Core.{Conditions}
use uni_compute.External.Catalog.{HandlerRequest, HandlerHistory, Allocation}
use uni_compute.External.Handlers.{ApiEnv}
use uni_compute.Api.{ComputeCluster}
use uni_compute.OpenApi.{ComputeClusterWrite}
use uni_compute.Cluster.State.{expect}
use uni_compute.Handler.Runs.{Quiet, bind-Quiet, check-Quiet}
use uni_compute.Handler.Client.{write}
use uni_compute.Handler.Metadata.{metadata_mutator, metadata_mutator_lem}
use uni_compute.Handler.Evict.{generate_allocations, store}
use uni_compute.Handler.Clusters.{
  generate, create_identity, create_network_openstack, network_request, with_identity,
  apply_cloud_specific_configuration, allocate, create_generated, create, merge, update_current,
}
use uni_compute.Handler.Clusters.{identity_request}
use uni_compute.Handler.Clusters.Configured.{
  IsConfigured, Sound, asking, then_, generate-Sound, generate_allocations-Sound, write-Sound,
  inserted,
}

module _ (env : ApiEnv) (conditions : Conditions) where
  create_network_openstack-Sound :
      (organization project identity : String) (cluster : ComputeCluster) (h : HandlerHistory)
      → Sound env conditions h
      → Quiet
          (Sound env conditions)
          (λ (_ : String). Unit {0})
          (create_network_openstack env conditions organization project cluster identity h)
  unfolding create_network_openstack
  create_network_openstack-Sound organization project identity cluster h s =
      elim (Option-cases cluster.spec.network) [
        | inl e ↦ rw (e, create_network_openstack) s
        | inr (network, e) ↦
            let r =
              HandlerRequest.create_network organization project identity
                (network_request env conditions cluster network) in
            rw (e, create_network_openstack)
              (asking env conditions r (expect 201 (env.created (r ∷ h))) h tt s)
      ]

  create_identity-Sound :
      (organization project region cluster : String) (h : HandlerHistory)
      → Sound env conditions h
      → Quiet
          (Sound env conditions)
          (λ (_ : String). Unit {0})
          (create_identity env conditions organization project region cluster h)
  unfolding create_identity
  create_identity-Sound organization project region cluster h s =
      let r =
        HandlerRequest.create_identity organization project
          (identity_request env conditions region cluster) in
      asking env conditions r (expect 201 (env.created (r ∷ h))) h tt s

  apply_cloud_specific_configuration-Sound :
      (organization project identity : String) (cluster : ComputeCluster) (h : HandlerHistory)
      → Sound env conditions h
      → Quiet (Sound env conditions) (IsConfigured env conditions) (
          apply_cloud_specific_configuration env conditions organization project identity cluster h)
  unfolding apply_cloud_specific_configuration
  apply_cloud_specific_configuration-Sound organization project identity cluster h s =
      let named = with_identity env conditions identity cluster in
      bind-Quiet (Sound env conditions) (λ (_ : String). Unit {0}) (IsConfigured env conditions)
        (create_network_openstack env conditions organization project named identity h) _
        (create_network_openstack-Sound organization project identity named h s)
        λ network t s _. (
          s,
          (
            inserted env conditions env.network_label network cluster.labels,
            inserted env conditions env.identity_annotation identity cluster.annotations,
          ),
        )

  allocate-Sound :
      (cluster : ComputeCluster) (allocations : List Allocation) (h : HandlerHistory)
      → Sound env conditions h
      → Quiet
          (Sound env conditions)
          (λ (_ : ComputeCluster). Unit {0})
          (allocate env conditions cluster allocations h)
  unfolding allocate
  allocate-Sound cluster allocations h s =
      let r = HandlerRequest.create_allocations cluster allocations in
      bind-Quiet (Sound env conditions) (λ (_ : Unit {0}). Unit {0})
        (λ (_ : ComputeCluster). Unit {0}) (write env.base r h) _
        (write-Sound env conditions r h tt s) λ _ t s _. (s, tt)

  create_generated-Sound :
      (organization project region : String) (cluster : ComputeCluster) (h : HandlerHistory)
      → Sound env conditions h
      → Sound env conditions
          (create_generated env conditions organization project region cluster h).1
  unfolding create_generated
  create_generated-Sound organization project region cluster h s =
      then_ env conditions (λ (_ : String). Unit {0})
        (create_identity env conditions organization project region cluster.name h) _
        (create_identity-Sound organization project region cluster.name h s)
        λ identity h s _.
          then_ env conditions (λ (_ : List Allocation). Unit {0})
            (generate_allocations env.base organization cluster h) _
            (generate_allocations-Sound env conditions organization cluster h s)
            λ allocations h s _.
              then_ env conditions (λ (_ : ComputeCluster). Unit {0})
                (allocate env conditions cluster allocations h) _
                (allocate-Sound cluster allocations h s)
                λ allocated h s _.
                  then_ env conditions (IsConfigured env conditions)
                    (apply_cloud_specific_configuration env conditions organization project identity
                      allocated h)
                    _
                    (apply_cloud_specific_configuration-Sound organization project identity
                      allocated h s)
                    λ configured h s good.
                      let r = HandlerRequest.create_cluster configured in
                      then_ env conditions (λ (_ : Unit {0}). Unit {0}) (write env.base r h) _
                        (write-Sound env conditions r h good s) λ _ t s _. s

  pub create-Sound :
      (organization project : String) (request : ComputeClusterWrite) (h : HandlerHistory)
      → Sound env conditions h
      → Sound env conditions (create env conditions organization project request h).1
  unfolding create
  create-Sound organization project request h s =
      then_ env conditions (λ (_ : ComputeCluster). Unit {0})
        (generate env conditions organization project none request h) _
        (generate-Sound env conditions organization project none request h s)
        λ cluster h s _. create_generated-Sound organization project request.region_id cluster h s

  pub store-Sound :
      (organization : String) (cluster : ComputeCluster) (h : HandlerHistory)
      → IsConfigured env conditions cluster
      → Sound env conditions h
      → Sound env conditions (store env.base organization cluster h).1
  unfolding store
  store-Sound organization cluster h good s =
      then_ env conditions (λ (_ : List Allocation). Unit {0})
        (generate_allocations env.base organization cluster h) _
        (generate_allocations-Sound env conditions organization cluster h s)
        λ allocations h s _.
          let r = HandlerRequest.update_allocations cluster allocations in
          then_ env conditions (λ (_ : Unit {0}). Unit {0}) (write env.base r h) _
            (write-Sound env conditions r h tt s)
            λ _ h s _.
              let p = HandlerRequest.patch_cluster cluster in
              kept (write env.base p h) (write-Sound env conditions p h good s)
    where
      kept :
          (m : Result (Unit {0}) × HandlerHistory)
          → Quiet (Sound env conditions) (λ (_ : Unit {0}). Unit {0}) m
          → Sound env conditions m.1
      kept (ok _, t) q = q.0
      kept (err e, t) q = q
      kept (panic, t) q = q

  -- What `Update` merges is configured if the current cluster is.
  merge-IsConfigured :
      (required current : ComputeCluster)
      → IsConfigured env conditions current
      → IsConfigured env conditions
          (merge env conditions current (metadata_mutator env.base required current))
  merge-IsConfigured required current good = (
    ground (
      arith,
      good.0,
      ==_self env.network_label,
      (metadata_mutator_lem env.base required current env.network_label).1,
    ),
    ground (
      arith,
      good.1,
      ==_self env.identity_annotation,
      (metadata_mutator_lem env.base required current env.identity_annotation).0,
    ),
  )

  pub update_current-Sound :
      (mutate : ComputeCluster → ComputeCluster → Result ComputeCluster)
      (organization project : String) (current : ComputeCluster) (request : ComputeClusterWrite)
      (h : HandlerHistory)
      → IsConfigured env conditions current
      → Sound env conditions h
      → Sound env conditions
          (update_current env conditions mutate organization project current request h).1
  unfolding update_current
  update_current-Sound mutate organization project current request h good s =
      then_ env conditions (λ (_ : ComputeCluster). Unit {0})
        (generate env conditions organization project (some current) request h) _
        (generate-Sound env conditions organization project (some current) request h s)
        λ required h s _.
          then_ env conditions (λ (_ : ComputeCluster). Unit {0}) (mutate required current, h) _
            (check-Quiet (Sound env conditions) (mutate required current) h s)
            λ mutated h s _.
              store-Sound organization
                (merge env conditions current (metadata_mutator env.base mutated current)) h
                (merge-IsConfigured mutated current good) s
