-- ===== src/Cluster/Reconcile.antt =====
-- `reconcileServers` of server.go: deletions, rebuilds and updates pool by pool, then creations.
pub mod ScaleDown
pub mod Settled
pub mod Convergence
pub mod ScaleUp
pub mod Deletions
pub mod Sizes
use uni_compute.Base.{
  ℕ, zero, suc, String, Bool, true, false, Option, none, some, List, [], ◌∷◌, ◌<>◌, length, find,
  ◌==◌, string_eq, if◌then◌else◌,
}
use uni_compute.Base.Dict.{Dict, lookup, insert, erase, values}
use uni_compute.Base.Int.{ℤ, pos, ◌-ℤ◌, is_negative, pos_part, exceeds}
use uni_compute.Base.Result.{Error, consistency, transport, Result, ok, err, panic}
use uni_compute.Base.State.{Comp, ◌>>=◌, ◌>>◌, pure, fail, lift, get, modify}
use uni_compute.External.Core.{ResourceProvisioningStatus}
use uni_compute.External.Region.{ServerRead, ServerWrite, SecurityGroupRead}
use uni_compute.External.Env.{Env, Request}
use uni_compute.Api.{ComputeCluster, ComputeClusterWorkloadPoolSpec}
use uni_compute.Api.Accessors.{get_workload_pool}
use uni_compute.Cluster.State.{State, draw}
use uni_compute.Cluster.Client.{get_region_client, create_server, update_server, delete_server}
use uni_compute.Cluster.Tags.{tags}
use uni_compute.Cluster.ServerSet.{
  ServerSet, add, select_deletion_candidate, generate_security_group, server_spec, needs_update,
  needs_rebuild, new_server_pool_set, split_commas,
}

abbrev pub deletion_hint : String
deletion_hint = "cluster.compute.unikorn-cloud.org/deletion-hint"

-- The write through the pointer that the provisioner's server set shares with the pool's set.
unfoldable pub mark_deprovisioning : String → ServerSet → ServerSet
mark_deprovisioning name [] = []
mark_deprovisioning name ((n, server) ∷ rest) =
    let more = mark_deprovisioning name rest in
    if n == name
    then (n, record server { provisioning_status = ResourceProvisioningStatus.deprovisioning })
      ∷ rest
    else (n, server) ∷ more

-- `getPreferredDeletionIDs`
unfoldable pub preferred_deletion_ids : ComputeCluster → List String
preferred_deletion_ids cluster = elim (lookup deletion_hint cluster.annotations) [
  | none ↦ []
  | some t ↦ split_commas t
]

-- `creations` of a pool.
unfoldable pub creations : ComputeClusterWorkloadPoolSpec → Dict ServerSet → ℤ
creations pool sets = elim (lookup pool.name sets) [
  | none ↦ pool.replicas
  | some set ↦ pool.replicas -ℤ pos (length set)
]

-- The client from the context, and `cli.Update`. The API server answers an accepted update with
-- the object that it was sent.
unfoldable pub store_cluster : Env → Comp State (Unit {0})
store_cluster env = do
  get_region_client env
  s ← get
  let t = record s { sent = Request.update_cluster s.cluster.name ∷ s.sent }
  λ _. elim (env.update t.sent) [ none ↦ (ok tt, t) | some e ↦ (err (transport e), t) ]

module _ (env : Env) where
  -- `deleteServerWrapper`
  unfoldable pub delete_server_wrapper : ServerRead → Comp State (Unit {0})
  delete_server_wrapper server = do
    delete_server env server.id
    modify λ s. record s { servers = mark_deprovisioning server.name s.servers }

  -- The loop over the servers of a pool that does not exist.
  unfoldable pub delete_all : List ServerRead → Comp State (Unit {0})
  delete_all [] = pure tt
  delete_all (server ∷ servers) = delete_server_wrapper server >>= λ _. delete_all servers

  -- One round of the scale down loop.
  unfoldable pub delete_one : List String → ServerSet → Comp State ServerSet
  delete_one preferred set = do
    server ← lift (select_deletion_candidate set preferred)
    delete_server_wrapper server
    pure (erase server.name set)

  -- `for len(serverSet) > pool.Replicas`. Each round takes a server out, so that one more round
  -- than there are servers is enough.
  unfoldable pub scale_down : ℕ → ℤ → List String → ServerSet → Comp State ServerSet
  scale_down zero replicas preferred set = pure set
  scale_down (suc fuel) replicas preferred set =
      let round = delete_one preferred set >>= scale_down fuel replicas preferred in
      if exceeds (length set) replicas then round else pure set

  -- Takes the deletion hint off the cluster and stores it.
  unfoldable pub clear_hint : List String → Comp State (Unit {0})
  clear_hint [] s = (ok tt, s)
  clear_hint (_ ∷ _) s = store_cluster env (record s {
    cluster = record (s.cluster) { annotations = erase deletion_hint s.cluster.annotations };
  })

module _ (env : Env) (network_id : String) (groups : Dict SecurityGroupRead) where
  -- `generateServer`
  unfoldable pub generate_server : ComputeClusterWorkloadPoolSpec → Comp State ServerWrite
  generate_server pool = do
    group ← lift (generate_security_group pool groups)
    suffix ← draw env
    s ← get
    pure (record {
      name = pool.name <> "-" <> suffix;
      description = some ("Server for cluster " <> s.cluster.name);
      tags = some (tags env s.cluster pool.name);
      spec = server_spec network_id pool group;
    })

  -- The body of the loop for rebuilds and updates, once the server is known to need one.
  unfoldable pub rebuild_or_update :
      String → ServerRead → ServerWrite → ServerSet → Comp State ServerSet
  rebuild_or_update name server required set =
      if needs_rebuild server required
      then (delete_server_wrapper env server >>= λ _. pure (erase server.name set))
      else (update_server env server.id (record required { name = name }) >>= λ updated.
          pure (insert name updated set))

  unfoldable pub refresh_one :
      ComputeClusterWorkloadPoolSpec → String → ServerRead → ServerSet → Comp State ServerSet
  refresh_one pool name server set = do
    required ← generate_server pool
    if needs_update server required then rebuild_or_update name server required set else pure set

  -- The loop for rebuilds and updates, over the servers that the set had when it began.
  unfoldable pub refresh :
      ComputeClusterWorkloadPoolSpec → ServerSet → ServerSet → Comp State ServerSet
  refresh pool [] set = pure set
  refresh pool ((name, server) ∷ rest) set = refresh_one pool name server set >>= refresh pool rest

  -- What the first loop does for a pool that exists.
  unfoldable pub shrink_and_refresh :
      ComputeClusterWorkloadPoolSpec → List String → ServerSet → Comp State ServerSet
  shrink_and_refresh pool preferred set =
      scale_down env (suc (length set)) pool.replicas preferred set >>= λ kept.
      refresh pool kept kept

  -- The first loop, over the pools that servers belong to. A pool that does not exist is deleted
  -- from the result.
  unfoldable pub reconcile_pools :
      List ComputeClusterWorkloadPoolSpec
      → List String
      → Dict ServerSet
      → Comp State (Dict ServerSet)
  reconcile_pools pools preferred [] = pure []
  reconcile_pools pools preferred ((name, set) ∷ rest) =
      let others = reconcile_pools pools preferred rest in
      elim (get_workload_pool pools name) [
        | none ↦ delete_all env (values set) >>= λ _. others
        | some pool ↦ shrink_and_refresh pool preferred set >>= λ kept.
            others >>= λ done. pure ((name, kept) ∷ done)
      ]

  -- The body of the creation loop.
  unfoldable pub create_one : ComputeClusterWorkloadPoolSpec → Comp State (Unit {0})
  create_one pool = do
    required ← generate_server pool
    server ← create_server env required
    s ← get
    servers ← lift (add required.name server s.servers)
    modify λ t. record t { servers = servers }

  unfoldable pub create_servers : ℕ → ComputeClusterWorkloadPoolSpec → Comp State (Unit {0})
  create_servers zero pool = pure tt
  create_servers (suc n) pool = create_one pool >>= λ _. create_servers n pool

  -- The last loop.
  unfoldable pub scale_up :
      List ComputeClusterWorkloadPoolSpec → Dict ServerSet → Comp State (Unit {0})
  scale_up [] sets = pure tt
  scale_up (pool ∷ pools) sets =
      let n = creations pool sets in
      if is_negative n
      then fail consistency
      else (create_servers (pos_part n) pool >>= λ _. scale_up pools sets)

  -- `reconcileServers`
  unfoldable pub reconcile_servers : Comp State (Unit {0})
  reconcile_servers = do
    s ← get
    sets ← lift (new_server_pool_set s.servers)
    let preferred = preferred_deletion_ids s.cluster
    kept ← reconcile_pools s.cluster.spec.workload_pools preferred sets
    clear_hint env preferred
    scale_up s.cluster.spec.workload_pools kept
