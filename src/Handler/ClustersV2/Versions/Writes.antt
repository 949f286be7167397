-- ===== src/Handler/ClustersV2/Versions/Writes.antt =====
-- The creations and updates of client_v2.go store clusters that only version 2 shows.
use uni_compute.Base.{◌≡◌, refl, String, ◌∷◌, All, string_eq}
use uni_compute.Base.Result.{Result, ok, invalid_request}
use uni_compute.Base.State.{Comp, bind, fail}
use uni_compute.External.Core.{AreBuilders}
use uni_compute.External.Catalog.{HandlerRequest, HandlerHistory, found}
use uni_compute.External.Handlers.{ApiEnv, NetworkV2Read, Operation}
use uni_compute.Api.{ComputeCluster}
use uni_compute.OpenApi.{ClusterV2Create, ClusterV2Update}
use uni_compute.Cluster.State.{expect}
use uni_compute.Handler.Client.{write, written}
use uni_compute.Handler.Services.{inject_user_principal, get_network}
use uni_compute.Handler.Runs.{Quiet, bind-Quiet, lift-Quiet, check-Quiet, bind-Ends, either_way}
use uni_compute.Handler.ClustersV2.{
  generate_pools, convert_create_to_update_request, clusters_endpoint, organization_of, project_of,
  region_of, network_of, allow, check_raw, get_raw, build_metadata, generate, create, merge,
  update_current, update, convert,
}
use uni_compute.Handler.ClustersV2.Versions.{
  AreDistinctLabels, StoresV2, AreLabels, AreLabels-IsV2In, check_raw-eq-ok, set_identity-AreLabels,
}

module _ (env : ApiEnv) (builders : AreBuilders env.metadata)
    (distinct : AreDistinctLabels env) where
  module _ (organization project network : String) where
    abbrev Stored : HandlerHistory → Type 0
    Stored = All (StoresV2 env organization project network)

    inject_user_principal-Stored :
        (o p : String) (h : HandlerHistory)
        → Stored h
        → Quiet Stored (λ (_ : Unit {0}). Unit {0}) (inject_user_principal env o p h)
    unfolding inject_user_principal
    inject_user_principal-Stored o p h s =
        bind-Quiet Stored (λ _. Unit {0}) (λ (_ : Unit {0}). Unit {0}) (env.principal h, h) _
          (check-Quiet Stored (env.principal h) h s) λ principal t s _. ((tt, s), tt)

    generate-Stored :
        (request : ClusterV2Update) (region : String) (h : HandlerHistory)
        → Stored h
        → Quiet Stored
            (λ c. AreLabels env organization project region network c.labels)
            (generate env request organization project region network h)
    unfolding generate
    generate-Stored request region h s =
        let pools_ = generate_pools env.parse request.pools in
        bind-Quiet Stored (λ _. Unit {0}) _ (pools_, h) _ (check-Quiet Stored pools_ h s)
          λ pools t s _.
            bind-Quiet Stored (λ (_ : Unit {0}). Unit {0}) _
              (inject_user_principal env organization project t) _
              (inject_user_principal-Stored organization project t s)
              λ _ u s _.
                let built = build_metadata env t request organization project region network in
                bind-Quiet Stored (λ y. AreLabels env organization project region network y.labels)
                  _ (env.metadata.set_identity built, u) _
                  (lift-Quiet Stored
                    (λ y. AreLabels env organization project region network y.labels)
                    (env.metadata.set_identity built) u s
                    λ y e.
                      set_identity-AreLabels env builders distinct t request organization project
                        region network y e)
                  λ meta u s labels. (s, labels)

    -- The write of a cluster, and the conversion of what was written.
    writing :
        {A : Type 0} (r : HandlerRequest) (a : A) (h : HandlerHistory)
        → StoresV2 env organization project network r
        → Stored h
        → Stored (bind (write env.base r h) (λ _. λ t. (ok a, t))).1
    unfolding write
    writing r a h good s =
        bind-Ends Stored (λ (_ : Unit {0}). Unit {0}) Stored (written (env.write (r ∷ h)), r ∷ h) _
          (λ t s. s) (check-Quiet Stored (written (env.write (r ∷ h))) (r ∷ h) (good, s))
          λ _ t s _. s

    then_ :
        {A B : Type 0} (Q : A → Type 0) (m : Result A × HandlerHistory)
        (f : A → Comp HandlerHistory B)
        → Quiet Stored Q m
        → ((a : A) (t : HandlerHistory) → Stored t → Q a → Stored (f a t).1)
        → Stored (bind m f).1
    then_ Q m f q k = bind-Ends Stored Q Stored m f (λ t s. s) q k

    update_current-Stored :
        (current : ComputeCluster) (request : ClusterV2Update) (h : HandlerHistory)
        → organization_of env current ≡ organization
        → project_of env current ≡ project
        → network_of env current ≡ network
        → Stored h
        → Stored (update_current env current request h).1
    unfolding update_current
    update_current-Stored current request h o p n s =
        let region = region_of env current in
        rw (o, p, n)
          (then_ (λ c. AreLabels env organization project region network c.labels)
            (generate env request organization project region network h) _
            (generate-Stored request region h s)
            λ required t s good.
              let merged = merge env current required in
              writing (HandlerRequest.patch_cluster merged) (convert env merged) t
                (region, AreLabels-IsV2In env organization project region network merged good) s)

  -- Whatever the services answer, a creation of a version 2 cluster stores no cluster but one of the
  -- organization, the project and the network of the request, which version 2 shows and version 1
  -- does not find. The labels have different names, and metadata behave as documented.
  pub create-StoresV2 :
      (request : ClusterV2Create) (h : HandlerHistory)
      → All (StoresV2 env request.organization_id request.project_id request.network_id) h
      → All
          (StoresV2 env request.organization_id request.project_id request.network_id)
          (create env request h).1
  unfolding create get_network
  create-StoresV2 request h s =
      let o = request.organization_id in
      let p = request.project_id in
      let n = request.network_id in
      let allowed = env.allow_create h clusters_endpoint o p in
      then_ o p n (λ (_ : Unit {0}). Unit {0}) (allowed, h) _
        (check-Quiet (Stored o p n) allowed h s)
        λ _ h s _.
          then_ o p n (λ (_ : Unit {0}). Unit {0}) (inject_user_principal env o p h) _
            (inject_user_principal-Stored o p n o p h s)
            λ _ h s _.
              let r = HandlerRequest.get_network n in
              then_ o p n (λ (_ : NetworkV2Read). Unit {0}) (get_network env n h) _
                (check-Quiet (Stored o p n) (expect 200 (env.network (r ∷ h))) (r ∷ h) (tt, s))
                λ network h s _.
                  let region = network.region_id in
                  then_ o p n (λ c. AreLabels env o p region n c.labels)
                    (generate env (convert_create_to_update_request request) o p region n h) _
                    (generate-Stored o p n (convert_create_to_update_request request) region h s)
                    λ c h s good.
                      writing o p n (HandlerRequest.create_cluster c) (convert env c) h
                        (region, AreLabels-IsV2In env o p region n c good) s

  -- The same of an update, for the organization, the project and the network that the labels of the
  -- current cluster name.
  pub update-StoresV2 :
      (current : ComputeCluster) (id : String) (request : ClusterV2Update) (h : HandlerHistory)
      → env.cluster (HandlerRequest.get_cluster id ∷ h) ≡ found current
      → All
          (StoresV2 env
            (organization_of env current)
            (project_of env current)
            (network_of env current))
          h
      → All
          (StoresV2 env
            (organization_of env current)
            (project_of env current)
            (network_of env current))
          (update env id request h).1
  unfolding update get_raw
  update-StoresV2 current id request h read s =
      let o = organization_of env current in
      let p = project_of env current in
      let n = network_of env current in
      let r = HandlerRequest.get_cluster id in
      then_ o p n (λ c. c ≡ current) (check_raw env (env.cluster (r ∷ h)), r ∷ h) _
        (lift-Quiet (Stored o p n) (λ c. c ≡ current) (check_raw env (env.cluster (r ∷ h))) (r ∷ h)
          (tt, s) λ c e. check_raw-eq-ok env current c (rw read at e))
        λ c h s same.
          let allowed = allow env Operation.update c in
          then_ o p n (λ (_ : Unit {0}). Unit {0}) (allowed, h) _
            (check-Quiet (Stored o p n) allowed h s)
            λ _ h s _. rw same (
              either_way (Stored o p n) current.deleting (fail invalid_request)
                (update_current env current request) h s
                (update_current-Stored o p n current request h refl refl refl s))
