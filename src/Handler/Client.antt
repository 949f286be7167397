-- ===== src/Handler/Client.antt =====
-- region.go of the handlers, and what the cluster handler does before all else: it reads the
-- cluster.
use uni_compute.Base.{
  ℕ, String, Bool, true, false, Option, none, some, List, [], ◌∷◌, ◌<>◌, if◌then◌else◌, delete_func,
  string_eq,
}
use uni_compute.Base.Dict.{lookup, lookup_or}
use uni_compute.Base.Result.{Result, ok, err, transport, not_found, invalid_request, consistency}
use uni_compute.Base.Result
use uni_compute.Base.State.{Comp, ◌>>=◌, pure, fail, lift}
use uni_compute.External.Region.{ServerRead}
use uni_compute.External.Catalog.{
  Flavor, Image, RegionRead, RegionType, ServerAction, HandlerRequest, HandlerHistory, Lookup,
  found, missing, broken, HandlerEnv,
}
use uni_compute.Api.{ComputeCluster}
use uni_compute.Cluster.State.{expect, expect_gone}
use uni_compute.Cluster.Provision.{resource_api_version_label}

-- What a handler changes: the requests it has sent.
abbrev pub Handler : Type 0 → Type 0
Handler A = Comp HandlerHistory A

abbrev ask : {A : Type 0} → HandlerRequest → (HandlerHistory → A) → Handler A
ask request answer h = (ok (answer (request ∷ h)), request ∷ h)

abbrev pub written : Option ℕ → Result (Unit {0})
written none = ok tt
written (some e) = err (transport e)

-- A deletion that Kubernetes refuses because the object is not there is not found.
abbrev pub removed : (ℕ → Bool) → Option ℕ → Result (Unit {0})
removed is_missing none = ok tt
removed is_missing (some e) = if is_missing e then err not_found else err (transport e)

-- `List` leaves out the regions of type Kubernetes.
abbrev is_kubernetes : RegionRead → Bool
is_kubernetes region = elim region.type [
  | RegionType.kubernetes ↦ true
  | RegionType.openstack ↦ false
]

-- `Images` leaves out the images that declare a software version.
abbrev pub declares_software : Image → Bool
declares_software image = elim image.software_versions [
  | none ↦ false
  | some versions ↦ elim versions [ [] ↦ false | _ ↦ true ]
]

module _ (env : HandlerEnv) where
  -- `List`
  unfoldable pub regions : String → Handler (List RegionRead)
  regions organization = do
    reply ← ask (HandlerRequest.list_regions organization) env.regions
    all ← lift (expect 200 reply)
    pure (delete_func is_kubernetes all)

  -- `Flavors`
  unfoldable pub flavors : String → String → Handler (List Flavor)
  flavors organization region = do
    reply ← ask (HandlerRequest.list_flavors organization region) env.flavors
    lift (expect 200 reply)

  -- `Images`
  unfoldable pub images : String → String → Handler (List Image)
  images organization region = do
    reply ← ask (HandlerRequest.list_images organization region) env.images
    all ← lift (expect 200 reply)
    pure (delete_func declares_software all)

  -- `Servers`
  unfoldable pub servers : String → ComputeCluster → Handler (List ServerRead)
  servers organization cluster = do
    reply ←
        ask
          (HandlerRequest.list_servers organization
            ((env.compute_cluster_label <> "=" <> cluster.name) ∷ []))
          env.servers
    lift (expect 200 reply)

  -- `HardRebootServer`, `SoftRebootServer`, `StartServer` and `StopServer`.
  unfoldable pub act_on_server :
      ServerAction → String → String → String → String → Handler (Unit {0})
  act_on_server action organization project identity server = do
    reply ←
        ask (HandlerRequest.act_on_server action organization project identity server) env.action
    lift (expect_gone reply)

  -- `DeleteServer`
  unfoldable pub delete_server : String → String → String → String → Handler (Unit {0})
  delete_server organization project identity server = do
    reply ← ask (HandlerRequest.delete_server organization project identity server) env.action
    lift (expect_gone reply)

  -- `Patch`, and `Delete`, of the Kubernetes API.
  unfoldable pub write : HandlerRequest → Handler (Unit {0})
  write request = do result ← ask request env.write; lift (written result)

  -- `Delete` of the Kubernetes API, where the error tells whether the object was there.
  unfoldable pub remove : HandlerRequest → Handler (Unit {0})
  remove request = do result ← ask request env.write; lift (removed env.is_missing result)

  -- What `get` makes of the answer.
  abbrev pub checked : String → String → Lookup ComputeCluster → Result ComputeCluster
  checked organization project missing = err not_found
  checked organization project (broken e) = err (transport e)
  checked organization project (found cluster) =
      elim (lookup resource_api_version_label cluster.labels) [
        | some _ ↦ err not_found
        | none ↦ Result.◌>>=◌ (env.owned organization project cluster) λ _. ok cluster
      ]

  -- `get`
  unfoldable pub get_cluster : String → String → String → Handler ComputeCluster
  get_cluster organization project id = do
    answer ← ask (HandlerRequest.get_cluster id) env.cluster
    lift (checked organization project answer)

  -- `HardRebootMachine`, `SoftRebootMachine`, `StartMachine` and `StopMachine`.
  unfoldable pub act_on_machine :
      ServerAction → String → String → String → String → Handler (Unit {0})
  act_on_machine action organization project id machine = do
    cluster ← get_cluster organization project id
    if cluster.deleting
        then fail invalid_request
        else act_on_server action organization project
            (lookup_or "" env.identity_annotation cluster.annotations) machine

  -- `Delete`
  unfoldable pub delete_cluster : String → String → String → Handler (Unit {0})
  delete_cluster organization project id = do
    cluster ← get_cluster organization project id
    if cluster.deleting then pure tt else write (HandlerRequest.delete_cluster cluster.name)
