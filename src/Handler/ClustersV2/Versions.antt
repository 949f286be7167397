-- ===== src/Handler/ClustersV2/Versions.antt =====
-- The version label keeps the clusters of client_v2.go and those of client.go apart, and the labels
-- of client_v2.go say where a cluster belongs.
pub mod Writes
use uni_compute.Base.{
  ℕ, ◌≡◌, refl, ◌∙◌, sym, String, Bool, true, false, Option, none, some, List, [], ◌∷◌, All,
  Distinct, length, Option-cases, inl, inr, if◌then◌else◌, ◌==◌, string_eq, arith,
}
use uni_compute.Base.Dict.{Dict, lookup}
use uni_compute.Base.Result.{Result, ok, err, panic, not_found, invalid_request, >>=-eq-ok}
use uni_compute.Base.State.{Comp, bind, fail}
use uni_compute.External.Core.{ObjectMeta, AreBuilders}
use uni_compute.External.Catalog.{HandlerRequest, HandlerHistory, Lookup, found, missing, broken}
use uni_compute.External.Handlers.{ApiEnv, NetworkV2Read, Operation}
use uni_compute.Api.{ComputeCluster}
use uni_compute.OpenApi.{ClusterV2Create, ClusterV2Update}
use uni_compute.Cluster.State.{expect}
use uni_compute.Cluster.Provision.{resource_api_version_label}
use uni_compute.Handler.Client.{write, written, checked}
use uni_compute.Handler.Client
use uni_compute.Handler.Services.{inject, inject_user_principal, get_network}
use uni_compute.Handler.Runs.{Quiet, bind-Quiet, lift-Quiet, check-Quiet, bind-Ends}
use uni_compute.Handler.ClustersV2.{
  version_two, check_version, unmarshal_api_version, digits, generate_pools,
  convert_create_to_update_request, clusters_endpoint, organization_of, project_of, region_of,
  network_of, allow, check_raw, get_raw, build_metadata, generate, create, merge, update_current,
  update, build, convert,
}

-- The names of these labels differ.
abbrev pub AreDistinctLabels : ApiEnv → Type 0
AreDistinctLabels env = Distinct (
    env.metadata.organization_label ∷ env.metadata.project_label ∷ env.region_label
    ∷ env.network_label ∷ resource_api_version_label ∷ [])

-- A cluster that belongs to an organization, a project, a region and a network, that version 2 of the
-- API shows, and that version 1 does not find.
pub record IsV2In (env : ApiEnv) (organization project region network : String) (c : ComputeCluster)
    : Type 0 where
  pub in_organization : lookup env.metadata.organization_label c.labels ≡ some organization
  pub in_project : lookup env.metadata.project_label c.labels ≡ some project
  pub in_region : lookup env.region_label c.labels ≡ some region
  pub in_network : lookup env.network_label c.labels ≡ some network
  pub shown : check_version (lookup resource_api_version_label c.labels) ≡ ok tt
  pub hidden : (o p : String) → checked env.base o p (found c) ≡ err not_found

-- A request stores no cluster but such a one, in some region.
abbrev pub StoresV2 : ApiEnv → String → String → String → HandlerRequest → Type 0
StoresV2 env organization project network (HandlerRequest.create_cluster c) =
    (region : String) × IsV2In env organization project region network c
StoresV2 env organization project network (HandlerRequest.patch_cluster c) =
    (region : String) × IsV2In env organization project region network c
StoresV2 env organization project network _ = Unit

-- The labels of such a cluster.
pub record AreLabels (env : ApiEnv) (organization project region network : String)
    (labels : Dict String) : Type 0 where
  pub in_organization : lookup env.metadata.organization_label labels ≡ some organization
  pub in_project : lookup env.metadata.project_label labels ≡ some project
  pub in_region : lookup env.region_label labels ≡ some region
  pub in_network : lookup env.network_label labels ≡ some network
  pub version : lookup resource_api_version_label labels ≡ some version_two

ok-injective : {c d : ComputeCluster} → ok c ≡ ok d → c ≡ d
ok-injective e = cc

pub AreLabels-IsV2In :
    (env : ApiEnv) (organization project region network : String) (c : ComputeCluster)
    → AreLabels env organization project region network c.labels
    → IsV2In env organization project region network c
unfolding unmarshal_api_version
AreLabels-IsV2In env organization project region network c labels = record {
  in_organization = labels.in_organization;
  in_project = labels.in_project;
  in_region = labels.in_region;
  in_network = labels.in_network;
  shown = rw labels.version refl;
  hidden = λ o p. rw (labels.version, checked) refl;
}

pub check_raw-eq-ok : (env : ApiEnv) (c d : ComputeCluster) → check_raw env (found c) ≡ ok d → d ≡ c
check_raw-eq-ok env c d e =
    let (_, _, rest) = >>=-eq-ok (allow env Operation.read c) _ e in
    let (_, _, last) =
      >>=-eq-ok (check_version (lookup resource_api_version_label c.labels)) (λ _. ok c) rest in
    sym (ok-injective last)

module _ (env : ApiEnv) (builders : AreBuilders env.metadata)
    (distinct : AreDistinctLabels env) where
  lookup-build_metadata :
      (h : HandlerHistory) (request : ClusterV2Update)
      (organization project region network j : String)
      → lookup j (build_metadata env h request organization project region network).labels ≡ (
          if resource_api_version_label == j
          then some version_two
          else if env.network_label == j
          then some network
          else if env.region_label == j
          then some region
          else if env.metadata.project_label == j
          then some project
          else if env.metadata.organization_label == j
          then some organization
          else lookup j (env.metadata.new_object (length h) request.metadata env.namespace).labels)
  lookup-build_metadata h request organization project region network j =
      rw (builders.label, builders.label, builders.label, builders.project, builders.organization)
        refl

  pub set_identity-AreLabels :
      (h : HandlerHistory) (request : ClusterV2Update)
      (organization project region network : String) (y : ObjectMeta)
      → env.metadata.set_identity (build_metadata env h request organization project region network)
        ≡ ok y
      → AreLabels env organization project region network y.labels
  set_identity-AreLabels h request organization project region network y e =
      let x = build_metadata env h request organization project region network in
      let keeps = builders.identity x y in
      let at = lookup-build_metadata h request organization project region network in
      record {
        in_organization =
            keeps env.metadata.organization_label organization e
              (ground (arith, distinct, at env.metadata.organization_label));
        in_project =
            keeps env.metadata.project_label project e
              (ground (arith, distinct, at env.metadata.project_label));
        in_region = keeps env.region_label region e (ground (arith, distinct, at env.region_label));
        in_network =
            keeps env.network_label network e (ground (arith, distinct, at env.network_label));
        version =
            keeps resource_api_version_label version_two e
              (ground (arith, distinct, at resource_api_version_label));
      }
