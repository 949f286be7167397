-- ===== src/Examples/Api.antt =====
-- Runs of the handlers of instances and of whole clusters.
use uni_compute.Base.{
  ◌⊎◌, ◌≡◌, refl, String, false, none, [], ◌∷◌, All, inl, inr, map, length, if◌then◌else◌, ◌==◌,
  string_eq,
}
use uni_compute.Base.Dict.{lookup, lookup_or, insert}
use uni_compute.Base.Int.{pos}
use uni_compute.Base.Result.{Result, ok, err, not_found}
use uni_compute.External.Core.{ResourceMetadata}
use uni_compute.External.Env.{replied}
use uni_compute.External.Catalog.{
  HandlerRequest, HandlerHistory, ServerAction, RegionType, Lookup, found, missing,
}
use uni_compute.External.Handlers.{ApiEnv}
use uni_compute.Api.{ComputeCluster, InstancePoolSpec}
use uni_compute.OpenApi.{InstanceCreate, InstanceUpdate, ComputeClusterWrite, ClusterV2Create}
use uni_compute.Handler.Convert.{convert_workload_pool}
use uni_compute.Handler.Instances.Client.{
  act_on_instance, delete_instance, server_of, get_raw, server_id, convert, show_power_state,
}
use uni_compute.Handler.Instances.Write.{
  create, update, create_on, update_from, is_instance_name_in_use, check_flavor_and_image,
  validate_security_groups, check_groups, generate, run, create_allocation, store_instance,
  delete_allocation, change_allocation, update_instance,
}
use uni_compute.Handler.Services.{inject, inject_user_principal, get_network}
use uni_compute.Handler.Client.{flavors, images, write}
use uni_compute.Handler.Generate.{generate_prefixes}
use uni_compute.Handler.Instances.{
  get_flavor, get_image, validate, validate_virtualization, generate_networking,
  generate_allocation, convert_networking,
}
use uni_compute.Handler.Instances.Quota.{ledger, IsBalanced}
use uni_compute.Handler.Instances.Quota.Steps.{Step, Reach, Reach-IsBalanced}
use uni_compute.Handler.Instances.Scope.{KeepsScope}
use uni_compute.Handler.Instances.Scope.Update.{update-KeepsScope}
use uni_compute.Handler.Instances.Servers.{HasLabelsOf, ActsOnServer, act_on_instance-ActsOnServer}
use uni_compute.Handler.Clusters
use uni_compute.Handler.Clusters.Configured.{StoresConfigured}
use uni_compute.Handler.Clusters.Lives
use uni_compute.Handler.Clusters.Lives.{WasStored, Reach-StoresConfigured}
use uni_compute.Handler.ClustersV2
use uni_compute.Handler.ClustersV2.{convert_pools, generate_pools}
use uni_compute.Handler.ClustersV2.Pools.{normal_pool, generate_pools-convert_pools}
use uni_compute.Handler.ClustersV2.Versions.{StoresV2}
use uni_compute.Handler.ClustersV2.Versions.Writes.{create-StoresV2, update-StoresV2}
use uni_compute.Handler.Routes.Guards.{Endpoint, serve, writes, MayWrite}
use uni_compute.Handler.Routes.Guards.Serve.{serve-MayWrite}
use uni_compute.Handler.Routes.Listing.{ShowsVisible, get_clusters-ShowsVisible}
use uni_compute.Examples.Data.{cluster, web, instance_one, env_v2, stored_conditions}
use uni_compute.Examples.Handlers.{api, parse, networking-HasReadSources}
use uni_compute.Examples.World.{
  world, gpus, read_stored, run_saga, refusal, run_saga-IsSaga, metadata-AreBuilders,
  world-IsReliable,
}

abbrev front : ResourceMetadata
front = record { name = "front"; description = none; tags = none }

abbrev creation : InstanceCreate
creation = record {
  metadata = front;
  spec = record {
    organization_id = "acme";
    project_id = "shop";
    network_id = "network";
    flavor_id = "flavor";
    image_id = "image";
    networking = none;
    user_data = none;
  };
}

abbrev change : InstanceUpdate
change = record {
  metadata = front;
  spec = record { flavor_id = "flavor"; image_id = "new"; networking = none; user_data = none };
}

-- An instance is created, an update of it is refused and undone, and it is deleted.
abbrev after_create : HandlerHistory
after_create = (create world creation []).1

abbrev after_update : HandlerHistory
after_update = (update world "iiiiii" change after_create).1

abbrev after_delete : HandlerHistory
after_delete = (delete_instance world "iiiiii" after_update).1

Reach-IsBalanced_example : IsBalanced gpus (ledger refusal after_delete)
unfolding ledger lookup
Reach-IsBalanced_example = Reach-IsBalanced world gpus world-IsReliable (
    Reach.next
      (Reach.next (Reach.next Reach.here (Step.created creation (λ k h. refl) refl))
        (Step.updated "iiiiii" change refl))
      (Step.deleted "iiiiii" refl))

-- The creation sends what it reads, the quota and the instance; the refused update sends what it
-- reads, the new quota, the instance, and the old quota again.
update_is_undone :
    (length after_create ≡ 8)
    × (length after_update ≡ 18)
    × (length (ledger refusal after_update).stored ≡ 1)
unfolding create update create_on update_from get_raw read_stored lookup lookup_or insert inject
    inject_user_principal get_network is_instance_name_in_use check_flavor_and_image flavors images
    get_flavor get_image string_eq validate validate_virtualization validate_security_groups
    check_groups generate generate_networking generate_prefixes run run_saga create_allocation
    store_instance delete_allocation change_allocation update_instance write generate_allocation
    ledger convert convert_networking show_power_state
update_is_undone = (refl, refl, refl)

-- Services that show one instance.
abbrev showing : ApiEnv
showing = record world { instance_read = λ _. found instance_one }

update-KeepsScope_example :
    All (KeepsScope showing instance_one change) (update showing "instance" change []).1
unfolding string_eq
update-KeepsScope_example =
    update-KeepsScope showing metadata-AreBuilders run_saga-IsSaga
      (refl, (refl, (refl, (refl, tt)))) instance_one change "instance" [] refl tt

showing-HasLabelsOf : HasLabelsOf showing env_v2
showing-HasLabelsOf = record { organization = refl; project = refl; region = refl; network = refl }

abbrev reboot_history : HandlerHistory
reboot_history = (act_on_instance showing ServerAction.soft_reboot "instance" []).1

rebooted : act_on_instance showing ServerAction.soft_reboot "instance" [] ≡ (ok tt, reboot_history)
unfolding act_on_instance server_of get_raw server_id
rebooted = refl

act_on_instance-ActsOnServer_example :
    ActsOnServer showing env_v2 ServerAction.soft_reboot "instance" [] reboot_history
act_on_instance-ActsOnServer_example =
    act_on_instance-ActsOnServer showing env_v2 showing-HasLabelsOf ServerAction.soft_reboot
      "instance" [] reboot_history rebooted

-- The Kubernetes API answers with the cluster that was stored last.
stored_last : HandlerHistory → Lookup ComputeCluster
stored_last [] = missing
stored_last (HandlerRequest.create_cluster c ∷ h) = found c
stored_last (HandlerRequest.patch_cluster c ∷ h) = found c
stored_last (_ ∷ h) = stored_last h

stored_last-WasStored :
    (h : HandlerHistory) (c : ComputeCluster) → stored_last h ≡ found c → WasStored c h
unfolding stored_last
stored_last-WasStored [] c e = cc
stored_last-WasStored (HandlerRequest.create_cluster d ∷ h) c e = inl (cc)
stored_last-WasStored (HandlerRequest.patch_cluster d ∷ h) c e = inr (inl (cc))
stored_last-WasStored (_ ∷ h) c e = inr (inr (stored_last-WasStored h c e))

abbrev storing : ApiEnv
storing = record world {
  base = record api {
    cluster = stored_last;
    regions = λ _. replied 200 (record { id = "region"; type = RegionType.openstack } ∷ []);
  };
}

abbrev cluster_write : ComputeClusterWrite
cluster_write = record {
  metadata = front;
  region_id = "region";
  workload_pools = convert_workload_pool web ∷ [];
}

abbrev keep : ComputeCluster → ComputeCluster → Result ComputeCluster
keep required current = ok required

abbrev after_cluster : HandlerHistory
after_cluster = (Clusters.create storing stored_conditions "acme" "shop" cluster_write []).1

abbrev after_change : HandlerHistory
after_change =
    (Clusters.update storing stored_conditions keep "acme" "shop" "c" cluster_write after_cluster).1

answered :
    (h : HandlerHistory) (id : String) (c : ComputeCluster)
    → stored_last (HandlerRequest.get_cluster id ∷ h) ≡ found c
    → WasStored c h
unfolding stored_last
answered h id c e = stored_last-WasStored h c e

Reach-StoresConfigured_example : All (StoresConfigured storing stored_conditions) after_change
Reach-StoresConfigured_example =
    Reach-StoresConfigured storing stored_conditions keep (λ h id c e. answered h id c e)
      (Lives.Reach.next
        (Lives.Reach.next Lives.Reach.here (Lives.Step.created "acme" "shop" cluster_write refl))
        (Lives.Step.updated "acme" "shop" "c" cluster_write refl))

abbrev pool : InstancePoolSpec
pool = record { name = "pool"; replicas = pos 2; template = instance_one.spec }

generate_pools-convert_pools_example :
    generate_pools parse (convert_pools (pool ∷ [])) ≡ ok (map normal_pool (pool ∷ []))
generate_pools-convert_pools_example =
    generate_pools-convert_pools parse (pool ∷ []) (networking-HasReadSources, tt)

abbrev creation_v2 : ClusterV2Create
creation_v2 = record {
  metadata = front;
  organization_id = "acme";
  project_id = "shop";
  network_id = "network";
  pools = [];
}

create-StoresV2_example :
    All (StoresV2 world "acme" "shop" "network") (ClustersV2.create world creation_v2 []).1
unfolding string_eq
create-StoresV2_example =
    create-StoresV2 world metadata-AreBuilders (refl, (refl, (refl, (refl, (refl, tt)))))
      creation_v2 [] tt

-- A version 2 cluster.
abbrev cluster_v2 : ComputeCluster
cluster_v2 = record {
  name = "two";
  labels =
      ("organization", "acme")
      ∷ ("project", "shop")
      ∷ ("region", "region")
      ∷ ("network", "network")
      ∷ ("resource.unikorn-cloud.org/api-version", "2")
      ∷ [];
  annotations = [];
  deleting = false;
  spec = record {
    pause = false;
    tags = [];
    region_id = "";
    network = none;
    workload_pools = [];
    pools = pool ∷ [];
  };
  status = record { ssh_private_key = none; workload_pools = []; conditions = []; pools = [] };
}

abbrev showing_v2 : ApiEnv
showing_v2 = record world { base = record api { cluster = λ _. found cluster_v2 } }

update-StoresV2_example :
    All
      (StoresV2 showing_v2
        (ClustersV2.organization_of showing_v2 cluster_v2)
        (ClustersV2.project_of showing_v2 cluster_v2)
        (ClustersV2.network_of showing_v2 cluster_v2))
      (ClustersV2.update showing_v2 "two" (record { metadata = front; pools = [] }) []).1
unfolding string_eq
update-StoresV2_example =
    update-StoresV2 showing_v2 metadata-AreBuilders (refl, (refl, (refl, (refl, (refl, tt)))))
      cluster_v2 "two" (record { metadata = front; pools = [] }) [] refl tt

serve-MayWrite_example :
    (writes
        (serve world stored_conditions
          (λ required _. ok required)
          (Endpoint.delete_instance "iiiiii")
          after_create).1
      ≡ writes after_create)
    ⊎ MayWrite world (Endpoint.delete_instance "iiiiii") after_create
serve-MayWrite_example =
    serve-MayWrite world after_create stored_conditions (λ required _. ok required)
      (Endpoint.delete_instance "iiiiii")

-- Two clusters, of which one may be read.
abbrev two_clusters : ApiEnv
two_clusters = record world {
  clusters = λ _. ok (cluster ∷ record cluster { labels = [] } ∷ []);
  allow = λ _ _ _ project. if project == "" then err not_found else ok tt;
  decode_tags = λ _. ok [];
}

get_clusters-ShowsVisible_example :
    ShowsVisible two_clusters stored_conditions "acme" none []
      (cluster ∷ record cluster { labels = [] } ∷ [])
      []
get_clusters-ShowsVisible_example =
    get_clusters-ShowsVisible two_clusters stored_conditions "acme" none []
      (cluster ∷ record cluster { labels = [] } ∷ []) [] refl refl
