-- ===== src/Examples/Data.antt =====
-- Test data: a cluster with one pool and two servers, an instance, and services that answer as
-- documented.
use uni_compute.Base.{
  ℕ, zero, ◌≡◌, String, true, false, Option, none, some, List, [], ◌∷◌, if◌then◌else◌, ◌==◌, arith,
}
use uni_compute.Base.Int.{pos}
use uni_compute.External.Core.{
  Condition, ConditionType, condition_type_eq, Conditions, AreLawful, ResourceProvisioningStatus,
  ResourceHealthStatus,
}
use uni_compute.External.Region.{ServerRead, SecurityGroupRead, running}
use uni_compute.External.Env.{Env, Request, History, Reply, failed, replied}
use uni_compute.External.RegionV2.{ServerV2Read, EnvV2}
use uni_compute.Api.{
  ComputeCluster, ComputeClusterWorkloadPoolSpec, FirewallRuleDirection, FirewallRuleProtocol,
  ComputeInstance, ComputeInstanceNetworking,
}
use uni_compute.Status.{workload_pool_label}
use uni_compute.Cluster.State.{State}
use uni_compute.Cluster.ServerSet.{server_spec}
use uni_compute.Instance.Client.{InstanceState}
use uni_compute.Instance.Generate.{generate_server_spec}

-- Conditions as a list with one entry for each type.
unfoldable pub update_condition : List Condition → Condition → List Condition
update_condition [] x = x ∷ []
update_condition (c ∷ cs) x =
    let rest = update_condition cs x in if c.type == x.type then x ∷ cs else c ∷ rest

unfoldable pub read_condition : List Condition → ConditionType → Option Condition
read_condition [] t = none
read_condition (c ∷ cs) t = let rest = read_condition cs t in if c.type == t then some c else rest

abbrev pub stored_conditions : Conditions
stored_conditions = record { update = update_condition; read = read_condition }

read_condition-update_condition :
    (cs : List Condition) (x : Condition) (t : ConditionType)
    → read_condition (update_condition cs x) t
      ≡ (if x.type == t then some x else read_condition cs t)
unfolding read_condition update_condition
read_condition-update_condition [] x t = ground arith
read_condition-update_condition (c ∷ cs) x t =
    ground (arith, read_condition-update_condition cs x t)

pub stored_conditions-AreLawful : AreLawful stored_conditions
stored_conditions-AreLawful = record { read-update = read_condition-update_condition }

abbrev pub web : ComputeClusterWorkloadPoolSpec
web = record {
  name = "web";
  replicas = pos 1;
  image_id = "image";
  flavor_id = "flavor";
  public_ip_allocation = some true;
  firewall =
      record {
        direction = FirewallRuleDirection.ingress;
        protocol = FirewallRuleProtocol.tcp;
        prefixes = record { text = "10.0.0.0/8" } ∷ [];
        port = 80;
        port_max = none;
      }
      ∷ [];
  user_data = none;
  image_selector = none;
  allowed_address_pairs = [];
}

abbrev pub server : String → String → ServerRead
server id name = record {
  id = id;
  name = name;
  tags = some (record { name = workload_pool_label; value = "web" } ∷ []);
  deletion_time = none;
  provisioning_status = ResourceProvisioningStatus.provisioned;
  health_status = ResourceHealthStatus.healthy;
  spec = server_spec "network" web (some ("group" ∷ []));
  private_ip = some "10.0.0.1";
  public_ip = none;
  phase = some running;
}

abbrev pub server_a : ServerRead
server_a = server "1" "web-a"

abbrev pub server_b : ServerRead
server_b = server "2" "web-b"

abbrev pub group : SecurityGroupRead
group = record {
  id = "group";
  name = "cluster-web";
  tags = some (record { name = workload_pool_label; value = "web" } ∷ []);
  rules = [];
}

abbrev pub cluster : ComputeCluster
cluster = record {
  name = "cluster";
  labels = ("organization", "acme") ∷ ("project", "shop") ∷ ("network", "network") ∷ [];
  annotations = ("identity", "identity") ∷ [];
  deleting = false;
  spec = record {
    pause = false;
    tags = record { name = "owner"; value = "ops" } ∷ [];
    region_id = "region";
    network = none;
    workload_pools = web ∷ [];
    pools = [];
  };
  status = record { ssh_private_key = none; workload_pools = []; conditions = []; pools = [] };
}

-- A created server has the specification that was asked for, and an updated one too.
abbrev pub server_reply : History → Reply ServerRead
server_reply (Request.create_server _ w ∷ h) =
    replied 201 (record (server "3" w.name) { spec = w.spec; tags = w.tags })
server_reply (Request.update_server _ id w ∷ h) =
    replied 202 (record (server id w.name) { spec = w.spec; tags = w.tags })
server_reply _ = failed 0

abbrev pub group_reply : History → Reply SecurityGroupRead
group_reply (Request.create_security_group _ w ∷ h) =
    replied 201 (record group { name = w.name; tags = w.tags; rules = w.rules })
group_reply (Request.update_security_group _ id w ∷ h) =
    replied 202 (record group { name = w.name; tags = w.tags; rules = w.rules })
group_reply _ = failed 0

abbrev pub suffix : ℕ → String
suffix zero = "c"
suffix _ = "d"

-- An identity that is gone, and servers that can all be deleted.
abbrev pub deletion_reply : History → Reply (Unit {0})
deletion_reply (Request.delete_identity _ ∷ h) = replied 404 tt
deletion_reply _ = replied 202 tt

abbrev pub env : Env
env = record {
  organization_label = "organization";
  project_label = "project";
  identity_annotation = "identity";
  network_label = "network";
  compute_cluster_label = "compute-cluster";
  connect = λ _. none;
  identity = λ _. replied 200 (record {
    id = "identity";
    provisioning_status = ResourceProvisioningStatus.provisioned;
    openstack = some (some "key");
  });
  network = λ _.
      replied 200
        (record { id = "network"; provisioning_status = ResourceProvisioningStatus.provisioned });
  servers = λ _. replied 200 (server_a ∷ server_b ∷ []);
  server = server_reply;
  security_groups = λ _. replied 200 (group ∷ []);
  security_group = group_reply;
  deletion = deletion_reply;
  update = λ _. none;
  suffix = suffix;
  conditions = stored_conditions;
}

abbrev pub start : State
start = record { cluster = cluster; servers = []; sent = []; draws = 0 }

abbrev pub networking : ComputeInstanceNetworking
networking = record {
  public_ip = true;
  security_group_ids = [];
  allowed_source_addresses = record { text = "10.0.0.0/8" } ∷ [];
}

abbrev pub instance_one : ComputeInstance
instance_one = record {
  name = "instance";
  labels = ("name", "front") ∷ ("network", "network") ∷ [];
  annotations = [];
  deleting = false;
  spec = record {
    flavor_id = "flavor";
    image_id = "image";
    pause = false;
    tags = [];
    networking = some networking;
    user_data = [];
  };
  status = record { private_ip = none; public_ip = none; power_state = none; conditions = [] };
}

abbrev pub server_v2 : String → ServerV2Read
server_v2 flavor = record {
  id = "7";
  provisioning_status = ResourceProvisioningStatus.provisioned;
  health_status = ResourceHealthStatus.healthy;
  spec = record (generate_server_spec instance_one) { flavor_id = flavor };
  private_ip = some "10.0.0.7";
  public_ip = none;
  power_state = some running;
}

abbrev pub env_v2 : EnvV2
env_v2 = record {
  name_label = "name";
  organization_label = "organization";
  project_label = "project";
  region_label = "region";
  network_label = "network";
  connect = λ _. none;
  servers = λ _. replied 200 (server_v2 "flavor" ∷ []);
  server = λ _. replied 202 (server_v2 "flavor");
  deletion = λ _. replied 202 tt;
  release = λ _. none;
  conditions = stored_conditions;
}

abbrev pub start_v2 : InstanceState
start_v2 = record { resource = instance_one; sent = [] }
