-- ===== src/External/Env.antt =====
-- The world around a controller: the region service and the Kubernetes API as they answer
-- requests, random suffixes, and the label names of the core repository. An answer may depend on
-- all that was sent before, so that every behaviour of the services is an `Env`.
use uni_compute.Base.{ℕ, String, Option, List}
use uni_compute.External.Core.{Conditions}
use uni_compute.External.Region.{
  ServerRead, ServerWrite, SecurityGroupRead, SecurityGroupWrite, IdentityRead, NetworkRead,
}

-- The path parameters of a request: organization, project and identity.
pub record Scope : Type 0 where
  pub organization : String
  pub project : String
  pub identity : String

pub data Request : Type 0 where
  get_identity delete_identity : Scope → Request
  get_network : Scope → String → Request
  list_servers list_security_groups : String → List String → Request
  create_server : Scope → ServerWrite → Request
  update_server : Scope → String → ServerWrite → Request
  delete_server : Scope → String → Request
  create_security_group : Scope → SecurityGroupWrite → Request
  update_security_group : Scope → String → SecurityGroupWrite → Request
  delete_security_group : Scope → String → Request
  update_cluster delete_allocations : String → Request

-- The requests that were sent, the newest first.
abbrev pub History : Type 0
History = List Request

-- No reply at all, or a status code with the decoded body of the expected code.
pub data Reply (A : Type 0) : Type 0 where
  failed : ℕ → Reply A
  replied : ℕ → A → Reply A

-- A reply is a function of the requests up to and including the one that it answers.
pub record Env : Type 0 where
  pub organization_label : String
  pub project_label : String
  pub identity_annotation : String
  pub network_label : String
  pub compute_cluster_label : String
  -- `getRegionClient` and the other clients: the error with which they cannot be had.
  pub connect : History → Option ℕ
  pub identity : History → Reply IdentityRead
  pub network : History → Reply NetworkRead
  pub servers : History → Reply (List ServerRead)
  pub server : History → Reply ServerRead
  pub security_groups : History → Reply (List SecurityGroupRead)
  pub security_group : History → Reply SecurityGroupRead
  -- Deletions, which answer with a status code alone.
  pub deletion : History → Reply (Unit {0})
  -- The Kubernetes API, and the quota allocations of the identity service.
  pub update : History → Option ℕ
  -- `rand.String(6)`, at its n-th call.
  pub suffix : ℕ → String
  pub conditions : Conditions
