-- ===== src/External/Core.antt =====
-- github.com/unikorn-cloud/core: tags, statuses, and the status conditions of a resource.
use uni_compute.Base.{◌≡◌, ℕ, String, Option, some, List, if◌then◌else◌, ◌==◌, string_eq, Eq}
use uni_compute.Base.Dict.{Dict, lookup}
use uni_compute.Base.Result.{Result, ok}

pub record Tag : Type 0 where
  pub name : String
  pub value : String

pub data ResourceProvisioningStatus : Type 0 where
  unknown pending provisioning provisioned deprovisioning error : ResourceProvisioningStatus

pub ResourceProvisioningStatus-discrete : Discrete ResourceProvisioningStatus
ResourceProvisioningStatus-discrete = hlevel

pub data ResourceHealthStatus : Type 0 where
  unknown healthy degraded error : ResourceHealthStatus

ResourceHealthStatus-discrete : Discrete ResourceHealthStatus
ResourceHealthStatus-discrete = hlevel

instance unfoldable pub health_eq : Eq ResourceHealthStatus
unfolding ResourceHealthStatus-discrete
health_eq = record { dec = ResourceHealthStatus-discrete }

pub data ConditionType : Type 0 where
  available healthy : ConditionType

ConditionType-discrete : Discrete ConditionType
ConditionType-discrete = hlevel

instance unfoldable pub condition_type_eq : Eq ConditionType
unfolding ConditionType-discrete
condition_type_eq = record { dec = ConditionType-discrete }

pub data ConditionStatus : Type 0 where
  is_true is_false : ConditionStatus

pub data ConditionReason : Type 0 where
  provisioning provisioned deprovisioning errored unknown healthy degraded cancelled :
      ConditionReason

pub record Condition : Type 0 where
  pub type : ConditionType
  pub status : ConditionStatus
  pub reason : ConditionReason
  pub message : String

-- `UpdateCondition` and `GetCondition`. The first adds a condition of its type or updates the one
-- that is there; the second reads a condition by its type.
pub record Conditions : Type 0 where
  pub update : List Condition → Condition → List Condition
  pub read : List Condition → ConditionType → Option Condition

-- The documented behaviour of the two functions.
pub record AreLawful (c : Conditions) : Type 0 where
  pub read-update :
      (cs : List Condition) (x : Condition) (t : ConditionType)
      → c.read (c.update cs x) t ≡ (if x.type == t then some x else c.read cs t)

-- A parsed IPv4 prefix, kept as the canonical text that its `String` method prints.
pub record IPv4Prefix : Type 0 where
  pub text : String

-- What a user says of a resource, `ResourceWriteMetadata`.
pub record ResourceMetadata : Type 0 where
  pub name : String
  pub description : Option String
  pub tags : Option (List Tag)

-- The metadata of a custom resource.
pub record ObjectMeta : Type 0 where
  pub name : String
  pub labels : Dict String
  pub annotations : Dict String

-- Package conversion of the core repository and `SetIdentityMetadata` of the identity repository.
-- `NewObjectMetadata` draws a random name; the number stands for the state of its generator.
pub record Metadata : Type 0 where
  pub organization_label : String
  pub project_label : String
  pub new_object : ℕ → ResourceMetadata → String → ObjectMeta
  pub with_organization : String → ObjectMeta → ObjectMeta
  pub with_project : String → ObjectMeta → ObjectMeta
  pub with_label : String → String → ObjectMeta → ObjectMeta
  pub generate_tag_list : Option (List Tag) → List Tag
  pub set_identity : ObjectMeta → Result ObjectMeta

-- The documented behaviour of these functions: a builder sets the one label that it names, and what
-- `SetIdentityMetadata` adds replaces no label and no name.
pub record AreBuilders (m : Metadata) : Type 0 where
  pub organization :
      (o j : String) (x : ObjectMeta)
      → lookup j (m.with_organization o x).labels
        ≡ (if m.organization_label == j then some o else lookup j x.labels)
  pub project :
      (o j : String) (x : ObjectMeta)
      → lookup j (m.with_project o x).labels
        ≡ (if m.project_label == j then some o else lookup j x.labels)
  pub label :
      (k v j : String) (x : ObjectMeta)
      → lookup j (m.with_label k v x).labels ≡ (if k == j then some v else lookup j x.labels)
  pub identity :
      (x y : ObjectMeta) (j v : String)
      → m.set_identity x ≡ ok y
      → lookup j x.labels ≡ some v
      → lookup j y.labels ≡ some v
  pub name_organization : (o : String) (x : ObjectMeta) → (m.with_organization o x).name ≡ x.name
  pub name_project : (o : String) (x : ObjectMeta) → (m.with_project o x).name ≡ x.name
  pub name_label : (k v : String) (x : ObjectMeta) → (m.with_label k v x).name ≡ x.name
  pub name_identity : (x y : ObjectMeta) → m.set_identity x ≡ ok y → y.name ≡ x.name
