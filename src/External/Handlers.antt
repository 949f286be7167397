-- ===== src/External/Handlers.antt =====
-- The world around the handlers of instances and of version 2 clusters, and around the creation of a
-- cluster.
use uni_compute.Base.{◌≡◌, String, Bool, Option, none, some, List, [], ◌∷◌}
use uni_compute.Base.Dict.{Dict}
use uni_compute.Base.Result.{Error, Result, ok, err}
use uni_compute.Base.State.{Comp}
use uni_compute.External.Core.{Tag, IPv4Prefix, Metadata}
use uni_compute.External.Env.{Reply}
use uni_compute.External.RegionV2.{ServerV2Read}
use uni_compute.External.Catalog.{Image, Lookup, Principal, Selector, HandlerHistory, HandlerEnv}
use uni_compute.Api.{ComputeCluster, ComputeInstance}

pub data Operation : Type 0 where
  create read update delete : Operation

-- `NetworkV2Read`, with what is read of it.
pub record NetworkV2Read : Type 0 where
  pub id : String
  pub region_id : String

-- An action of a saga, with what undoes it.
pub record Action (S : Type 0) : Type 0 where
  pub run : Comp S (Unit {0})
  pub compensate : Option (Comp S (Unit {0}))

-- The state in which an action that failed later leaves what came before it.
abbrev pub undone : {S : Type 0} → Action S → S → S
undone a s = elim a.compensate [ none ↦ s | some c ↦ (c s).1 ]

-- `saga.Run` of the core repository.
abbrev pub Saga : Type 1
Saga = (S : Type 0) → List (Action S) → Comp S (Unit {0})

-- The documented behaviour of a saga: actions run in order up to the first error, and then those
-- that succeeded are undone, the last one first.
pub record IsSaga (run : Saga) : Type 1 where
  pub finished : (S : Type 0) (s : S) → run S [] s ≡ (ok tt, s)
  pub failed :
      (S : Type 0) (a : Action S) (rest : List (Action S)) (s t : S) (e : Error)
      → a.run s ≡ (err e, t)
      → run S (a ∷ rest) s ≡ (err e, t)
  pub succeeded :
      (S : Type 0) (a : Action S) (rest : List (Action S)) (s t u : S)
      → a.run s ≡ (ok tt, t)
      → run S rest t ≡ (ok tt, u)
      → run S (a ∷ rest) s ≡ (ok tt, u)
  pub compensated :
      (S : Type 0) (a : Action S) (rest : List (Action S)) (s t u : S) (e : Error)
      → a.run s ≡ (ok tt, t)
      → run S rest t ≡ (err e, u)
      → (e' : Error) × (run S (a ∷ rest) s ≡ (err e', undone a u))

pub record ApiEnv : Type 1 where
  pub base : HandlerEnv
  pub open base use *
  pub metadata : Metadata
  pub namespace : String
  pub name_label : String
  pub region_label : String
  -- The default network of a cluster.
  pub node_network : IPv4Prefix
  pub default_nameservers : List String
  pub parse : String → Option IPv4Prefix
  pub run_saga : Saga
  -- The identity service: `AllowProjectScope`, `AllowOrganizationScope`, `AllowProjectScopeCreate`, the principal of the
  -- context, and what `AddOrganizationAndProjectIDQuery` and `AddQuery` make of a selector.
  pub allow : String → Operation → String → String → Result (Unit {0})
  pub allow_organization : String → Operation → String → Result (Unit {0})
  pub allow_create : HandlerHistory → String → String → String → Result (Unit {0})
  pub principal : HandlerHistory → Result Principal
  pub add_scope : Selector → List String → List String → Result Selector
  pub add_query : Selector → String → List String → Result Selector
  -- `DecodeTagSelectorParam`, `ContainsAll`, and the annotations of a resource after its quota was allocated.
  pub decode_tags : Option (List String) → Result (List Tag)
  pub contains_all : List Tag → List Tag → Bool
  pub allocated : HandlerHistory → Dict String → Dict String
  -- Reads of the Kubernetes API.
  pub clusters : HandlerHistory → Result (List ComputeCluster)
  pub instance_read : HandlerHistory → Lookup ComputeInstance
  pub instances : HandlerHistory → Result (List ComputeInstance)
  -- The region service. A created identity and a created network are answered with their IDs.
  pub network : HandlerHistory → Reply NetworkV2Read
  pub security_group : HandlerHistory → Reply (Unit {0})
  pub servers_v2 : HandlerHistory → Reply (List ServerV2Read)
  pub text : HandlerHistory → Reply String
  pub snapshot : HandlerHistory → Reply Image
  pub created : HandlerHistory → Reply String
