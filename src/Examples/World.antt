-- ===== src/Examples/World.antt =====
-- Services that answer as documented, for the handlers of instances and clusters.
use uni_compute.Base.{
  ℕ, zero, suc, ◌≡◌, refl, String, true, Option, none, some, List, [], ◌∷◌, ◌<>◌, All,
  if◌then◌else◌, ◌==◌, string_eq, ==_sound, arith,
}
use uni_compute.Base.Dict.{lookup, insert, lookup-insert}
use uni_compute.Base.Result.{Result, ok, err, panic}
use uni_compute.External.Core.{ObjectMeta, Metadata, AreBuilders}
use uni_compute.External.Env.{failed, replied}
use uni_compute.External.Catalog.{Flavor, HandlerRequest, HandlerHistory, Lookup, found, missing}
use uni_compute.External.Handlers.{Action, Saga, undone, IsSaga, ApiEnv}
use uni_compute.Api.{ComputeInstance}
use uni_compute.Handler.Instances.Quota.{ledger, IsReliable}
use uni_compute.Examples.Data.{server_v2}
use uni_compute.Examples.Handlers.{api, flavor, parse}

-- A saga as documented.
abbrev finish : {S : Type 0} → Action S → Result (Unit {0}) × S → Result (Unit {0}) × S
finish a (ok _, u) = (ok tt, u)
finish a (err e, u) = (err e, undone a u)
finish a (panic, u) = (panic, u)

abbrev proceed :
    {S : Type 0}
    → Action S
    → (S → Result (Unit {0}) × S)
    → Result (Unit {0}) × S
    → Result (Unit {0}) × S
proceed a rest (ok _, t) = finish a (rest t)
proceed a rest (err e, t) = (err e, t)
proceed a rest (panic, t) = (panic, t)

unfoldable pub run_saga : Saga
run_saga S [] s = (ok tt, s)
run_saga S (a ∷ rest) s = proceed a (run_saga S rest) (a.run s)

pub run_saga-IsSaga : IsSaga run_saga
unfolding run_saga
run_saga-IsSaga = record {
  finished = λ S s. refl;
  failed = λ S a rest s t e h. rw (h, proceed) refl;
  succeeded = λ S a rest s t u h k. rw (h, proceed, k) refl;
  compensated = λ S a rest s t u e h k. (e, rw (h, proceed, k) refl);
}

abbrev stamp : ℕ → String
stamp zero = "i"
stamp (suc k) = "i" <> stamp k

-- Metadata as documented, with names by their number.
abbrev pub metadata : Metadata
metadata = record {
  organization_label = "organization";
  project_label = "project";
  new_object =
      λ k m namespace. record { name = stamp k; labels = ("name", m.name) ∷ []; annotations = [] };
  with_organization = λ o x. record x { labels = insert "organization" o x.labels };
  with_project = λ p x. record x { labels = insert "project" p x.labels };
  with_label = λ k v x. record x { labels = insert k v x.labels };
  generate_tag_list = λ tags. elim tags [ none ↦ [] | some ts ↦ ts ];
  set_identity = λ x. ok (record x { annotations = insert "creator" "user" x.annotations });
}

pub metadata-AreBuilders : AreBuilders metadata
metadata-AreBuilders = record {
  organization = λ o j x. lookup-insert j "organization" o x.labels;
  project = λ o j x. lookup-insert j "project" o x.labels;
  label = λ k v j x. lookup-insert j k v x.labels;
  identity = λ x y j v e h. identified x y j v e h;
  name_organization = λ o x. refl;
  name_project = λ o x. refl;
  name_label = λ k v x. refl;
  name_identity = λ x y e. named x y e;
}
  where
    identified :
        (x y : ObjectMeta) (j v : String)
        → metadata.set_identity x ≡ ok y
        → lookup j x.labels ≡ some v
        → lookup j y.labels ≡ some v
    identified x y j v e h = let same : y.labels ≡ x.labels = cc in rw same h

    named : (x y : ObjectMeta) → metadata.set_identity x ≡ ok y → y.name ≡ x.name
    named x y e = cc

-- Every write is accepted, except for changes of an instance.
abbrev pub refusal : HandlerHistory → Option ℕ
refusal (HandlerRequest.patch_instance _ ∷ h) = some 409
refusal _ = none

abbrev named_or_missing : String → Option ComputeInstance → Lookup ComputeInstance
named_or_missing id none = missing
named_or_missing id (some i) = if i.name == id then found i else missing

-- Reads give what is stored.
unfoldable pub read_stored : HandlerHistory → Lookup ComputeInstance
unfolding ledger
read_stored (HandlerRequest.get_instance id ∷ h) =
    named_or_missing id (lookup id (ledger refusal h).stored)
read_stored _ = missing

abbrev pub world : ApiEnv
world = record {
  base = record api { write = refusal };
  metadata = metadata;
  namespace = "compute";
  name_label = "name";
  region_label = "region";
  node_network = record { text = "192.168.0.0/24" };
  default_nameservers = "8.8.8.8" ∷ [];
  parse = parse;
  run_saga = run_saga;
  allow = λ _ _ _ _. ok tt;
  allow_organization = λ _ _ _. ok tt;
  allow_create = λ _ _ _ _. ok tt;
  principal = λ _. ok (record { organization_id = ""; project_id = "" });
  add_scope = λ selector _ _. ok selector;
  add_query = λ selector _ _. ok selector;
  decode_tags = λ _. ok [];
  contains_all = λ _ _. true;
  allocated = λ _ annotations. insert "allocation" "7" annotations;
  clusters = λ _. ok [];
  instance_read = read_stored;
  instances = λ _. ok [];
  network = λ _. replied 200 (record { id = "network"; region_id = "region" });
  security_group = λ _. replied 200 tt;
  servers_v2 = λ _. replied 200 (server_v2 "flavor" ∷ []);
  text = λ _. replied 200 "text";
  snapshot = λ _. failed 0;
  created = λ _. replied 201 "made";
}

abbrev pub gpus : String → Option ℕ
gpus _ = flavor.gpu

pub world-IsReliable : IsReliable world gpus
unfolding read_stored
world-IsReliable = record {
  catalogue = λ h code all e. counted code all e;
  truthful = λ h id i e. stored h id i (lookup id (ledger refusal h).stored) refl e;
  saga = run_saga-IsSaga;
  builders = metadata-AreBuilders;
  releases = λ h i. refl;
  reverts = λ h i j a. refl;
}
  where
    counted :
        (code : ℕ) (all : List Flavor)
        → replied 200 (flavor ∷ []) ≡ replied code all
        → All (λ f. f.gpu ≡ gpus f.id) all
    counted code all e = let same : flavor ∷ [] ≡ all = cc in rw (← same) (refl, tt)

    stored :
        (h : HandlerHistory) (id : String) (i : ComputeInstance) (l : Option ComputeInstance)
        → lookup id (ledger refusal h).stored ≡ l
        → named_or_missing id l ≡ found i
        → lookup i.name (ledger refusal h).stored ≡ some i
    stored h id i none e k = cc
    stored h id i (some j) e k = ground (arith, e, k, ==_sound j.name id)
