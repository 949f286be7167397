-- ===== src/Handler/Instances/Scope.antt =====
-- What `Update` of the instance handler's client.go keeps of an instance: where it belongs, and its
-- quota allocation.
pub mod Update
use uni_compute.Base.{
  ℕ, ◌≡◌, refl, ◌∙◌, sym, String, Bool, true, false, Option, none, some, List, [], ◌∷◌, All,
  Distinct, length, Option-cases, inl, inr, if◌then◌else◌, ◌==◌, string_eq, arith, ==_self,
}
use uni_compute.Base.Dict.{Dict, lookup, lookup_or, insert, lookup-insert}
use uni_compute.Base.Result.{Result, ok, err, panic, transport, invalid_request}
use uni_compute.Base.State.{Comp, bind, fail}
use uni_compute.External.Core.{ObjectMeta, AreBuilders}
use uni_compute.External.Env.{replied}
use uni_compute.External.Catalog.{Flavor, Allocation, HandlerRequest, HandlerHistory, found}
use uni_compute.External.Handlers.{ApiEnv, Action, IsSaga, Operation}
use uni_compute.Api.{ComputeInstance}
use uni_compute.Api.Accessors.{public_ip_enabled}
use uni_compute.OpenApi.{InstanceUpdate}
use uni_compute.Handler.Client.{write}
use uni_compute.Handler.Services.{inject_user_principal}
use uni_compute.Handler.Instances.{generate_allocation}
use uni_compute.Handler.Instances.Client.{
  organization_of, project_of, region_of, network_of, allow, get_raw,
}
use uni_compute.Handler.Instances.Write.{
  SagaState, change_allocation, update_instance, change_action, patch_action, update_actions, run,
  build_metadata, check_flavor_and_image, validate_security_groups, generate, merge, update_from,
  update,
}
use uni_compute.Handler.Runs.{Quiet, bind-Ends, check-Quiet}
use uni_compute.Handler.Instances.Quota.Reads.{IsUnaffected, touches}
use uni_compute.Handler.Instances.Quota.Checks.{
  get_raw-Stays, check_flavor_and_image-Stays, validate_security_groups-Stays,
  inject_user_principal-Stays, generate-Stays,
}
use uni_compute.Handler.Instances.Quota.Sagas.{saga_refused, saga_done, saga_undone}

-- The labels by which a resource belongs to an organization, a project, a region and a network.
pub record IsScoped (env : ApiEnv) (organization project region network : String)
    (labels : Dict String) : Type 0 where
  pub in_organization : lookup env.metadata.organization_label labels ≡ some organization
  pub in_project : lookup env.metadata.project_label labels ≡ some project
  pub in_region : lookup env.region_label labels ≡ some region
  pub in_network : lookup env.network_label labels ≡ some network

-- The names of these labels differ.
abbrev pub AreDistinctLabels : ApiEnv → Type 0
AreDistinctLabels env = Distinct (
    env.metadata.organization_label ∷ env.metadata.project_label ∷ env.region_label
    ∷ env.network_label ∷ [])

-- What an update may store in place of `current`.
pub record IsUpdateOf (env : ApiEnv) (current : ComputeInstance) (request : InstanceUpdate)
    (i : ComputeInstance) : Type 0 where
  pub same_name : i.name ≡ current.name
  pub same_status : i.status ≡ current.status
  pub scoped :
      IsScoped env
        (organization_of env current)
        (project_of env current)
        (region_of env current)
        (network_of env current)
        i.labels
  pub same_allocation :
      lookup env.allocation_annotation i.annotations
      ≡ some (lookup_or "" env.allocation_annotation current.annotations)
  pub flavor : i.spec.flavor_id ≡ request.spec.flavor_id
  pub image : i.spec.image_id ≡ request.spec.image_id

-- A request that an update of `current` may send: it stores such an instance, or changes the quota of
-- `current`, or only reads, or changes the principal of the request's context.
abbrev pub KeepsScope : ApiEnv → ComputeInstance → InstanceUpdate → HandlerRequest → Type 0
KeepsScope env current request (HandlerRequest.patch_instance i) = IsUpdateOf env current request i
KeepsScope env current request (HandlerRequest.reallocate i _) = i ≡ current
KeepsScope env current request (HandlerRequest.allocate _ _) = ⊥
KeepsScope env current request (HandlerRequest.release _) = ⊥
KeepsScope env current request (HandlerRequest.create_instance _) = ⊥
KeepsScope env current request (HandlerRequest.delete_instance _) = ⊥
KeepsScope env current request (HandlerRequest.update_allocations _ _) = ⊥
KeepsScope env current request (HandlerRequest.patch_cluster _) = ⊥
KeepsScope env current request (HandlerRequest.delete_cluster _) = ⊥
KeepsScope env current request (HandlerRequest.act_on_server _ _ _ _ _) = ⊥
KeepsScope env current request (HandlerRequest.delete_server _ _ _ _) = ⊥
KeepsScope env current request (HandlerRequest.create_identity _ _ _) = ⊥
KeepsScope env current request (HandlerRequest.create_network _ _ _ _) = ⊥
KeepsScope env current request (HandlerRequest.create_allocations _ _) = ⊥
KeepsScope env current request (HandlerRequest.create_cluster _) = ⊥
KeepsScope env current request (HandlerRequest.act_on_server_v2 _ _) = ⊥
KeepsScope env current request (HandlerRequest.create_snapshot _ _) = ⊥
KeepsScope env current request _ = Unit

pub All-IsUnaffected :
    (env : ApiEnv) (current : ComputeInstance) (request : InstanceUpdate)
    → IsUnaffected (All (KeepsScope env current request))
All-IsUnaffected env current request (HandlerRequest.allocate _ _) h e k = cc
All-IsUnaffected env current request (HandlerRequest.reallocate _ _) h e k = cc
All-IsUnaffected env current request (HandlerRequest.release _) h e k = cc
All-IsUnaffected env current request (HandlerRequest.create_instance _) h e k = cc
All-IsUnaffected env current request (HandlerRequest.patch_instance _) h e k = cc
All-IsUnaffected env current request (HandlerRequest.delete_instance _) h e k = cc
All-IsUnaffected env current request (HandlerRequest.update_allocations _ _) h e k = cc
All-IsUnaffected env current request (HandlerRequest.patch_cluster _) h e k = cc
All-IsUnaffected env current request (HandlerRequest.delete_cluster _) h e k = cc
All-IsUnaffected env current request (HandlerRequest.act_on_server _ _ _ _ _) h e k = cc
All-IsUnaffected env current request (HandlerRequest.delete_server _ _ _ _) h e k = cc
All-IsUnaffected env current request (HandlerRequest.create_identity _ _ _) h e k = cc
All-IsUnaffected env current request (HandlerRequest.create_network _ _ _ _) h e k = cc
All-IsUnaffected env current request (HandlerRequest.create_allocations _ _) h e k = cc
All-IsUnaffected env current request (HandlerRequest.create_cluster _) h e k = cc
All-IsUnaffected env current request (HandlerRequest.act_on_server_v2 _ _) h e k = cc
All-IsUnaffected env current request (HandlerRequest.create_snapshot _ _) h e k = cc
All-IsUnaffected env current request _ h e k = (tt, k)

pub All-any : (all : List Flavor) → All (λ _. Unit {0}) all
All-any [] = tt
All-any (f ∷ all) = (tt, All-any all)

pub found_path : (i j : ComputeInstance) → found i ≡ found j → i ≡ j
found_path i j e = cc

module _ (env : ApiEnv) (builders : AreBuilders env.metadata) (saga : IsSaga env.run_saga)
    (distinct : AreDistinctLabels env) where
  lookup-build_metadata :
      (h : HandlerHistory) (request : InstanceUpdate)
      (organization project region network j : String)
      → lookup j (build_metadata env h request organization project region network).labels ≡ (
          if env.network_label == j
          then some network
          else if env.region_label == j
          then some region
          else if env.metadata.project_label == j
          then some project
          else if env.metadata.organization_label == j
          then some organization
          else lookup j (env.metadata.new_object (length h) request.metadata env.namespace).labels)
  lookup-build_metadata h request organization project region network j =
      rw (builders.label, builders.label, builders.project, builders.organization) refl

  pub build_metadata-IsScoped :
      (h : HandlerHistory) (request : InstanceUpdate) (organization project region network : String)
      → IsScoped env organization project region network
          (build_metadata env h request organization project region network).labels
  build_metadata-IsScoped h request organization project region network =
      let at = lookup-build_metadata h request organization project region network in
      record {
        in_organization = ground (arith, distinct, at env.metadata.organization_label);
        in_project = ground (arith, distinct, at env.metadata.project_label);
        in_region = ground (arith, distinct, at env.region_label);
        in_network = ground (arith, distinct, at env.network_label);
      }

  pub set_identity-IsScoped :
      (organization project region network : String) (x y : ObjectMeta)
      → env.metadata.set_identity x ≡ ok y
      → IsScoped env organization project region network x.labels
      → IsScoped env organization project region network y.labels
  set_identity-IsScoped organization project region network x y e scoped =
      let keeps = builders.identity x y in
      record {
        in_organization =
            keeps env.metadata.organization_label organization e scoped.in_organization;
        in_project = keeps env.metadata.project_label project e scoped.in_project;
        in_region = keeps env.region_label region e scoped.in_region;
        in_network = keeps env.network_label network e scoped.in_network;
      }

  -- The requests of `updateSaga`.
  pub run_update-All :
      (P : HandlerRequest → Type 0) (current updated : ComputeInstance)
      (current_flavor flavor : Flavor) (h : HandlerHistory)
      → ((q : List Allocation) → P (HandlerRequest.reallocate current q))
      → P (HandlerRequest.patch_instance updated)
      → All P h
      → All P (run env updated (update_actions env current updated current_flavor flavor) h).1
  unfolding run change_allocation update_instance write
  run_update-All P current updated current_flavor flavor h change store before =
      let q = generate_allocation flavor (public_ip_enabled updated) in
      let back = generate_allocation current_flavor (public_ip_enabled current) in
      let r = HandlerRequest.reallocate current q in
      let s : SagaState = record { resource = updated; sent = h } in
      let t : SagaState = record s { sent = r ∷ h } in
      let c = HandlerRequest.patch_instance updated in
      let u : SagaState = record s { sent = c ∷ r ∷ h } in
      let a : Action SagaState = change_action env current updated current_flavor flavor in
      let b : Action SagaState = patch_action env in
      elim (Option-cases (env.write (r ∷ h))) [
        | inr (x, refused) ↦
            rw (saga_refused env.run_saga saga a b s t (transport x) (rw refused refl))
              (change q, before)
        | inl granted ↦ elim (Option-cases (env.write (c ∷ r ∷ h))) [
          | inl patched ↦
              rw (saga_done env.run_saga saga a b s t u (rw granted refl) (rw patched refl))
                (store, (change q, before))
          | inr (x, refused) ↦
              rw
                (saga_undone env.run_saga saga a b s t u (transport x) (rw granted refl)
                  (rw refused refl))
                (change back, (store, (change q, before)))
        ]
      ]
