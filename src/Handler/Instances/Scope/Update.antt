-- ===== src/Handler/Instances/Scope/Update.antt =====
-- An update of the instance handler's client.go, request by request.
use uni_compute.Base.{ℕ, ◌≡◌, refl, ◌∙◌, sym, String, List, ◌∷◌, All, string_eq, ==_self}
use uni_compute.Base.Dict.{lookup_or, lookup-insert}
use uni_compute.Base.Result.{Result, invalid_request}
use uni_compute.Base.State.{Comp, bind, fail}
use uni_compute.External.Core.{AreBuilders}
use uni_compute.External.Env.{replied}
use uni_compute.External.Catalog.{Flavor, HandlerRequest, HandlerHistory, found}
use uni_compute.External.Handlers.{ApiEnv, IsSaga, Operation}
use uni_compute.Api.{ComputeInstance}
use uni_compute.OpenApi.{InstanceUpdate}
use uni_compute.Handler.Services.{inject_user_principal}
use uni_compute.Handler.Instances.Client.{
  organization_of, project_of, region_of, network_of, allow, get_raw,
}
use uni_compute.Handler.Instances.Write.{
  build_metadata, check_flavor_and_image, validate_security_groups, generate, merge, update_from,
  update,
}
use uni_compute.Handler.Runs.{Quiet, bind-Ends, check-Quiet, either_way}
use uni_compute.Handler.Instances.Quota.Reads.{IsUnaffected}
use uni_compute.Handler.Instances.Quota.Checks.{
  get_raw-Stays, check_flavor_and_image-Stays, validate_security_groups-Stays,
  inject_user_principal-Stays, generate-Stays,
}
use uni_compute.Handler.Instances.Scope.{
  IsScoped, AreDistinctLabels, IsUpdateOf, KeepsScope, All-IsUnaffected, All-any, found_path,
  build_metadata-IsScoped, set_identity-IsScoped, run_update-All,
}

module _ (env : ApiEnv) (builders : AreBuilders env.metadata) (saga : IsSaga env.run_saga)
    (distinct : AreDistinctLabels env) where
  module _ (current : ComputeInstance) (request : InstanceUpdate) where
    abbrev Kept : HandlerHistory → Type 0
    Kept = All (KeepsScope env current request)

    -- A step of a `do` block that only reads.
    then_ :
        {A B : Type 0} (Q : A → Type 0) (m : Result A × HandlerHistory)
        (f : A → Comp HandlerHistory B)
        → Quiet Kept Q m
        → ((a : A) (t : HandlerHistory) → Kept t → Q a → Kept (f a t).1)
        → Kept (bind m f).1
    then_ Q m f q k = bind-Ends Kept Q Kept m f (λ t kept. kept) q k

    unaffected : IsUnaffected Kept
    unaffected = All-IsUnaffected env current request

    merge-IsUpdateOf :
        (required : ComputeInstance)
        → IsScoped env
            (organization_of env current)
            (project_of env current)
            (region_of env current)
            (network_of env current)
            required.labels
        → required.spec.flavor_id ≡ request.spec.flavor_id
        → required.spec.image_id ≡ request.spec.image_id
        → IsUpdateOf env current request (merge env current required)
    merge-IsUpdateOf required scoped flavor_ image_ = record {
      same_name = refl;
      same_status = refl;
      scoped = scoped;
      same_allocation =
          lookup-insert env.allocation_annotation env.allocation_annotation
            (lookup_or "" env.allocation_annotation current.annotations) required.annotations
          ∙ (rw (==_self env.allocation_annotation) refl);
      flavor = flavor_;
      image = image_;
    }

    abbrev Any : String → Flavor → Type 0
    Any _ _ = Unit

    unrestricted :
        (h : HandlerHistory) (code : ℕ) (all : List Flavor)
        → env.flavors h ≡ replied code all
        → All (λ f. Any f.id f) all
    unrestricted h code all e = All-any all

    update_from-Kept : (h : HandlerHistory) → Kept h → Kept (update_from env current request h).1
    unfolding update_from
    update_from-Kept h kept =
        let organization = organization_of env current in
        let project = project_of env current in
        let region = region_of env current in
        let network = network_of env current in
        then_ _ (inject_user_principal env organization project h) _
          (inject_user_principal-Stays env Kept unaffected Any unrestricted organization project h
            kept)
          λ _ h kept _.
            then_ _
              (check_flavor_and_image env organization region current.spec.flavor_id
                current.spec.image_id h)
              _
              (check_flavor_and_image-Stays env Kept unaffected Any unrestricted organization region
                current.spec.flavor_id current.spec.image_id h kept)
              λ before h kept _.
                then_ _
                  (check_flavor_and_image env organization region request.spec.flavor_id
                    request.spec.image_id h)
                  _
                  (check_flavor_and_image-Stays env Kept unaffected Any unrestricted organization
                    region request.spec.flavor_id request.spec.image_id h kept)
                  λ wanted h kept _.
                    then_ _ (validate_security_groups env request.spec.networking h) _
                      (validate_security_groups-Stays env Kept unaffected Any unrestricted
                        request.spec.networking h kept)
                      λ _ h kept _.
                        then_ _ (generate env request organization project region network h) _
                          (generate-Stays env Kept unaffected Any unrestricted
                            (λ meta. IsScoped env organization project region network meta.labels)
                            request organization project region network h kept
                            λ t meta _ e.
                              set_identity-IsScoped env builders saga distinct organization project
                                region network
                                (build_metadata env t request organization project region network)
                                meta e
                                (build_metadata-IsScoped env builders saga distinct t request
                                  organization project region network))
                          λ required h kept made.
                            run_update-All env builders saga distinct
                              (KeepsScope env current request) current (merge env current required)
                              before.0 wanted.0 h (λ q. refl)
                              (merge-IsUpdateOf required made.0 made.1 made.2) kept

    -- Whatever the services answer, all that an update of an instance stores is that instance with
    -- the name, the status, the organization, the project, the region, the network and the quota
    -- allocation that it had, and the flavor and the image of the request; it changes no quota but
    -- that of the instance; and all else that it does is to read and to set the principal of
    -- its context, so that it creates and deletes nothing and writes no cluster, network, server or
    -- snapshot. The four labels have different
    -- names, and sagas and metadata behave as documented.
    pub update-KeepsScope :
        (id : String) (h : HandlerHistory)
        → env.instance_read (HandlerRequest.get_instance id ∷ h) ≡ found current
        → All (KeepsScope env current request) h
        → All (KeepsScope env current request) (update env id request h).1
    unfolding update
    update-KeepsScope id h read kept =
        then_ _ (get_raw env id h) _
          (get_raw-Stays env Kept unaffected Any unrestricted (λ i. i ≡ current) id h kept
            λ i e. found_path i current (sym e ∙ read))
          λ i h kept same.
            then_ _ (allow env Operation.update i, h) _
              (check-Quiet Kept (allow env Operation.update i) h kept)
              λ _ h kept _. rw same (
                either_way Kept current.deleting (fail invalid_request)
                  (update_from env current request) h kept (update_from-Kept h kept))
