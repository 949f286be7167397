-- ===== src/Handler/Instances/Quota/Operations.antt =====
-- Each operation of the instance handler's client.go keeps the ledger balanced.
use uni_compute.Base.{
  ℕ, ◌≤◌, ◌≡◌, refl, String, Option, none, some, ◌∷◌, length, Bool-cases, Option-cases, inl, inr,
}
use uni_compute.Base.Dict.{lookup}
use uni_compute.Base.Result.{Result, ok, invalid_request}
use uni_compute.Base.State.{Comp, bind, fail}
use uni_compute.External.Catalog.{Flavor, HandlerRequest, HandlerHistory, ServerAction}
use uni_compute.External.Handlers.{ApiEnv, Operation, NetworkV2Read}
use uni_compute.Api.{ComputeInstance}
use uni_compute.OpenApi.{InstanceCreate, InstanceUpdate}
use uni_compute.Handler.Client.{remove}
use uni_compute.Handler.Instances.Client.{
  instances_endpoint, organization_of, project_of, region_of, network_of, allow, get_raw,
  delete_instance, server_of, act_on_instance,
}
use uni_compute.Handler.Instances.Write.{
  convert_create_to_update_request, check_flavor_and_image, validate_security_groups,
  is_instance_name_in_use, generate, build_metadata, merge, create, update_from, update, create_on,
}
use uni_compute.Handler.Services.{inject_user_principal, get_network}
use uni_compute.Handler.Instances.Quota.{Ledger, IsBalanced, IsReliable, mark_deleted-IsBalanced}
use uni_compute.Handler.Runs.{Quiet, check-Quiet, bind-Ends, either_way}
use uni_compute.Handler.Instances.Quota.Reads.{
  IsUnaffected, IsAt, IsAt-unrecorded, IsAt-IsUnaffected,
}
use uni_compute.Handler.Instances.Quota.Checks.{
  get_raw-Stays, check_flavor_and_image-Stays, validate_security_groups-Stays,
  inject_user_principal-Stays, get_network-Stays, is_instance_name_in_use-Stays, generate-Stays,
  server_of-Stays,
}
use uni_compute.Handler.Instances.Quota.Sagas.{
  Balanced, ledger_accepted, ledger_refused, run_create-IsBalanced, run_update-IsBalanced,
}
use uni_compute.External.Core.{ObjectMeta}

module _ (env : ApiEnv) (gpus : String → Option ℕ) (reliable : IsReliable env gpus) where
  module _ (l : Ledger) (n : ℕ) (balanced : IsBalanced gpus l) where
    abbrev AtL : HandlerHistory → Type 0
    AtL = IsAt env.write l n

    abbrev Ends : HandlerHistory → Type 0
    Ends = Balanced env gpus reliable

    unaffected : IsUnaffected AtL
    unaffected = IsAt-IsUnaffected env.write l n

    abbrev IsKnown : String → Flavor → Type 0
    IsKnown id f = f.gpu ≡ gpus id

    abbrev IsStored : ComputeInstance → Type 0
    IsStored i = lookup i.name l.stored ≡ some i

    -- The name of what `generate` makes is not in use, if no name that is drawn is.
    is_fresh :
        (request : InstanceUpdate) (organization project region network : String)
        (t : HandlerHistory) (meta : ObjectMeta)
        → ((k : ℕ)
            → n ≤ k
            → lookup (env.metadata.new_object k request.metadata env.namespace).name l.stored
              ≡ none)
        → n ≤ length t
        → env.metadata.set_identity
            (build_metadata env t request organization project region network)
          ≡ ok meta
        → lookup meta.name l.stored ≡ none
    is_fresh request organization project region network t meta fresh later e =
        let built = build_metadata env t request organization project region network in
        rw (reliable.builders.name_identity built meta e) (
          rw
            (
              reliable.builders.name_label, reliable.builders.name_label,
              reliable.builders.name_project, reliable.builders.name_organization,
            )
            (fresh (length t) later))

    -- A step of a `do` block that only reads.
    then_ :
        {A B : Type 0} (Q : A → Type 0) (m : Result A × HandlerHistory)
        (f : A → Comp HandlerHistory B)
        → Quiet (IsAt env.write l n) Q m
        → ((a : A) (t : HandlerHistory) → AtL t → Q a → Ends (f a t).1)
        → Ends (bind m f).1
    then_ Q m f q k = bind-Ends AtL Q Ends m f (λ t at. rw at.0 balanced) q k

    checking :
        {A B : Type 0} (r : Result A) (h : HandlerHistory) (f : A → Comp HandlerHistory B)
        → AtL h
        → ((a : A) (t : HandlerHistory) → AtL t → Ends (f a t).1)
        → Ends (bind (r, h) f).1
    checking r h f at k =
        then_ (λ _. Unit {0}) (r, h) f (check-Quiet AtL r h at) λ a t at' _. k a t at'

    create_on-Balanced :
        (request : InstanceCreate) (network : NetworkV2Read) (h : HandlerHistory)
        → AtL h
        → ((k : ℕ)
            → n ≤ k
            → lookup (env.metadata.new_object k request.metadata env.namespace).name l.stored
              ≡ none)
        → Ends (create_on env request network h).1
    unfolding create_on
    create_on-Balanced request network h at fresh =
        let spec = request.spec in
        let organization = spec.organization_id in
        let project = spec.project_id in
        let name = request.metadata.name in
        then_ _ (is_instance_name_in_use env organization project spec.network_id name h) _
          (is_instance_name_in_use-Stays env AtL unaffected IsKnown reliable.catalogue organization
            project spec.network_id name h at)
          λ _ h at _.
            then_ _
              (check_flavor_and_image env organization network.region_id spec.flavor_id
                spec.image_id h)
              _
              (check_flavor_and_image-Stays env AtL unaffected IsKnown reliable.catalogue
                organization network.region_id spec.flavor_id spec.image_id h at)
              λ p h at counted.
                then_ _ (validate_security_groups env spec.networking h) _
                  (validate_security_groups-Stays env AtL unaffected IsKnown reliable.catalogue
                    spec.networking h at)
                  λ _ h at _.
                    then_ _
                      (generate env (convert_create_to_update_request request) organization project
                        network.region_id spec.network_id h)
                      _
                      (generate-Stays env AtL unaffected IsKnown reliable.catalogue
                        (λ meta. lookup meta.name l.stored ≡ none)
                        (convert_create_to_update_request request) organization project
                        network.region_id spec.network_id h at
                        λ t meta later e.
                          is_fresh (convert_create_to_update_request request) organization project
                            network.region_id spec.network_id t meta fresh later.1 e)
                      λ i h at made.
                        run_create-IsBalanced env gpus reliable p.0 i h (rw at.0 balanced)
                          (rw at.0 made.0) (rw made.1 counted)

    pub create-Balanced :
        (request : InstanceCreate) (h : HandlerHistory)
        → AtL h
        → ((k : ℕ)
            → n ≤ k
            → lookup (env.metadata.new_object k request.metadata env.namespace).name l.stored
              ≡ none)
        → Ends (create env request h).1
    unfolding create
    create-Balanced request h at fresh =
        let spec = request.spec in
        let organization = spec.organization_id in
        let project = spec.project_id in
        checking (env.allow_create h instances_endpoint organization project) h _ at λ _ h at.
          then_ _ (inject_user_principal env organization project h) _
            (inject_user_principal-Stays env AtL unaffected IsKnown reliable.catalogue organization
              project h at)
            λ _ h at _.
              then_ _ (get_network env spec.network_id h) _
                (get_network-Stays env AtL unaffected IsKnown reliable.catalogue spec.network_id h
                  at)
                λ network h at _. create_on-Balanced request network h at fresh

    update_from-Balanced :
        (current : ComputeInstance) (request : InstanceUpdate) (h : HandlerHistory)
        → lookup current.name l.stored ≡ some current
        → AtL h
        → Ends (update_from env current request h).1
    unfolding update_from
    update_from-Balanced current request h stored at =
        let organization = organization_of env current in
        let project = project_of env current in
        let region = region_of env current in
        then_ _ (inject_user_principal env organization project h) _
          (inject_user_principal-Stays env AtL unaffected IsKnown reliable.catalogue organization
            project h at)
          λ _ h at _.
            then_ _
              (check_flavor_and_image env organization region current.spec.flavor_id
                current.spec.image_id h)
              _
              (check_flavor_and_image-Stays env AtL unaffected IsKnown reliable.catalogue
                organization region current.spec.flavor_id current.spec.image_id h at)
              λ before h at counted_before.
                then_ _
                  (check_flavor_and_image env organization region request.spec.flavor_id
                    request.spec.image_id h)
                  _
                  (check_flavor_and_image-Stays env AtL unaffected IsKnown reliable.catalogue
                    organization region request.spec.flavor_id request.spec.image_id h at)
                  λ wanted h at counted.
                    then_ _ (validate_security_groups env request.spec.networking h) _
                      (validate_security_groups-Stays env AtL unaffected IsKnown reliable.catalogue
                        request.spec.networking h at)
                      λ _ h at _.
                        then_ _
                          (generate env request organization project region (network_of env current)
                            h)
                          _
                          (generate-Stays env AtL unaffected IsKnown reliable.catalogue
                            (λ _. Unit {0}) request organization project region
                            (network_of env current) h at λ _ _ _ _. tt)
                          λ required h at made.
                            run_update-IsBalanced env gpus reliable current
                              (merge env current required) before.0 wanted.0 h (rw at.0 balanced)
                              (rw at.0 stored) refl counted_before (rw made.1 counted)

    pub update-Balanced :
        (id : String) (request : InstanceUpdate) (h : HandlerHistory)
        → AtL h
        → Ends (update env id request h).1
    unfolding update
    update-Balanced id request h at =
        then_ _ (get_raw env id h) _
          (get_raw-Stays env AtL unaffected IsKnown reliable.catalogue IsStored id h at
            λ i e. rw (← at.0) (reliable.truthful h id i e))
          λ current h at stored. checking (allow env Operation.update current) h _ at λ _ h at.
            either_way Ends current.deleting (fail invalid_request)
              (update_from env current request) h (rw at.0 balanced)
              (update_from-Balanced current request h stored at)

    pub delete_instance-Balanced :
        (id : String) (h : HandlerHistory) → AtL h → Ends (delete_instance env id h).1
    unfolding delete_instance remove
    delete_instance-Balanced id h at =
        then_ _ (get_raw env id h) _
          (get_raw-Stays env AtL unaffected IsKnown reliable.catalogue IsStored id h at
            λ i e. rw (← at.0) (reliable.truthful h id i e))
          λ i h at stored. elim (Bool-cases i.deleting) [
            | inl e ↦ rw e (rw at.0 balanced)
            | inr e ↦ rw e (
                checking (allow env Operation.delete i) h _ at λ _ h at.
                  let r = HandlerRequest.delete_instance i.name in
                  elim (Option-cases (env.write (r ∷ h))) [
                    | inl granted ↦
                        rw (ledger_accepted env.write r h granted, at.0)
                          (mark_deleted-IsBalanced gpus l balanced i.name)
                    | inr (x, refused) ↦
                        rw (ledger_refused env.write r h {x = x} refused, at.0) balanced
                  ])
          ]

    pub act_on_instance-Balanced :
        (action : ServerAction) (id : String) (h : HandlerHistory)
        → AtL h
        → Ends (act_on_instance env action id h).1
    unfolding act_on_instance
    act_on_instance-Balanced action id h at =
        then_ _ (server_of env id h) _
          (server_of-Stays env AtL unaffected IsKnown reliable.catalogue id h at)
          λ server h at _.
            let r = HandlerRequest.act_on_server_v2 action server in
            let kept = IsAt-unrecorded env.write l n r h (λ _. refl) at in rw kept.0 balanced
