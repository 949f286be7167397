-- ===== src/Handler/Instances/Quota/Checks.antt =====
-- The reads and checks of the instance handler of client.go, one by one.
use mathlib.Core.Path.{subst}
use uni_compute.Base.{
  find-All, ℕ, ◌≡◌, refl, String, Option, none, some, List, [], ◌∷◌, All, any, find, find-passes,
  ◌==◌, string_eq, ==_sound, Bool-cases, Option-cases, inl, inr,
}
use uni_compute.Base.Result.{Result, ok, err, invalid_request}
use uni_compute.Base.State.{bind}
use uni_compute.External.Env.{replied}
use uni_compute.External.Core.{ObjectMeta}
use uni_compute.External.Catalog.{
  Flavor, Image, HandlerRequest, HandlerHistory, Lookup, found, missing, broken,
}
use uni_compute.External.Handlers.{ApiEnv, NetworkV2Read, Operation}
use uni_compute.Api.{ComputeInstance}
use uni_compute.OpenApi.{InstanceNetworking, InstanceUpdate}
use uni_compute.Cluster.State.{expect}
use uni_compute.Handler.Client.{flavors, images}
use uni_compute.Handler.Services.{inject, inject_user_principal, get_network, get_security_group}
use uni_compute.Handler.Instances.{
  generate_networking, get_flavor, get_image, validate, list_or_nil,
}
use uni_compute.Handler.Instances.Client.{
  get_raw, server_id, server_of, search_params, allow, read_or_fail, the_one,
}
use uni_compute.Handler.Instances.Write.{
  check_flavor_and_image, check_groups, validate_security_groups, is_instance_name_in_use, has_name,
  on_network, build_metadata, generate,
}
use uni_compute.Handler.Runs.{Quiet, bind-Quiet, lift-Quiet, check-Quiet}
use uni_compute.Handler.Instances.Quota.Reads.{IsUnaffected, expect-eq-ok, validate-eq-ok}

abbrev Trivial : {A : Type 0} → A → Type 0
Trivial a = Unit

-- `I` is what the reads leave as it is, and `P` what is known of the flavor of an ID.
module _ (env : ApiEnv) (I : HandlerHistory → Type 0) (keeps : IsUnaffected I)
    (P : String → Flavor → Type 0)
    (catalogue : (h : HandlerHistory) (code : ℕ) (all : List Flavor)
      → env.flavors h ≡ replied code all
      → All (λ f. P f.id f) all) where
  abbrev Stays : {A : Type 0} → (A → Type 0) → Result A × HandlerHistory → Type 0
  Stays Q m = Quiet I Q m

  pub get_raw-Stays :
      (Q : ComputeInstance → Type 0) (id : String) (h : HandlerHistory)
      → I h
      → ((i : ComputeInstance)
          → env.instance_read (HandlerRequest.get_instance id ∷ h) ≡ found i
          → Q i)
      → Stays Q (get_raw env id h)
  unfolding get_raw
  get_raw-Stays Q id h at known =
      reading (env.instance_read (HandlerRequest.get_instance id ∷ h)) refl
        (keeps (HandlerRequest.get_instance id) h refl at)
    where
      reading :
          (answer : Lookup ComputeInstance)
          → env.instance_read (HandlerRequest.get_instance id ∷ h) ≡ answer
          → I (HandlerRequest.get_instance id ∷ h)
          → Stays Q (
              bind
                (read_or_fail env answer, HandlerRequest.get_instance id ∷ h)
                λ i. λ t. bind (allow env Operation.read i, t) λ _. λ u. (ok i, u))
      reading missing e at' = at'
      reading (broken x) e at' = at'
      reading (found i) e at' =
          bind-Quiet I Trivial Q (allow env Operation.read i, HandlerRequest.get_instance id ∷ h) _
            (check-Quiet I (allow env Operation.read i) _ at') λ _ t at'' _. (at'', known i e)

  flavors-Stays :
      (organization region : String) (h : HandlerHistory)
      → I h
      → Stays (All λ f. P f.id f) (flavors env.base organization region h)
  unfolding flavors
  flavors-Stays organization region h at =
      let r = HandlerRequest.list_flavors organization region in
      lift-Quiet I (All λ f. P f.id f) (expect 200 (env.flavors (r ∷ h))) (r ∷ h)
        (keeps r h refl at)
        λ all e.
          let (c, reply) = expect-eq-ok 200 (env.flavors (r ∷ h)) all e in
          catalogue (r ∷ h) c all reply

  images-Stays :
      (organization region : String) (h : HandlerHistory)
      → I h
      → Stays (λ (_ : List Image). Unit {0}) (images env.base organization region h)
  unfolding images
  images-Stays organization region h at =
      let r = HandlerRequest.list_images organization region in
      bind-Quiet I Trivial Trivial (expect 200 (env.images (r ∷ h)), r ∷ h) _
        (check-Quiet I (expect 200 (env.images (r ∷ h))) (r ∷ h) (keeps r h refl at))
        λ _ t at' _. (at', tt)

  get_flavor-IsKnown :
      (all : List Flavor) (id : String) {f : Flavor}
      → All (λ f. P f.id f) all
      → get_flavor all id ≡ ok f
      → P id f
  unfolding get_flavor
  get_flavor-IsKnown all id {f} h e = elim (Option-cases (find (λ (g : Flavor). g.id == id) all)) [
    | inl missing_ ↦ let absurd_ : err invalid_request ≡ ok f = rw (missing_, get_flavor) at e in cc
    | inr (g, hit) ↦
        let same : ok g ≡ ok f = rw (hit, get_flavor) at e in
        let counted = find-All (λ g. P g.id g) (λ g. g.id == id) all {x = g} h hit in
        let named = ==_sound g.id id (find-passes (λ (g : Flavor). g.id == id) all {x = g} hit) in
        rw (← named) (subst (λ x. P g.id x) (cc) counted)
  ]

  pub check_flavor_and_image-Stays :
      (organization region flavor_id image_id : String) (h : HandlerHistory)
      → I h
      → Stays
          (λ p. P flavor_id p.0)
          (check_flavor_and_image env organization region flavor_id image_id h)
  unfolding check_flavor_and_image
  check_flavor_and_image-Stays organization region flavor_id image_id h at =
      bind-Quiet I (All λ f. P f.id f) _ (flavors env.base organization region h) _
        (flavors-Stays organization region h at)
        λ offered t at' known.
          bind-Quiet I (λ f. P flavor_id f) _ (get_flavor offered flavor_id, t) _
            (lift-Quiet I (λ f. P flavor_id f) (get_flavor offered flavor_id) t at'
              λ f e. get_flavor-IsKnown offered flavor_id {f = f} known e)
            λ flavor t at' counted.
              bind-Quiet I Trivial _ (images env.base organization region t) _
                (images-Stays organization region t at')
                λ shown t at' _.
                  bind-Quiet I Trivial _ (get_image shown image_id, t) _
                    (check-Quiet I (get_image shown image_id) t at')
                    λ image t at' _.
                      lift-Quiet I _ (validate flavor image) t at'
                        λ p e. rw (validate-eq-ok flavor p.0 image p.1 e) counted

  check_groups-Stays :
      (ids : List String) (h : HandlerHistory) → I h → Stays Trivial (check_groups env ids h)
  unfolding check_groups get_security_group
  check_groups-Stays [] h at = (at, tt)
  check_groups-Stays (id ∷ ids) h at =
      let r = HandlerRequest.get_security_group id in
      bind-Quiet I Trivial Trivial (expect 200 (env.security_group (r ∷ h)), r ∷ h) _
        (check-Quiet I (expect 200 (env.security_group (r ∷ h))) (r ∷ h) (keeps r h refl at))
        λ _ t at' _. check_groups-Stays ids t at'

  pub validate_security_groups-Stays :
      (networking : Option InstanceNetworking) (h : HandlerHistory)
      → I h
      → Stays Trivial (validate_security_groups env networking h)
  unfolding validate_security_groups
  validate_security_groups-Stays none h at = (at, tt)
  validate_security_groups-Stays (some net) h at =
      check_groups-Stays (list_or_nil net.security_groups) h at

  pub inject_user_principal-Stays :
      (organization project : String) (h : HandlerHistory)
      → I h
      → Stays Trivial (inject_user_principal env organization project h)
  unfolding inject_user_principal
  inject_user_principal-Stays organization project h at =
      bind-Quiet I Trivial Trivial (env.principal h, h) _ (check-Quiet I (env.principal h) h at)
        λ principal t at' _.
          let r = HandlerRequest.set_principal (inject principal organization project) in
          let kept = keeps r t refl at' in (kept, tt)

  pub get_network-Stays :
      (id : String) (h : HandlerHistory)
      → I h
      → Stays (λ (_ : NetworkV2Read). Unit {0}) (get_network env id h)
  unfolding get_network
  get_network-Stays id h at =
      let r = HandlerRequest.get_network id in
      check-Quiet I (expect 200 (env.network (r ∷ h))) (r ∷ h) (keeps r h refl at)

  pub is_instance_name_in_use-Stays :
      (organization project network name : String) (h : HandlerHistory)
      → I h
      → Stays Trivial (is_instance_name_in_use env organization project network name h)
  unfolding is_instance_name_in_use
  is_instance_name_in_use-Stays organization project network name h at =
      let r = HandlerRequest.list_instances (on_network env organization project network) in
      bind-Quiet I Trivial Trivial (env.instances (r ∷ h), r ∷ h) _
        (check-Quiet I (env.instances (r ∷ h)) (r ∷ h) (keeps r h refl at))
        λ all t at' _. elim (Bool-cases (any (has_name env name) all)) [
          | inl used ↦ rw used at'
          | inr free ↦ rw free (at', tt)
        ]

  -- What `generate` makes, if the metadata that it builds satisfies `R`.
  pub generate-Stays :
      (R : ObjectMeta → Type 0) (request : InstanceUpdate)
      (organization project region network : String) (h : HandlerHistory)
      → I h
      → ((t : HandlerHistory) (meta : ObjectMeta)
          → I t
          → env.metadata.set_identity
              (build_metadata env t request organization project region network)
            ≡ ok meta
          → R meta)
      → Stays
          (λ i.
            R (record { name = i.name; labels = i.labels; annotations = i.annotations })
            × (i.spec.flavor_id ≡ request.spec.flavor_id)
            × (i.spec.image_id ≡ request.spec.image_id))
          (generate env request organization project region network h)
  unfolding generate
  generate-Stays R request organization project region network h at holds =
      bind-Quiet I Trivial _ (generate_networking env.parse request.spec.networking, h) _
        (check-Quiet I (generate_networking env.parse request.spec.networking) h at)
        λ networking t at' _.
          bind-Quiet I Trivial _ (inject_user_principal env organization project t) _
            (inject_user_principal-Stays organization project t at')
            λ _ u at'' _.
              let built = build_metadata env t request organization project region network in
              bind-Quiet I R _ (env.metadata.set_identity built, u) _
                (lift-Quiet I R (env.metadata.set_identity built) u at''
                  λ meta e. holds t meta at' e)
                λ meta u at'' p. (at'', (p, refl, refl))

  pub server_of-Stays :
      (id : String) (h : HandlerHistory) → I h → Stays Trivial (server_of env id h)
  unfolding server_of server_id
  server_of-Stays id h at =
      bind-Quiet I Trivial Trivial (get_raw env id h) _ (get_raw-Stays Trivial id h at λ _ _. tt)
        λ i t at' _.
          let r = HandlerRequest.list_servers_v2 (search_params env i) in
          bind-Quiet I Trivial Trivial (expect 200 (env.servers_v2 (r ∷ t)), r ∷ t) _
            (check-Quiet I (expect 200 (env.servers_v2 (r ∷ t))) (r ∷ t) (keeps r t refl at'))
            λ servers u at'' _. check-Quiet I (the_one env servers) u at''
