-- ===== src/Handler/Routes/Guards/Reads.antt =====
-- The parts of the handlers that only read: they leave the writes of a history as they are.
use uni_compute.Base.{
  ◌≡◌, refl, ap, String, Bool, true, false, Option, List, [], ◌∷◌, string_eq, if◌then◌else◌,
}
use uni_compute.Base.Result.{Result, ok, err, panic}
use uni_compute.Base.State.{Comp, bind}
use uni_compute.External.Core.{Conditions}
use uni_compute.External.Catalog.{HandlerRequest, HandlerHistory, Lookup, found, missing, broken}
use uni_compute.External.Handlers.{ApiEnv, Operation}
use uni_compute.Api.{ComputeCluster, ComputeInstance}
use uni_compute.OpenApi.{ListParams}
use uni_compute.External.Env.{Reply}
use uni_compute.Cluster.State.{expect}
use uni_compute.Handler.Client.{regions, flavors, images, get_cluster, checked}
use uni_compute.Handler.Services.{id_query, add_region_id_query, add_network_id_query}
use uni_compute.Handler.Runs.{Quiet, bind-Quiet, check-Quiet, lift-Quiet}
use uni_compute.Handler.Instances.Client
use uni_compute.Handler.Instances.Client.{server_id, search_params, the_one, read_or_fail}
use uni_compute.Handler.Clusters
use uni_compute.Handler.ClustersV2
use uni_compute.Base.Dict.{lookup}
use uni_compute.Base.Result.{>>=-eq-ok}
use uni_compute.External.Catalog.{among}
use uni_compute.Cluster.Provision.{resource_api_version_label}
use uni_compute.Handler.ClustersV2.{check_version, version_two}
use uni_compute.Handler.Routes.Guards.{is_write, writes}

abbrev pub Anything : {A : Type 0} → A → Type 0
Anything _ = Unit

module _ (env : ApiEnv) (start : HandlerHistory) where
  -- Nothing but reads came after `start`.
  abbrev pub OnlyRead : HandlerHistory → Type 0
  OnlyRead t = writes t ≡ writes start

  pub read-OnlyRead :
      (r : HandlerRequest) (t : HandlerHistory) → is_write r ≡ false → OnlyRead t → OnlyRead (r ∷ t)
  unfolding writes
  read-OnlyRead r t quiet o = rw quiet o

  abbrev pub Reads : {A : Type 0} → Result A × HandlerHistory → Type 0
  Reads m = Quiet OnlyRead Anything m

  -- A read and what is made of its answer.
  pub one_read :
      {A : Type 0} (r : HandlerRequest) (x : Result A) (t : HandlerHistory)
      → is_write r ≡ false
      → OnlyRead t
      → Reads (x, r ∷ t)
  one_read r x t quiet o = check-Quiet OnlyRead x (r ∷ t) (read-OnlyRead r t quiet o)

  pub then_Reads :
      {A B : Type 0} (m : Result A × HandlerHistory) (f : A → Comp HandlerHistory B)
      → Reads m
      → ((a : A) (t : HandlerHistory) → OnlyRead t → Reads (f a t))
      → Reads (bind m f)
  then_Reads m f q k = bind-Quiet OnlyRead Anything Anything m f q λ a t o _. k a t o

  pub lifted :
      {A B : Type 0} (x : Result A) (t : HandlerHistory) (f : A → Comp HandlerHistory B)
      → OnlyRead t
      → ((a : A) → Reads (f a t))
      → Reads (bind (x, t) f)
  lifted (ok a) t f o k = k a
  lifted (err e) t f o k = o
  lifted panic t f o k = o

  pub if_Reads :
      {A : Type 0} (b : Bool) (m k : Comp HandlerHistory A) (t : HandlerHistory)
      → Reads (m t)
      → Reads (k t)
      → Reads ((if b then m else k) t)
  if_Reads true m k t p q = p
  if_Reads false m k t p q = q

  pub Reads-end : {A : Type 0} (m : Result A × HandlerHistory) → Reads m → OnlyRead m.1
  Reads-end (ok a, t) q = q.0
  Reads-end (err e, t) q = q
  Reads-end (panic, t) q = q

  pub regions-Reads :
      (organization : String) (t : HandlerHistory)
      → OnlyRead t
      → Reads (regions env.base organization t)
  unfolding regions is_write
  regions-Reads organization t o =
      let r = HandlerRequest.list_regions organization in
      lifted (expect 200 (env.regions (r ∷ t))) (r ∷ t) _ (read-OnlyRead r t refl o)
        λ _. (read-OnlyRead r t refl o, tt)

  pub flavors-Reads :
      (organization region : String) (t : HandlerHistory)
      → OnlyRead t
      → Reads (flavors env.base organization region t)
  unfolding flavors is_write
  flavors-Reads organization region t o =
      let r = HandlerRequest.list_flavors organization region in
      one_read r (expect 200 (env.flavors (r ∷ t))) t refl o

  pub images-Reads :
      (organization region : String) (t : HandlerHistory)
      → OnlyRead t
      → Reads (images env.base organization region t)
  unfolding images is_write
  images-Reads organization region t o =
      let r = HandlerRequest.list_images organization region in
      lifted (expect 200 (env.images (r ∷ t))) (r ∷ t) _ (read-OnlyRead r t refl o)
        λ _. (read-OnlyRead r t refl o, tt)

  pub get_cluster-Reads :
      (organization project id : String) (t : HandlerHistory)
      → OnlyRead t
      → Reads (get_cluster env.base organization project id t)
  unfolding get_cluster is_write
  get_cluster-Reads organization project id t o =
      let r = HandlerRequest.get_cluster id in
      one_read r (checked env.base organization project (env.cluster (r ∷ t))) t refl o

  -- The listings: selectors, the read, and what is made of the answer.
  pub list_clusters-Reads :
      (conditions : Conditions) (organization : String) (tag : Option (List String))
      → Reads (Clusters.list_clusters env conditions organization tag start)
  unfolding Clusters.list_clusters is_write
  list_clusters-Reads conditions organization tag =
      let r = HandlerRequest.list_clusters _ in
      let o = read-OnlyRead r start refl refl in
      lifted (env.clusters (r ∷ start)) (r ∷ start) _ o
        λ _. lifted (env.decode_tags tag) (r ∷ start) _ o λ _. (o, tt)

  pub list_instances-Reads : (params : ListParams) → Reads (Client.list_instances env params start)
  unfolding Client.list_instances is_write
  list_instances-Reads params =
      lifted (env.add_scope [] (id_query params.organization_id) (id_query params.project_id)) start
        _ refl
        λ scoped. lifted (add_region_id_query env scoped params.region_id) start _ refl λ regional.
          lifted (add_network_id_query env regional params.network_id) start _ refl λ selector.
            let r = HandlerRequest.list_instances selector in
            let o = read-OnlyRead r start refl refl in
            lifted (env.instances (r ∷ start)) (r ∷ start) _ o
              λ _. lifted (env.decode_tags params.tag) (r ∷ start) _ o λ _. (o, tt)

  pub list_clusters_v2-Reads :
      (params : ListParams) → Reads (ClustersV2.list_clusters env params start)
  unfolding ClustersV2.list_clusters is_write
  list_clusters_v2-Reads params =
      lifted
        (env.add_scope (among resource_api_version_label (version_two ∷ []) ∷ [])
          (id_query params.organization_id) (id_query params.project_id))
        start _ refl
        λ scoped. lifted (add_region_id_query env scoped params.region_id) start _ refl λ regional.
          lifted (add_network_id_query env regional params.network_id) start _ refl λ selector.
            let r = HandlerRequest.list_clusters selector in
            let o = read-OnlyRead r start refl refl in
            lifted (env.clusters (r ∷ start)) (r ∷ start) _ o
              λ _. lifted (env.decode_tags params.tag) (r ∷ start) _ o λ _. (o, tt)

  -- What is known of an instance that was read, and of a version 2 cluster.
  abbrev pub MayRead : String → ComputeInstance → Type 0
  MayRead id i =
      (env.instance_read (HandlerRequest.get_instance id ∷ start) ≡ found i)
      × (Client.allow env Operation.read i ≡ ok tt)

  abbrev pub MayReadCluster : String → ComputeCluster → Type 0
  MayReadCluster id c =
      (env.cluster (HandlerRequest.get_cluster id ∷ start) ≡ found c)
      × (ClustersV2.allow env Operation.read c ≡ ok tt)

  pub get_raw-Reads : (id : String) → Quiet OnlyRead (MayRead id) (Client.get_raw env id start)
  unfolding Client.get_raw is_write
  get_raw-Reads id = reading (env.instance_read (HandlerRequest.get_instance id ∷ start)) refl
    where
      after : OnlyRead (HandlerRequest.get_instance id ∷ start)
      after = read-OnlyRead (HandlerRequest.get_instance id) start refl refl

      permitted :
          (i : ComputeInstance) (x : Result Unit)
          → env.instance_read (HandlerRequest.get_instance id ∷ start) ≡ found i
          → Client.allow env Operation.read i ≡ x
          → Quiet OnlyRead
              (MayRead id)
              (bind (x, HandlerRequest.get_instance id ∷ start) λ _. λ t. (ok i, t))
      permitted i (ok _) e a = (after, (e, a))
      permitted i (err _) e a = after
      permitted i panic e a = after

      reading :
          (answer : Lookup ComputeInstance)
          → env.instance_read (HandlerRequest.get_instance id ∷ start) ≡ answer
          → Quiet OnlyRead (MayRead id) (
              bind
                (read_or_fail env answer, HandlerRequest.get_instance id ∷ start)
                λ i. λ t. bind (Client.allow env Operation.read i, t) λ _. λ u. (ok i, u))
      reading missing e = after
      reading (broken x) e = after
      reading (found i) e = permitted i (Client.allow env Operation.read i) e refl

  pub server_of-Reads :
      (id : String)
      → Quiet OnlyRead
          (λ (_ : String). (i : ComputeInstance) × MayRead id i)
          (Client.server_of env id start)
  unfolding Client.server_of server_id is_write
  server_of-Reads id =
      let Q : String → Type 0 = λ _. (i : ComputeInstance) × MayRead id i in
      bind-Quiet OnlyRead (MayRead id) Q (Client.get_raw env id start) _ (get_raw-Reads id)
        λ i t o may.
          let r = HandlerRequest.list_servers_v2 (search_params env i) in
          bind-Quiet OnlyRead Anything Q (expect 200 (env.servers_v2 (r ∷ t)), r ∷ t) _
            (one_read r (expect 200 (env.servers_v2 (r ∷ t))) t refl o)
            λ servers u o _. lift-Quiet OnlyRead Q (the_one env servers) u o λ _ _. (i, may)

  pub get_raw_v2-Reads :
      (id : String) → Quiet OnlyRead (MayReadCluster id) (ClustersV2.get_raw env id start)
  unfolding ClustersV2.get_raw is_write
  get_raw_v2-Reads id =
      let r = HandlerRequest.get_cluster id in
      lift-Quiet OnlyRead (MayReadCluster id) (ClustersV2.check_raw env (env.cluster (r ∷ start)))
        (r ∷ start) (read-OnlyRead r start refl refl)
        λ c e. check_raw-eq-ok (env.cluster (r ∷ start)) c e
    where
      check_raw-eq-ok :
          (answer : Lookup ComputeCluster) (c : ComputeCluster)
          → ClustersV2.check_raw env answer ≡ ok c
          → (answer ≡ found c) × (ClustersV2.allow env Operation.read c ≡ ok tt)
      check_raw-eq-ok missing c e = cc
      check_raw-eq-ok (broken x) c e = cc
      check_raw-eq-ok (found d) c e =
          let (_, allowed, rest) = >>=-eq-ok (ClustersV2.allow env Operation.read d) _ e in
          let (_, _, last) =
            >>=-eq-ok (check_version (lookup resource_api_version_label d.labels)) (λ _. ok d)
              rest in
          let same : d ≡ c = cc last in (ap found same, rw (← same) allowed)

  -- A read of the server of an instance.
  pub server_read-Reads :
      {A : Type 0} (id : String) (r : String → HandlerRequest) (answer : HandlerHistory → Reply A)
      → ((server : String) → is_write (r server) ≡ false)
      → Reads (
          bind
            (Client.server_of env id start)
            λ server. λ t. (expect 200 (answer (r server ∷ t)), r server ∷ t))
  server_read-Reads id r answer quiet =
      bind-Quiet OnlyRead _ Anything (Client.server_of env id start) _ (server_of-Reads id)
        λ server t o _. one_read (r server) (expect 200 (answer (r server ∷ t))) t (quiet server) o
