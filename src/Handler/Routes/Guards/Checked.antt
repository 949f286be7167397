-- ===== src/Handler/Routes/Guards/Checked.antt =====
-- How routes and handlers are taken apart for what they may write: reads, a check of access, and the
-- rest.
use uni_compute.Base.{ℕ, ◌≡◌, refl, String, Option, ◌∷◌, ◌⊎◌, inl, inr}
use uni_compute.Base.Dict.{lookup_or}
use uni_compute.Base.Result.{Result, ok, err, panic, invalid_request}
use uni_compute.Base.State.{Comp, bind, pure, fail}
use uni_compute.External.Core.{Conditions}
use uni_compute.External.Catalog.{HandlerRequest, HandlerHistory}
use uni_compute.External.Handlers.{ApiEnv, Operation}
use uni_compute.OpenApi.{InstanceCreate, InstanceUpdate, ClusterV2Create, ClusterV2Update}
use uni_compute.Cluster.State.{expect}
use uni_compute.Handler.Client.{get_cluster}
use uni_compute.Handler.Runs.{Quiet, bind-Quiet, bind-Ends, either_way}
use uni_compute.Handler.Instances.Client
use uni_compute.Handler.Instances.Client.{instances_endpoint, server_of}
use uni_compute.Handler.Instances.Write
use uni_compute.Handler.Clusters
use uni_compute.Handler.ClustersV2
use uni_compute.Handler.ClustersV2.{clusters_endpoint}
use uni_compute.Handler.Routes.{Response, get_cluster_route}
use uni_compute.Handler.Routes.Guards.{Endpoint, is_write, MayDo, MayDoCluster, MayWrite}
use uni_compute.Handler.Routes.Guards.Reads.{
  Anything, OnlyRead, Reads, one_read, then_Reads, if_Reads, lifted, Reads-end, get_cluster-Reads,
  MayRead, MayReadCluster, get_raw-Reads, server_of-Reads, get_raw_v2-Reads,
}

-- `P` is what allows the writes.
module _ (env : ApiEnv) (start : HandlerHistory) (P : Type 0) where
  -- Either nothing was written after `start`, or the user may do so.
  abbrev pub IsAllowed : HandlerHistory → Type 0
  IsAllowed t = OnlyRead env start t ⊎ P

  -- A step that only reads, and what follows.
  pub after_reading :
      {A B : Type 0} (Q : A → Type 0) (m : Result A × HandlerHistory)
      (f : A → Comp HandlerHistory B)
      → Quiet (OnlyRead env start) Q m
      → ((a : A) (t : HandlerHistory) → OnlyRead env start t → Q a → IsAllowed (f a t).1)
      → IsAllowed (bind m f).1
  after_reading Q m f q k = bind-Ends (OnlyRead env start) Q IsAllowed m f (λ t o. inl o) q k

  -- A check of the access that `P` needs, and anything that follows.
  pub after_check :
      {B : Type 0} (x : Result Unit) (t : HandlerHistory) (f : Unit {0} → Comp HandlerHistory B)
      → OnlyRead env start t
      → (x ≡ ok tt → P)
      → IsAllowed (bind (x, t) f).1
  after_check (ok _) t f o may = inr (may refl)
  after_check (err _) t f o may = inl o
  after_check panic t f o may = inl o

  -- A body that is read first.
  pub after_body :
      {A B : Type 0} (body : Result A) (f : A → Comp HandlerHistory B)
      → ((a : A) → body ≡ ok a → IsAllowed (f a start).1)
      → IsAllowed (bind (body, start) f).1
  after_body (ok a) f k = k a refl
  after_body (err _) f k = inl refl
  after_body panic f k = inl refl

  -- A handler, and the response that is made of its result.
  pub responding :
      {A : Type 0} (m : Result A × HandlerHistory) (f : A → Response)
      → IsAllowed m.1
      → IsAllowed (bind m (λ a. λ t. (ok (f a), t))).1
  responding (ok a, t) f e = e
  responding (err _, t) f e = e
  responding (panic, t) f e = e

module _ (env : ApiEnv) (h : HandlerHistory) where
  abbrev pub Guarded : {A : Type 0} → Type 0 → Result A × HandlerHistory → Type 0
  Guarded P m = IsAllowed env h P m.1

  -- What begins with the check on the URL of version 1.
  pub checked_first :
      {B : Type 0} (x : Result Unit) (f : Unit {0} → Comp HandlerHistory B)
      → Guarded (x ≡ ok tt) (bind (x, h) f)
  checked_first x f = after_check env h (x ≡ ok tt) x h f refl λ e. e

  pub create-Guarded :
      (body : Result InstanceCreate) (request : InstanceCreate)
      → body ≡ ok request
      → Guarded (MayWrite env (Endpoint.create_instance body) h) (Write.create env request h)
  unfolding Write.create
  create-Guarded body request e =
      after_check env h _
        (env.allow_create h instances_endpoint request.spec.organization_id request.spec.project_id)
        h _ refl λ a. (request, e, a)

  pub update-Guarded :
      (id : String) (request : InstanceUpdate)
      → Guarded (MayDo env Operation.update id h) (Write.update env id request h)
  unfolding Write.update
  update-Guarded id request =
      after_reading env h (MayDo env Operation.update id h) (MayRead env h id)
        (Client.get_raw env id h) _ (get_raw-Reads env h id)
        λ i t o may.
          after_check env h (MayDo env Operation.update id h) (Client.allow env Operation.update i)
            t _ o λ e. (i, may.0, may.1, e)

  pub delete_instance-Guarded :
      (id : String) → Guarded (MayDo env Operation.delete id h) (Client.delete_instance env id h)
  unfolding Client.delete_instance
  delete_instance-Guarded id =
      after_reading env h (MayDo env Operation.delete id h) (MayRead env h id)
        (Client.get_raw env id h) _ (get_raw-Reads env h id)
        λ i t o may.
          either_way (IsAllowed env h (MayDo env Operation.delete id h)) i.deleting (pure tt) _ t
            (inl o)
            (after_check env h (MayDo env Operation.delete id h)
              (Client.allow env Operation.delete i) t _ o λ e. (i, may.0, may.1, e))

  -- What begins with the server of an instance.
  pub on_server :
      {B : Type 0} (id : String) (f : String → Comp HandlerHistory B)
      → Guarded (MayDo env Operation.read id h) (bind (server_of env id h) f)
  on_server id f =
      after_reading env h (MayDo env Operation.read id h) _ (server_of env id h) f
        (server_of-Reads env h id)
        λ server t o may. let (i, (read, allowed)) = may in inr (i, read, allowed, allowed)

  pub create_v2-Guarded :
      (body : Result ClusterV2Create) (request : ClusterV2Create)
      → body ≡ ok request
      → Guarded (MayWrite env (Endpoint.create_cluster_v2 body) h) (ClustersV2.create env request h)
  unfolding ClustersV2.create
  create_v2-Guarded body request e =
      after_check env h _
        (env.allow_create h clusters_endpoint request.organization_id request.project_id) h _ refl
        λ a. (request, e, a)

  pub update_v2-Guarded :
      (id : String) (request : ClusterV2Update)
      → Guarded (MayDoCluster env Operation.update id h) (ClustersV2.update env id request h)
  unfolding ClustersV2.update
  update_v2-Guarded id request =
      after_reading env h (MayDoCluster env Operation.update id h) (MayReadCluster env h id)
        (ClustersV2.get_raw env id h) _ (get_raw_v2-Reads env h id)
        λ c t o may.
          after_check env h (MayDoCluster env Operation.update id h)
            (ClustersV2.allow env Operation.update c) t _ o λ e. (c, may.0, may.1, e)

  pub delete_v2-Guarded :
      (id : String)
      → Guarded (MayDoCluster env Operation.delete id h) (ClustersV2.delete_cluster env id h)
  unfolding ClustersV2.delete_cluster
  delete_v2-Guarded id =
      after_reading env h (MayDoCluster env Operation.delete id h) (MayReadCluster env h id)
        (ClustersV2.get_raw env id h) _ (get_raw_v2-Reads env h id)
        λ c t o may.
          either_way (IsAllowed env h (MayDoCluster env Operation.delete id h)) c.deleting (pure tt)
            _ t (inl o)
            (after_check env h (MayDoCluster env Operation.delete id h)
              (ClustersV2.allow env Operation.delete c) t _ o λ e. (c, may.0, may.1, e))

  pub session-Reads :
      (conditions : Conditions) (o p id machine : String)
      → Reads env h (Clusters.create_console_session env conditions o p id machine h)
  unfolding Clusters.create_console_session Clusters.session_of is_write
  session-Reads conditions o p id machine =
      then_Reads env h (get_cluster env.base o p id h) _ (get_cluster-Reads env h o p id h refl)
        λ cluster t u.
          let r =
            HandlerRequest.get_console_session o p
              (lookup_or "" env.identity_annotation cluster.annotations) machine in
          if_Reads env h cluster.deleting (fail invalid_request) _ t u
            (one_read env h r (expect 200 (env.text (r ∷ t))) t refl u)

  pub output-Reads :
      (conditions : Conditions) (o p id machine : String) (n : Option ℕ)
      → Reads env h (Clusters.get_console_output env conditions o p id machine n h)
  unfolding Clusters.get_console_output Clusters.output_of is_write
  output-Reads conditions o p id machine n =
      then_Reads env h (get_cluster env.base o p id h) _ (get_cluster-Reads env h o p id h refl)
        λ cluster t u.
          let r =
            HandlerRequest.get_console_output o p
              (lookup_or "" env.identity_annotation cluster.annotations) machine n in
          if_Reads env h cluster.deleting (fail invalid_request) _ t u
            (one_read env h r (expect 200 (env.text (r ∷ t))) t refl u)

  pub show-Reads :
      (c : Conditions) (o p id : String) → Reads env h (get_cluster_route env c o p id h)
  unfolding get_cluster_route Clusters.show_cluster
  show-Reads c o p id =
      then_Reads env h (Clusters.show_cluster env c o p id h) _
        (then_Reads env h (get_cluster env.base o p id h) _ (get_cluster-Reads env h o p id h refl)
          λ _ _ u. (u, tt))
        λ r t u.
          lifted env h (env.allow clusters_endpoint Operation.read o r.project_id) t _ u
            λ _. (u, tt)

  pub show_instance-Reads : (id : String) → Reads env h (Client.get_instance env id h)
  unfolding Client.get_instance
  show_instance-Reads id =
      bind-Quiet (OnlyRead env h) (MayRead env h id) Anything (Client.get_raw env id h) _
        (get_raw-Reads env h id) λ _ _ u _. (u, tt)

  pub show_v2-Reads : (id : String) → Reads env h (ClustersV2.get_cluster env id h)
  unfolding ClustersV2.get_cluster
  show_v2-Reads id =
      bind-Quiet (OnlyRead env h) (MayReadCluster env h id) Anything (ClustersV2.get_raw env id h) _
        (get_raw_v2-Reads env h id) λ _ _ u _. (u, tt)

  -- A route that only reads, and one that does so after a check.
  pub looking :
      {A : Type 0} {P : Type 0} (m : Result A × HandlerHistory) (g : A → Response)
      → Reads env h m
      → Guarded P (bind m λ a. λ t. (ok (g a), t))
  looking {P = P} m g q = responding env h P m g (inl (Reads-end env h m q))

  pub looking_if_allowed :
      {A : Type 0} (P : Type 0) (x : Result Unit) (f : Unit {0} → Comp HandlerHistory A)
      (g : A → Response)
      → Reads env h (f tt h)
      → Guarded P (bind (x, h) λ u. λ t. bind (f u t) λ a. λ s. (ok (g a), s))
  looking_if_allowed P (ok _) f g q =
      responding env h P (f tt h) g (inl (Reads-end env h (f tt h) q))
  looking_if_allowed P (err _) f g q = inl refl
  looking_if_allowed P panic f g q = inl refl
