-- ===== src/Handler/Instances/Servers.antt =====
-- Which server an operation of the instance handler's client.go acts on.
use uni_compute.Base.{ℕ, ◌≡◌, refl, sym, ap, String, List, [], ◌∷◌, arith, string_eq}
use uni_compute.Base.Result.{ok}
use uni_compute.Base.State.{bind-eq-ok}
use uni_compute.External.Env.{Reply, failed, replied}
use uni_compute.External.RegionV2.{ServerV2Read, EnvV2}
use uni_compute.External.Catalog.{
  HandlerRequest, HandlerHistory, ServerAction, Lookup, found, missing, broken,
}
use uni_compute.External.Handlers.{ApiEnv, Operation}
use uni_compute.Api.{ComputeInstance}
use uni_compute.Cluster.State.{expect}
use uni_compute.Instance.Client.{servers_params}
use uni_compute.Handler.Instances.Client.{
  allow, read_or_fail, get_raw, search_params, the_one, server_id, server_of, act_on_instance,
}

-- The handler and the instance controller use the same labels.
pub record HasLabelsOf (env : ApiEnv) (controller : EnvV2) : Type 0 where
  pub organization : env.metadata.organization_label ≡ controller.organization_label
  pub project : env.metadata.project_label ≡ controller.project_label
  pub region : env.region_label ≡ controller.region_label
  pub network : env.network_label ≡ controller.network_label

-- What was sent up to `t` is a read of the instance, the query of its servers that the controller
-- makes, and the action on the one server that was found.
pub record ActsOnServer (env : ApiEnv) (controller : EnvV2) (action : ServerAction) (id : String)
    (h t : HandlerHistory) : Type 0 where
  pub instance_ : ComputeInstance
  pub server : ServerV2Read
  pub is_read : env.instance_read (HandlerRequest.get_instance id ∷ h) ≡ found instance_
  pub is_allowed : allow env Operation.read instance_ ≡ ok tt
  pub is_only :
      env.servers_v2 (
        HandlerRequest.list_servers_v2 (servers_params controller instance_)
        ∷ HandlerRequest.get_instance id
        ∷ h)
      ≡ replied 200 (server ∷ [])
  pub is_sent :
      t
      ≡ HandlerRequest.act_on_server_v2 action server.id
        ∷ HandlerRequest.list_servers_v2 (servers_params controller instance_)
        ∷ HandlerRequest.get_instance id
        ∷ h

search_params-eq-servers_params :
    (env : ApiEnv) (controller : EnvV2) (i : ComputeInstance)
    → HasLabelsOf env controller
    → search_params env i ≡ servers_params controller i
search_params-eq-servers_params env controller i same =
    rw (same.organization, same.project, same.region, same.network) refl

read_or_fail-eq-ok :
    (env : ApiEnv) (answer : Lookup ComputeInstance) (i : ComputeInstance)
    → read_or_fail env answer ≡ ok i
    → answer ≡ found i
read_or_fail-eq-ok env missing i e = cc
read_or_fail-eq-ok env (broken x) i e = cc
read_or_fail-eq-ok env (found j) i e = cc

the_one-eq-ok :
    (env : ApiEnv) (servers : List ServerV2Read) (id : String)
    → the_one env servers ≡ ok id
    → (server : ServerV2Read) × (servers ≡ server ∷ []) × (server.id ≡ id)
the_one-eq-ok env [] id e = cc
the_one-eq-ok env (server ∷ []) id e = (server, refl, cc)
the_one-eq-ok env (_ ∷ _ ∷ _) id e = cc

expect-eq-ok :
    {A : Type 0} (code : ℕ) (reply : Reply A) (a : A)
    → expect code reply ≡ ok a
    → reply ≡ replied code a
expect-eq-ok code (failed e) a h = cc
expect-eq-ok code (replied c b) a h = ground (arith, h)

module _ (env : ApiEnv) where
  get_raw-eq-ok :
      (id : String) (h t : HandlerHistory) (i : ComputeInstance)
      → get_raw env id h ≡ (ok i, t)
      → (env.instance_read (HandlerRequest.get_instance id ∷ h) ≡ found i)
        × (allow env Operation.read i ≡ ok tt)
        × (t ≡ HandlerRequest.get_instance id ∷ h)
  unfolding get_raw
  get_raw-eq-ok id h t i e =
      let r = HandlerRequest.get_instance id in
      let (j, read, rest) = bind-eq-ok (read_or_fail env (env.instance_read (r ∷ h)), r ∷ h) _ e in
      let (u, allowed, last) = bind-eq-ok (allow env Operation.read j, r ∷ h) _ rest in
      let found_ = read_or_fail-eq-ok env (env.instance_read (r ∷ h)) j (ap (λ p. p.0) read) in
      let same : j ≡ i = cc (ap (λ p. p.0) last) in
      (rw (← same) found_, rw (← same) (ap (λ p. p.0) allowed), sym (ap (λ p. p.1) last))

  -- Where an operation on the server of an instance succeeds, it read the instance, the user may read
  -- it, and the query that the instance controller makes for the same instance found exactly one
  -- server; the action was asked of that server, and nothing else was sent. The controller and the
  -- handler use the same label names.
  pub act_on_instance-ActsOnServer :
      (controller : EnvV2)
      → HasLabelsOf env controller
      → (action : ServerAction) (id : String) (h t : HandlerHistory)
      → act_on_instance env action id h ≡ (ok tt, t)
      → ActsOnServer env controller action id h t
  unfolding act_on_instance server_of server_id
  act_on_instance-ActsOnServer controller same action id h t e =
      let (sid, found_, acted) = bind-eq-ok (server_of env id h) _ e in
      let (i, read, searched) = bind-eq-ok (get_raw env id h) _ found_ in
      let got = get_raw-eq-ok id h (get_raw env id h).1 i read in
      let q = HandlerRequest.list_servers_v2 (search_params env i) in
      let g = (get_raw env id h).1 in
      let (servers, listed, chosen_) =
        bind-eq-ok (expect 200 (env.servers_v2 (q ∷ g)), q ∷ g) _ searched in
      let reply = expect-eq-ok 200 (env.servers_v2 (q ∷ g)) servers (ap (λ p. p.0) listed) in
      let (server, only, named) = the_one-eq-ok env servers sid (ap (λ p. p.0) chosen_) in
      let params = search_params-eq-servers_params env controller i same in
      let before : (server_of env id h).1 ≡ q ∷ g = sym (ap (λ p. p.1) chosen_) in
      record {
        instance_ = i;
        server = server;
        is_read = got.0;
        is_allowed = got.1;
        is_only = rw (← params, ← got.2) (rw (← only) reply);
        is_sent = rw (← params, ← got.2, ← before, named) (sym (ap (λ p. p.1) acted));
      }
