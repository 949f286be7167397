-- ===== src/Handler/Services.antt =====
-- util.go of the handlers, and the rest of region.go: label queries, the principal of a request, and
-- reads of networks and security groups.
use uni_compute.Base.{String, Option, none, some, List, [], ◌∷◌, if◌then◌else◌, ◌==◌, string_eq}
use uni_compute.Base.Result.{Result, ok}
use uni_compute.Base.State.{◌>>=◌, lift, get, modify}
use uni_compute.External.Catalog.{Principal, Selector, HandlerRequest, HandlerHistory}
use uni_compute.External.Handlers.{ApiEnv, NetworkV2Read}
use uni_compute.Cluster.State.{expect}
use uni_compute.Handler.Client.{Handler}

-- `OrganizationIDQuery` and `ProjectIDQuery`
abbrev pub id_query : Option (List String) → List String
id_query none = []
id_query (some ids) = ids

-- `InjectUserPrincipal`, on the principal.
unfoldable pub inject : Principal → String → String → Principal
inject principal organization project =
    if principal.organization_id == ""
    then record { organization_id = organization; project_id = project }
    else principal

abbrev pub ask : {A : Type 0} → HandlerRequest → (HandlerHistory → A) → Handler A
ask request answer h = (ok (answer (request ∷ h)), request ∷ h)

module _ (env : ApiEnv) where
  -- `AddRegionIDQuery`
  abbrev pub add_region_id_query : Selector → Option (List String) → Result Selector
  add_region_id_query selector none = ok selector
  add_region_id_query selector (some ids) = env.add_query selector env.region_label ids

  -- `AddNetworkIDQuery`
  abbrev pub add_network_id_query : Selector → Option (List String) → Result Selector
  add_network_id_query selector none = ok selector
  add_network_id_query selector (some ids) = env.add_query selector env.network_label ids

  -- `InjectUserPrincipal`: the change of the principal is an event of the history, so that what is
  -- answered later may depend on it.
  unfoldable pub inject_user_principal : String → String → Handler (Unit {0})
  inject_user_principal organization project = do
    h ← get
    principal ← lift (env.principal h)
    modify (λ h. HandlerRequest.set_principal (inject principal organization project) ∷ h)

  -- `GetNetwork`
  unfoldable pub get_network : String → Handler NetworkV2Read
  get_network id = do
    reply ← ask (HandlerRequest.get_network id) env.network
    lift (expect 200 reply)

  -- `GetSecurityGroup`
  unfoldable pub get_security_group : String → Handler (Unit {0})
  get_security_group id = do
    reply ← ask (HandlerRequest.get_security_group id) env.security_group
    lift (expect 200 reply)
