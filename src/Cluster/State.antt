-- ===== src/Cluster/State.antt =====
-- What a reconcile of a cluster reads and changes: the provisioner's cluster, the set of servers
-- that `Provision` holds for its status update, and the requests that it sends.
use uni_compute.Base.{ℕ, suc, ◌∷◌, String, if◌then◌else◌, eqb}
use uni_compute.Base.Dict.{Dict, lookup_or}
use uni_compute.Base.Result.{Result, ok, err, transport, api_status}
use uni_compute.Base.State.{Comp}
use uni_compute.External.Region.{ServerRead}
use uni_compute.External.Env.{Env, Scope, Request, History, Reply, failed, replied}
use uni_compute.Api.{ComputeCluster}

pub record State : Type 0 where
  pub cluster : ComputeCluster
  pub servers : Dict ServerRead
  pub sent : History
  pub draws : ℕ

-- A request, and its reply.
abbrev pub call : {A : Type 0} → Request → (History → Reply A) → Comp State (Reply A)
call request answer s = (ok (answer (request ∷ s.sent)), record s { sent = request ∷ s.sent })

-- The body of a reply with the expected code; `PropagateError` for any other.
abbrev pub expect : {A : Type 0} → ℕ → Reply A → Result A
expect code (failed e) = err (transport e)
expect code (replied status a) = if eqb status code then ok a else err (api_status status)

-- The deletion of something: accepted, or not there any more.
abbrev pub expect_gone : Reply (Unit {0}) → Result (Unit {0})
expect_gone (failed e) = err (transport e)
expect_gone (replied status _) =
    if eqb status 404 then ok tt else if eqb status 202 then ok tt else err (api_status status)

module _ (env : Env) where
  abbrev pub scope : ComputeCluster → Scope
  scope cluster = record {
    organization = lookup_or "" env.organization_label cluster.labels;
    project = lookup_or "" env.project_label cluster.labels;
    identity = lookup_or "" env.identity_annotation cluster.annotations;
  }

  -- `rand.String(6)`
  abbrev pub draw : Comp State String
  draw s = (ok (env.suffix s.draws), record s { draws = suc s.draws })
