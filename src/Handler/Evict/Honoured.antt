-- ===== src/Handler/Evict/Honoured.antt =====
-- What the provisioner makes of an eviction.
use uni_compute.Base.{◌+◌, ◌≡◌, String, Bool, List, ◌++◌, map, count, length, contains}
use uni_compute.Base.Dict.{values}
use uni_compute.External.Env.{Env, Request}
use uni_compute.External.Region.{ServerRead}
use uni_compute.Cluster.State.{State, scope}
use uni_compute.Cluster.ServerSet.{ServerSet}

-- From `s`, just the named servers of the set have gone: each server of the set is among those that
-- were removed or those that are kept, all that were removed are named and none that is kept is,
-- and the requests sent are the deletions of those that were removed.
pub record Honours (env : Env) (ids : List String) (set : ServerSet) (s : State) (kept : ServerSet)
    (t : State) : Type 0 where
  pub removed : List ServerRead
  pub partition :
      (p : ServerRead → Bool) → count p (values set) ≡ count p (values kept) + count p removed
  pub all_named : count (λ server. contains ids server.id) removed ≡ length removed
  pub none_left : count (λ server. contains ids server.id) (values kept) ≡ 0
  pub asked :
      t.sent
      ≡ map (λ server. Request.delete_server (scope env s.cluster) server.id) removed ++ s.sent
