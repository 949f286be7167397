-- ===== src/Status/Health.antt =====
-- The overall health of a cluster against the health of its servers.
use uni_compute.Base.{◌≡◌, refl, List, [], ◌∷◌, if◌then◌else◌, arith}
use uni_compute.External.Core.{ResourceHealthStatus, health_eq}
use uni_compute.External.Region.{ServerRead}
use uni_compute.Status.{every_func, server_health_status_match, overall_health}

every_func-eq :
    (servers : List ServerRead) (a b : ResourceHealthStatus)
    → a ≡ b
    → every_func servers (server_health_status_match a)
      ≡ every_func servers (server_health_status_match b)
every_func-eq servers a b e = rw e

-- No servers at all count as healthy. Otherwise the cluster has the health that all its servers
-- share, and is degraded where they differ.
pub overall_health_lem :
    (server : ServerRead) (servers : List ServerRead)
    → (overall_health [] ≡ ResourceHealthStatus.healthy)
      × (overall_health (server ∷ servers) ≡ (
          if every_func servers (server_health_status_match server.health_status)
          then server.health_status
          else ResourceHealthStatus.degraded))
unfolding overall_health every_func
overall_health_lem server servers =
    let h = server.health_status in
    (
      refl,
      ground (
        arith,
        every_func-eq servers h ResourceHealthStatus.healthy,
        every_func-eq servers h ResourceHealthStatus.error,
        every_func-eq servers h ResourceHealthStatus.unknown,
      ),
    )
