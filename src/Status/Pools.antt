-- ===== src/Status/Pools.antt =====
-- The pool statuses that an update stores, against the servers that it was given.
use uni_compute.Base.{
  ℕ, ◌+◌, ◌≡◌, refl, String, Bool, false, List, [], ◌∷◌, ◌++◌, map, length, All, total, count,
  contains, Distinct, Distinct-append_one, Bool-cases, inl, inr, length-append, ◌==◌, string_eq,
  if◌then◌else◌, arith,
}
use uni_compute.Base.Result.{ok}
use uni_compute.External.Core.{Conditions}
use uni_compute.External.Region.{ServerRead}
use uni_compute.Api.{MachineStatus, WorkloadPoolStatus}
use uni_compute.Api.Accessors.{update_workload_pool_status}
use uni_compute.Status.{
  get_workload_pool_tag, machine_status, add_machine, update_server_status, update_server_statuses,
}

abbrev pub pool_names : List WorkloadPoolStatus → List String
pool_names = map λ p. p.name

-- Is the server tagged with the pool?
abbrev pub tagged : String → ServerRead → Bool
tagged name server = elim (get_workload_pool_tag server.tags) [ ok n ↦ n == name | _ ↦ false ]

abbrev pub IsTagged : ServerRead → Type 0
IsTagged server = (name : String) × (get_workload_pool_tag server.tags ≡ ok name)

abbrev pub replicas_if : String → WorkloadPoolStatus → ℕ
replicas_if name p = if p.name == name then p.replicas else 0

-- The replicas that the statuses of a name report together.
abbrev pub replicas_of : String → List WorkloadPoolStatus → ℕ
replicas_of name = total (replicas_if name)

-- A status reports as many replicas as it lists machines.
abbrev pub IsCounted : WorkloadPoolStatus → Type 0
IsCounted p = p.replicas ≡ length p.machines

module _ (machine : MachineStatus) where
  replicas_of-update :
      (pool name : String) (pools : List WorkloadPoolStatus)
      → replicas_of name (update_workload_pool_status pool (add_machine machine) pools)
        ≡ replicas_of name pools + (if pool == name then 1 else 0)
  unfolding update_workload_pool_status
  replicas_of-update pool name [] = ground arith
  replicas_of-update pool name (p ∷ pools) = ground (arith, replicas_of-update pool name pools)

  -- A name joins the names at the end, unless it is there.
  pool_names-update :
      (pool : String) (pools : List WorkloadPoolStatus)
      → pool_names (update_workload_pool_status pool (add_machine machine) pools) ≡ (
          if contains (pool_names pools) pool
          then pool_names pools
          else pool_names pools ++ (pool ∷ []))
  unfolding update_workload_pool_status
  pool_names-update pool [] = refl
  pool_names-update pool (p ∷ pools) = ground (arith, pool_names-update pool pools)

  update-Distinct :
      (pool : String) (pools : List WorkloadPoolStatus)
      → Distinct (pool_names pools)
      → Distinct (pool_names (update_workload_pool_status pool (add_machine machine) pools))
  update-Distinct pool pools d = elim (Bool-cases (contains (pool_names pools) pool)) [
    | inl e ↦ rw (pool_names-update pool pools, e) d
    | inr e ↦ rw (pool_names-update pool pools, e) (Distinct-append_one (pool_names pools) pool e d)
  ]

  update-IsCounted :
      (pool : String) (pools : List WorkloadPoolStatus)
      → All IsCounted pools
      → All IsCounted (update_workload_pool_status pool (add_machine machine) pools)
  unfolding update_workload_pool_status
  update-IsCounted pool [] h = (refl, tt)
  update-IsCounted pool (p ∷ pools) h =
      ground (arith, length-append p.machines (machine ∷ []), update-IsCounted pool pools h.1)

-- What holds of the statuses at any point of the loop.
pub record AreSound (pools : List WorkloadPoolStatus) : Type 0 where
  pub counted : All IsCounted pools
  pub distinct : Distinct (pool_names pools)

module _ (c : Conditions) where
  step-AreSound :
      (pool : String) (server : ServerRead) {pools : List WorkloadPoolStatus}
      → AreSound pools
      → AreSound (update_workload_pool_status pool (add_machine (machine_status c server)) pools)
  step-AreSound pool server {pools} h = record {
    counted = update-IsCounted (machine_status c server) pool pools h.counted;
    distinct = update-Distinct (machine_status c server) pool pools h.distinct;
  }

  -- The statuses after the loop has gone through tagged servers.
  unfoldable pub after : List WorkloadPoolStatus → List ServerRead → List WorkloadPoolStatus
  after pools servers = (update_server_statuses c pools servers).1

  -- Tagged servers are added one by one, and what follows them goes on from there.
  pub update_server_statuses-append :
      (servers rest : List ServerRead) (pools : List WorkloadPoolStatus)
      → All IsTagged servers
      → update_server_statuses c pools (servers ++ rest)
        ≡ update_server_statuses c (after pools servers) rest
  unfolding update_server_statuses update_server_status after
  update_server_statuses-append [] rest pools t = refl
  update_server_statuses-append (server ∷ servers) rest pools ((pool, e), t) =
      rw (e, update_server_statuses, update_server_status, after)
        (update_server_statuses-append servers rest _ t)

  pub update_server_statuses-ok :
      (servers : List ServerRead) (pools : List WorkloadPoolStatus)
      → All IsTagged servers
      → update_server_statuses c pools servers ≡ (ok tt, after pools servers)
  unfolding update_server_statuses update_server_status after
  update_server_statuses-ok [] pools t = refl
  update_server_statuses-ok (server ∷ servers) pools ((pool, e), t) =
      rw (e, update_server_statuses, update_server_status, after)
        (update_server_statuses-ok servers _ t)

  pub after-AreSound :
      (servers : List ServerRead) (pools : List WorkloadPoolStatus)
      → All IsTagged servers
      → AreSound pools
      → AreSound (after pools servers)
  unfolding update_server_statuses update_server_status after
  after-AreSound [] pools t h = h
  after-AreSound (server ∷ servers) pools ((pool, e), t) h =
      rw (e, update_server_statuses, update_server_status, after)
        (after-AreSound servers _ t (step-AreSound pool server h))

  pub replicas_of-after :
      (name : String) (servers : List ServerRead) (pools : List WorkloadPoolStatus)
      → All IsTagged servers
      → replicas_of name (after pools servers)
        ≡ replicas_of name pools + count (tagged name) servers
  unfolding update_server_statuses update_server_status after
  replicas_of-after name [] pools t = omega arith
  replicas_of-after name (server ∷ servers) pools ((pool, e), t) =
      rw (e, update_server_statuses, update_server_status, after)
        (ground (
          arith,
          replicas_of-after name servers
              (update_workload_pool_status pool (add_machine (machine_status c server)) pools) t,
          replicas_of-update (machine_status c server) pool name pools,
        ))
