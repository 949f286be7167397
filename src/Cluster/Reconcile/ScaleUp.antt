-- ===== src/Cluster/Reconcile/ScaleUp.antt =====
-- The creation loops: how many servers they ask for.
use uni_compute.Base.{
  String, ℕ, zero, suc, ◌+◌, ◌-◌, ◌≤◌, ◌≡◌, ◌≢◌, ◌⊎◌, refl, Bool, true, false, List, [], ◌∷◌, count,
  length, total, Bool-cases, Option, none, some, inl, inr, arith,
}
use uni_compute.Base.Dict.{Dict, lookup}
use uni_compute.Base.Int.{ℤ, pos, negsuc, ◌-ℤ◌, is_negative, pos_part}
use uni_compute.Base.Result.{Error, consistency, Result, ok, err, panic}
use uni_compute.Base.State.{bind}
use uni_compute.External.Region.{SecurityGroupRead}
use uni_compute.External.Env.{Env, Request}
use uni_compute.Api.{ComputeClusterWorkloadPoolSpec}
use uni_compute.Cluster.State.{State}
use uni_compute.Cluster.Client.{create_server}
use uni_compute.Cluster.ServerSet.{ServerSet}
use uni_compute.Cluster.Reconcile.{generate_server, create_one, create_servers, creations, scale_up}

abbrev pub is_creation : Request → Bool
is_creation (Request.create_server _ _) = true
is_creation _ = false

-- The servers that a pool lacks: its size, less the servers that it has.
abbrev pub deficit : Dict ServerSet → ComputeClusterWorkloadPoolSpec → ℕ
deficit sets pool = elim (lookup pool.name sets) [
  | none ↦ pos_part pool.replicas
  | some set ↦ pos_part pool.replicas - length set
]

pos_part-difference : (z : ℤ) (n : ℕ) → pos_part (z -ℤ pos n) ≡ pos_part z - n
unfolding ◌-ℤ◌
pos_part-difference (pos m) n = ground arith
pos_part-difference (negsuc m) n = ground arith

deficit-creations :
    (sets : Dict ServerSet) (pool : ComputeClusterWorkloadPoolSpec)
    → pos_part (creations pool sets) ≡ deficit sets pool
unfolding creations
deficit-creations sets pool = found (lookup pool.name sets)
  where
    found :
        (o : Option ServerSet)
        → pos_part (elim o [ none ↦ pool.replicas | some set ↦ pool.replicas -ℤ pos (length set) ])
          ≡ elim o [
            | none ↦ pos_part pool.replicas
            | some set ↦ pos_part pool.replicas - length set
          ]
    found none = refl
    found (some set) = pos_part-difference pool.replicas (length set)

-- From `s`, a run sends creations only: at most `n`, and exactly `n` if it succeeds.
pub record Creates (n : ℕ) (s : State) (out : Result (Unit {0}) × State) : Type 0 where
  pub most : count is_creation out.1.sent ≤ count is_creation s.sent + n
  pub exact : (out.0 ≢ ok tt) ⊎ (count is_creation out.1.sent ≡ count is_creation s.sent + n)
  pub only :
      length out.1.sent + count is_creation s.sent ≡ length s.sent + count is_creation out.1.sent
  pub same_cluster : out.1.cluster ≡ s.cluster

Creates-bind :
    (k n m : ℕ) (s : State) (out : Result (Unit {0}) × State)
    (f : Unit {0} → State → Result (Unit {0}) × State)
    → k ≡ n + m
    → Creates n s out
    → Creates m out.1 (f tt out.1)
    → Creates k s (bind out f)
Creates-bind k n m s (ok tt, t) f e h i = ground arith
Creates-bind k n m s (err e', t) f e h i = ground arith
Creates-bind k n m s (panic, t) f e h i = ground arith

Creates-none : (s : State) → Creates 0 s (ok tt, s)
Creates-none s = ground arith

Creates-refused : (k : ℕ) (s : State) (e : Error) → Creates k s (err e, s)
Creates-refused k s e = ground arith

module _ (env : Env) (network_id : String) (groups : Dict SecurityGroupRead) where
  create_one-Creates :
      (pool : ComputeClusterWorkloadPoolSpec) (s : State)
      → Creates 1 s (create_one env network_id groups pool s)
  unfolding create_one generate_server create_server
  create_one-Creates pool s = ground arith

  create_servers-Creates :
      (n : ℕ) (pool : ComputeClusterWorkloadPoolSpec) (s : State)
      → Creates n s (create_servers env network_id groups n pool s)
  unfolding create_servers
  create_servers-Creates zero pool s = ground arith
  create_servers-Creates (suc n) pool s =
      Creates-bind (suc n) 1 n s (create_one env network_id groups pool s)
        (λ _. create_servers env network_id groups n pool) (omega arith) (create_one-Creates pool s)
        (create_servers-Creates n pool _)

  -- Whatever the services answer, the last loop asks for creations only, and never for more than
  -- the pools lack together; if it succeeds, it has asked for exactly that many.
  pub scale_up-Creates :
      (pools : List ComputeClusterWorkloadPoolSpec) (sets : Dict ServerSet) (s : State)
      → Creates (total (deficit sets) pools) s (scale_up env network_id groups pools sets s)
  unfolding scale_up
  scale_up-Creates [] sets s = Creates-none s
  scale_up-Creates (pool ∷ pools) sets s = elim (Bool-cases (is_negative (creations pool sets))) [
    | inl over ↦ rw over (Creates-refused _ s consistency)
    | inr fits ↦
        rw (fits, deficit-creations sets pool)
          (Creates-bind _ (deficit sets pool) (total (deficit sets) pools) s
            (create_servers env network_id groups (deficit sets pool) pool s)
            (λ _. scale_up env network_id groups pools sets) refl
            (create_servers-Creates (deficit sets pool) pool s) (scale_up-Creates pools sets _))
  ]
