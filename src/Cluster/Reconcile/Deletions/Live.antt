-- ===== src/Cluster/Reconcile/Deletions/Live.antt =====
-- A reconcile deletes live servers of the cluster, and no others.
use mathlib.Core.Option.{some-injective}
use uni_compute.Base.{
  ==_self, ◌≡◌, refl, String, true, ◌||◌, Option, none, some, List, [], ◌∷◌, count, All, contains,
  is_some, ◌==◌, string_eq, Bool-cases, Option-cases, inl, inr, arith,
}
use uni_compute.Base.Dict.{Dict, lookup, insert}
use uni_compute.Base.Result.{Result, ok, err, panic, ◌>>=◌}
use uni_compute.External.Region.{ServerRead, SecurityGroupRead}
use uni_compute.External.Env.{Env}
use uni_compute.Status.{get_workload_pool_tag}
use uni_compute.Cluster.State.{State}
use uni_compute.Cluster.ServerSet.{ServerSet, add_to_pools, new_server_pool_set}
use uni_compute.Cluster.Reconcile.{
  clear_hint, reconcile_pools, reconcile_servers, preferred_deletion_ids,
}
use uni_compute.Cluster.Reconcile.Deletions.{
  is_foreign, live_ids, OnOk, KnownEntry, KnownPool, bind-IsSafe, lift-IsSafe,
}
use uni_compute.Cluster.Reconcile.Deletions.Loops.{
  reconcile_pools-IsSafe, scale_up-IsSafe, clear_hint-IsSafe,
}

insert-All :
    {V : Type 0} (P : String × V → Type 0) (k : String) (v : V) (m : Dict V)
    → P (k, v)
    → All P m
    → All P (insert k v m)
unfolding insert
insert-All P k v [] p h = (p, tt)
insert-All P k v (e ∷ m) p h = elim (Bool-cases (e.0 == k)) [
  | inl same ↦ rw (same, insert) (p, h.1)
  | inr differs ↦ rw (differs, insert) (h.0, insert-All P k v m p h.1)
]

module _ (ids : List String) where
  -- A server of these IDs, or one that is being deleted.
  abbrev Covered : String × ServerRead → Type 0
  Covered (_, server) = (is_some server.deletion_time || contains ids server.id) ≡ true

  lookup-Known :
      (pool : String) (s : Dict ServerSet) {set : ServerSet}
      → All (KnownPool ids) s
      → lookup pool s ≡ some set
      → All (KnownEntry ids) set
  unfolding lookup
  lookup-Known pool [] k e = cc
  lookup-Known pool ((j, other) ∷ s) {set} k e = elim (Bool-cases (j == pool)) [
    | inl same ↦ let eq = some-injective other set (rw (same, lookup) at e) in rw (← eq) k.0
    | inr differs ↦ lookup-Known pool s {set = set} k.1 (rw (differs, lookup) at e)
  ]

  extended-Known :
      (pool name : String) (server : ServerRead) (s : Dict ServerSet)
      → contains ids server.id ≡ true
      → All (KnownPool ids) s
      → All
          (KnownPool ids)
          (insert pool (insert name server (elim (lookup pool s) [ none ↦ [] | some set ↦ set ])) s)
  extended-Known pool name server s known k =
      insert-All (KnownPool ids) pool _ s
        (insert-All (KnownEntry ids) name server _ known (found (lookup pool s) refl)) k
    where
      found :
          (o : Option ServerSet)
          → lookup pool s ≡ o
          → All (KnownEntry ids) (elim o [ none ↦ [] | some set ↦ set ])
      found none e = tt
      found (some set) e = lookup-Known pool s {set = set} k e

  add_to_pools-Known :
      (s : Dict ServerSet) (servers : ServerSet)
      → All (KnownPool ids) s
      → All Covered servers
      → OnOk (All (KnownPool ids)) (add_to_pools s servers)
  unfolding add_to_pools
  add_to_pools-Known s [] k c = k
  add_to_pools-Known s ((name, server) ∷ servers) k c = elim (Option-cases server.deletion_time) [
    | inr (time, e) ↦ rw (e, add_to_pools) (add_to_pools-Known s servers k c.1)
    | inl e ↦
        rw (e, add_to_pools)
          (tagged (λ x known. add_to_pools-Known x servers known c.1)
            (get_workload_pool_tag server.tags) (rw e at c.0))
  ]
    where
      tagged :
          ((x : Dict ServerSet)
            → All (KnownPool ids) x
            → OnOk (All (KnownPool ids)) (add_to_pools x servers))
          → (r : Result String) → contains ids server.id ≡ true
          → OnOk (All (KnownPool ids)) (
              r >>= λ pool.
              add_to_pools
                (insert pool
                  (insert name server (elim (lookup pool s) [ none ↦ [] | some set ↦ set ]))
                  s)
                servers)
      tagged next (ok pool) known = next _ (extended-Known pool name server s known k)
      tagged next (err e) known = tt
      tagged next panic known = tt

Covered-mono :
    (ids more : List String) (set : ServerSet)
    → ((id : String) → contains ids id ≡ true → contains more id ≡ true)
    → All (Covered ids) set
    → All (Covered more) set
Covered-mono ids more [] h c = tt
Covered-mono ids more ((_, server) ∷ set) h c =
    (ground (arith, c.0, h server.id), Covered-mono ids more set h c.1)

live_ids-more :
    (name : String) (server : ServerRead) (set : ServerSet) (id : String)
    → contains (live_ids set) id ≡ true
    → contains (live_ids ((name, server) ∷ set)) id ≡ true
live_ids-more name server set id h = ground (arith, h)

live_ids-first :
    (name : String) (server : ServerRead) (set : ServerSet)
    → Covered (live_ids ((name, server) ∷ set)) (name, server)
live_ids-first name server set = ground (arith, ==_self server.id)

live_ids-Covered : (set : ServerSet) → All (Covered (live_ids set)) set
live_ids-Covered [] = tt
live_ids-Covered ((name, server) ∷ set) = (
  live_ids-first name server set,
  Covered-mono (live_ids set) (live_ids ((name, server) ∷ set)) set (live_ids-more name server set)
      (live_ids-Covered set),
)

-- Whatever the services answer, a reconcile asks for the deletion of servers only that the server
-- set holds and that are not being deleted already.
pub reconcile_servers-IsSafe :
    (env : Env) (network_id : String) (groups : Dict SecurityGroupRead) (s : State)
    → count (is_foreign (live_ids s.servers)) (reconcile_servers env network_id groups s).1.sent
      ≡ count (is_foreign (live_ids s.servers)) s.sent
unfolding reconcile_servers new_server_pool_set
reconcile_servers-IsSafe env network_id groups s =
    let ids = live_ids s.servers in
    let preferred = preferred_deletion_ids s.cluster in
    let pools = s.cluster.spec.workload_pools in
    let run =
      bind-IsSafe ids (All (KnownPool ids)) (λ _. Unit {0}) s (add_to_pools [] s.servers, s) _
        (lift-IsSafe ids (All (KnownPool ids)) s _
          (add_to_pools-Known ids [] s.servers tt (live_ids-Covered s.servers)))
        λ sets t known.
          bind-IsSafe ids (λ _. Unit {0}) (λ _. Unit {0}) t
            (reconcile_pools env network_id groups pools preferred sets t) _
            (reconcile_pools-IsSafe ids env network_id groups pools preferred sets t known)
            λ kept u _.
              bind-IsSafe ids (λ _. Unit {0}) (λ _. Unit {0}) u (clear_hint env preferred u) _
                (clear_hint-IsSafe ids env preferred u)
                λ _ v _. scale_up-IsSafe ids env network_id groups pools kept v in
    run.none_foreign
