-- ===== src/Cluster/Reconcile/ScaleDown.antt =====
-- The scale down loop: how many servers it deletes, and which.
use mathlib.Core.List.{append_assoc, map-append}
use uni_compute.Base.{
  ℕ, zero, suc, ◌+◌, ◌-◌, ◌≤◌, ◌<◌, ◌≡◌, refl, ◌∙◌, String, Bool, inl, inr, List, [], ◌∷◌, ◌++◌,
  map, count, length, length-append, count-append, Bool-cases, arith, ltb,
}
use uni_compute.Base.Dict.{values, erase, count-erase, length-erase}
use uni_compute.Base.Int.{pos}
use uni_compute.Base.Result.{ok}
use uni_compute.External.Region.{ServerRead}
use uni_compute.External.Env.{Env, Request, History}
use uni_compute.Cluster.State.{State, scope, expect_gone}
use uni_compute.Cluster.Client.{delete_server}
use uni_compute.Cluster.ServerSet.{ServerSet, select_deletion_candidate}
use uni_compute.Cluster.ServerSet.Laws.{IsNamed}
use uni_compute.Cluster.ServerSet.Candidates.{is_preferred, Picks, candidate, erase-IsNamed}
use uni_compute.Cluster.Reconcile.{
  mark_deprovisioning, delete_server_wrapper, delete_one, scale_down,
}

-- The region service takes every deletion, or says that the server is gone.
abbrev pub Deletes : Env → Type 0
Deletes env = (h : History) → expect_gone (env.deletion h) ≡ ok tt

-- The request that deletes a server of the cluster.
abbrev pub deletion_of : Env → State → ServerRead → Request
deletion_of env s server = Request.delete_server (scope env s.cluster) server.id

-- The state after a server was deleted.
abbrev pub without : Env → State → ServerRead → State
without env s server = record s {
  sent = deletion_of env s server ∷ s.sent;
  servers = mark_deprovisioning server.name s.servers;
}

module _ (env : Env) (deletes : Deletes env) where
  pub delete_server_wrapper-ok :
      (server : ServerRead) (s : State)
      → delete_server_wrapper env server s ≡ (ok tt, without env s server)
  unfolding delete_server_wrapper delete_server
  delete_server_wrapper-ok server s =
      rw (deletes (Request.delete_server (scope env s.cluster) server.id ∷ s.sent)) refl

  delete_one-ok :
      (ids : List String) (set : ServerSet) (s : State) (v : ServerRead)
      → select_deletion_candidate set ids ≡ ok v
      → delete_one env ids set s ≡ (ok (erase v.name set), without env s v)
  unfolding delete_one
  delete_one-ok ids set s v e = rw (e, delete_server_wrapper-ok v s) refl

-- What a scale down to `n` servers leaves and sends. The servers that are left and those that were
-- removed are together those of the set, as often; the preferred ones are removed before any other.
pub record ScalesDown (env : Env) (ids : List String) (n : ℕ) (set : ServerSet) (s : State)
    (kept : ServerSet) (t : State) : Type 0 where
  pub named : IsNamed kept
  pub removed : List ServerRead
  pub partition :
      (p : ServerRead → Bool) → count p (values set) ≡ count p (values kept) + count p removed
  pub removals : length removed ≡ length set - n
  pub size : length kept + length removed ≡ length set
  pub favours :
      count (is_preferred ids) (values kept)
      ≡ count (is_preferred ids) (values set) - length removed
  pub sent : t.sent ≡ map (deletion_of env s) removed ++ s.sent
  pub cluster : t.cluster ≡ s.cluster

module _ (env : Env) (ids : List String) (n : ℕ) where
  stays :
      (set : ServerSet) (s : State)
      → IsNamed set
      → length set ≤ n
      → ScalesDown env ids n set s set s
  stays set s named h = record {
    named = named;
    removed = [];
    partition = λ p. omega arith;
    removals = omega arith;
    size = omega arith;
    favours = omega arith;
    sent = refl;
    cluster = refl;
  }

  -- One round before a scale down of what it leaves.
  extends :
      (set : ServerSet) (s : State) (v : ServerRead) {kept : ServerSet} {t : State}
      → IsNamed set
      → Picks ids set v
      → n < length set
      → ScalesDown env ids n (erase v.name set) (without env s v) kept t
      → ScalesDown env ids n set s kept t
  extends set s v {kept} {t} named pick h d =
      let shorter = length-erase v.name {v = v} set named.distinct pick.held in
      let counted =
        λ (p : ServerRead → Bool). count-erase p v.name {v = v} set named.distinct pick.held in
      record {
        named = d.named;
        removed = d.removed ++ (v ∷ []);
        partition =
            λ p. ground (arith, counted p, d.partition p, count-append p d.removed (v ∷ []));
        removals = omega (arith, d.removals, shorter, length-append d.removed (v ∷ []));
        size = omega (arith, d.size, shorter, length-append d.removed (v ∷ []));
        favours = ground (
          arith,
          pick.favours,
          counted (is_preferred ids),
          d.favours,
          length-append d.removed (v ∷ []),
        );
        sent = d.sent ∙ simp (map-append, append_assoc);
        cluster = d.cluster;
      }

module _ (env : Env) (deletes : Deletes env) (ids : List String) (n : ℕ) where
  scale_down_rounds :
      (fuel : ℕ) (set : ServerSet) (s : State)
      → IsNamed set
      → length set ≤ fuel
      → (kept : ServerSet) × (t : State) × (scale_down env fuel (pos n) ids set s ≡ (ok kept, t))
        × ScalesDown env ids n set s kept t
  unfolding scale_down
  scale_down_rounds zero set s named h = (set, s, refl, stays env ids n set s named (omega arith))
  scale_down_rounds (suc fuel) set s named h = elim (Bool-cases (ltb n (length set))) [
    | inr enough ↦ (set, s, rw enough refl, stays env ids n set s named (ground arith))
    | inl more ↦
        let (v, picked, pick) = candidate ids set named (ground arith) in
        let shorter = length-erase v.name {v = v} set named.distinct pick.held in
        let (kept, t, run, d) =
          scale_down_rounds fuel (erase v.name set) (without env s v)
            (erase-IsNamed v.name set named) (omega arith) in
        (
          kept,
          t,
          rw (more, delete_one-ok env deletes ids set s v picked) run,
          extends env ids n set s v named pick (ground arith) d,
        )
  ]

  -- If the region service takes every deletion, the loop ends with the pool at its size or below
  -- it: it removes exactly the surplus, each server by one request, and the preferred servers
  -- before any other.
  pub scale_down-ScalesDown :
      (set : ServerSet) (s : State)
      → IsNamed set
      → (kept : ServerSet) × (t : State) × (scale_down env (suc (length set)) (pos n) ids set s
          ≡ (ok kept, t))
        × ScalesDown env ids n set s kept t
  scale_down-ScalesDown set s named = scale_down_rounds (suc (length set)) set s named (omega arith)
