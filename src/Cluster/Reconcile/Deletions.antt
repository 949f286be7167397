-- ===== src/Cluster/Reconcile/Deletions.antt =====
-- Which servers a reconcile can delete.
pub mod Loops
pub mod Live
use uni_compute.Base.{
  ℕ, zero, suc, ◌+◌, ◌≡◌, refl, ◌∙◌, sym, ap, String, Bool, true, false, not, ◌&&◌, ◌||◌, Option,
  none, some, List, [], ◌∷◌, ◌++◌, map, find, count, All, contains, length, is_some, delete_func,
  if◌then◌else◌, ◌==◌, string_eq, Bool-cases, Option-cases, inl, inr, arith,
}
use uni_compute.Base.Dict.{Dict, values, lookup, insert, erase}
use uni_compute.Base.Int.{ℤ, exceeds, is_negative, pos_part}
use uni_compute.Base.Result.{Error, Result, ok, err, panic, consistency, ◌>>=◌}
use uni_compute.Base.State
use uni_compute.Base.State.{Comp, bind}
use uni_compute.External.Region.{ServerRead, ServerWrite, SecurityGroupRead}
use uni_compute.External.Env.{Env, Request, History}
use uni_compute.Api.{ComputeClusterWorkloadPoolSpec}
use uni_compute.Api.Accessors.{get_workload_pool}
use uni_compute.Status.{get_workload_pool_tag}
use uni_compute.Cluster.State.{State}
use uni_compute.Cluster.Client.{get_region_client, create_server, update_server, delete_server}
use uni_compute.Cluster.ServerSet.{
  ServerSet, prefer, select_deletion_candidate, add_to_pools, new_server_pool_set, needs_update,
  needs_rebuild,
}
use uni_compute.Cluster.Reconcile.{
  delete_server_wrapper, delete_all, delete_one, scale_down, clear_hint, store_cluster,
  generate_server, rebuild_or_update, refresh_one, refresh, shrink_and_refresh, reconcile_pools,
  creations, create_one, create_servers, scale_up, reconcile_servers, preferred_deletion_ids,
}

-- A deletion of a server that is none of these.
abbrev pub is_foreign : List String → Request → Bool
is_foreign ids (Request.delete_server _ id) = not (contains ids id)
is_foreign ids _ = false

-- The IDs of the servers of a set that are not being deleted.
abbrev pub live_ids : ServerSet → List String
live_ids [] = []
live_ids ((_, server) ∷ set) =
    let rest = live_ids set in if is_some server.deletion_time then rest else server.id ∷ rest

-- If there is a result, it satisfies `P`.
abbrev pub OnOk : {A : Type 0} → (A → Type 0) → Result A → Type 0
OnOk P (ok a) = P a
OnOk P (err e) = Unit
OnOk P panic = Unit

module _ (ids : List String) where
  -- From `s`, a run sends no deletion of a foreign server, and its result satisfies `P`.
  pub record IsSafe {A : Type 0} (P : A → Type 0) (s : State) (out : Result A × State)
      : Type 0 where
    pub none_foreign : count (is_foreign ids) out.1.sent ≡ count (is_foreign ids) s.sent
    pub result : OnOk P out.0

  abbrev pub Known : ServerRead → Type 0
  Known server = contains ids server.id ≡ true

  abbrev pub KnownEntry : String × ServerRead → Type 0
  KnownEntry (_, server) = Known server

  abbrev pub KnownPool : String × ServerSet → Type 0
  KnownPool (_, set) = All KnownEntry set

  pub bind-IsSafe :
      {A B : Type 0} (P : A → Type 0) (Q : B → Type 0) (s : State) (m : Result A × State)
      (f : A → Comp State B)
      → IsSafe P s m
      → ((a : A) (t : State) → P a → IsSafe Q t (f a t))
      → IsSafe Q s (bind m f)
  bind-IsSafe P Q s (ok a, t) f h k =
      let next = k a t h.result in
      record { none_foreign = next.none_foreign ∙ h.none_foreign; result = next.result }
  bind-IsSafe P Q s (err e, t) f h k = record { none_foreign = h.none_foreign; result = tt }
  bind-IsSafe P Q s (panic, t) f h k = record { none_foreign = h.none_foreign; result = tt }

  pub pure-IsSafe : {A : Type 0} (P : A → Type 0) (s : State) (a : A) → P a → IsSafe P s (ok a, s)
  pure-IsSafe P s a p = record { none_foreign = refl; result = p }

  pub lift-IsSafe :
      {A : Type 0} (P : A → Type 0) (s : State) (r : Result A) → OnOk P r → IsSafe P s (r, s)
  lift-IsSafe P s r p = record { none_foreign = refl; result = p }

  find-Known :
      (q : ServerRead → Bool) (servers : List ServerRead) {v : ServerRead}
      → All Known servers
      → find q servers ≡ some v
      → Known v
  find-Known q [] k h = cc
  find-Known q (w ∷ servers) {v} k h = ground (arith, find-Known q servers {v = v} k.1)

  prefer-Known :
      (servers : List ServerRead) (preferred : List String)
      → All Known servers
      → OnOk Known (prefer servers preferred)
  unfolding prefer
  prefer-Known [] [] k = tt
  prefer-Known (v ∷ servers) [] k = k.0
  prefer-Known servers (id ∷ preferred) k =
      let q : ServerRead → Bool = λ server. server.id == id in
      elim (Option-cases (find q servers)) [
        | inr (v, e) ↦ rw (e, prefer) (find-Known q servers {v = v} k e)
        | inl e ↦ rw (e, prefer) (prefer-Known servers preferred k)
      ]

  pub values-Known : (set : ServerSet) → All KnownEntry set → All Known (values set)
  values-Known [] k = tt
  values-Known (e ∷ set) k = (k.0, values-Known set k.1)

  erase-Known :
      (name : String) (set : ServerSet) → All KnownEntry set → All KnownEntry (erase name set)
  unfolding erase
  erase-Known name [] k = tt
  erase-Known name (e ∷ set) k = ground (arith, erase-Known name set k.1)

  module _ (env : Env) where
    pub delete_server_wrapper-IsSafe :
        (server : ServerRead) (s : State)
        → Known server
        → IsSafe (λ _. Unit {0}) s (delete_server_wrapper env server s)
    unfolding delete_server_wrapper delete_server
    delete_server_wrapper-IsSafe server s k = ground (arith, k)

    pub delete_all-IsSafe :
        (servers : List ServerRead) (s : State)
        → All Known servers
        → IsSafe (λ _. Unit {0}) s (delete_all env servers s)
    unfolding delete_all
    delete_all-IsSafe [] s k = pure-IsSafe _ s tt tt
    delete_all-IsSafe (v ∷ servers) s k =
        bind-IsSafe (λ _. Unit {0}) _ s (delete_server_wrapper env v s) _
          (delete_server_wrapper-IsSafe v s k.0) λ _ t _. delete_all-IsSafe servers t k.1

    delete_one-IsSafe :
        (preferred : List String) (set : ServerSet) (s : State)
        → All KnownEntry set
        → IsSafe (All KnownEntry) s (delete_one env preferred set s)
    unfolding delete_one select_deletion_candidate
    delete_one-IsSafe preferred set s k =
        bind-IsSafe Known _ s (prefer (values set) preferred, s) _
          (lift-IsSafe Known s _ (prefer-Known (values set) preferred (values-Known set k)))
          λ v t known.
            bind-IsSafe (λ _. Unit {0}) _ t (delete_server_wrapper env v t) _
              (delete_server_wrapper-IsSafe v t known)
              λ _ u _. pure-IsSafe _ u _ (erase-Known v.name set k)

    pub scale_down-IsSafe :
        (fuel : ℕ) (replicas : ℤ) (preferred : List String) (set : ServerSet) (s : State)
        → All KnownEntry set
        → IsSafe (All KnownEntry) s (scale_down env fuel replicas preferred set s)
    unfolding scale_down
    scale_down-IsSafe zero replicas preferred set s k = pure-IsSafe _ s set k
    scale_down-IsSafe (suc fuel) replicas preferred set s k =
        elim (Bool-cases (exceeds (length set) replicas)) [
          | inr e ↦ rw e (pure-IsSafe (All KnownEntry) s set k)
          | inl e ↦ rw e (
              bind-IsSafe (All KnownEntry) (All KnownEntry) s (delete_one env preferred set s) _
                (delete_one-IsSafe preferred set s k)
                λ kept t known. scale_down-IsSafe fuel replicas preferred kept t known)
        ]
