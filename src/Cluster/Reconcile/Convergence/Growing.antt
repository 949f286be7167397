-- ===== src/Cluster/Reconcile/Convergence/Growing.antt =====
-- The creation loop of server.go where the region service creates what it is asked for.
use native.Mathlib.Nat.{le_refl}
use mathlib.Core.Path.{subst}
use uni_compute.Base.{
  ℕ, zero, suc, ◌+◌, ◌≤◌, ◌<◌, ◌≡◌, ◌≢◌, refl, sym, ap, ◌∙◌, String, false, ◌<>◌, Option, none,
  some, List, [], ◌∷◌, map, All, contains, count, total, if◌then◌else◌, ◌==◌, string_eq, ==_self,
  ==_sound, inr, arith, Distinct, count-append,
}
use uni_compute.Base.Dict.{
  Dict, keys, values, lookup, insert, contains-keys, insert_new, values-append,
}
use uni_compute.Base.Int.{is_negative, pos_part}
use uni_compute.Base.Result.{Result, ok, err, panic}
use uni_compute.Base.State.{bind}
use uni_compute.External.Region.{ServerRead, ServerWrite, SecurityGroupRead}
use uni_compute.External.Env.{Env, Scope, Request, History, replied}
use uni_compute.Api.{ComputeClusterWorkloadPoolSpec}
use uni_compute.Api.Accessors.{get_workload_pool}
use uni_compute.Status.{workload_pool_label, get_workload_pool_tag}
use uni_compute.Cluster.State.{State, scope}
use uni_compute.Cluster.Client.{create_server}
use uni_compute.Cluster.Tags.{tags}
use uni_compute.Cluster.Tags.Laws.{tags_lem}
use uni_compute.Cluster.ServerSet.{ServerSet, add, generate_security_group, server_spec}
use uni_compute.Cluster.Reconcile.{generate_server, create_one, create_servers, scale_up, creations}
use uni_compute.Cluster.Reconcile.Convergence.{Known, Good, AreGrouped}
use uni_compute.Cluster.Reconcile.Convergence.Grouping.{
  IsPlaced, is_member, members, members_live, contains-insert, insert-Distinct, All-insert,
}

-- The services behave: a creation is answered with a server as it was asked for, the random suffixes up
-- to a limit give different names, and the two labels of a server's tags differ.
pub record IsCreating (env : Env) (limit : ℕ) : Type 0 where
  pub created :
      (h : History) (scope : Scope) (w : ServerWrite)
      → (v : ServerRead) × (env.server (Request.create_server scope w ∷ h) ≡ replied 201 v)
        × (v.spec ≡ w.spec)
        × (v.tags ≡ w.tags)
        × (v.deletion_time ≡ none)
  pub different :
      (i j : ℕ) (p q : String)
      → i < j
      → j < limit
      → (p <> "-" <> env.suffix i == q <> "-" <> env.suffix j) ≡ false
  pub labels : env.compute_cluster_label ≢ workload_pool_label

module _ (env : Env) (network_id : String) (groups : Dict SecurityGroupRead)
    (pools : List ComputeClusterWorkloadPoolSpec) (limit : ℕ) where
  abbrev pub Placed : ServerRead → Type 0
  Placed = IsPlaced (Known env network_id groups pools) (Good env network_id groups pools)

  -- The servers have different names and a pool each, names that are drawn later are new, and this many
  -- are left.
  pub record Growing (left : ℕ) (s : State) : Type 0 where
    pub distinct : Distinct (keys s.servers)
    pub placed : All (λ e. Placed e.1) s.servers
    pub fresh :
        (k : ℕ) (p : String)
        → s.draws ≤ k
        → k < limit
        → contains (keys s.servers) (p <> "-" <> env.suffix k) ≡ false
    pub room : s.draws + left ≤ limit

  -- A run succeeds, keeps the cluster, leaves names, and adds to each pool what `more` says.
  pub record Grows (left : ℕ) (more : String → ℕ) (s : State) (out : Result (Unit {0}) × State)
      : Type 0 where
    pub succeeds : out.0 ≡ ok tt
    pub same : out.1.cluster ≡ s.cluster
    pub growing : Growing left out.1
    pub adds : (name : String) → members name out.1.servers ≡ members name s.servers + more name

module _ (env : Env) (network_id : String) (groups : Dict SecurityGroupRead)
    (pools : List ComputeClusterWorkloadPoolSpec) (limit : ℕ) (creating : IsCreating env limit)
    (grouped : AreGrouped env network_id groups pools) where
  members-insert :
      (pool name p : String) (server : ServerRead) (servers : ServerSet)
      → contains (keys servers) name ≡ false
      → server.deletion_time ≡ none
      → get_workload_pool_tag server.tags ≡ ok p
      → members pool (insert name server servers)
        ≡ members pool servers + (if p == pool then 1 else 0)
  members-insert pool name p server servers new live tagged =
      ap (λ m. count (is_member pool) (values m)) (insert_new name server servers new)
      ∙ ap (count (is_member pool)) (values-append servers ((name, server) ∷ []))
      ∙ count-append (is_member pool) (values servers) (server ∷ [])
      ∙ omega (arith, members_live pool name p server [] live tagged)

  -- The request of a creation.
  abbrev request : ComputeClusterWorkloadPoolSpec → Option (List String) → State → ServerWrite
  request pool group s = record {
    name = pool.name <> "-" <> env.suffix s.draws;
    description = some ("Server for cluster " <> s.cluster.name);
    tags = some (tags env s.cluster pool.name);
    spec = server_spec network_id pool group;
  }

  abbrev after : ServerWrite → ServerRead → State → State
  after w v s = record s {
    sent = Request.create_server (scope env s.cluster) w ∷ s.sent;
    draws = suc s.draws;
    servers = insert w.name v s.servers;
  }

  create_one-run :
      (pool : ComputeClusterWorkloadPoolSpec) (group : Option (List String)) (v : ServerRead)
      (s : State)
      → generate_security_group pool groups ≡ ok group
      → env.server (Request.create_server (scope env s.cluster) (request pool group s) ∷ s.sent)
        ≡ replied 201 v
      → lookup (pool.name <> "-" <> env.suffix s.draws) s.servers ≡ none
      → create_one env network_id groups pool s ≡ (ok tt, after (request pool group s) v s)
  unfolding create_one generate_server create_server add lookup
  create_one-run pool group v s made reply new = simp (made, reply, new) refl

  after-Growing :
      (left : ℕ) (w : ServerWrite) (v : ServerRead) (p : String) (s : State)
      → w.name ≡ p <> "-" <> env.suffix s.draws
      → (Placed env network_id groups pools limit) v
      → Growing env network_id groups pools limit (suc left) s
      → Growing env network_id groups pools limit left (after w v s)
  after-Growing left w v p s named placed g = record {
    distinct = insert-Distinct w.name v s.servers g.distinct;
    placed =
        All-insert (Placed env network_id groups pools limit) w.name v s.servers placed g.placed;
    fresh = λ k q later below.
        let other = q <> "-" <> env.suffix k in
        let apart : (w.name == other) ≡ false =
          ap (λ n. n == other) named ∙ creating.different s.draws k p q later below in
        contains-insert other w.name v s.servers
        ∙ ground (arith, apart, g.fresh k q (omega (arith, later)) below);
    room = omega (arith, g.room);
  }

  create_one-Grows :
      (left : ℕ) (pool : ComputeClusterWorkloadPoolSpec) (s : State)
      → get_workload_pool pools pool.name ≡ some pool
      → Growing env network_id groups pools limit (suc left) s
      → Grows env network_id groups pools limit left
          (λ name. if pool.name == name then 1 else 0)
          s
          (create_one env network_id groups pool s)
  create_one-Grows left pool s own g =
      let (group, made) = grouped pool.name pool own in
      let w = request pool group s in
      let (v, reply, spec, tagged, live) = creating.created s.sent (scope env s.cluster) w in
      let new = g.fresh s.draws pool.name (le_refl s.draws) (omega (arith, g.room)) in
      let missing : lookup w.name s.servers ≡ none =
        ground (arith, new, contains-keys w.name s.servers) in
      let tag : get_workload_pool_tag v.tags ≡ ok pool.name =
        ap get_workload_pool_tag tagged ∙ (tags_lem env s.cluster pool.name creating.labels).0 in
      subst
        (Grows env network_id groups pools limit left (λ name. if pool.name == name then 1 else 0)
          s)
        (sym (create_one-run pool group v s made reply missing))
        (record {
          succeeds = refl;
          same = refl;
          growing =
              after-Growing left w v pool.name s refl
                (inr (live, pool.name, tag, (pool, own), λ pool_ group_ own_ made_. cc)) g;
          adds = λ name. members-insert name w.name pool.name v s.servers new live tag;
        })

  Grows-bind :
      (mid left : ℕ) (first second both : String → ℕ) (s : State) (m : Result (Unit {0}) × State)
      (f : Unit {0} → State → Result (Unit {0}) × State)
      → ((name : String) → first name + second name ≡ both name)
      → Grows env network_id groups pools limit mid first s m
      → (Growing env network_id groups pools limit mid m.1
          → Grows env network_id groups pools limit left second m.1 (f tt m.1))
      → Grows env network_id groups pools limit left both s (bind m f)
  Grows-bind mid left first second both s (err x, t) f e g next =
      let impossible : err x ≡ ok tt = g.succeeds in cc
  Grows-bind mid left first second both s (panic, t) f e g next =
      let impossible : panic ≡ ok tt = g.succeeds in cc
  Grows-bind mid left first second both s (ok _, t) f e g next =
      let more = next g.growing in
      record {
        succeeds = more.succeeds;
        same = more.same ∙ g.same;
        growing = more.growing;
        adds = λ name. omega (arith, more.adds name, g.adds name, e name);
      }

  create_servers-Grows :
      (n left : ℕ) (pool : ComputeClusterWorkloadPoolSpec) (s : State)
      → get_workload_pool pools pool.name ≡ some pool
      → Growing env network_id groups pools limit (n + left) s
      → Grows env network_id groups pools limit left
          (λ name. if pool.name == name then n else 0)
          s
          (create_servers env network_id groups n pool s)
  unfolding create_servers
  create_servers-Grows zero left pool s own g = record {
    succeeds = refl;
    same = refl;
    growing = subst (λ n. Growing env network_id groups pools limit n s) (omega arith) g;
    adds = λ name. ground arith;
  }
  create_servers-Grows (suc n) left pool s own g =
      Grows-bind (n + left) left (λ name. if pool.name == name then 1 else 0)
        (λ name. if pool.name == name then n else 0)
        (λ name. if pool.name == name then suc n else 0) s (create_one env network_id groups pool s)
        (λ _. create_servers env network_id groups n pool) (λ name. ground arith)
        (create_one-Grows (n + left) pool s own
          (subst (λ n. Growing env network_id groups pools limit n s) (omega arith) g))
        λ h. create_servers-Grows n left pool _ own h

  -- What the pools lack, added up for a name.
  abbrev pub lacking : Dict ServerSet → List ComputeClusterWorkloadPoolSpec → String → ℕ
  lacking sets some_of name =
      total (λ pool. if pool.name == name then pos_part (creations pool sets) else 0) some_of

  pub scale_up-Grows :
      (some_of : List ComputeClusterWorkloadPoolSpec) (sets : Dict ServerSet) (s : State)
      → All (λ pool. get_workload_pool pools pool.name ≡ some pool) some_of
      → All (λ pool. is_negative (creations pool sets) ≡ false) some_of
      → Growing env network_id groups pools limit
          (total (λ pool. pos_part (creations pool sets)) some_of)
          s
      → Grows env network_id groups pools limit 0
          (lacking sets some_of)
          s
          (scale_up env network_id groups some_of sets s)
  unfolding scale_up
  scale_up-Grows [] sets s own fits g = record {
    succeeds = refl;
    same = refl;
    growing = g;
    adds = λ name. omega arith;
  }
  scale_up-Grows (pool ∷ some_of) sets s own fits g =
      let n = pos_part (creations pool sets) in
      rw fits.0 (
        Grows-bind (total (λ pool. pos_part (creations pool sets)) some_of) 0
          (λ name. if pool.name == name then n else 0) (lacking sets some_of) _ s
          (create_servers env network_id groups n pool s)
          (λ _. scale_up env network_id groups some_of sets) (λ name. refl)
          (create_servers-Grows n (total (λ pool. pos_part (creations pool sets)) some_of) pool s
            own.0 g)
          λ h. scale_up-Grows some_of sets _ own.1 fits.1 h)

  -- A name that no pool has lacks nothing, and a pool's own name what that pool lacks.
  lacking_none :
      (sets : Dict ServerSet) (some_of : List ComputeClusterWorkloadPoolSpec) (name : String)
      → contains (map (λ pool. pool.name) some_of) name ≡ false
      → lacking sets some_of name ≡ 0
  lacking_none sets [] name e = refl
  lacking_none sets (pool ∷ some_of) name e = ground (arith, e, lacking_none sets some_of name)

  pub lacking_own :
      (sets : Dict ServerSet) (some_of : List ComputeClusterWorkloadPoolSpec)
      → Distinct (map (λ pool. pool.name) some_of)
      → All (λ pool. lacking sets some_of pool.name ≡ pos_part (creations pool sets)) some_of
  lacking_own sets [] d = tt
  lacking_own sets (pool ∷ some_of) d = (
    ground (arith, ==_self pool.name, lacking_none sets some_of pool.name d.0),
    skip some_of d.0 (lacking_own sets some_of d.1),
  )
    where
      skip :
          (rest : List ComputeClusterWorkloadPoolSpec)
          → contains (map (λ p. p.name) rest) pool.name ≡ false
          → All (λ p. lacking sets some_of p.name ≡ pos_part (creations p sets)) rest
          → All (λ p. lacking sets (pool ∷ some_of) p.name ≡ pos_part (creations p sets)) rest
      skip [] e h = tt
      skip (p ∷ rest) e h = (
        ground (arith, e, h.0, ==_sound pool.name p.name, ==_self pool.name),
        skip rest (ground (arith, e)) h.1,
      )
