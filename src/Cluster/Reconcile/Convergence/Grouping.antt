-- ===== src/Cluster/Reconcile/Convergence/Grouping.antt =====
-- What `newServerPoolSet` of server.go makes of servers: the pools by name, each with the live servers
-- that carry its tag.
use mathlib.Core.Path.{subst}
use uni_compute.Base.{
  ℕ, suc, ◌+◌, ◌≡◌, refl, sym, ap, ◌∙◌, String, Bool, true, false, not, ◌&&◌, ◌||◌, none, some, [],
  ◌∷◌, All, contains, length, count, is_some, if◌then◌else◌, ◌==◌, string_eq, ==_sound, inl, inr,
  ◌⊎◌, arith, Distinct, length-append,
}
use uni_compute.Base.Dict.{
  Dict, keys, values, lookup, insert, lookup-insert, contains-keys, insert_new,
}
use uni_compute.Base.Result.{ok, err, panic}
use uni_compute.External.Region.{ServerRead}
use uni_compute.Status.{get_workload_pool_tag}
use uni_compute.Cluster.ServerSet.{ServerSet, new_server_pool_set, add_to_pools}

-- Is this a server of the pool that is not being deleted?
abbrev pub is_member : String → ServerRead → Bool
is_member pool server =
    not (is_some server.deletion_time) && (elim (get_workload_pool_tag server.tags) [
      | ok name ↦ name == pool
      | err _ ↦ false
      | panic ↦ false
    ])

abbrev pub members : String → ServerSet → ℕ
members pool set = count (is_member pool) (values set)

-- The servers under the name of a pool.
abbrev pub set_at : String → Dict ServerSet → ServerSet
set_at pool sets = elim (lookup pool sets) [ none ↦ [] | some set ↦ set ]

members_deleted :
    (pool name : String) (server : ServerRead) (servers : ServerSet) {time : ℕ}
    → server.deletion_time ≡ some time
    → members pool ((name, server) ∷ servers) ≡ members pool servers
members_deleted pool name server servers e = simp e

pub members_live :
    (pool name p : String) (server : ServerRead) (servers : ServerSet)
    → server.deletion_time ≡ none
    → get_workload_pool_tag server.tags ≡ ok p
    → members pool ((name, server) ∷ servers) ≡ (if p == pool then 1 else 0) + members pool servers
members_live pool name p server servers e tagged = simp (e, tagged) (ground arith)

module _ {V : Type 0} where
  pub contains-insert :
      (j k : String) (v : V) (m : Dict V)
      → contains (keys (insert k v m)) j ≡ (k == j) || contains (keys m) j
  contains-insert j k v m =
      contains-keys j (insert k v m) ∙ ground (arith, lookup-insert j k v m, contains-keys j m)

  pub insert-Distinct :
      (k : String) (v : V) (m : Dict V) → Distinct (keys m) → Distinct (keys (insert k v m))
  unfolding insert
  insert-Distinct k v [] d = (refl, tt)
  insert-Distinct k v ((j, w) ∷ m) d =
      ground (arith, d, insert-Distinct k v m d.1, contains-insert j k v m)

  pub All-insert {κ} :
      (P : V → Type κ) (k : String) (v : V) (m : Dict V)
      → P v
      → All (λ e. P e.1) m
      → All (λ e. P e.1) (insert k v m)
  unfolding insert
  All-insert P k v [] h hs = (h, tt)
  All-insert P k v ((j, w) ∷ m) h hs = ground (arith, h, hs, All-insert P k v m h hs.1)

-- `Known` holds of the pools that servers belong to, and `Good` of a server in its pool.
module _ (Known : String → Type 0) (Good : String → ServerRead → Type 0) where
  -- The server is being deleted, or it belongs to a pool.
  abbrev pub IsPlaced : ServerRead → Type 0
  IsPlaced server =
      ((time : ℕ) × (server.deletion_time ≡ some time))
      ⊎ ((server.deletion_time ≡ none)
          × (pool : String) × (get_workload_pool_tag server.tags ≡ ok pool)
          × Known pool
          × Good pool server)

  -- Each pool has as many servers as `size` says.
  pub record Groups (size : String → ℕ) (sets : Dict ServerSet) : Type 0 where
    pub distinct : Distinct (keys sets)
    pub sized : (pool : String) → length (set_at pool sets) ≡ size pool
    pub known : (pool : String) → is_some (lookup pool sets) ≡ true → Known pool
    pub good : (pool : String) → All (λ e. Good pool e.1) (set_at pool sets)

  -- No server that is to come is there.
  abbrev AreNew : Dict ServerSet → ServerSet → Type 0
  AreNew sets servers =
      (pool : String) → All (λ e. contains (keys (set_at pool sets)) e.0 ≡ false) servers

  set_at-insert :
      (pool p : String) (set : ServerSet) (sets : Dict ServerSet)
      → set_at pool (insert p set sets) ≡ (if p == pool then set else set_at pool sets)
  set_at-insert pool p set sets = ground (arith, lookup-insert pool p set sets)

  module _ (name : String) (server : ServerRead) (p : String) (size : String → ℕ)
      (sets : Dict ServerSet) (groups : Groups size sets)
      (new : contains (keys (set_at p sets)) name ≡ false) where
    abbrev placed : Dict ServerSet
    placed = insert p (insert name server (set_at p sets)) sets

    abbrev grown : String → ℕ
    grown pool = size pool + (if p == pool then 1 else 0)

    placed-Groups : Known p → Good p server → Groups grown placed
    placed-Groups known good = record {
      distinct = insert-Distinct p (insert name server (set_at p sets)) sets groups.distinct;
      sized = λ pool. bigger pool (p == pool) refl;
      known = λ pool h. which pool (p == pool) refl h;
      good = λ pool. each pool (p == pool) refl;
    }
      where
        more : ServerSet
        more = insert name server (set_at p sets)

        one_more : length more ≡ suc (size p)
        one_more =
            ap length (insert_new name server (set_at p sets) new)
            ∙ length-append (set_at p sets) ((name, server) ∷ [])
            ∙ omega (arith, groups.sized p)

        there :
            (pool : String) (b : Bool)
            → (p == pool) ≡ b
            → set_at pool placed ≡ (if b then more else set_at pool sets)
        there pool b e = set_at-insert pool p more sets ∙ rw e refl

        bigger :
            (pool : String) (b : Bool) → (p == pool) ≡ b → length (set_at pool placed) ≡ grown pool
        bigger pool true e =
            ap length (there pool true e)
            ∙ one_more
            ∙ ground (arith, e, ap size (==_sound p pool e))
        bigger pool false e = ap length (there pool false e) ∙ groups.sized pool ∙ ground (arith, e)

        which :
            (pool : String) (b : Bool)
            → (p == pool) ≡ b
            → is_some (lookup pool placed) ≡ true
            → Known pool
        which pool true e h = rw (← ==_sound p pool e) known
        which pool false e h =
            groups.known pool (ground (arith, h, e, lookup-insert pool p more sets))

        each :
            (pool : String) (b : Bool)
            → (p == pool) ≡ b
            → All (λ e. Good pool e.1) (set_at pool placed)
        each pool true e = subst (All λ e. Good pool e.1) (sym (there pool true e)) (
            rw (← ==_sound p pool e)
              (All-insert (Good p) name server (set_at p sets) good (groups.good p)))
        each pool false e =
            subst (All λ e. Good pool e.1) (sym (there pool false e)) (groups.good pool)

  AreNew-placed :
      (name : String) (server : ServerRead) (p : String) (sets : Dict ServerSet)
      (servers : ServerSet)
      → contains (keys servers) name ≡ false
      → AreNew sets servers
      → AreNew (insert p (insert name server (set_at p sets)) sets) servers
  AreNew-placed name server p sets [] fresh new pool = tt
  AreNew-placed name server p sets ((n, v) ∷ servers) fresh new pool = (
    ground (
      arith,
      fresh,
      (new pool).0,
      (new p).0,
      ap (λ s. contains (keys s) n)
          (set_at-insert pool p (insert name server (set_at p sets)) sets),
      contains-insert n name server (set_at p sets),
    ),
    AreNew-placed name server p sets servers (ground (arith, fresh)) (λ q. (new q).1) pool,
  )

  Groups-cong :
      (size more : String → ℕ) (sets : Dict ServerSet)
      → ((pool : String) → size pool ≡ more pool)
      → Groups size sets
      → Groups more sets
  Groups-cong size more sets e groups = record {
    distinct = groups.distinct;
    sized = λ pool. groups.sized pool ∙ e pool;
    known = groups.known;
    good = groups.good;
  }

  -- The loop succeeds, and puts each member of a pool there.
  add_to_pools-Groups :
      (sets : Dict ServerSet) (size : String → ℕ) (servers : ServerSet)
      → Groups size sets
      → AreNew sets servers
      → Distinct (keys servers)
      → All (λ e. IsPlaced e.1) servers
      → (out : Dict ServerSet) × (add_to_pools sets servers ≡ ok out)
        × Groups (λ pool. size pool + members pool servers) out
  unfolding add_to_pools
  add_to_pools-Groups sets size [] groups new d placed_ =
      (sets, refl, Groups-cong size _ sets (λ pool. omega arith) groups)
  add_to_pools-Groups sets size ((name, server) ∷ servers) groups new d
        (inl (time, deleted), rest) =
      let (out, run, found) =
        add_to_pools-Groups sets size servers groups (λ pool. (new pool).1) d.1 rest in
      (
        out,
        simp deleted run,
        Groups-cong _ _ out
            (λ pool.
              ap (size pool +◌)
                (sym (members_deleted pool name server servers {time = time} deleted)))
            found,
      )
  add_to_pools-Groups sets size ((name, server) ∷ servers) groups new d
        (inr (live, p, tagged, known, good), rest) =
      let (out, run, found) =
        add_to_pools-Groups (placed name server p size sets groups (new p).0)
          (grown name server p size sets groups (new p).0) servers
          (placed-Groups name server p size sets groups (new p).0 known good)
          (AreNew-placed name server p sets servers d.0 λ q. (new q).1) d.1 rest in
      (
        out,
        simp (live, tagged) run,
        Groups-cong _ _ out
            (λ pool. omega (arith, members_live pool name p server servers live tagged)) found,
      )

  -- Servers with different names, each in a pool or being deleted, are grouped by their pools.
  pub new_server_pool_set-Groups :
      (servers : ServerSet)
      → Distinct (keys servers)
      → All (λ e. IsPlaced e.1) servers
      → (sets : Dict ServerSet) × (new_server_pool_set servers ≡ ok sets)
        × Groups (λ pool. members pool servers) sets
  unfolding new_server_pool_set lookup
  new_server_pool_set-Groups servers d placed_ =
      let (out, run, groups) =
        add_to_pools-Groups [] (λ _. 0) servers
          (record { distinct = tt; sized = λ _. refl; known = λ _ h. cc; good = λ _. tt })
          (λ _. nothing_there servers) d placed_ in
      (out, run, Groups-cong _ _ out (λ pool. omega arith) groups)
    where
      nothing_there : (servers : ServerSet) → All (λ e. false ≡ false) servers
      nothing_there [] = tt
      nothing_there (_ ∷ servers) = (refl, nothing_there servers)
