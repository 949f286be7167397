-- ===== src/Cluster/ServerSet/Laws.antt =====
-- Laws of the sets of servers.
use mathlib.Core.Path.{fun_ext}
use uni_compute.Base.{
  ◌≡◌, refl, ap, String, List, [], ◌∷◌, map, Distinct, distinct, by-distinct, if◌then◌else◌, All,
}
use uni_compute.Base.Dict.{keys}
use uni_compute.Base.Result.{ok, err, consistency, ◌>>=◌}
use uni_compute.External.Region.{ServerRead}
use uni_compute.Cluster.ServerSet.{ServerSet, add, add_servers, new_server_set}
use uni_compute.Cluster.ServerSet.Adding.{add_all, add_all_lem}

abbrev pub names : List ServerRead → List String
names = map λ server. server.name

-- The servers, each under its own name.
abbrev pub by_name : List ServerRead → ServerSet
by_name = map λ server. (server.name, server)

-- Every server stands under its own name, and no name stands twice.
abbrev pub IsKeyed : String × ServerRead → Type 0
IsKeyed (name, server) = name ≡ server.name

pub record IsNamed (set : ServerSet) : Type 0 where
  pub keyed : All IsKeyed set
  pub distinct : Distinct (keys set)

keys-by_name : (servers : List ServerRead) → keys (by_name servers) ≡ names servers
keys-by_name [] = refl
keys-by_name (s ∷ servers) = ap (◌∷◌ s.name) (keys-by_name servers)

add_servers-add_all :
    (servers : List ServerRead) (set : ServerSet)
    → add_servers set servers ≡ add_all set (by_name servers)
unfolding add_servers add_all
add_servers-add_all [] set = refl
add_servers-add_all (s ∷ servers) set =
    ap (λ k. add s.name s set >>= k) (fun_ext (add_servers-add_all servers))

-- A server set is made exactly of servers with distinct names, each under its own name; where two
-- servers share a name the result is the consistency error.
pub new_server_set_lem :
    (servers : List ServerRead)
    → new_server_set servers
      ≡ (if distinct (names servers) then ok (by_name servers) else err consistency)
unfolding new_server_set
new_server_set_lem servers =
    by-distinct (names servers) (new_server_set servers) (ok (by_name servers)) (err consistency)
      (rw (add_servers-add_all servers [], ← keys-by_name servers) (add_all_lem (by_name servers)))

by_name-IsKeyed : (servers : List ServerRead) → All IsKeyed (by_name servers)
by_name-IsKeyed [] = tt
by_name-IsKeyed (s ∷ servers) = (refl, by_name-IsKeyed servers)

pub by_name-IsNamed :
    (servers : List ServerRead) → Distinct (names servers) → IsNamed (by_name servers)
by_name-IsNamed servers d = record {
  keyed = by_name-IsKeyed servers;
  distinct = rw (keys-by_name servers) d;
}
