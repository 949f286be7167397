-- ===== src/Cluster/ServerSet/Candidates.antt =====
-- Which server `selectDeletionCandidate` picks, and what is left without it.
use uni_compute.Base.{
  ◌≡◌, refl, String, Bool, true, ◌⊎◌, inl, inr, none, some, List, [], ◌∷◌, find, count, length,
  contains, All, ◌==◌, string_eq, Bool-cases, Option-cases, arith, ◌<◌,
}
use mathlib.Core.Option.{some-injective}
use uni_compute.Base.Dict.{values, lookup, erase, contains-keys, erase-Distinct}
use uni_compute.Base.Result.{ok, panic}
use uni_compute.External.Region.{ServerRead}
use uni_compute.Cluster.ServerSet.{ServerSet, prefer, select_deletion_candidate}
use uni_compute.Cluster.ServerSet.Laws.{IsKeyed, IsNamed}

-- Was the server asked to be deleted first?
abbrev pub is_preferred : List String → ServerRead → Bool
is_preferred ids server = contains ids server.id

-- A server that the set holds under its own name.
abbrev pub Holds : ServerSet → ServerRead → Type 0
Holds set server = lookup server.name set ≡ some server

IsNamed-tail : (e : String × ServerRead) (set : ServerSet) → IsNamed (e ∷ set) → IsNamed set
IsNamed-tail e set n = record { keyed = n.keyed.1; distinct = n.distinct.1 }

Holds-cons :
    (e : String × ServerRead) (set : ServerSet) (v : ServerRead)
    → IsNamed (e ∷ set)
    → Holds set v
    → Holds (e ∷ set) v
unfolding lookup
Holds-cons (k, w) set v n h = ground (arith, contains-keys v.name set, n.distinct.0)

Holds-head : (k : String) (v : ServerRead) (set : ServerSet) → k ≡ v.name → Holds ((k, v) ∷ set) v
unfolding lookup
Holds-head k v set e = ground arith

find-Holds :
    (q : ServerRead → Bool) (set : ServerSet) {v : ServerRead}
    → IsNamed set
    → find q (values set) ≡ some v
    → (q v ≡ true) × Holds set v
find-Holds q [] n h = cc
find-Holds q ((k, w) ∷ set) {v} n h = elim (Bool-cases (q w)) [
  | inl hit ↦
      let e : w ≡ v = some-injective w v (rw hit at h) in
      (rw (← e) hit, rw (← e) (Holds-head k w set n.keyed.0))
  | inr miss ↦
      let found = find-Holds q set {v = v} (IsNamed-tail (k, w) set n) (rw miss at h) in
      (found.0, Holds-cons (k, w) set v n found.1)
]

find-eq-none :
    (q : ServerRead → Bool) (servers : List ServerRead)
    → find q servers ≡ none
    → count q servers ≡ 0
find-eq-none q [] h = refl
find-eq-none q (w ∷ servers) h = ground (arith, find-eq-none q servers)

count-cons_id :
    (id : String) (ids : List String) (servers : List ServerRead)
    → count (λ server. server.id == id) servers ≡ 0
    → count (is_preferred (id ∷ ids)) servers ≡ count (is_preferred ids) servers
count-cons_id id ids [] h = refl
count-cons_id id ids (w ∷ servers) h = ground (arith, count-cons_id id ids servers)

count_none : (servers : List ServerRead) → count (is_preferred []) servers ≡ 0
count_none [] = refl
count_none (w ∷ servers) = count_none servers

-- What a pick is: a server of the set, and a preferred one unless the set has none.
pub record Picks (ids : List String) (set : ServerSet) (server : ServerRead) : Type 0 where
  pub held : Holds set server
  pub favours : (is_preferred ids server ≡ true) ⊎ (count (is_preferred ids) (values set) ≡ 0)

-- The first server of a set that is not empty.
pick_first :
    (set : ServerSet)
    → IsNamed set
    → 0 < length set
    → (v : ServerRead) × (prefer (values set) [] ≡ ok v) × Picks [] set v
unfolding prefer
pick_first [] n h = absurd (omega arith)
pick_first ((k, w) ∷ set) n h = (
  w,
  refl,
  record {
    held = Holds-head k w set n.keyed.0;
    favours = inr (count_none (values ((k, w) ∷ set)));
  },
)

prefer-Picks :
    (ids : List String) (set : ServerSet)
    → IsNamed set
    → 0 < length set
    → (v : ServerRead) × (prefer (values set) ids ≡ ok v) × Picks ids set v
unfolding prefer
prefer-Picks [] set n h = pick_first set n h
prefer-Picks (id ∷ ids) set n h =
    elim (Option-cases (find (λ (server : ServerRead). server.id == id) (values set))) [
      | inr (v, e) ↦
          let found = find-Holds (λ server. server.id == id) set {v = v} n e in
          (v, rw (e, prefer), record { held = found.1; favours = inl (ground (arith, found.0)) })
      | inl e ↦
          let (v, picked, p) = prefer-Picks ids set n h in
          (
            v,
            rw (e, prefer) picked,
            record {
              held = p.held;
              favours = ground (
                arith,
                p.favours,
                count-cons_id id ids (values set) (find-eq-none _ (values set) e),
              );
            },
          )
    ]

prefer-nil : (ids : List String) → prefer [] ids ≡ panic
unfolding prefer
prefer-nil [] = refl
prefer-nil (id ∷ ids) = prefer-nil ids

-- From an empty set the choice panics. Every other set has a candidate, which it holds, and which is
-- one of the preferred servers if the set has any of these.
pub select_deletion_candidate-Picks :
    (ids : List String) (set : ServerSet)
    → IsNamed set
    → (select_deletion_candidate [] ids ≡ panic)
      × ((set ≡ [])
          ⊎ ((v : ServerRead) × (select_deletion_candidate set ids ≡ ok v) × Picks ids set v))
unfolding select_deletion_candidate
select_deletion_candidate-Picks ids [] n = (prefer-nil ids, inl refl)
select_deletion_candidate-Picks ids (e ∷ set) n =
    (prefer-nil ids, inr (prefer-Picks ids (e ∷ set) n (omega arith)))

-- The candidate of a set that is not empty.
pub candidate :
    (ids : List String) (set : ServerSet)
    → IsNamed set
    → 0 < length set
    → (v : ServerRead) × (select_deletion_candidate set ids ≡ ok v) × Picks ids set v
unfolding select_deletion_candidate
candidate ids set n h = prefer-Picks ids set n h

IsKeyed-erase : (k : String) (set : ServerSet) → All IsKeyed set → All IsKeyed (erase k set)
unfolding erase
IsKeyed-erase k [] h = tt
IsKeyed-erase k (e ∷ set) h = ground (arith, IsKeyed-erase k set h.1)

pub erase-IsNamed : (k : String) (set : ServerSet) → IsNamed set → IsNamed (erase k set)
erase-IsNamed k set n = record {
  keyed = IsKeyed-erase k set n.keyed;
  distinct = erase-Distinct k set n.distinct;
}
