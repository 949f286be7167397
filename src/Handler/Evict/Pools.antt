-- ===== src/Handler/Evict/Pools.antt =====
-- What the loop of `Evict` does to the pools.
use uni_compute.Base.{
  ◌≡◌, refl, ◌∙◌, sym, ap, String, true, false, List, [], ◌∷◌, map, count, All, Distinct, contains,
  Bool-cases, ◌⊎◌, inl, inr, if◌then◌else◌, ◌==◌, string_eq, arith,
}
use uni_compute.Base.Int.{pos, ◌-ℤ◌, -ℤ_zero, -ℤ_suc}
use uni_compute.Base.Result.{ok, ◌>>=◌, >>=-eq-ok}
use uni_compute.External.Region.{ServerRead}
use uni_compute.Api.{ComputeClusterWorkloadPoolSpec}
use uni_compute.Status.{get_workload_pool_tag}
use uni_compute.Status.Pools.{tagged}
use uni_compute.Handler.Evict.{decrement, take_out}

abbrev pub names_of : List ComputeClusterWorkloadPoolSpec → List String
names_of = map λ pool. pool.name

-- A pool with one server less for each of the servers that carries its tag.
abbrev pub reduced :
    List ServerRead → ComputeClusterWorkloadPoolSpec → ComputeClusterWorkloadPoolSpec
reduced servers pool = record pool {
  replicas = pool.replicas -ℤ pos (count (tagged pool.name) servers);
}

-- The server carries the tag of one of the pools.
abbrev pub BelongsTo : List ComputeClusterWorkloadPoolSpec → ServerRead → Type 0
BelongsTo pools server =
    (name : String) × (get_workload_pool_tag server.tags ≡ ok name)
    × (contains (names_of pools) name ≡ true)

abbrev one_less : String → ComputeClusterWorkloadPoolSpec → ComputeClusterWorkloadPoolSpec
one_less name pool =
    if pool.name == name then record pool { replicas = pool.replicas -ℤ pos 1 } else pool

one_less-missing :
    (name : String) (pools : List ComputeClusterWorkloadPoolSpec)
    → contains (names_of pools) name ≡ false
    → map (one_less name) pools ≡ pools
one_less-missing name [] h = refl
one_less-missing name (pool ∷ pools) h = ground (arith, one_less-missing name pools)

decrement-ok :
    (name : String) (pools : List ComputeClusterWorkloadPoolSpec)
    → Distinct (names_of pools)
    → contains (names_of pools) name ≡ true
    → decrement name pools ≡ ok (map (one_less name) pools)
unfolding decrement
decrement-ok name [] d h = cc
decrement-ok name (pool ∷ pools) d h =
    ground (arith, one_less-missing name pools, decrement-ok name pools d.1)

names-one_less :
    (name : String) (pools : List ComputeClusterWorkloadPoolSpec)
    → names_of (map (one_less name) pools) ≡ names_of pools
names-one_less name [] = refl
names-one_less name (pool ∷ pools) = ground (arith, names-one_less name pools)

reduced_none : (pools : List ComputeClusterWorkloadPoolSpec) → map (reduced []) pools ≡ pools
reduced_none [] = refl
reduced_none (pool ∷ pools) = ground (arith, -ℤ_zero pool.replicas, reduced_none pools)

reduced-one_less :
    (server : ServerRead) (rest : List ServerRead) {name : String}
    (pools : List ComputeClusterWorkloadPoolSpec)
    → get_workload_pool_tag server.tags ≡ ok name
    → map (reduced rest) (map (one_less name) pools) ≡ map (reduced (server ∷ rest)) pools
reduced-one_less server rest {name} [] e = refl
reduced-one_less server rest {name} (pool ∷ pools) e = ground (
  arith,
  -ℤ_suc pool.replicas (count (tagged pool.name) rest),
  reduced-one_less server rest {name = name} pools,
)

-- If the pools have distinct names and every server belongs to one, each pool loses exactly as
-- many replicas as servers carry its tag, and nothing else changes.
pub take_out_lem :
    (servers : List ServerRead) (pools : List ComputeClusterWorkloadPoolSpec)
    → Distinct (names_of pools)
    → All (BelongsTo pools) servers
    → take_out servers pools ≡ ok (map (reduced servers) pools)
unfolding take_out
take_out_lem [] pools d h = ap ok (sym (reduced_none pools))
take_out_lem (server ∷ rest) pools d ((name, tag, here), hs) =
    let less = map (one_less name) pools in
    let same = names-one_less name pools in
    rw (tag, ◌>>=◌, decrement-ok name pools d here)
      (take_out_lem rest less (rw same d) (moved rest hs)
        ∙ ap ok (reduced-one_less server rest pools tag))
  where
    moved :
        (servers : List ServerRead)
        → All (BelongsTo pools) servers
        → All (BelongsTo (map (one_less name) pools)) servers
    moved [] hs = tt
    moved (s ∷ servers) ((n, t, c), hs) =
        ((n, t, rw (names-one_less name pools) c), moved servers hs)

decrement-eq-ok :
    (name : String) (pools : List ComputeClusterWorkloadPoolSpec)
    {fewer : List ComputeClusterWorkloadPoolSpec}
    → decrement name pools ≡ ok fewer
    → (contains (names_of pools) name ≡ true) × (names_of fewer ≡ names_of pools)
unfolding decrement
decrement-eq-ok name [] e = cc
decrement-eq-ok name (pool ∷ pools) {fewer} e =
    at_first (Bool-cases (pool.name == name)) (λ less. decrement-eq-ok name pools {fewer = less})
  where
    at_first :
        ((pool.name == name) ≡ true) ⊎ ((pool.name == name) ≡ false)
        → ((less : List ComputeClusterWorkloadPoolSpec)
            → decrement name pools ≡ ok less
            → (contains (names_of pools) name ≡ true) × (names_of less ≡ names_of pools))
        → (contains (names_of (pool ∷ pools)) name ≡ true)
          × (names_of fewer ≡ names_of (pool ∷ pools))
    at_first (inl same) ih = ground arith
    at_first (inr differ) ih =
        let (less, taken, last) =
          >>=-eq-ok (decrement name pools) (λ less. ok (pool ∷ less)) (rw differ at e) in
        let (here, names) = ih less taken in ground arith

-- If the loop succeeds, every server belongs to one of the pools.
pub take_out-BelongsTo :
    (servers : List ServerRead) (pools : List ComputeClusterWorkloadPoolSpec)
    {fewer : List ComputeClusterWorkloadPoolSpec}
    → take_out servers pools ≡ ok fewer
    → All (BelongsTo pools) servers
unfolding take_out
take_out-BelongsTo [] pools e = tt
take_out-BelongsTo (server ∷ rest) pools e =
    let (name, tag, e₁) = >>=-eq-ok (get_workload_pool_tag server.tags) _ e in
    let (less, taken, e₂) = >>=-eq-ok (decrement name pools) _ e₁ in
    let (here, same) = decrement-eq-ok name pools taken in
    ((name, tag, here), stays less same rest (take_out-BelongsTo rest less e₂))
  where
    stays :
        (less : List ComputeClusterWorkloadPoolSpec)
        → names_of less ≡ names_of pools
        → (servers : List ServerRead) → All (BelongsTo less) servers
        → All (BelongsTo pools) servers
    stays less same [] hs = tt
    stays less same (s ∷ servers) ((n, t, c), hs) =
        ((n, t, ap (λ names. contains names n) (sym same) ∙ c), stays less same servers hs)
