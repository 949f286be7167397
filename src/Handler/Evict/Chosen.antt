-- ===== src/Handler/Evict/Chosen.antt =====
-- Which servers `Evict` takes out of the pools, and what it makes of the pools and the quota.
use uni_compute.Base.{
  ◌≡◌, refl, ◌⊎◌, String, Bool, false, not, ◌&&◌, ◌||◌, Option, none, some, List, [], ◌∷◌, map,
  find, count, length, All, contains, is_some, ◌==◌, string_eq, arith,
}
use uni_compute.Base.Int.{ℤ, pos, ◌+ℤ◌, ◌-ℤ◌, times}
use uni_compute.Base.Result.{ok, err, consistency}
use uni_compute.External.Region.{ServerRead}
use uni_compute.External.Catalog.{Flavor}
use uni_compute.Api.{ComputeClusterWorkloadPoolSpec}
use uni_compute.Status.Pools.{tagged}
use uni_compute.Handler.Evict.{chosen, commit}
use uni_compute.Handler.Evict.Pools.{reduced}

-- The server is named by the request and is not being deleted already.
abbrev pub is_evicted : List String → ServerRead → Bool
is_evicted ids server = elim server.deletion_time [ none ↦ contains ids server.id | some _ ↦ false ]

-- A pool with one server less for each evicted server that carries its tag.
abbrev pub less :
    List String → List ServerRead → ComputeClusterWorkloadPoolSpec → ComputeClusterWorkloadPoolSpec
less ids all pool = record pool {
  replicas =
      pool.replicas -ℤ pos (count (λ server. tagged pool.name server && is_evicted ids server) all);
}

-- `n`, and `f` of all elements.
abbrev pub sum_from {ℓ} : {A : Type ℓ} → (A → ℤ) → ℤ → List A → ℤ
sum_from f n [] = n
sum_from f n (x ∷ xs) = sum_from f (n +ℤ f x) xs

-- The GPUs of a pool, by the flavors of the region.
abbrev pub gpus : List Flavor → ComputeClusterWorkloadPoolSpec → ℤ
gpus all pool = elim (find (λ (f : Flavor). f.id == pool.flavor_id) all) [
  | none ↦ pos 0
  | some flavor ↦ elim flavor.gpu [ none ↦ pos 0 | some n ↦ times pool.replicas n ]
]

-- Every pool has a flavor of the region.
abbrev pub IsPriced : List Flavor → ComputeClusterWorkloadPoolSpec → Type 0
IsPriced all pool =
    (flavor : Flavor) × (find (λ (f : Flavor). f.id == pool.flavor_id) all ≡ some flavor)

pub commit-IsPriced :
    (all : List Flavor) (pools : List ComputeClusterWorkloadPoolSpec) (m n : ℤ)
    → All (IsPriced all) pools
    → (totals : ℤ × ℤ) × (commit all m n pools ≡ ok totals)
unfolding commit
commit-IsPriced all [] m n h = ((m, n), refl)
commit-IsPriced all (pool ∷ pools) m n ((flavor, e), h) =
    rw (e, commit) (commit-IsPriced all pools _ _ h)

pub commit-ok :
    (all : List Flavor) (pools : List ComputeClusterWorkloadPoolSpec) (m n : ℤ) {a b : ℤ}
    → commit all m n pools ≡ ok (a, b)
    → (a ≡ sum_from (λ pool. pool.replicas) m pools) × (b ≡ sum_from (gpus all) n pools)
unfolding commit
commit-ok all [] m n e = ground arith
commit-ok all (pool ∷ pools) m n {a} {b} e =
    by_flavor (find (λ (f : Flavor). f.id == pool.flavor_id) all)
      (λ m n a b. commit-ok all pools m n {a = a} {b = b}) e
  where
    held : Option Flavor → ℤ
    held o = elim o [
      | none ↦ pos 0
      | some flavor ↦ elim flavor.gpu [ none ↦ pos 0 | some k ↦ times pool.replicas k ]
    ]

    by_flavor :
        (o : Option Flavor)
        → ((m n a b : ℤ)
            → commit all m n pools ≡ ok (a, b)
            → (a ≡ sum_from (λ pool. pool.replicas) m pools) × (b ≡ sum_from (gpus all) n pools))
        → elim o [
          | none ↦ err consistency
          | some flavor ↦
              commit all
                (m +ℤ pool.replicas)
                (n +ℤ (elim flavor.gpu [ none ↦ pos 0 | some k ↦ times pool.replicas k ]))
                pools
        ]
          ≡ ok (a, b)
        → (a ≡ sum_from (λ pool. pool.replicas) (m +ℤ pool.replicas) pools)
          × (b ≡ sum_from (gpus all) (n +ℤ held o) pools)
    by_flavor none ih e = cc
    by_flavor (some flavor) ih e = ih _ _ _ _ e

module _ (ids : List String) where
  not_left_out :
      (server : ServerRead)
      → not (is_some server.deletion_time || not (contains ids server.id)) ≡ is_evicted ids server
  not_left_out server = ground arith

  pub length-chosen : (all : List ServerRead) → length (chosen ids all) ≡ count (is_evicted ids) all
  length-chosen [] = refl
  length-chosen (server ∷ all) = ground (arith, length-chosen all)

  count-chosen :
      (p : ServerRead → Bool) (all : List ServerRead)
      → count p (chosen ids all) ≡ count (λ server. p server && is_evicted ids server) all
  count-chosen p [] = refl
  count-chosen p (server ∷ all) = ground (arith, count-chosen p all)

  pub reduced-chosen :
      (all : List ServerRead) (pools : List ComputeClusterWorkloadPoolSpec)
      → map (reduced (chosen ids all)) pools ≡ map (less ids all) pools
  reduced-chosen all [] = refl
  reduced-chosen all (pool ∷ pools) =
      rw (count-chosen (tagged pool.name) all, reduced-chosen all pools) refl

  module _ (P : ServerRead → Type 0) where
    pub All-chosen :
        (all : List ServerRead)
        → All P (chosen ids all)
        → All (λ server. (is_evicted ids server ≡ false) ⊎ P server) all
    All-chosen [] h = tt
    All-chosen (server ∷ all) h = ground (arith, h, All-chosen all)

    pub chosen-All :
        (all : List ServerRead)
        → All (λ server. (is_evicted ids server ≡ false) ⊎ P server) all
        → All P (chosen ids all)
    chosen-All [] h = tt
    chosen-All (server ∷ all) h = ground (arith, h, chosen-All all h.1)
