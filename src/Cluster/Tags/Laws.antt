-- ===== src/Cluster/Tags/Laws.antt =====
-- The tags of a pool's resources name the pool, whatever tags the user gave the cluster.
use uni_compute.Base.{
  ◌≡◌, ◌≢◌, refl, ◌∙◌, ap, String, Option, none, some, List, [], ◌∷◌, ◌++◌, map, find, contains,
  Distinct, Distinct-append_one, ◌==◌, string_eq, if◌then◌else◌, Bool-cases, inl, inr, arith,
  is_some,
}
use uni_compute.Base.Result.{ok}
use uni_compute.External.Core.{Tag}
use uni_compute.External.Env.{Env}
use uni_compute.Api.{ComputeCluster}
use uni_compute.Status.{workload_pool_label, get_workload_pool_tag}
use uni_compute.Cluster.Tags.{has_tag, add_tags, tags}

abbrev pub tag_names : List Tag → List String
tag_names = map λ tag. tag.name

-- The first tag of a name.
unfoldable pub find_tag : String → List Tag → Option Tag
find_tag name = find (λ tag. tag.name == name)

find_tag-append_one :
    (name : String) (out : List Tag) (t : Tag)
    → find_tag name (out ++ (t ∷ [])) ≡ (
        if is_some (find_tag name out)
        then find_tag name out
        else if t.name == name
        then some t
        else none)
unfolding find_tag
find_tag-append_one name [] t = refl
find_tag-append_one name (u ∷ out) t = ground (arith, find_tag-append_one name out t)

find_tag-cons :
    (name : String) (t : Tag) (more : List Tag)
    → find_tag name (t ∷ more) ≡ (if t.name == name then some t else find_tag name more)
unfolding find_tag
find_tag-cons name t more = refl

is_some-find_tag : (name : String) (out : List Tag) → is_some (find_tag name out) ≡ has_tag name out
unfolding find_tag has_tag
is_some-find_tag name [] = refl
is_some-find_tag name (t ∷ out) = ground (arith, is_some-find_tag name out)

contains-tag_names :
    (name : String) (out : List Tag) → contains (tag_names out) name ≡ has_tag name out
unfolding has_tag
contains-tag_names name [] = refl
contains-tag_names name (t ∷ out) = ground (arith, contains-tag_names name out)

tag_names-append_one :
    (out : List Tag) (t : Tag) → tag_names (out ++ (t ∷ [])) ≡ tag_names out ++ (t.name ∷ [])
tag_names-append_one [] t = refl
tag_names-append_one (u ∷ out) t = ap (◌∷◌ u.name) (tag_names-append_one out t)

find_tag-none : (name : String) → find_tag name [] ≡ none
unfolding find_tag
find_tag-none name = refl

-- What is looked up after the loop: what was there before it, else the first of the new tags.
find_tag-add_tags :
    (name : String) (out more : List Tag)
    → find_tag name (add_tags out more)
      ≡ (if is_some (find_tag name out) then find_tag name out else find_tag name more)
unfolding add_tags
find_tag-add_tags name out [] = ground (arith, find_tag-none name)
find_tag-add_tags name out (t ∷ more) = ground (
  arith,
  find_tag-cons name t more,
  find_tag-add_tags name (if has_tag t.name out then out else out ++ (t ∷ [])) more,
  is_some-find_tag name out,
  is_some-find_tag t.name out,
  find_tag-append_one name out t,
)

add_tags-Distinct :
    (out more : List Tag) → Distinct (tag_names out) → Distinct (tag_names (add_tags out more))
unfolding add_tags
add_tags-Distinct out [] d = d
add_tags-Distinct out (t ∷ more) d = elim (Bool-cases (has_tag t.name out)) [
  | inl e ↦ rw e (add_tags-Distinct out more d)
  | inr e ↦ rw e (
      add_tags-Distinct (out ++ (t ∷ [])) more (
        rw (tag_names-append_one out t)
          (Distinct-append_one (tag_names out) t.name (contains-tag_names t.name out ∙ e) d)))
]

pool_tag_of_find :
    (ts : List Tag) (pool : String)
    → find_tag workload_pool_label ts ≡ some (record { name = workload_pool_label; value = pool })
    → get_workload_pool_tag (some ts) ≡ ok pool
unfolding find_tag get_workload_pool_tag
pool_tag_of_find ts pool e = rw (e, get_workload_pool_tag) refl

module _ (env : Env) (cluster : ComputeCluster) (pool : String) where
  own_tags : List Tag
  own_tags =
      record { name = env.compute_cluster_label; value = cluster.name }
      ∷ record { name = workload_pool_label; value = pool }
      ∷ []

  find_tag-tags :
      (name : String)
      → find_tag name (tags env cluster pool) ≡ (
          if env.compute_cluster_label == name
          then some (record { name = env.compute_cluster_label; value = cluster.name })
          else if workload_pool_label == name
          then some (record { name = workload_pool_label; value = pool })
          else find_tag name cluster.spec.tags)
  unfolding tags own_tags find_tag
  find_tag-tags name = ground (arith, find_tag-add_tags name own_tags cluster.spec.tags)

  -- The pool's name can be read back from the tags, and so can the cluster's; a tag of any other
  -- name has the value that the cluster's own tags give it first; and no name is tagged twice. The
  -- two labels of the services have to differ.
  pub tags_lem :
      env.compute_cluster_label ≢ workload_pool_label
      → (get_workload_pool_tag (some (tags env cluster pool)) ≡ ok pool)
        × Distinct (tag_names (tags env cluster pool))
        × ((name : String)
            → find_tag name (tags env cluster pool) ≡ (
                if env.compute_cluster_label == name
                then some (record { name = env.compute_cluster_label; value = cluster.name })
                else if workload_pool_label == name
                then some (record { name = workload_pool_label; value = pool })
                else find_tag name cluster.spec.tags))
  unfolding tags own_tags
  tags_lem differ = (
    pool_tag_of_find (tags env cluster pool) pool
        (rw (find_tag-tags workload_pool_label) (ground arith)),
    add_tags-Distinct own_tags cluster.spec.tags (ground arith, (refl, tt)),
    find_tag-tags,
  )
