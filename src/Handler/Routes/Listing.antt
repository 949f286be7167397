-- ===== src/Handler/Routes/Listing.antt =====
-- What the route of handler.go for the clusters of an organization shows, with `List` of client.go.
use uni_compute.Base.{
  ◌≡◌, refl, ◌∙◌, String, Bool, true, false, not, ◌&&◌, Option, List, [], ◌∷◌, map, delete_func,
  count, count-delete_func, count_cong, count-map, IsSorted-map, IsSorted-delete_func, arith,
}
use uni_compute.Base.Sort.{sort_by, sort_by-IsSorted, count-sort_by, IsSorted}
use uni_compute.Base.Result.{ok, err, panic}
use uni_compute.Base.Dict.{lookup_or}
use uni_compute.External.Core.{Conditions, Tag}
use uni_compute.External.Catalog.{HandlerRequest, HandlerHistory, Selector, among, absent}
use uni_compute.External.Handlers.{ApiEnv, Operation}
use uni_compute.Api.{ComputeCluster}
use uni_compute.OpenApi.{ComputeClusterRead}
use uni_compute.Cluster.Provision.{resource_api_version_label}
use uni_compute.Handler.Clusters
use uni_compute.Handler.Routes.{Content, uncacheable, get_clusters, is_forbidden}

rearranged : (a b c d : Bool) → not b ≡ d → (a && not b) && not (not c) ≡ a && (c && d)
rearranged true b true d e = ground (arith, e)
rearranged true b false d e = ground (arith, e)
rearranged false b c d e = refl

module _ (env : ApiEnv) (conditions : Conditions) (organization : String) where
  -- Version 1 clusters of the organization.
  abbrev pub listed : Selector
  listed =
      among env.metadata.organization_label (organization ∷ [])
      ∷ absent resource_api_version_label
      ∷ []

  -- May the user read the clusters of the project?
  abbrev pub may_read : String → Bool
  may_read project = elim (env.allow "compute:clusters" Operation.read organization project) [
    | ok _ ↦ true
    | err _ ↦ false
    | panic ↦ false
  ]

  -- A cluster that has the tags that were asked for, in a project that the user may read.
  abbrev pub is_visible : List Tag → ComputeCluster → Bool
  is_visible tags cluster =
      env.contains_all cluster.spec.tags tags
      && may_read (lookup_or "" env.metadata.project_label cluster.labels)

  is_forbidden-may_read :
      (cluster : ComputeCluster)
      → not (is_forbidden env conditions organization (Clusters.convert env conditions cluster))
        ≡ may_read (lookup_or "" env.metadata.project_label cluster.labels)
  unfolding Clusters.convert
  is_forbidden-may_read cluster = ground arith

  -- What the response shows: each visible cluster of `all` as often as it is there, in the order of
  -- the names, and nothing else. For any test, as many of the clusters shown pass it as of the visible
  -- ones. One request was sent.
  pub record ShowsVisible (tag : Option (List String)) (h : HandlerHistory)
      (all : List ComputeCluster) (tags : List Tag) : Type 0 where
    pub shown : List ComputeClusterRead
    pub is_answer : get_clusters env conditions organization tag h ≡ (
      ok (uncacheable 200 (Content.some_clusters shown)),
      HandlerRequest.list_clusters listed ∷ h,
    )
    pub is_sorted : IsSorted (λ c. c.name) shown
    pub is_counted :
        (p : ComputeClusterRead → Bool)
        → count p shown
          ≡ count (λ c. p (Clusters.convert env conditions c) && is_visible tags c) all

  -- If the clusters and the tags of the query can be read, the route for the version 1 clusters of an
  -- organization answers with the clusters that have these tags and are in a project that the user
  -- may read: each as often as Kubernetes has it, by name, and no other.
  pub get_clusters-ShowsVisible :
      (tag : Option (List String)) (h : HandlerHistory) (all : List ComputeCluster)
      (tags : List Tag)
      → env.clusters (HandlerRequest.list_clusters listed ∷ h) ≡ ok all
      → env.decode_tags tag ≡ ok tags
      → ShowsVisible tag h all tags
  unfolding get_clusters Clusters.list_clusters Clusters.convert
  get_clusters-ShowsVisible tag h all tags answer decoded =
      let kept = delete_func (λ c. not (env.contains_all c.spec.tags tags)) all in
      let items = map (Clusters.convert env conditions) (sort_by (λ c. c.name) kept) in
      let hidden = is_forbidden env conditions organization in
      record {
        shown = delete_func hidden items;
        is_answer = rw (answer, decoded) refl;
        is_sorted =
            IsSorted-delete_func (λ c. c.name) hidden items
              (IsSorted-map (λ c. c.name) (Clusters.convert env conditions)
                (sort_by (λ c. c.name) kept) (sort_by-IsSorted (λ c. c.name) kept));
        is_counted = λ p.
            let shows = λ (c : ComputeClusterRead). p c && not (hidden c) in
            let passes = λ (c : ComputeCluster). shows (Clusters.convert env conditions c) in
            count-delete_func p hidden items
            ∙ count-map shows (Clusters.convert env conditions) (sort_by (λ c. c.name) kept)
            ∙ count-sort_by (λ c. c.name) passes kept
            ∙ count-delete_func passes (λ c. not (env.contains_all c.spec.tags tags)) all
            ∙ count_cong _ _ all λ c.
              rearranged (p (Clusters.convert env conditions c))
                (hidden (Clusters.convert env conditions c)) (env.contains_all c.spec.tags tags)
                (may_read (lookup_or "" env.metadata.project_label c.labels))
                (is_forbidden-may_read c);
      }
