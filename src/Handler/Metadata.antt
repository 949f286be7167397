-- ===== src/Handler/Metadata.antt =====
-- `metadataMutator` of the cluster handler's client.go: what an update keeps of a cluster's metadata.
use uni_compute.Base.{
  ◌≡◌, refl, String, ◌||◌, ◌&&◌, none, some, if◌then◌else◌, ◌==◌, string_eq, is_some, arith,
  Option-cases, inl, inr,
}
use uni_compute.Base.Dict.{Dict, lookup, insert, lookup-insert}
use uni_compute.External.Catalog.{HandlerEnv}
use uni_compute.Api.{ComputeCluster}

-- The value of a key, if the current object has one.
unfoldable pub preserve : String → Dict String → Dict String → Dict String
preserve key current required = elim (lookup key current) [
  | none ↦ required
  | some v ↦ insert key v required
]

lookup-preserve :
    (key name : String) (current required : Dict String)
    → lookup name (preserve key current required) ≡ (
        if key == name && is_some (lookup name current)
        then lookup name current
        else lookup name required)
unfolding preserve
lookup-preserve key name current required = elim (Option-cases (lookup key current)) [
  | inl e ↦ ground (arith, e)
  | inr (v, e) ↦ ground (arith, e, lookup-insert name key v required)
]

module _ (env : HandlerEnv) where
  -- `metadataMutator`, on the annotations and labels of the required object.
  unfoldable pub metadata_mutator : ComputeCluster → ComputeCluster → ComputeCluster
  metadata_mutator required current = record required {
    annotations =
        preserve env.allocation_annotation current.annotations
          (preserve env.identity_annotation current.annotations required.annotations);
    labels = preserve env.network_label current.labels required.labels;
  }

  -- The identity and allocation annotations and the network label keep the values that the current
  -- cluster has; where it has none, and for all other names, the required ones stand. Nothing else
  -- of the required cluster changes.
  pub metadata_mutator_lem :
      (required current : ComputeCluster) (name : String)
      → let merged = metadata_mutator required current in
        (lookup name merged.annotations ≡ (
          if (env.identity_annotation == name || env.allocation_annotation == name)
            && is_some (lookup name current.annotations)
          then lookup name current.annotations
          else lookup name required.annotations))
        × (lookup name merged.labels ≡ (
            if env.network_label == name && is_some (lookup name current.labels)
            then lookup name current.labels
            else lookup name required.labels))
        × (merged.spec ≡ required.spec)
        × (merged.status ≡ required.status)
  unfolding metadata_mutator
  metadata_mutator_lem required current name = (
    ground (
      arith,
      lookup-preserve env.allocation_annotation name current.annotations
          (preserve env.identity_annotation current.annotations required.annotations),
      lookup-preserve env.identity_annotation name current.annotations required.annotations,
    ),
    lookup-preserve env.network_label name current.labels required.labels,
    refl,
    refl,
  )
