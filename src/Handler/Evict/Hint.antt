-- ===== src/Handler/Evict/Hint.antt =====
-- The deletion hint carries the servers from the handler to the provisioner.
use Prim.Native.Char.{Char, code}
use text.Mathlib.TextLemmas.{nil-append, cons-append}
use uni_compute.Base.{
  ◌≡◌, refl, String, Bool, false, ◌||◌, some, List, [], ◌∷◌, ◌<>◌, All, eqb, arith, string_eq, ◌∙◌,
  ap, ==_self,
}
use uni_compute.Base.Dict.{lookup, lookup-insert}
use uni_compute.Api.{ComputeCluster, ComputeClusterWorkloadPoolSpec}
use uni_compute.Cluster.ServerSet.{split_commas, extend_part}
use uni_compute.Cluster.Reconcile.{deletion_hint, preferred_deletion_ids}
use uni_compute.Handler.Evict.{join_commas, evicted}

abbrev pub has_comma : String → Bool
has_comma String.[] = false
has_comma (String.◌∷◌ c s) = eqb (code c) b',' || has_comma s

-- No comma stands in the text.
abbrev pub IsPlain : String → Type 0
IsPlain s = has_comma s ≡ false

-- The character joins the part.
extend_part-cons :
    (c : Char) (part : String) (parts : List String)
    → extend_part (String.◌∷◌ c "") (part ∷ parts) ≡ String.◌∷◌ c part ∷ parts
extend_part-cons c part parts = rw (cons-append c "" part, nil-append part) refl

comma_cons : (t : String) → "," <> t ≡ String.◌∷◌ "," t
comma_cons t = rw (cons-append "," "" t, nil-append t) refl

split_commas-plain : (s : String) → IsPlain s → split_commas s ≡ s ∷ []
unfolding split_commas
split_commas-plain String.[] h = refl
split_commas-plain (String.◌∷◌ c s) h =
    ground (arith, split_commas-plain s, extend_part-cons c s [])

split_commas-cons : (s t : String) → IsPlain s → split_commas (s <> ("," <> t)) ≡ s ∷ split_commas t
unfolding split_commas
split_commas-cons String.[] t h = rw (nil-append ("," <> t), comma_cons t, split_commas) refl
split_commas-cons (String.◌∷◌ c s) t h =
    rw (cons-append c s ("," <> t), split_commas)
      (ground (arith, split_commas-cons s t, extend_part-cons c s (split_commas t)))

split_commas-join_commas :
    (id : String) (ids : List String)
    → All IsPlain (id ∷ ids)
    → split_commas (join_commas (id ∷ ids)) ≡ id ∷ ids
unfolding join_commas
split_commas-join_commas id [] h = split_commas-plain id h.0
split_commas-join_commas id (next ∷ ids) h =
    split_commas-cons id (join_commas (next ∷ ids)) h.0
    ∙ ap (λ rest. id ∷ rest) (split_commas-join_commas next ids h.1)

preferred_deletion_ids-hint :
    (cluster : ComputeCluster) {hint : String}
    → lookup deletion_hint cluster.annotations ≡ some hint
    → preferred_deletion_ids cluster ≡ split_commas hint
unfolding preferred_deletion_ids
preferred_deletion_ids-hint cluster e = rw (e, preferred_deletion_ids) refl

-- The provisioner reads from an evicted cluster the servers that were to be evicted, in their
-- order, if there are any and no ID has a comma in it.
pub preferred_deletion_ids-evicted :
    (id : String) (ids : List String) (pools : List ComputeClusterWorkloadPoolSpec)
    (cluster : ComputeCluster)
    → All IsPlain (id ∷ ids)
    → preferred_deletion_ids (evicted (id ∷ ids) pools cluster) ≡ id ∷ ids
unfolding preferred_deletion_ids
preferred_deletion_ids-evicted id ids pools cluster h =
    preferred_deletion_ids-hint (evicted (id ∷ ids) pools cluster) (
      lookup-insert deletion_hint deletion_hint (join_commas (id ∷ ids)) cluster.annotations
      ∙ rw (==_self deletion_hint) refl)
    ∙ split_commas-join_commas id ids h
