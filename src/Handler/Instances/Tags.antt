-- ===== src/Handler/Instances/Tags.antt =====
-- The tags of a snapshot.
use uni_compute.Base.{
  ◌≡◌, refl, String, Bool, true, false, not, Option, none, some, List, [], ◌∷◌, ◌++◌, count,
  delete_func, count-append, ◌==◌, string_eq, arith, ==_self, ==_sound, ◌&&◌, ap, ◌∙◌,
}
use uni_compute.External.Core.{Tag}
use uni_compute.Handler.Instances.{
  has_prefix, system_tag_prefix, instance_id_tag, drop_system_tags, set_tag, snapshot_tags,
  list_or_nil,
}

-- A tag that is reserved for the service.
abbrev pub is_system : Tag → Bool
is_system tag = has_prefix tag.name system_tag_prefix

abbrev pub is_instance_tag : String → Tag → Bool
is_instance_tag id tag = tag.name == instance_id_tag && tag.value == id

count-system : (tags : List Tag) → count is_system (delete_func is_system tags) ≡ 0
count-system [] = refl
count-system (tag ∷ tags) = ground (arith, count-system tags)

count-user :
    (p : Tag → Bool) (tags : List Tag)
    → count (λ tag. p tag && not (is_system tag)) (delete_func is_system tags)
      ≡ count (λ tag. p tag && not (is_system tag)) tags
count-user p [] = refl
count-user p (tag ∷ tags) = ground (arith, count-user p tags)

instance_tag_is_system : has_prefix instance_id_tag system_tag_prefix ≡ true
unfolding has_prefix
instance_tag_is_system = refl

-- The tags, once those of the service were dropped.
kept_tags : Option (List Tag) → List Tag
kept_tags tags = delete_func is_system (list_or_nil tags)

snapshot_tags-eq :
    (id : String) (tags : Option (List Tag))
    → list_or_nil (snapshot_tags id tags)
      ≡ kept_tags tags ++ (record { name = instance_id_tag; value = id } ∷ [])
unfolding drop_system_tags set_tag kept_tags
snapshot_tags-eq id none = refl
snapshot_tags-eq id (some tags) = refl

count_none :
    (p : Tag → Bool) (tags : List Tag)
    → ((tag : Tag) → p tag ≡ true → is_system tag ≡ true)
    → count p (delete_func is_system tags) ≡ 0
count_none p [] h = refl
count_none p (tag ∷ tags) h = ground (arith, count_none p tags h, h tag)

instance-system : (id : String) (tag : Tag) → is_instance_tag id tag ≡ true → is_system tag ≡ true
instance-system id tag h =
    named tag.name (==_sound tag.name instance_id_tag (first (tag.name == instance_id_tag) _ h))
  where
    named : (name : String) → name ≡ instance_id_tag → has_prefix name system_tag_prefix ≡ true
    named name e = ap (λ n. has_prefix n system_tag_prefix) e ∙ instance_tag_is_system

    first : (a b : Bool) → (a && b) ≡ true → a ≡ true
    first true b h = refl
    first false b h = h

-- Whatever tags a user gives a snapshot, it is sent with exactly one tag of the service, which is
-- the instance's own; and of the user's other tags, each is sent as often as it was given.
pub snapshot_tags_lem :
    (id : String) (tags : Option (List Tag)) (p : Tag → Bool)
    → let sent = list_or_nil (snapshot_tags id tags) in
      (count is_system sent ≡ 1)
      × (count (is_instance_tag id) sent ≡ 1)
      × (count (λ tag. p tag && not (is_system tag)) sent
          ≡ count (λ tag. p tag && not (is_system tag)) (list_or_nil tags))
unfolding kept_tags
snapshot_tags_lem id tags p =
    let own : Tag = record { name = instance_id_tag; value = id } in
    let given = list_or_nil tags in
    let split = λ (q : Tag → Bool). count-append q (delete_func is_system given) (own ∷ []) in
    rw (snapshot_tags-eq id tags) (
      split is_system ∙ ground (arith, count-system given, instance_tag_is_system),
      split (is_instance_tag id)
          ∙ ground (
            arith,
            count_none (is_instance_tag id) given (instance-system id),
            ==_self instance_id_tag,
            ==_self id,
          ),
      split (λ tag. p tag && not (is_system tag))
          ∙ ground (arith, count-user p given, instance_tag_is_system),
    )
