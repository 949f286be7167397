-- ===== src/Handler/Instances/Quota.antt =====
-- The abstract view of what the instance handler of client.go has written: which quota is allocated
-- and which instances are stored, replayed from the accepted writes of its history.

pub mod Reads
pub mod Checks
pub mod Sagas
pub mod Operations
pub mod Steps
use uni_compute.Base.{
  ℕ, ◌≤◌, ◌≡◌, refl, String, Bool, true, false, Option, none, some, List, [], ◌∷◌, length, All,
  if◌then◌else◌, ◌==◌, string_eq, arith, ==_sound, Option-cases, inl, inr,
}
use uni_compute.Base.Dict.{Dict, lookup, insert, erase, lookup-insert, lookup-erase}
use uni_compute.Base.Int.{pos}
use uni_compute.Base.Result.{Result, ok, err, panic}
use uni_compute.External.Env.{Reply, replied}
use uni_compute.External.Catalog.{Flavor, Allocation, HandlerRequest, HandlerHistory, found}
use uni_compute.External.Handlers.{ApiEnv, IsSaga}
use uni_compute.External.Core.{AreBuilders}
use uni_compute.Api.{ComputeInstance}
use uni_compute.Api.Accessors.{public_ip_enabled}
use uni_compute.Handler.Instances.{generate_allocation}

pub record Ledger : Type 0 where
  pub quota : Dict (List Allocation)
  pub stored : Dict ComputeInstance

abbrev mark_deleted : String → Dict ComputeInstance → Dict ComputeInstance
mark_deleted name stored = elim (lookup name stored) [
  | none ↦ stored
  | some i ↦ insert name (record i { deleting = true }) stored
]

-- What an accepted request changes.
abbrev pub post : HandlerRequest → Ledger → Ledger
post (HandlerRequest.allocate i a) l = record l { quota = insert i.name a l.quota }
post (HandlerRequest.reallocate i a) l = record l { quota = insert i.name a l.quota }
post (HandlerRequest.release i) l = record l { quota = erase i.name l.quota }
post (HandlerRequest.create_instance i) l = record l { stored = insert i.name i l.stored }
post (HandlerRequest.patch_instance i) l = record l { stored = insert i.name i l.stored }
post (HandlerRequest.delete_instance name) l = record l { stored = mark_deleted name l.stored }
post _ l = l

-- The ledger after a history, where `refusal` answers a write with an error or accepts it.
unfoldable pub ledger : (HandlerHistory → Option ℕ) → HandlerHistory → Ledger
ledger refusal [] = record { quota = []; stored = [] }
ledger refusal (r ∷ h) =
    let l = ledger refusal h in elim (refusal (r ∷ h)) [ none ↦ post r l | some _ ↦ l ]

-- The quota that an instance takes up, if flavors have these numbers of GPUs.
abbrev pub quota_of : (String → Option ℕ) → ComputeInstance → List Allocation
quota_of gpus i =
    record { kind = "servers"; committed = pos 1 }
    ∷ record {
      kind = "gpus";
      committed = pos (elim (gpus i.spec.flavor_id) [ none ↦ 0 | some count ↦ count ]);
    }
    ∷ record { kind = "floatingips"; committed = pos (if public_ip_enabled i then 1 else 0) }
    ∷ []

abbrev quota_if : (String → Option ℕ) → Option ComputeInstance → Option (List Allocation)
quota_if gpus none = none
quota_if gpus (some i) = some (quota_of gpus i)

-- Quota is allocated for exactly the stored instances, and exactly what each takes up.
abbrev pub IsBalanced : (String → Option ℕ) → Ledger → Type 0
IsBalanced gpus l = (name : String) → lookup name l.quota ≡ quota_if gpus (lookup name l.stored)

-- What is relied on: the number of GPUs of a flavor never changes; a read of the Kubernetes API gives
-- what is stored; sagas and metadata behave as documented; and the requests with which a saga undoes
-- its first step are accepted.
pub record IsReliable (env : ApiEnv) (gpus : String → Option ℕ) : Type 1 where
  pub catalogue :
      (h : HandlerHistory) (code : ℕ) (all : List Flavor)
      → env.flavors h ≡ replied code all
      → All (λ f. f.gpu ≡ gpus f.id) all
  pub truthful :
      (h : HandlerHistory) (id : String) (i : ComputeInstance)
      → env.instance_read (HandlerRequest.get_instance id ∷ h) ≡ found i
      → lookup i.name (ledger env.write h).stored ≡ some i
  pub saga : IsSaga env.run_saga
  pub builders : AreBuilders env.metadata
  pub releases :
      (h : HandlerHistory) (i : ComputeInstance) → env.write (HandlerRequest.release i ∷ h) ≡ none
  pub reverts :
      (h : HandlerHistory) (i j : ComputeInstance) (a : List Allocation)
      → env.write (HandlerRequest.reallocate i a ∷ HandlerRequest.patch_instance j ∷ h) ≡ none

pub generate_allocation-eq-quota_of :
    (gpus : String → Option ℕ) (flavor : Flavor) (i : ComputeInstance)
    → flavor.gpu ≡ gpus i.spec.flavor_id
    → generate_allocation flavor (public_ip_enabled i) ≡ quota_of gpus i
unfolding generate_allocation
generate_allocation-eq-quota_of gpus flavor i e = rw e refl

module _ (gpus : String → Option ℕ) (l : Ledger) (balanced : IsBalanced gpus l) where
  -- Storing an instance with its quota.
  pub insert-IsBalanced :
      (i : ComputeInstance) (q : List Allocation)
      → q ≡ quota_of gpus i
      → IsBalanced gpus
          (record { quota = insert i.name q l.quota; stored = insert i.name i l.stored })
  insert-IsBalanced i q e name = rw e (
      ground (
        arith,
        lookup-insert name i.name (quota_of gpus i) l.quota,
        lookup-insert name i.name i l.stored,
        balanced name,
      ))

  -- Quota that was allocated for an instance that is not stored, and released again.
  pub release-IsBalanced :
      (name : String) (q : List Allocation)
      → lookup name l.stored ≡ none
      → IsBalanced gpus (record l { quota = erase name (insert name q l.quota) })
  release-IsBalanced name q fresh other = ground (
    arith,
    lookup-erase other name (insert name q l.quota),
    lookup-insert other name q l.quota,
    ==_sound name other,
    balanced other,
  )

  -- Quota that was changed and changed back.
  pub revert-IsBalanced :
      (i : ComputeInstance) (q back : List Allocation)
      → back ≡ quota_of gpus i
      → lookup i.name l.stored ≡ some i
      → IsBalanced gpus (record l { quota = insert i.name back (insert i.name q l.quota) })
  revert-IsBalanced i q back e stored name = rw e (
      ground (
        arith,
        lookup-insert name i.name (quota_of gpus i) (insert i.name q l.quota),
        lookup-insert name i.name q l.quota,
        ==_sound i.name name,
        balanced name,
      ))

  pub mark_deleted-IsBalanced :
      (name : String) → IsBalanced gpus (record l { stored = mark_deleted name l.stored })
  mark_deleted-IsBalanced name other = elim (Option-cases (lookup name l.stored)) [
    | inl e ↦ rw (e, mark_deleted) (balanced other)
    | inr (i, e) ↦
        rw (e, mark_deleted)
          (ground (
            arith,
            e,
            lookup-insert other name (record i { deleting = true }) l.stored,
            ==_sound name other,
            balanced other,
          ))
  ]
