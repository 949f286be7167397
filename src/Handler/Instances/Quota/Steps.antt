-- ===== src/Handler/Instances/Quota/Steps.antt =====
-- The operations of the instance handler's client.go as steps between histories, and the quota that
-- they leave.
use native.Mathlib.Nat.{le_refl}
use uni_compute.Base.{ℕ, ◌≤◌, ◌≡◌, refl, String, Option, none, [], length}
use uni_compute.Base.Dict.{lookup}
use uni_compute.External.Catalog.{HandlerHistory, ServerAction}
use uni_compute.External.Handlers.{ApiEnv}
use uni_compute.OpenApi.{InstanceCreate, InstanceUpdate}
use uni_compute.Handler.Instances.Client.{delete_instance, act_on_instance}
use uni_compute.Handler.Instances.Write.{create, update}
use uni_compute.Handler.Instances.Quota.{ledger, IsBalanced, IsReliable}
use uni_compute.Handler.Instances.Quota.Sagas.{Balanced}
use uni_compute.Handler.Instances.Quota.Operations.{
  create-Balanced, update-Balanced, delete_instance-Balanced, act_on_instance-Balanced,
}

-- One operation of the handler, from a history to another. The names that a creation draws are not
-- in use.
pub data Step (env : ApiEnv) (h : HandlerHistory) (t : HandlerHistory) : Type 0 where
  created :
      (request : InstanceCreate)
      → ((k : ℕ)
          → length h ≤ k
          → lookup
              (env.metadata.new_object k request.metadata env.namespace).name
              (ledger env.write h).stored
            ≡ none)
      → t ≡ (create env request h).1
      → Step env h t
  updated :
      (id : String) (request : InstanceUpdate) → t ≡ (update env id request h).1 → Step env h t
  deleted : (id : String) → t ≡ (delete_instance env id h).1 → Step env h t
  acted :
      (action : ServerAction) (id : String) → t ≡ (act_on_instance env action id h).1 → Step env h t

-- The histories of any number of operations, one after the other.
pub data Reach (env : ApiEnv) : HandlerHistory → Type 0 where
  here : Reach env []
  next : {h t : HandlerHistory} → Reach env h → Step env h t → Reach env t

module _ (env : ApiEnv) (gpus : String → Option ℕ) (reliable : IsReliable env gpus) where
  Step-Balanced :
      {h t : HandlerHistory}
      → Step env h t
      → Balanced env gpus reliable h
      → Balanced env gpus reliable t
  Step-Balanced {h} (created request fresh e) b = rw e (
      create-Balanced env gpus reliable (ledger env.write h) (length h) b request h
        (refl, le_refl (length h)) fresh)
  Step-Balanced {h} (updated id request e) b = rw e (
      update-Balanced env gpus reliable (ledger env.write h) (length h) b id request h
        (refl, le_refl (length h)))
  Step-Balanced {h} (deleted id e) b = rw e (
      delete_instance-Balanced env gpus reliable (ledger env.write h) (length h) b id h
        (refl, le_refl (length h)))
  Step-Balanced {h} (acted action id e) b = rw e (
      act_on_instance-Balanced env gpus reliable (ledger env.write h) (length h) b action id h
        (refl, le_refl (length h)))

  -- After any sequence of creations, updates, deletions and power actions, whatever else the services
  -- answer, quota is allocated for exactly the instances that are stored, and for each of them as
  -- much as its flavor and its public IP take up. The services are reliable in that GPU counts of
  -- flavors are fixed, reads give what is stored, and requests that undo a step are accepted; and
  -- names that are drawn are not in use.
  pub Reach-IsBalanced : {h : HandlerHistory} → Reach env h → IsBalanced gpus (ledger env.write h)
  unfolding ledger lookup
  Reach-IsBalanced here = λ name. refl
  Reach-IsBalanced (next r step) = Step-Balanced step (Reach-IsBalanced r)
