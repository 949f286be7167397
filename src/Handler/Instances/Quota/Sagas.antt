-- ===== src/Handler/Instances/Quota/Sagas.antt =====
-- `createSaga` and `updateSaga` of the instance handler's client.go keep the ledger balanced.
use uni_compute.Base.{ℕ, ◌≡◌, refl, ap, String, Option, none, some, [], ◌∷◌, Option-cases, inl, inr}
use uni_compute.Base.Dict.{lookup}
use uni_compute.Base.Result.{Error, ok, err, transport}
use uni_compute.External.Catalog.{Flavor, HandlerRequest, HandlerHistory}
use uni_compute.External.Handlers.{ApiEnv, Action, Saga, IsSaga, undone}
use uni_compute.Api.{ComputeInstance}
use uni_compute.Api.Accessors.{public_ip_enabled}
use uni_compute.Handler.Client.{write}
use uni_compute.Handler.Instances.{generate_allocation}
use uni_compute.Handler.Instances.Write.{
  SagaState, create_allocation, delete_allocation, store_instance, create_action, store_action,
  create_actions, change_allocation, update_instance, change_action, patch_action, update_actions,
  run,
}
use uni_compute.Handler.Instances.Quota.{
  post, ledger, IsBalanced, IsReliable, generate_allocation-eq-quota_of, insert-IsBalanced,
  release-IsBalanced, revert-IsBalanced,
}

module _ (refusal : HandlerHistory → Option ℕ) where
  pub ledger_accepted :
      (r : HandlerRequest) (h : HandlerHistory)
      → refusal (r ∷ h) ≡ none
      → ledger refusal (r ∷ h) ≡ post r (ledger refusal h)
  unfolding ledger
  ledger_accepted r h e = rw (e, ledger) refl

  pub ledger_refused :
      (r : HandlerRequest) (h : HandlerHistory) {x : ℕ}
      → refusal (r ∷ h) ≡ some x
      → ledger refusal (r ∷ h) ≡ ledger refusal h
  unfolding ledger
  ledger_refused r h e = rw (e, ledger) refl

module _ {S : Type 0} (saga : Saga) (behaves : IsSaga saga) (a b : Action S) where
  -- The state after a saga of two actions.
  pub saga_refused : (s t : S) (e : Error) → a.run s ≡ (err e, t) → (saga S (a ∷ b ∷ []) s).1 ≡ t
  saga_refused s t e h = ap (λ o. o.1) (behaves.failed S a (b ∷ []) s t e h)

  pub saga_done :
      (s t u : S) → a.run s ≡ (ok tt, t) → b.run t ≡ (ok tt, u) → (saga S (a ∷ b ∷ []) s).1 ≡ u
  saga_done s t u h k =
      let rest = behaves.succeeded S b [] t u u k (behaves.finished S u) in
      ap (λ o. o.1) (behaves.succeeded S a (b ∷ []) s t u h rest)

  pub saga_undone :
      (s t u : S) (e : Error)
      → a.run s ≡ (ok tt, t)
      → b.run t ≡ (err e, u)
      → (saga S (a ∷ b ∷ []) s).1 ≡ undone a u
  saga_undone s t u e h k =
      let (_, run_) = behaves.compensated S a (b ∷ []) s t u e h (behaves.failed S b [] t u e k) in
      ap (λ o. o.1) run_

module _ (env : ApiEnv) (gpus : String → Option ℕ) (reliable : IsReliable env gpus) where
  abbrev pub Balanced : HandlerHistory → Type 0
  Balanced h = IsBalanced gpus (ledger env.write h)

  pub run_create-IsBalanced :
      (flavor : Flavor) (i : ComputeInstance) (h : HandlerHistory)
      → Balanced h
      → lookup i.name (ledger env.write h).stored ≡ none
      → flavor.gpu ≡ gpus i.spec.flavor_id
      → Balanced (run env i (create_actions env flavor) h).1
  unfolding run create_allocation delete_allocation store_instance write
  run_create-IsBalanced flavor i h balanced fresh counted =
      let l = ledger env.write h in
      let q = generate_allocation flavor (public_ip_enabled i) in
      let priced = generate_allocation-eq-quota_of gpus flavor i counted in
      let r = HandlerRequest.allocate i q in
      let s : SagaState = record { resource = i; sent = h } in
      let noted : ComputeInstance = record i {
        annotations = env.allocated (r ∷ h) i.annotations;
      } in
      let t : SagaState = record { resource = noted; sent = r ∷ h } in
      let c = HandlerRequest.create_instance noted in
      let u : SagaState = record { resource = noted; sent = c ∷ r ∷ h } in
      let d = HandlerRequest.release noted in
      let a : Action SagaState = create_action env flavor in
      let b : Action SagaState = store_action env in
      elim (Option-cases (env.write (r ∷ h))) [
        | inr (x, refused) ↦
            rw
              (saga_refused env.run_saga reliable.saga a b s (record s { sent = r ∷ h })
                (transport x) (rw refused refl))
              (rw (ledger_refused env.write r h {x = x} refused) balanced)
        | inl granted ↦ elim (Option-cases (env.write (c ∷ r ∷ h))) [
          | inl stored ↦
              rw (saga_done env.run_saga reliable.saga a b s t u (rw granted refl) (rw stored refl))
                (rw
                  (
                    ledger_accepted env.write c (r ∷ h) stored,
                    ledger_accepted env.write r h granted,
                  )
                  (insert-IsBalanced gpus l balanced noted q priced))
          | inr (x, refused) ↦
              rw
                (saga_undone env.run_saga reliable.saga a b s t u (transport x) (rw granted refl)
                  (rw refused refl))
                (rw
                  (
                    ledger_accepted env.write d (c ∷ r ∷ h) (reliable.releases (c ∷ r ∷ h) noted),
                    ledger_refused env.write c (r ∷ h) {x = x} refused,
                    ledger_accepted env.write r h granted,
                  )
                  (release-IsBalanced gpus l balanced i.name q fresh))
        ]
      ]

  pub run_update-IsBalanced :
      (current updated : ComputeInstance) (current_flavor flavor : Flavor) (h : HandlerHistory)
      → Balanced h
      → lookup current.name (ledger env.write h).stored ≡ some current
      → updated.name ≡ current.name
      → current_flavor.gpu ≡ gpus current.spec.flavor_id
      → flavor.gpu ≡ gpus updated.spec.flavor_id
      → Balanced (run env updated (update_actions env current updated current_flavor flavor) h).1
  unfolding run change_allocation update_instance write
  run_update-IsBalanced current updated current_flavor flavor h balanced stored named before
        after_ =
      let l = ledger env.write h in
      let q = generate_allocation flavor (public_ip_enabled updated) in
      let back = generate_allocation current_flavor (public_ip_enabled current) in
      let r = HandlerRequest.reallocate current q in
      let s : SagaState = record { resource = updated; sent = h } in
      let t : SagaState = record s { sent = r ∷ h } in
      let c = HandlerRequest.patch_instance updated in
      let u : SagaState = record s { sent = c ∷ r ∷ h } in
      let d = HandlerRequest.reallocate current back in
      let a : Action SagaState = change_action env current updated current_flavor flavor in
      let b : Action SagaState = patch_action env in
      elim (Option-cases (env.write (r ∷ h))) [
        | inr (x, refused) ↦
            rw (saga_refused env.run_saga reliable.saga a b s t (transport x) (rw refused refl))
              (rw (ledger_refused env.write r h {x = x} refused) balanced)
        | inl granted ↦ elim (Option-cases (env.write (c ∷ r ∷ h))) [
          | inl patched ↦
              rw
                (saga_done env.run_saga reliable.saga a b s t u (rw granted refl) (rw patched refl))
                (rw
                  (
                    ledger_accepted env.write c (r ∷ h) patched,
                    ledger_accepted env.write r h granted,
                    ← named,
                  )
                  (insert-IsBalanced gpus l balanced updated q
                    (generate_allocation-eq-quota_of gpus flavor updated after_)))
          | inr (x, refused) ↦
              rw
                (saga_undone env.run_saga reliable.saga a b s t u (transport x) (rw granted refl)
                  (rw refused refl))
                (rw
                  (
                    ledger_accepted env.write d (c ∷ r ∷ h)
                        (reliable.reverts (r ∷ h) current updated back),
                    ledger_refused env.write c (r ∷ h) {x = x} refused,
                    ledger_accepted env.write r h granted,
                  )
                  (revert-IsBalanced gpus l balanced current q back
                    (generate_allocation-eq-quota_of gpus current_flavor current before) stored))
        ]
      ]
