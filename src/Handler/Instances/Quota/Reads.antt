-- ===== src/Handler/Instances/Quota/Reads.antt =====
-- What the instance handler of client.go reads before it writes leaves the ledger alone.
use uni_compute.Base.{
  ℕ, ◌≤◌, ◌≡◌, refl, ◌∙◌, Bool, true, false, Option, ◌∷◌, length, string_eq, arith, Option-cases,
  inl, inr,
}
use uni_compute.Base.Result.{ok}
use uni_compute.External.Env.{Reply, failed, replied}
use uni_compute.External.Catalog.{Flavor, Image, HandlerRequest, HandlerHistory}
use uni_compute.Cluster.State.{expect}
use uni_compute.Handler.Instances.{validate, validate_virtualization}
use uni_compute.Handler.Instances.Quota.{Ledger, post, ledger}

-- A request that changes what a service stores, or a server.
abbrev pub touches : HandlerRequest → Bool
touches (HandlerRequest.allocate _ _) = true
touches (HandlerRequest.reallocate _ _) = true
touches (HandlerRequest.release _) = true
touches (HandlerRequest.create_instance _) = true
touches (HandlerRequest.patch_instance _) = true
touches (HandlerRequest.delete_instance _) = true
touches (HandlerRequest.update_allocations _ _) = true
touches (HandlerRequest.patch_cluster _) = true
touches (HandlerRequest.delete_cluster _) = true
touches (HandlerRequest.act_on_server _ _ _ _ _) = true
touches (HandlerRequest.delete_server _ _ _ _) = true
touches (HandlerRequest.create_identity _ _ _) = true
touches (HandlerRequest.create_network _ _ _ _) = true
touches (HandlerRequest.create_allocations _ _) = true
touches (HandlerRequest.create_cluster _) = true
touches (HandlerRequest.act_on_server_v2 _ _) = true
touches (HandlerRequest.create_snapshot _ _) = true
touches _ = false

post_untouched : (r : HandlerRequest) (l : Ledger) → touches r ≡ false → post r l ≡ l
post_untouched (HandlerRequest.allocate _ _) l h = cc
post_untouched (HandlerRequest.reallocate _ _) l h = cc
post_untouched (HandlerRequest.release _) l h = cc
post_untouched (HandlerRequest.create_instance _) l h = cc
post_untouched (HandlerRequest.patch_instance _) l h = cc
post_untouched (HandlerRequest.delete_instance _) l h = cc
post_untouched (HandlerRequest.update_allocations _ _) l h = cc
post_untouched (HandlerRequest.patch_cluster _) l h = cc
post_untouched (HandlerRequest.delete_cluster _) l h = cc
post_untouched (HandlerRequest.act_on_server _ _ _ _ _) l h = cc
post_untouched (HandlerRequest.delete_server _ _ _ _) l h = cc
post_untouched (HandlerRequest.create_identity _ _ _) l h = cc
post_untouched (HandlerRequest.create_network _ _ _ _) l h = cc
post_untouched (HandlerRequest.create_allocations _ _) l h = cc
post_untouched (HandlerRequest.create_cluster _) l h = cc
post_untouched (HandlerRequest.act_on_server_v2 _ _) l h = cc
post_untouched (HandlerRequest.create_snapshot _ _) l h = cc
post_untouched _ l h = refl

-- What a request that only reads leaves as it is.
abbrev pub IsUnaffected : (HandlerHistory → Type 0) → Type 0
IsUnaffected I = (r : HandlerRequest) (h : HandlerHistory) → touches r ≡ false → I h → I (r ∷ h)

-- The history is one at which the ledger is `l`, and names that are drawn later are numbered from
-- `n`.
abbrev pub IsAt : (HandlerHistory → Option ℕ) → Ledger → ℕ → HandlerHistory → Type 0
IsAt refusal l n h = (ledger refusal h ≡ l) × (n ≤ length h)

-- A request that the ledger does not record.
pub IsAt-unrecorded :
    (refusal : HandlerHistory → Option ℕ) (l : Ledger) (n : ℕ) (r : HandlerRequest)
    (h : HandlerHistory)
    → ((m : Ledger) → post r m ≡ m)
    → IsAt refusal l n h
    → IsAt refusal l n (r ∷ h)
unfolding ledger
IsAt-unrecorded refusal l n r h same at = elim (Option-cases (refusal (r ∷ h))) [
  | inl e ↦ rw (e, ledger) (same (ledger refusal h) ∙ at.0, omega (arith, at.1))
  | inr (x, e) ↦ rw (e, ledger) (at.0, omega (arith, at.1))
]

pub IsAt-IsUnaffected :
    (refusal : HandlerHistory → Option ℕ) (l : Ledger) (n : ℕ) → IsUnaffected (IsAt refusal l n)
IsAt-IsUnaffected refusal l n r h quiet at =
    IsAt-unrecorded refusal l n r h (λ m. post_untouched r m quiet) at

pub expect-eq-ok :
    {A : Type 0} (code : ℕ) (reply : Reply A) (a : A)
    → expect code reply ≡ ok a
    → (c : ℕ) × (reply ≡ replied c a)
expect-eq-ok code (failed e) a h = cc
expect-eq-ok code (replied c b) a h = (c, ground (arith, h))

pub validate-eq-ok :
    (flavor f : Flavor) (image i : Image) → validate flavor image ≡ ok (f, i) → f ≡ flavor
unfolding validate validate_virtualization
validate-eq-ok flavor f image i h = ground arith
