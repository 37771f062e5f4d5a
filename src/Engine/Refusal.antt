-- ===== src/Engine/Refusal.antt =====
-- When the engine leaves the server alone. The observer of these theorems sees nothing of the
-- calls that read or that only touch the custom resource, so what it sees unchanged is that no
-- driver was asked to create, update, delete, prepare or post-process anything.
use keycloak_operator.Base.{ℕ, true, false, ◌≡◌, ◌==◌, arith, inl, inr, Bool-cases}
use keycloak_operator.Errors.{Error, ok, err, is_not_found, Result-cases}
use keycloak_operator.Json.{Fields}
use keycloak_operator.Api.{Object, adoption_adopt, adoption_fail_if_exists}
use keycloak_operator.Platform.{Admin, Cluster}
use keycloak_operator.Driver.{Driver}
use keycloak_operator.Engine.{State}
use keycloak_operator.Engine.Keeps.{give_up-unseen, retry-unseen}
use keycloak_operator.Engine.Untouched.{
  IsBlindToCluster, Refuses, apply_spec-unseen, manage-unseen, reconcile-unseen,
}
use keycloak_operator.Engine.Lifecycle.{is_ours, handle_existing, read_and_apply, reconcile}

pub record IsBlindToReads {T W C : Type 0} (cluster : Cluster T W) (drv : Driver T W) (seen : W → C)
    : Type 0 where
  pub cluster_calls : IsBlindToCluster cluster seen
  pub get : (kc : Admin W) (o : Object T) (w : W) → seen (drv.get kc o w).1 ≡ seen w

module _ {T W C : Type 0} (cluster : Cluster T W) (drv : Driver T W) (resync : ℕ) (seen : W → C)
    (blind : IsBlindToReads cluster drv seen) where
  -- The resource exists, or the server cannot tell.
  abbrev pub NeverMissing : Object T → Type 0
  NeverMissing base =
      (kc : Admin W) (w : W) (e : Error) → (drv.get kc base w).0 ≡ err e → is_not_found e ≡ false

  -- What exists carries no marker, and no earlier pass has applied the object.
  abbrev pub NeverOurs : Object T → Type 0
  NeverOurs base =
      (kc : Admin W) (w : W) (remote : Fields)
      → (drv.get kc base w).0 ≡ ok remote
      → is_ours cluster drv resync base remote ≡ false

  handle_existing-refused :
      (base : Object T) (kc : Admin W) (spec_map payload remote : Fields) (s : State T W)
      → is_ours cluster drv resync base remote ≡ false
      → ((drv.spec base.spec).adoption == adoption_adopt) ≡ false
      → seen (handle_existing cluster drv resync base kc spec_map payload remote s).1.1 ≡ seen s.1
  unfolding handle_existing
  handle_existing-refused base kc spec_map payload remote s foreign no_adopt =
      rw (foreign, no_adopt)
        (elim (Bool-cases ((drv.spec base.spec).adoption == adoption_fail_if_exists)) [
          | inl f ↦
              rw f (give_up-unseen cluster seen blind.cluster_calls.status drv resync base _ _ 0 s)
          | inr f ↦
              rw f (give_up-unseen cluster seen blind.cluster_calls.status drv resync base _ _ 0 s)
        ])

  read_and_apply-refused :
      (base : Object T) (kc : Admin W) (spec_map payload : Fields) (w : W)
      → ((remote : Fields)
          → (drv.get kc base w).0 ≡ ok remote
          → (s : State T W)
          → seen (handle_existing cluster drv resync base kc spec_map payload remote s).1.1
            ≡ seen s.1)
      → ((e : Error) → (drv.get kc base w).0 ≡ err e → is_not_found e ≡ false)
      → seen (read_and_apply cluster drv resync base kc spec_map payload (base, w)).1.1 ≡ seen w
  unfolding read_and_apply
  read_and_apply-refused base kc spec_map payload w refused exists =
      elim (Result-cases (drv.get kc base w).0) [
        | inl (remote, e) ↦
            ground (arith, refused remote e (base, (drv.get kc base w).1), blind.get kc base w)
        | inr (x, e) ↦ ground (
          arith,
          exists x e,
          retry-unseen cluster seen blind.cluster_calls.status drv resync base "Server unreachable"
              x (base, (drv.get kc base w).1),
          blind.get kc base w,
        )
      ]

  unmanaged :
      (base : Object T) (w : W)
      → base.deleting ≡ false
      → Refuses cluster drv resync seen blind.cluster_calls base
      → seen (reconcile cluster drv resync (base, w)).1.1 ≡ seen w
  unmanaged base w alive refuses =
      reconcile-unseen cluster drv resync seen blind.cluster_calls base w alive (λ kc v.
        manage-unseen cluster drv resync seen blind.cluster_calls base kc v
          (apply_spec-unseen cluster drv resync seen blind.cluster_calls base kc v refuses))

  -- A resource of another origin is left alone until the object is deleted. Take an object that is
  -- not being deleted, was never applied, and whose adoption policy is not Adopt, and a server that
  -- answers each read with a resource without the marker, or with an error other than "not found".
  -- An observer who sees neither the reads nor the calls about the custom resource and its
  -- connection sees no change: nothing is created, updated or deleted.
  pub foreign_resource_untouched :
      (base : Object T) (w : W)
      → base.deleting ≡ false
      → ((drv.spec base.spec).adoption == adoption_adopt) ≡ false
      → NeverOurs base
      → NeverMissing base
      → seen (reconcile cluster drv resync (base, w)).1.1 ≡ seen w
  foreign_resource_untouched base w alive no_adopt foreign exists =
      unmanaged base w alive (λ kc m payload v.
        read_and_apply-refused base kc m payload v
          (λ remote e s.
            handle_existing-refused base kc m payload remote s (foreign kc v remote e) no_adopt)
          (λ e. exists kc v e))

  handle_existing-fail_if_exists :
      (base : Object T) (kc : Admin W) (spec_map payload remote : Fields) (s : State T W)
      → ((drv.spec base.spec).adoption == adoption_fail_if_exists) ≡ true
      → seen (handle_existing cluster drv resync base kc spec_map payload remote s).1.1 ≡ seen s.1
  unfolding handle_existing
  handle_existing-fail_if_exists base kc spec_map payload remote s f =
      rw f (give_up-unseen cluster seen blind.cluster_calls.status drv resync base _ _ 0 s)

  -- Under FailIfExists a resource that exists is left alone, until the object is deleted, even if
  -- it carries the marker or was applied before: where the object is not being deleted and no read
  -- is answered with "not found", an observer who sees neither the reads nor the calls about the
  -- custom resource and its connection sees no change, so that nothing is created, updated or
  -- deleted on the server.
  pub fail_if_exists_untouched :
      (base : Object T) (w : W)
      → base.deleting ≡ false
      → ((drv.spec base.spec).adoption == adoption_fail_if_exists) ≡ true
      → NeverMissing base
      → seen (reconcile cluster drv resync (base, w)).1.1 ≡ seen w
  fail_if_exists_untouched base w alive policy exists = unmanaged base w alive (λ kc m payload v.
      read_and_apply-refused base kc m payload v
        (λ remote e s. handle_existing-fail_if_exists base kc m payload remote s policy)
        (λ e. exists kc v e))
