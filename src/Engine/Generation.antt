-- ===== src/Engine/Generation.antt =====
-- The observed generation that a pass leaves on the object.
use keycloak_operator.Base.{ℕ, String, Bool, true, false, ◌≡◌, ◌∙◌, ap, arith}
use keycloak_operator.Errors.{ok}
use keycloak_operator.Json.{Fields, object}
use keycloak_operator.Json.Text.{text_eq, marshal}
use keycloak_operator.Api.{Object, ConditionStatus, ResourceStatus}
use keycloak_operator.Platform.{Cluster}
use keycloak_operator.Engine.{State}
use keycloak_operator.Engine.Status.{set_condition, succeed, finalize}
use keycloak_operator.Engine.Conditions.{IsDocumented, patch_status_of-status}

module _ {T W : Type 0} (cluster : Cluster T W) (laws : IsDocumented cluster) where
  generation-set_condition :
      (base : Object T) (t : String) (v : ConditionStatus) (reason message : String) (s : State T W)
      → (set_condition cluster base t v reason message s).1.0.status.observed_generation
        ≡ s.0.status.observed_generation
  unfolding set_condition
  generation-set_condition base t v reason message s =
      ap (λ (st : ResourceStatus). st.observed_generation)
        (patch_status_of-status cluster laws base _)

  generation-succeed :
      (resync : ℕ) (base : Object T) (synced : Bool) (s : State T W)
      → (succeed cluster resync base synced s).1.0.status.observed_generation
        ≡ s.0.status.observed_generation
  unfolding succeed
  generation-succeed resync base synced s =
      generation-set_condition base _ _ _ _ _ ∙ generation-set_condition base _ _ _ _ s

  -- The object that `finalize` patches: with the new generation and the new annotation.
  abbrev pub sent : Object T → Fields → Object T
  sent base spec_map = record base {
    status = record base.status { observed_generation = base.generation };
    last_applied = marshal (object spec_map);
  }

  finalize-patched :
      (resync : ℕ) (base o : Object T) (spec_map : Fields) (synced : Bool) (w v : W)
      → text_eq base.last_applied (marshal (object spec_map)) ≡ false
      → cluster.patch_object (sent base spec_map) base w ≡ (ok o, v)
      → finalize cluster resync base spec_map synced (base, w)
        ≡ succeed cluster resync base synced (o, v)
  unfolding finalize
  finalize-patched resync base o spec_map synced w v changed patched = ground arith

  -- The pass that records a changed spec leaves the old generation. Where the annotation is new,
  -- and the API server answers its patch with the generation that the status had, as it does for a
  -- kind whose status is a subresource, the object ends with the observed generation that it was
  -- read with, and not with its present one.
  pub finalize_leaves_old_generation :
      (resync : ℕ) (base o : Object T) (spec_map : Fields) (synced : Bool) (w v : W)
      → text_eq base.last_applied (marshal (object spec_map)) ≡ false
      → cluster.patch_object (sent base spec_map) base w ≡ (ok o, v)
      → o.status.observed_generation ≡ base.status.observed_generation
      → (finalize cluster resync base spec_map synced (base, w)).1.0.status.observed_generation
        ≡ base.status.observed_generation
  finalize_leaves_old_generation resync base o spec_map synced w v changed patched stored =
      rw (finalize-patched resync base o spec_map synced w v changed patched)
        (generation-succeed resync base synced (o, v) ∙ stored)

  -- A pass over a recorded spec observes the present generation: where the annotation is as it
  -- should be, the object ends with its own generation as the observed one.
  finalize_observes_generation :
      (resync : ℕ) (base : Object T) (spec_map : Fields) (synced : Bool) (w : W)
      → text_eq base.last_applied (marshal (object spec_map)) ≡ true
      → (finalize cluster resync base spec_map synced (base, w)).1.0.status.observed_generation
        ≡ base.generation
  unfolding finalize
  finalize_observes_generation resync base spec_map synced w same =
      rw same (generation-succeed resync base synced _)
