-- ===== src/Engine/Conditions.antt =====
-- The conditions that a reconciliation leaves on the object, and how it is counted.
use mathlib.Core.Path.{subst}
use keycloak_operator.Base.{
  ℕ, String, Bool, true, false, Option, none, some, List, ◌≡◌, refl, sym, ◌∙◌, ap, inl, inr, ◌==◌,
  eq_refl, arith, if◌then◌else◌,
}
use keycloak_operator.Errors.{Error, ok, err, is_not_found, Result-cases}
use keycloak_operator.World.{pure}
use keycloak_operator.Json.{Fields}
use keycloak_operator.LastApplied.{effective_payload}
use keycloak_operator.Api.{
  Object, Condition, ResourceStatus, ConditionStatus, status_false, condition_ready,
  condition_synced, reason_retrying, finalizer_name,
}
use keycloak_operator.Platform.{Admin, Cluster, EventType}
use keycloak_operator.Driver.{Driver}
use keycloak_operator.Engine.{failed, State, classify, class_name}
use keycloak_operator.Engine.Status.{
  condition_of, patch_status_of, set_condition, fail, emit, is_news,
}
use keycloak_operator.Engine.Lifecycle.{
  spec_map_of, read_and_apply, apply_spec, manage, run, reconcile,
}

-- What apimachinery and the API server document: a condition that was set is found under its
-- type and the others stay; and the answer to a patch of the status has the status that was sent.
pub record IsDocumented {T W : Type 0} (cluster : Cluster T W) : Type 0 where
  pub find_set :
      (cs : List Condition) (c : Condition) (t : String)
      → cluster.find_status_condition (cluster.set_status_condition cs c) t
        ≡ (if c.condition_type == t then some c else cluster.find_status_condition cs t)
  pub status_kept :
      (o b o' : Object T) (w : W) → (cluster.patch_status o b w).0 ≡ ok o' → o'.status ≡ o.status

module _ {T W : Type 0} (cluster : Cluster T W) (laws : IsDocumented cluster) where
  -- The condition of a type that the object in memory has.
  abbrev pub found : State T W → String → Option Condition
  found s t = cluster.find_status_condition s.0.status.conditions t

  pub patch_status_of-status :
      (base : Object T) (s : State T W) → (patch_status_of cluster base s).1.0.status ≡ s.0.status
  unfolding patch_status_of
  patch_status_of-status base s = elim (Result-cases (cluster.patch_status s.0 base s.1).0) [
    | inl (o, e) ↦ ground (arith, laws.status_kept s.0 base o s.1 e)
    | inr (x, e) ↦ ground arith
  ]

  found-set_condition :
      (base : Object T) (t : String) (v : ConditionStatus) (reason message u : String)
      (s : State T W)
      → found (set_condition cluster base t v reason message s).1 u
        ≡ (if t == u then some (condition_of cluster s.0 t v reason message) else found s u)
  unfolding set_condition
  found-set_condition base t v reason message u s =
      ap (λ (st : ResourceStatus). cluster.find_status_condition st.conditions u)
        (patch_status_of-status base _)
      ∙ laws.find_set s.0.status.conditions (condition_of cluster s.0 t v reason message) u

  -- The status, reason and message of a condition.
  abbrev pub Says : Option Condition → ConditionStatus → String → String → Type 0
  Says none v reason message = ⊥
  Says (some c) v reason message = (c.status ≡ v) × (c.reason ≡ reason) × (c.message ≡ message)

  -- The state after the two conditions are set.
  abbrev pub both : Object T → ConditionStatus → String → String → String → State T W → State T W
  both base v reason ready synced s =
      (set_condition cluster base condition_synced v reason synced
        (set_condition cluster base condition_ready v reason ready s).1).1

  both-Says :
      (base : Object T) (v : ConditionStatus) (reason ready synced : String) (s : State T W)
      → Says (found (both base v reason ready synced s) condition_ready) v reason ready
        × Says (found (both base v reason ready synced s) condition_synced) v reason synced
  both-Says base v reason ready synced s = (
    rw
        (
          found-set_condition base condition_synced v reason synced condition_ready
              (set_condition cluster base condition_ready v reason ready s).1,
          found-set_condition base condition_ready v reason ready condition_ready s,
        )
        (refl, refl, refl),
    rw (found-set_condition base condition_synced v reason synced condition_synced _)
        (refl, refl, refl),
  )

  emit_if-object :
      (b : Bool) (t : EventType) (reason message : String) (s : State T W)
      → ((if b then emit cluster t reason message else pure tt) s).1.0 ≡ s.0
  unfolding emit
  emit_if-object true t reason message s = refl
  emit_if-object false t reason message s = refl

  fail-object :
      (base : Object T) (reason message : String) (s : State T W)
      → (fail cluster base reason message s).1.0
        ≡ (both base status_false reason message message s).0
  unfolding fail
  fail-object base reason message s = emit_if-object _ _ reason message _

  abbrev TellsBoth : Object T → ConditionStatus → String → String → Type 0
  TellsBoth o v reason message =
      Says (cluster.find_status_condition o.status.conditions condition_ready) v reason message
      × Says (cluster.find_status_condition o.status.conditions condition_synced) v reason message

  -- Every failure is told by both conditions: after `fail`, Ready and Synced are False with the
  -- reason and the message of the failure.
  pub fail-Says :
      (base : Object T) (reason message : String) (s : State T W)
      → Says
          (found (fail cluster base reason message s).1 condition_ready)
          status_false
          reason
          message
        × Says
            (found (fail cluster base reason message s).1 condition_synced)
            status_false
            reason
            message
  fail-Says base reason message s =
      subst (λ o. TellsBoth o status_false reason message) (sym (fail-object base reason message s))
        (both-Says base status_false reason message message s)

  seen-both :
      {C : Type 0} (seen : W → C) (base : Object T) (v : ConditionStatus)
      (reason ready synced : String) (s : State T W)
      → ((o b : Object T) (w : W) → seen (cluster.patch_status o b w).1 ≡ seen w)
      → seen (both base v reason ready synced s).1 ≡ seen s.1
  unfolding set_condition patch_status_of
  seen-both seen base v reason ready synced s blind = grind (arith, blind)

  not_news :
      (o : Option Condition) (c : Condition) (reason message : String)
      → o ≡ some c
      → c.reason ≡ reason
      → c.message ≡ message
      → is_news cluster o reason message ≡ false
  not_news o c reason message e r m = rw (e, r, m, eq_refl reason, eq_refl message)

  -- A repeated failure makes no event: where the Ready condition already has the reason and the
  -- message, an observer who sees no status patch sees no change from `fail`.
  repeated_failure_no_event :
      {C : Type 0} (seen : W → C) (base : Object T) (reason message : String) (s : State T W)
      (c : Condition)
      → found s condition_ready ≡ some c
      → c.reason ≡ reason
      → c.message ≡ message
      → ((o b : Object T) (w : W) → seen (cluster.patch_status o b w).1 ≡ seen w)
      → seen (fail cluster base reason message s).1.1 ≡ seen s.1
  unfolding fail
  repeated_failure_no_event seen base reason message s c here r m blind =
      rw (not_news (found s condition_ready) c reason message here r m)
        (seen-both seen base status_false reason message message s blind)

  -- The retried outcome of a read that failed.
  read_and_apply-error :
      (drv : Driver T W) (resync : ℕ) (base : Object T) (kc : Admin W) (spec_map payload : Fields)
      (w : W) (e : Error)
      → (drv.get kc base w).0 ≡ err e
      → is_not_found e ≡ false
      → read_and_apply cluster drv resync base kc spec_map payload (base, w) ≡ (
        failed e,
        both base status_false reason_retrying e.message "Server unreachable"
            (base, (drv.get kc base w).1),
      )
  unfolding read_and_apply
  read_and_apply-error drv resync base kc spec_map payload w e h known = ground arith

  -- What a reconciliation counts itself as.
  abbrev pub class_of : State T W → String
  class_of s = class_name (classify (found s condition_ready))

  class_of-both :
      (base : Object T) (reason ready synced : String) (s : State T W)
      → class_of (both base status_false reason ready synced s) ≡ "terminal"
  unfolding classify
  class_of-both base reason ready synced s = rw (
    found-set_condition base condition_synced status_false reason synced condition_ready
        (set_condition cluster base condition_ready status_false reason ready s).1,
    found-set_condition base condition_ready status_false reason ready condition_ready s,
  )

  run-read_and_apply :
      (drv : Driver T W) (resync : ℕ) (base : Object T) (kc : Admin W) (spec_map payload : Fields)
      (w v : W)
      → base.deleting ≡ false
      → cluster.contains_finalizer base.finalizers finalizer_name ≡ true
      → drv.protected base ≡ none
      → spec_map_of cluster drv resync base ≡ ok spec_map
      → effective_payload spec_map base.last_applied ≡ ok payload
      → cluster.connect base.namespace (drv.spec base.spec).connection_name w ≡ (ok kc, v)
      → run cluster drv resync base (base, w)
        ≡ read_and_apply cluster drv resync base kc spec_map payload (base, v)
  unfolding run manage apply_spec
  run-read_and_apply drv resync base kc m p w v alive fin free encoded effective connected =
      ground arith

  -- A transient error is returned and counted as terminal. Where the engine gets as far as reading
  -- the remote resource and the read fails with an error other than "not found", the error is
  -- returned, so that the object is retried, and the last call counts the outcome "terminal" and
  -- not the outcome "error".
  pub read_error_counted_terminal :
      (drv : Driver T W) (resync : ℕ) (base : Object T) (kc : Admin W) (spec_map payload : Fields)
      (w v : W) (e : Error)
      → base.deleting ≡ false
      → cluster.contains_finalizer base.finalizers finalizer_name ≡ true
      → drv.protected base ≡ none
      → spec_map_of cluster drv resync base ≡ ok spec_map
      → effective_payload spec_map base.last_applied ≡ ok payload
      → cluster.connect base.namespace (drv.spec base.spec).connection_name w ≡ (ok kc, v)
      → (drv.get kc base v).0 ≡ err e
      → is_not_found e ≡ false
      → let s =
          both base status_false reason_retrying e.message "Server unreachable"
            (base, (drv.get kc base v).1) in
        reconcile cluster drv resync (base, w)
        ≡ (failed e, (s.0, (cluster.count_reconciliation base.kind "terminal" s.1).1))
  unfolding reconcile
  read_error_counted_terminal drv resync base kc spec_map payload w v e alive fin free encoded
        effective connected h known =
      let r : run cluster drv resync base (base, w) ≡ (
        failed e,
        both base status_false reason_retrying e.message "Server unreachable"
            (base, (drv.get kc base v).1),
      ) =
        run-read_and_apply drv resync base kc spec_map payload w v alive fin free encoded effective
          connected
        ∙ read_and_apply-error drv resync base kc spec_map payload v e h known in
      rw (
        r,
        class_of-both base reason_retrying e.message "Server unreachable"
            (base, (drv.get kc base v).1),
      )
