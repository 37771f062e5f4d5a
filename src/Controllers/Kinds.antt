-- ===== src/Controllers/Kinds.antt =====
-- The `Reconcile` of the six kinds. An object that is not found is no error.
use keycloak_operator.Base.{ℕ, String, if◌then◌else◌}
use keycloak_operator.Errors.{Error, ok, err, is_object_not_found}
use keycloak_operator.World.{Act, Op, pure, ◌>>=◌}
use keycloak_operator.Api.{Object}
use keycloak_operator.Platform.{Cluster}
use keycloak_operator.Driver.{Driver}
use keycloak_operator.Api.Specs.Realm.{RealmSpec}
use keycloak_operator.Api.Specs.{
  ClientSpec, ClientScopeSpec, RealmRoleSpec, IdentityProviderSpec, GroupSpec,
}
use keycloak_operator.Drivers.Realm.{realm_driver}
use keycloak_operator.Drivers.Clients.{client_driver, client_scope_driver}
use keycloak_operator.Drivers.RealmRole.{realm_role_driver}
use keycloak_operator.Drivers.IdentityProvider.{identity_provider_driver}
use keycloak_operator.Drivers.Group.{group_driver}
use keycloak_operator.Engine.{Outcome, done, failed}
use keycloak_operator.Engine.Lifecycle.{reconcile}

-- client.IgnoreNotFound, for an error
abbrev pub ignore_not_found : Error → Outcome
ignore_not_found e = if is_object_not_found e then done else failed e

-- The read of the object, and the engine on it.
unfoldable pub reconcile_with :
    {T W : Type 0}
    → Cluster T W
    → (String → String → Op W (Object T))
    → Driver T W
    → ℕ
    → String
    → String
    → Act W Outcome
reconcile_with cluster read drv resync namespace name = read namespace name >>= λ r. elim r [
  | err e ↦ pure (ignore_not_found e)
  | ok object ↦ λ w. let (outcome, s) = reconcile cluster drv resync (object, w) in (outcome, s.1)
]

module _ {W : Type 0} where
  unfoldable pub reconcile_realm :
      Cluster RealmSpec W
      → (String → String → Op W (Object RealmSpec))
      → ℕ
      → String
      → String
      → Act W Outcome
  unfolding reconcile_with
  reconcile_realm cluster read = reconcile_with cluster read (realm_driver cluster)

  unfoldable pub reconcile_client :
      Cluster ClientSpec W
      → (String → String → Op W (Object ClientSpec))
      → ℕ
      → String
      → String
      → Act W Outcome
  unfolding reconcile_with
  reconcile_client cluster read = reconcile_with cluster read (client_driver cluster)

  unfoldable pub reconcile_client_scope :
      Cluster ClientScopeSpec W
      → (String → String → Op W (Object ClientScopeSpec))
      → ℕ
      → String
      → String
      → Act W Outcome
  unfolding reconcile_with
  reconcile_client_scope cluster read = reconcile_with cluster read (client_scope_driver W)

  unfoldable pub reconcile_realm_role :
      Cluster RealmRoleSpec W
      → (String → String → Op W (Object RealmRoleSpec))
      → ℕ
      → String
      → String
      → Act W Outcome
  unfolding reconcile_with
  reconcile_realm_role cluster read = reconcile_with cluster read (realm_role_driver W)

  unfoldable pub reconcile_identity_provider :
      Cluster IdentityProviderSpec W
      → (String → String → Op W (Object IdentityProviderSpec))
      → ℕ
      → String
      → String
      → Act W Outcome
  unfolding reconcile_with
  reconcile_identity_provider cluster read =
      reconcile_with cluster read (identity_provider_driver cluster)

  unfoldable pub reconcile_group :
      Cluster GroupSpec W
      → (String → String → Op W (Object GroupSpec))
      → ℕ
      → String
      → String
      → Act W Outcome
  unfolding reconcile_with
  reconcile_group cluster read = reconcile_with cluster read (group_driver W)
