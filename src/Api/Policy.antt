-- ===== src/Api/Policy.antt =====
-- api/v1alpha1/methods.go: the accessors that every spec has. The six kinds share one text, but
-- for the deletion policy that a realm defaults to.
use keycloak_operator.Base.{String, Option, none, some, ◌==◌, if◌then◌else◌}
use keycloak_operator.Api.{
  AdoptionPolicy, adoption_create_only, DeletionPolicy, deletion_orphan, deletion_delete,
}

-- The fields that every spec has.
pub record SpecHead : Type 0 where
  pub keycloak_ref : String
  pub realm : String
  pub adoption_policy : Option AdoptionPolicy
  pub deletion_policy : Option DeletionPolicy

-- `if p != nil && *p != "" { return *p }; return default`
abbrev pub given_or : String → Option String → String
given_or default none = default
given_or default (some p) = if p == "" then default else p

-- `Spec` of managed.go
pub record Spec : Type 0 where
  pub connection_name : String
  pub target_realm : String
  pub adoption : AdoptionPolicy
  pub deletion : DeletionPolicy

unfoldable pub realm_accessors : SpecHead → Spec
realm_accessors s = record {
  connection_name = s.keycloak_ref;
  target_realm = s.realm;
  adoption = given_or adoption_create_only s.adoption_policy;
  deletion = given_or deletion_orphan s.deletion_policy;
}

unfoldable pub accessors : SpecHead → Spec
accessors s = record {
  connection_name = s.keycloak_ref;
  target_realm = s.realm;
  adoption = given_or adoption_create_only s.adoption_policy;
  deletion = given_or deletion_delete s.deletion_policy;
}
