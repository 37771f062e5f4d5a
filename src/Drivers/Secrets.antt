-- ===== src/Drivers/Secrets.antt =====
-- driver_helpers.go: reading Secrets, and the Secret that exports a value.
pub mod Store
use keycloak_operator.Base.{
  String, ◌<>◌, Bool, true, false, ◌||◌, none, some, List, [], ◌∷◌, ◌≡◌, ◌==◌, arith, if◌then◌else◌,
}
use keycloak_operator.Errors.{
  Error, failure, other, quote, wrap, Result, ok, err, is_object_not_found,
}
use keycloak_operator.World.{Op, pure, return, fail_with, ◌>>=◌, ◌>>?◌}
use keycloak_operator.Api.{Object, SecretKeySelector, SecretKeysSelector}
use keycloak_operator.Platform.{Cluster, Secret}
use keycloak_operator.Drivers.Sets.{get, put}

abbrev pub secret_name : String → String → String
secret_name namespace name = "secret " <> namespace <> "/" <> name

abbrev pub missing_key : String → String → String → Error
missing_key namespace name key =
    failure other (secret_name namespace name <> " has no key " <> quote key)

abbrev pub contains : String → List String → Bool
contains s [] = false
contains s (t ∷ ts) = t == s || contains s ts

abbrev pub has_value : String → String → Secret → Bool
has_value key value secret = elim (get key secret.entries) [
  | none ↦ value == ""
  | some v ↦ v == value
]

abbrev pub not_owned : Secret → Error
not_owned existing = failure other (
    secret_name existing.namespace existing.name
    <> " already exists and is not owned by this resource; choose another secretOutput name")

module _ {T W : Type 0} (cluster : Cluster T W) where
  open cluster use {get_secret, update_secret, create_secret}

  -- A read with the context added to its error.
  abbrev fetch : String → String → Op W Secret
  fetch namespace name = get_secret namespace name >>= λ r. elim r [
    | ok secret ↦ return secret
    | err e ↦ fail_with (wrap (secret_name namespace name) e)
  ]

  abbrev key_or : String → String → String
  key_or key default_key = if key == "" then default_key else key

  unfoldable pub read_secret_value : String → SecretKeySelector → String → Op W String
  read_secret_value namespace selector default_key = fetch namespace selector.name >>? λ secret.
      elim (get (key_or selector.key default_key) secret.entries) [
        | none ↦ fail_with (missing_key namespace selector.name (key_or selector.key default_key))
        | some value ↦ return value
      ]

  -- The loop over the mapped keys.
  unfoldable pub pick_values :
      String
      → SecretKeysSelector
      → Secret
      → List (String × String)
      → List (String × String)
      → Result (List (String × String))
  pick_values namespace selector secret [] out = ok out
  pick_values namespace selector secret ((target, key) ∷ keys) out = elim (get key secret.entries) [
    | none ↦ err (missing_key namespace selector.name key)
    | some value ↦ pick_values namespace selector secret keys (put target value out)
  ]

  unfoldable pub read_secret_values : String → SecretKeysSelector → Op W (List (String × String))
  unfolding pick_values
  read_secret_values namespace selector = fetch namespace selector.name >>? λ secret.
      pure (pick_values namespace selector secret selector.keys [])

  unfoldable pub ensure_output_secret : Object T → String → String → String → Op W Bool
  ensure_output_secret o name key value = get_secret o.namespace name >>= λ r. elim r [
    | ok existing ↦
        if contains o.uid existing.controllers
        then (if has_value key value existing
            then return false
            else (update_secret (record existing { entries = put key value existing.entries })
                >>? λ _. return true))
        else fail_with (not_owned existing)
    | err e ↦
        if is_object_not_found e
        then (create_secret o (record {
          namespace = o.namespace;
          name = name;
          entries = (key, value) ∷ [];
          controllers = o.uid ∷ [];
        })
            >>? λ _. return true)
        else fail_with e
  ]

  -- An exported value that is in place is not written again.
  output_secret_steady :
      (o : Object T) (name key value : String) (w w' : W) (existing : Secret)
      → get_secret o.namespace name w ≡ (ok existing, w')
      → contains o.uid existing.controllers ≡ true
      → has_value key value existing ≡ true
      → ensure_output_secret o name key value w ≡ (ok false, w')
  unfolding ensure_output_secret
  output_secret_steady o name key value w w' existing read owned same = ground arith
