-- ===== src/Drivers/Secrets/Store.antt =====
-- What ensureOutputSecret of driver_helpers.go does to the Secrets that the API server stores.
use keycloak_operator.Base.{
  String, Bool, true, false, ◌&&◌, Option, some, [], ◌∷◌, ◌≡◌, sym, ap, ◌∙◌, ◌==◌, eq_iff, arith,
  inl, inr, Bool-cases,
}
use keycloak_operator.Errors.{ok, Result-cases}
use keycloak_operator.Api.{Object}
use keycloak_operator.Platform.{Cluster, Secret}
use keycloak_operator.Drivers.Sets.{put}
use keycloak_operator.Drivers.Secrets.{contains, ensure_output_secret}
use mathlib.Core.Option.{some-injective}

abbrev pub is_named : String → String → Secret → Bool
is_named namespace name secret = (namespace == secret.namespace) && (name == secret.name)

-- What the API server documents of Secrets, of which `stored` is the one with a namespace and a
-- name: a read changes none and answers with the stored one, which has that name; an update changes
-- the one that it names, if any; and a creation changes none that is there, since it is refused.
pub record IsStore {T W : Type 0} (cluster : Cluster T W)
    (stored : String → String → W → Option Secret) : Type 0 where
  pub reads :
      (namespace name a b : String) (w : W)
      → stored a b (cluster.get_secret namespace name w).1 ≡ stored a b w
  pub finds :
      (namespace name : String) (w : W) (found : Secret)
      → (cluster.get_secret namespace name w).0 ≡ ok found
      → stored namespace name w ≡ some found
  pub names :
      (namespace name : String) (w : W) (found : Secret)
      → stored namespace name w ≡ some found
      → is_named namespace name found ≡ true
  pub updates :
      (secret : Secret) (a b : String) (w : W)
      → is_named a b secret ≡ false
      → stored a b (cluster.update_secret secret w).1 ≡ stored a b w
  pub creates :
      (o : Object T) (secret found : Secret) (a b : String) (w : W)
      → stored a b w ≡ some found
      → stored a b (cluster.create_secret o secret w).1 ≡ some found

module _ {T W : Type 0} (cluster : Cluster T W) (stored : String → String → W → Option Secret)
    (store : IsStore cluster stored) (o : Object T) where
  -- A Secret that the object does not control is another than one that it controls.
  other_name :
      (namespace name a b : String) (w : W) (existing foreign : Secret)
      → stored namespace name w ≡ some existing
      → stored a b w ≡ some foreign
      → contains o.uid existing.controllers ≡ true
      → contains o.uid foreign.controllers ≡ false
      → is_named a b existing ≡ false
  other_name namespace name a b w existing foreign e f own other =
      elim (Bool-cases (is_named a b existing)) [
        | inr n ↦ n
        | inl t ↦
            let named = store.names namespace name w existing e in
            let same_namespace : a ≡ namespace =
              (eq_iff a existing.namespace).0 (ground (arith, t))
              ∙ sym ((eq_iff namespace existing.namespace).0 (ground (arith, named))) in
            let same_name : b ≡ name =
              (eq_iff b existing.name).0 (ground (arith, t))
              ∙ sym ((eq_iff name existing.name).0 (ground (arith, named))) in
            let found : stored a b w ≡ some existing = rw (same_namespace, same_name) e in
            let same : existing ≡ foreign = some-injective _ _ (sym found ∙ f) in
            let absurd : true ≡ false =
              sym own ∙ ap (λ (s : Secret). contains o.uid s.controllers) same ∙ other in
            cc
      ]

  -- No Secret that the object does not control is ever changed. On each path of the export of a
  -- value, whatever Secret the output names, a stored Secret of which the object is not the
  -- controller is stored as before. The API server reads, updates and creates Secrets as documented.
  pub foreign_secret_untouched :
      (name key value : String) (w : W) (a b : String) (foreign : Secret)
      → stored a b w ≡ some foreign
      → contains o.uid foreign.controllers ≡ false
      → stored a b (ensure_output_secret cluster o name key value w).1 ≡ some foreign
  unfolding ensure_output_secret
  foreign_secret_untouched name key value w a b foreign held other =
      let v = (cluster.get_secret o.namespace name w).1 in
      let same = store.reads o.namespace name a b w ∙ held in
      elim (Result-cases (cluster.get_secret o.namespace name w).0) [
        | inr (e, failed) ↦ ground (
          arith,
          failed,
          same,
          store.creates o
              (record {
                namespace = o.namespace;
                name = name;
                entries = (key, value) ∷ [];
                controllers = o.uid ∷ [];
              })
              foreign a b v same,
        )
        | inl (existing, read) ↦ elim (Bool-cases (contains o.uid existing.controllers)) [
          | inr not_own ↦ ground (arith, read, not_own, same)
          | inl own ↦
              let apart =
                other_name o.namespace name a b w existing foreign
                  (store.finds o.namespace name w existing read) held own other in
              ground (
                arith,
                read,
                own,
                same,
                store.updates (record existing { entries = put key value existing.entries }) a b v
                    apart,
              )
        ]
      ]
