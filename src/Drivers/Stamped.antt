-- ===== src/Drivers/Stamped.antt =====
-- What the driver of a kind sends for a spec: a map without a null entry, also when it is stamped.
use mathlib.Core.Path.{subst}
use mathlib.Core.Option
use keycloak_operator.Base.{
  ℕ, String, Option, none, some, ap, if◌then◌else◌, ◌≡◌, refl, ◌∙◌, sym, ◌==◌, inl, inr, Bool-cases,
  Option-cases,
}
use keycloak_operator.Errors.{ok}
use keycloak_operator.Json.{
  Value, null, boolean, number, string, list, object, Fields, end, lookup, insert, as_object,
  IsWell, IsWellFields,
}
use keycloak_operator.Json.Laws.{lookup-insert, lookup-IsWell, insert-IsWellFields}
use keycloak_operator.Json.Text.{sort_keys}
use keycloak_operator.Json.Structs.{find}
use keycloak_operator.Json.Structs.Laws.{HaveMaps, struct-IsWell}
use keycloak_operator.Json.Structs.Nulls.{NotNull, HasNoNulls, find-NotNull, sort_keys-NotNull}
use keycloak_operator.Api.{Object}
use keycloak_operator.Platform.{Cluster}
use keycloak_operator.Drivers.Marker.{attributes_of, stamp_string_attribute}
use keycloak_operator.Drivers.Secrets.{contains}
use keycloak_operator.Drivers.Payloads.{
  SpecKind, SpecOf, fields_of, driver_of, payload-fields, spec_json-fields, fields_of-distinct,
}
use keycloak_operator.Engine.Lifecycle.{spec_map_of}

ok-injective : (m n : Fields) → ok m ≡ ok n → m ≡ n
ok-injective m n e = cc

module _ {W : Type 0} (k : SpecKind) (cluster : Cluster (SpecOf k) W) (resync : ℕ)
    (base : Object (SpecOf k)) (maps : HaveMaps (fields_of k base.spec)) where
  pub spec_json-IsWell : IsWell ((driver_of k cluster).spec_json base.spec)
  spec_json-IsWell =
      subst IsWell (sym (spec_json-fields k cluster base.spec))
        (struct-IsWell (fields_of k base.spec) (fields_of-distinct k base.spec) maps)

  pub lookup-spec_map :
      (m : Fields)
      → spec_map_of cluster (driver_of k cluster) resync base ≡ ok m
      → (j : String)
      → lookup j m ≡ (
          if contains j (driver_of k cluster).operator_fields
          then none
          else Option.map sort_keys (find j (fields_of k base.spec)))
  lookup-spec_map m e j =
      let (n, e', at) = payload-fields k cluster resync base maps in
      let same : n ≡ m = ok-injective n m (sym e' ∙ e) in ap (lookup j) (sym same) ∙ at j

  pub spec_map_of-HasNoNulls :
      (m : Fields) → spec_map_of cluster (driver_of k cluster) resync base ≡ ok m → HasNoNulls m
  spec_map_of-HasNoNulls m e j =
      subst NotNull (sym (lookup-spec_map m e j))
        (elim (Bool-cases (contains j (driver_of k cluster).operator_fields)) [
          | inl t ↦ rw t tt
          | inr f ↦ rw f (
              sort_keys-NotNull (find j (fields_of k base.spec))
                (find-NotNull j (fields_of k base.spec)))
        ])

pub stamp_string_attribute-HasNoNulls :
    (m : Fields) (key value : String)
    → HasNoNulls m
    → HasNoNulls (stamp_string_attribute m key value)
unfolding stamp_string_attribute
stamp_string_attribute-HasNoNulls m key value h j =
    let attrs = insert key (string value) (attributes_of m) in
    subst NotNull (sym (lookup-insert "attributes" j (object attrs) m))
      (elim (Bool-cases ("attributes" == j)) [ inl e ↦ rw e refl | inr e ↦ rw e (h j) ])

-- A value that is there is well-formed.
abbrev IsWellOption : Option Value → Type 0
IsWellOption none = Unit
IsWellOption (some v) = IsWell v

lookup-IsWellOption : (k : String) (m : Fields) → IsWellFields m → IsWellOption (lookup k m)
lookup-IsWellOption k m w = elim (Option-cases (lookup k m)) [
  | inl e ↦ rw e tt
  | inr (v, e) ↦ rw e (lookup-IsWell k m v w e)
]

as_object-IsWellFields :
    (o : Option Value)
    → IsWellOption o
    → IsWellFields (elim (as_object o) [ none ↦ end | some m ↦ m ])
as_object-IsWellFields none w = tt
as_object-IsWellFields (some null) w = tt
as_object-IsWellFields (some (boolean b)) w = tt
as_object-IsWellFields (some (number s)) w = tt
as_object-IsWellFields (some (string s)) w = tt
as_object-IsWellFields (some (list l)) w = tt
as_object-IsWellFields (some (object m)) w = w

attributes_of-IsWellFields : (m : Fields) → IsWellFields m → IsWellFields (attributes_of m)
attributes_of-IsWellFields m w =
    as_object-IsWellFields (lookup "attributes" m) (lookup-IsWellOption "attributes" m w)

pub stamp_string_attribute-IsWellFields :
    (m : Fields) (key value : String)
    → IsWellFields m
    → IsWellFields (stamp_string_attribute m key value)
unfolding stamp_string_attribute
stamp_string_attribute-IsWellFields m key value w =
    insert-IsWellFields "attributes" (object (insert key (string value) (attributes_of m))) m
      (insert-IsWellFields key (string value) (attributes_of m) tt (attributes_of-IsWellFields m w))
      w
