-- ===== src/Json/Laws.antt =====
-- The laws of Go maps: what a key holds after a write or a removal, and that no key comes to
-- stand twice.
use mathlib.Core.Path.{subst}
use mathlib.Core.Option.{some-injective}
use keycloak_operator.Base.{
  String, none, some, ◌≡◌, refl, arith, ◌==◌, eq_iff, inl, inr, if◌then◌else◌, Bool-cases,
}
use keycloak_operator.Json.{
  Value, Fields, end, field, lookup, insert, delete, NodupKeys, IsWell, IsWellFields,
}

pub lookup-insert :
    (k j : String) (v : Value) (m : Fields)
    → lookup j (insert k v m) ≡ (if k == j then some v else lookup j m)
unfolding lookup insert
lookup-insert k j v end = refl
lookup-insert k j v (field i w m) =
    ground (arith, eq_iff k j, eq_iff i k, eq_iff i j, lookup-insert k j v m)

pub lookup-delete :
    (k j : String) (m : Fields) → lookup j (delete k m) ≡ (if k == j then none else lookup j m)
unfolding lookup delete
lookup-delete k j end = ground arith
lookup-delete k j (field i w m) =
    ground (arith, lookup-delete k j m, eq_iff i k, eq_iff i j, eq_iff k j)

pub insert-NodupKeys :
    (k : String) (v : Value) (m : Fields) → NodupKeys m → NodupKeys (insert k v m)
unfolding lookup insert
insert-NodupKeys k v end h = (refl, tt)
insert-NodupKeys k v (field i w m) h =
    ground (arith, lookup-insert k i v m, eq_iff i k, eq_iff k i, insert-NodupKeys k v m h.1)

pub delete-NodupKeys : (k : String) (m : Fields) → NodupKeys m → NodupKeys (delete k m)
unfolding lookup delete
delete-NodupKeys k end h = tt
delete-NodupKeys k (field i w m) h = ground (arith, lookup-delete k i m, delete-NodupKeys k m h.1)

-- A deep map is in particular a map.
pub IsWellFields-NodupKeys : (m : Fields) → IsWellFields m → NodupKeys m
IsWellFields-NodupKeys end h = tt
IsWellFields-NodupKeys (field k v m) h = (h.0, IsWellFields-NodupKeys m h.2)

pub lookup-IsWell :
    (k : String) (m : Fields) (v : Value) → IsWellFields m → lookup k m ≡ some v → IsWell v
unfolding lookup
lookup-IsWell k end v h e = cc
lookup-IsWell k (field j w m) v h e = elim (Bool-cases (j == k)) [
  | inl t ↦ subst IsWell (some-injective _ _ (rw t at e)) h.1
  | inr f ↦ lookup-IsWell k m v h.2 (rw f at e)
]

pub insert-IsWellFields :
    (k : String) (v : Value) (m : Fields) → IsWell v → IsWellFields m → IsWellFields (insert k v m)
unfolding lookup insert
insert-IsWellFields k v end hv h = (refl, hv, tt)
insert-IsWellFields k v (field i w m) hv h =
    ground (arith, lookup-insert k i v m, eq_iff i k, eq_iff k i, insert-IsWellFields k v m hv h.2)

pub delete-IsWellFields : (k : String) (m : Fields) → IsWellFields m → IsWellFields (delete k m)
unfolding lookup delete
delete-IsWellFields k end h = tt
delete-IsWellFields k (field i w m) h =
    ground (arith, lookup-delete k i m, delete-IsWellFields k m h.2)
