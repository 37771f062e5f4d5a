-- ===== src/LastApplied/Merge.antt =====
-- What the merged representation holds at each key.
use keycloak_operator.Base.{
  String, Option, none, some, ◌≡◌, refl, ◌∙◌, arith, ◌==◌, eq_iff, if◌then◌else◌,
}
use keycloak_operator.Json.{Value, Fields, end, field, lookup, is_null, NodupKeys, IsWellFields}
use keycloak_operator.Json.Laws.{
  lookup-insert, lookup-delete, insert-NodupKeys, delete-NodupKeys, insert-IsWellFields,
  delete-IsWellFields,
}
use keycloak_operator.LastApplied.{merge_field, merge_payload}

-- A null entry leaves the key absent, any other entry wins, and no entry keeps the remote value.
abbrev pub overlay : Option Value → Option Value → Option Value
overlay none old = old
overlay (some v) old = if is_null v then none else some v

lookup-merge_field :
    (j k : String) (v : Value) (remote : Fields)
    → lookup j (merge_field remote k v)
      ≡ (if k == j then overlay (some v) (lookup j remote) else lookup j remote)
unfolding merge_field
lookup-merge_field j k v remote =
    ground (arith, lookup-insert k j v remote, lookup-delete k j remote, eq_iff k j)

-- Each key of the merged map holds what the payload says, and what the remote map says where the
-- payload says nothing.
pub lookup-merge_payload :
    (j : String) (remote payload : Fields)
    → NodupKeys payload
    → lookup j (merge_payload remote payload) ≡ overlay (lookup j payload) (lookup j remote)
unfolding merge_payload lookup
lookup-merge_payload j remote end h = refl
lookup-merge_payload j remote (field k v payload) h =
    lookup-merge_payload j (merge_field remote k v) payload h.1
    ∙ ground (arith, lookup-merge_field j k v remote, eq_iff k j)

-- The merged map is a map.
pub merge_payload-NodupKeys :
    (remote payload : Fields) → NodupKeys remote → NodupKeys (merge_payload remote payload)
unfolding merge_payload
merge_payload-NodupKeys remote end h = h
merge_payload-NodupKeys remote (field k v payload) h =
    merge_payload-NodupKeys (merge_field remote k v) payload (
      unfold merge_field in
      ground (arith, insert-NodupKeys k v remote h, delete-NodupKeys k remote h))

pub merge_payload-IsWellFields :
    (remote payload : Fields)
    → IsWellFields remote
    → IsWellFields payload
    → IsWellFields (merge_payload remote payload)
unfolding merge_payload
merge_payload-IsWellFields remote end h w = h
merge_payload-IsWellFields remote (field k v payload) h w =
    merge_payload-IsWellFields (merge_field remote k v) payload
      (unfold merge_field in
        ground (arith, insert-IsWellFields k v remote w.1 h, delete-IsWellFields k remote h))
      w.2
