-- ===== src/LastApplied/Differs.antt =====
-- When the test for drift is quiet.
use mathlib.Core.Option.{some-injective}
use keycloak_operator.Base.{
  String, Bool, true, false, ◌||◌, Option, none, some, ◌≡◌, refl, ◌∙◌, ◌⊎◌, ◌↔◌, inl, inr, arith,
  ◌==◌, eq_iff, eq_refl, Bool-cases,
}
use keycloak_operator.Json.{
  Value, null, boolean, number, string, list, object, Items, nil, cons, Fields, end, field, lookup,
  is_null, IsWell, IsWellItems, IsWellFields, NodupKeys,
}
use keycloak_operator.Json.Laws.{IsWellFields-NodupKeys}
use keycloak_operator.Json.Text.{marshal}
use keycloak_operator.Json.RoundTrip.{text_eq_refl}
use keycloak_operator.LastApplied.{
  is_zero_value, json_equal, entry_differs, payload_differs, managed_value_equal, items_match,
  merge_payload,
}
use keycloak_operator.LastApplied.Merge.{lookup-merge_payload}

-- What a server may make of an entry that it was sent: it keeps the value, or leaves the key out
-- if the value is null or a zero value.
abbrev pub Stored : Value → Option Value → Type 0
Stored v got = (got ≡ some v) ⊎ ((got ≡ none) × ((is_null v || is_zero_value v) ≡ true))

json_equal_refl : (v : Value) → json_equal v v ≡ true
unfolding json_equal
json_equal_refl v = text_eq_refl (marshal v)

-- An entry that equals itself and was stored does not differ.
entry_differs-Stored :
    (v : Value) (equal : Value → Bool) (got : Option Value)
    → equal v ≡ true
    → Stored v got
    → entry_differs v equal got ≡ false
unfolding entry_differs
entry_differs-Stored v equal got e (inl h) = rw h (ground arith)
entry_differs-Stored v equal got e (inr h) = rw h.0 (ground (arith, h.1))

-- An entry of the rest of a map is an entry of the map.
pub later_entries :
    (k : String) (v : Value) (m : Fields) (P : String → Value → Type 0)
    → lookup k m ≡ none
    → ((j : String) (u : Value) → lookup j (field k v m) ≡ some u → P j u)
    → (j : String) (u : Value) → lookup j m ≡ some u
    → P j u
unfolding lookup
later_entries k v m P absent h j u e = h j u (ground (arith, eq_iff k j))

mutual
  unfolding payload_differs

  pub managed_value_equal_refl : (v : Value) → IsWell v → managed_value_equal v v ≡ true
  managed_value_equal_refl (object m) w = rw (payload_differs-Stored m m w (λ k v e. inl e))
  managed_value_equal_refl (list l) w = rw (items_match_refl l w) (ground arith)
  managed_value_equal_refl null w = rw (json_equal_refl null)
  managed_value_equal_refl (boolean b) w = rw (json_equal_refl (boolean b))
  managed_value_equal_refl (number s) w = rw (json_equal_refl (number s))
  managed_value_equal_refl (string s) w = rw (json_equal_refl (string s)) (ground arith)

  items_match_refl : (l : Items) → IsWellItems l → items_match l l ≡ true
  items_match_refl nil w = refl
  items_match_refl (cons v l) w =
      ground (arith, managed_value_equal_refl v w.0, items_match_refl l w.1)

  payload_differs-Stored :
      (payload remote : Fields)
      → IsWellFields payload
      → ((k : String) (v : Value) → lookup k payload ≡ some v → Stored v (lookup k remote))
      → payload_differs remote payload ≡ false
  payload_differs-Stored end remote w h = refl
  payload_differs-Stored (field k v payload) remote w h = rw (
    entry_differs-Stored v (managed_value_equal v) (lookup k remote)
        (managed_value_equal_refl v w.1) (h k v (rw (eq_refl k))),
    payload_differs-Stored payload remote w.2
        (later_entries k v payload (λ j u. Stored u (lookup j remote)) w.0 h),
  )

-- Drift correction converges: once the server has the merged representation, with each entry of
-- the payload kept as it was sent or left out for being null or a zero value, the next comparison
-- finds nothing to correct.
pub payload_differs_converges :
    (payload remote : Fields)
    → IsWellFields payload
    → ((k : String) (v : Value) → lookup k payload ≡ some v → Stored v (lookup k remote))
    → payload_differs remote payload ≡ false
payload_differs_converges payload remote w h = payload_differs-Stored payload remote w h

-- The merge is such a representation.
merge_payload-Stored :
    (remote payload : Fields) (k : String) (v : Value)
    → NodupKeys payload
    → lookup k payload ≡ some v
    → Stored v (lookup k (merge_payload remote payload))
merge_payload-Stored remote payload k v h e = elim (Bool-cases (is_null v)) [
  | inl n ↦ inr (lookup-merge_payload k remote payload h ∙ rw e (rw n), rw n)
  | inr y ↦ inl (lookup-merge_payload k remote payload h ∙ rw e (rw y))
]

-- What MergePayload makes of any remote representation does not differ from the payload.
pub payload_differs-merge_payload :
    (remote payload : Fields)
    → IsWellFields payload
    → payload_differs (merge_payload remote payload) payload ≡ false
payload_differs-merge_payload remote payload w =
    payload_differs-Stored payload (merge_payload remote payload) w
      (λ k v e. merge_payload-Stored remote payload k v (IsWellFields-NodupKeys payload w) e)

-- Only the keys of the payload are compared: two remote maps that agree on those are both in
-- drift, or neither is, whatever else the server adds.
payload_differs_local :
    (payload remote other : Fields)
    → NodupKeys payload
    → ((k : String) (v : Value) → lookup k payload ≡ some v → lookup k remote ≡ lookup k other)
    → payload_differs remote payload ≡ payload_differs other payload
unfolding payload_differs
payload_differs_local end remote other h same = refl
payload_differs_local (field k v payload) remote other h same = rw (
  same k v (unfold lookup in rw (eq_refl k)),
  payload_differs_local payload remote other h.1
      (later_entries k v payload (λ j u. lookup j remote ≡ lookup j other) h.0 same),
)

or_true : (b : Bool) → (b || true) ≡ true
or_true b = ground arith

abbrev pub IsAbsent : Option Value → Type 0
IsAbsent got = (got ≡ none) ⊎ ((v : Value) × (got ≡ some v) × (is_null v ≡ true))

-- How what is at a key of the remote map can fail what the payload wants there: it is present where
-- null is wanted, absent where a value other than null and the zero values is wanted, or present
-- and another value. A null of the remote map counts as absent.
pub data Fails (want : Value) (got : Option Value) : Type 0 where
  unwanted : (v : Value) → is_null want ≡ true → got ≡ some v → is_null v ≡ false → Fails want got
  missing : is_null want ≡ false → is_zero_value want ≡ false → IsAbsent got → Fails want got
  changed :
      (v : Value)
      → is_null want ≡ false
      → got ≡ some v
      → is_null v ≡ false
      → managed_value_equal want v ≡ false
      → Fails want got

-- An entry of the payload that the remote map fails.
pub Drifts : Fields → Fields → Type 0
Drifts remote payload =
    (k : String) × (v : Value) × (lookup k payload ≡ some v) × Fails v (lookup k remote)

Fails-entry_differs :
    (want : Value) (got : Option Value)
    → Fails want got
    → entry_differs want (managed_value_equal want) got ≡ true
unfolding entry_differs
Fails-entry_differs want got (unwanted v n e p) = rw e (ground (arith, n, p))
Fails-entry_differs want got (missing n z (inl a)) = rw a (ground (arith, n, z))
Fails-entry_differs want got (missing n z (inr (v, e, p))) = rw e (ground (arith, n, z, p))
Fails-entry_differs want got (changed v n e p d) = rw e (ground (arith, n, p, d))

entry_differs-Fails :
    (want : Value) (got : Option Value)
    → entry_differs want (managed_value_equal want) got ≡ true
    → Fails want got
unfolding entry_differs
entry_differs-Fails want none h = elim (Bool-cases (is_null want)) [
  | inl n ↦ cc (rw n at h)
  | inr n ↦ elim (Bool-cases (is_zero_value want)) [
    | inl z ↦ cc (rw (n, z) at h)
    | inr z ↦ missing n z (inl refl)
  ]
]
entry_differs-Fails want (some v) h = elim (Bool-cases (is_null v)) [
  | inr p ↦ elim (Bool-cases (is_null want)) [
    | inl n ↦ unwanted v n refl p
    | inr n ↦ changed v n refl p (ground (arith, n, p, h))
  ]
  | inl p ↦ elim (Bool-cases (is_null want)) [
    | inl n ↦ cc (rw (n, p) at h)
    | inr n ↦ elim (Bool-cases (is_zero_value want)) [
      | inl z ↦ cc (rw (n, z, p) at h)
      | inr z ↦ missing n z (inr (v, refl, p))
    ]
  ]
]

Drifts-payload_differs :
    (remote payload : Fields)
    → NodupKeys payload
    → payload_differs remote payload ≡ true
    → Drifts remote payload
unfolding payload_differs Drifts lookup
Drifts-payload_differs remote end h e = cc
Drifts-payload_differs remote (field k v payload) h e =
    elim (Bool-cases (entry_differs v (managed_value_equal v) (lookup k remote))) [
      | inl here ↦ (k, v, rw (eq_refl k), entry_differs-Fails v (lookup k remote) here)
      | inr later ↦
          let (j, u, l, d) = Drifts-payload_differs remote payload h.1 (rw later at e) in
          (j, u, ground (arith, eq_iff k j), d)
    ]

payload_differs-Drifts :
    (remote payload : Fields) (k : String) (v : Value)
    → lookup k payload ≡ some v
    → entry_differs v (managed_value_equal v) (lookup k remote) ≡ true
    → payload_differs remote payload ≡ true
unfolding payload_differs lookup
payload_differs-Drifts remote end k v l d = cc
payload_differs-Drifts remote (field j u payload) k v l d = elim (Bool-cases (j == k)) [
  | inl same ↦ let e : u ≡ v = some-injective _ _ (rw same at l) in rw (e, (eq_iff j k).0 same, d)
  | inr other ↦
      rw (payload_differs-Drifts remote payload k v (rw other at l) d)
        (or_true (entry_differs u (managed_value_equal u) (lookup j remote)))
]

-- Drift is reported exactly when the remote map fails some entry of the payload: under a key for
-- which null is wanted it has another value; it lacks a value, or has null, where one is wanted that
-- is neither null nor a zero value; or it has a value that is not equal to the wanted one. The
-- payload has no key twice.
pub payload_differs_iff :
    (remote payload : Fields)
    → NodupKeys payload
    → (payload_differs remote payload ≡ true) ↔ Drifts remote payload
unfolding Drifts
payload_differs_iff remote payload h = (
  Drifts-payload_differs remote payload h,
  λ d.
      payload_differs-Drifts remote payload d.0 d.1 d.2
        (Fails-entry_differs d.1 (lookup d.0 remote) d.3),
)
