-- ===== src/Keycloak/Fake/State.antt =====
-- fake/server.go: the state, the answers, `decode` and `writeJSON`.
pub mod Lists
unfoldable pub use Lists.*
use keycloak_operator.Base.{
  ℕ, String, ◌<>◌, Bool, true, false, not, ◌||◌, Option, none, some, List, [], ◌∷◌, ◌++◌, ◌==◌,
  length, is_some, if◌then◌else◌,
}
use keycloak_operator.World.{Act}
use keycloak_operator.Json.{
  Value, null, boolean, number, string, list, object, Items, nil, cons, Fields, end, field, lookup,
  insert, as_string,
}
use keycloak_operator.Json.Text.{Text, parse_value}
use keycloak_operator.Keycloak.Resources.{list_value}
use keycloak_operator.Drivers.Sets

-- A role, whose composites are kept beside its representation as long as they are the
-- `[]map[string]any` that the handler of composites wrote: an entry of a payload under that key is
-- a `[]any`, and takes their place.
pub record Role : Type 0 where
  pub rep : Fields
  pub composites : Option (List Fields)

-- `Server`. The first key of the maps of maps is the realm. A nil inner map is a missing one.
pub record Server : Type 0 where
  pub creds : Map String
  pub issued : ℕ
  pub revoked : Bool
  pub realms : Map Fields
  pub clients : Map (Map Fields)
  pub scopes : Map (Map Fields)
  pub roles : Map (Map Role)
  pub client_roles : Map (Map (Map Fields))
  pub idps : Map (Map Fields)
  pub groups : Map (Map Fields)
  pub group_realm_roles : Map (Map (List Fields))
  pub group_client_roles : Map (Map (Map (List Fields)))
  pub default_scopes : Map (Map (List String))
  pub optional_scopes : Map (Map (List String))

-- `New`, and `Reset`, which keeps what is not a map of realms.
unfoldable pub new_server : String → String → Server
new_server username password = record {
  creds = (username, password) ∷ [];
  issued = 0;
  revoked = false;
  realms = [];
  clients = [];
  scopes = [];
  roles = [];
  client_roles = [];
  idps = [];
  groups = [];
  group_realm_roles = [];
  group_client_roles = [];
  default_scopes = [];
  optional_scopes = [];
}

unfoldable pub reset : Server → Server
reset s = record s {
  realms = [];
  clients = [];
  scopes = [];
  roles = [];
  client_roles = [];
  idps = [];
  groups = [];
  group_realm_roles = [];
  group_client_roles = [];
  default_scopes = [];
  optional_scopes = [];
}

unfoldable pub revoke_tokens : Server → Server
revoke_tokens s = record s { revoked = true }

-- The body of an answer, and the answer: a panic, which closes the connection, or a status.
pub data Content : Type 0 where
  empty : Content
  plain : String → Content
  json : Value → Content

pub data Reply : Type 0 where
  panicked : Reply
  reply : ℕ → Content → Reply

abbrev pub Handler : Type 0
Handler = Act Server Reply

-- An answer that leaves the state alone.
abbrev pub answer : Reply → Handler
answer r s = (r, s)

abbrev pub page_not_found : Reply
page_not_found = reply 404 (plain "404 page not found\n")

-- http.Error
abbrev pub http_error : String → ℕ → Reply
http_error message status = reply status (plain (message <> "\n"))

abbrev pub created : Reply
created = reply 201 empty

abbrev pub no_content : Reply
no_content = reply 204 empty

abbrev pub method_not_allowed : Reply
method_not_allowed = reply 405 empty

-- `writeJSON`
abbrev pub write_json : Value → Reply
write_json v = reply 200 (json v)

-- An empty slice of the server is a nil slice, which is encoded as null.
abbrev pub maps_value : List Fields → Value
maps_value [] = null
maps_value (m ∷ ms) = list (list_value (m ∷ ms))

-- `decode`: the first value of the body. The text of the decoder's error is left out.
abbrev pub decode_value : Option Text → Option Value
decode_value none = none
decode_value (some t) = elim (parse_value (length t) t) [ none ↦ none | some p ↦ some p.0 ]

abbrev pub bad_json : Reply
bad_json = http_error "bad json" 400

-- `decode` into a `map[string]any`, which null leaves nil.
pub data Payload : Type 0 where
  invalid : Payload
  nil_map : Payload
  a_map : Fields → Payload

unfoldable pub decode_map : Option Text → Payload
unfolding parse_value
decode_map body = elim (decode_value body) [
  | none ↦ invalid
  | some v ↦ elim v [ null ↦ nil_map | object m ↦ a_map m | _ ↦ invalid ]
]

-- `decode` into a `[]map[string]any`; a nil map among the elements is an empty one.
abbrev pub maps_of_values : Items → Option (List Fields)
maps_of_values nil = some []
maps_of_values (cons v l) = elim (maps_of_values l) [
  | none ↦ none
  | some ms ↦ elim v [ null ↦ some (end ∷ ms) | object m ↦ some (m ∷ ms) | _ ↦ none ]
]

unfoldable pub decode_maps : Option Text → Option (List Fields)
unfolding parse_value
decode_maps body = elim (decode_value body) [
  | none ↦ none
  | some v ↦ elim v [ null ↦ some [] | list l ↦ maps_of_values l | _ ↦ none ]
]

-- A handler of what is stored, if anything is.
abbrev pub on_found : {A : Type 0} → Option A → (A → Handler) → Handler
on_found none k = answer page_not_found
on_found (some a) k = k a

-- A handler of a payload, which may be nil.
abbrev pub on_payload : Payload → (Fields → Handler) → Handler
on_payload invalid k = answer bad_json
on_payload nil_map k = k end
on_payload (a_map m) k = k m

-- A handler that writes into the payload unless it is refused: a write into a nil map panics.
abbrev pub on_new : Payload → (Fields → Bool) → Reply → (Fields → Handler) → Handler
on_new invalid refused refusal store = answer bad_json
on_new nil_map refused refusal store = if refused end then answer refusal else answer panicked
on_new (a_map m) refused refusal store = if refused m then answer refusal else store m

-- What goes on with the result of a comparison of ids, and what is left where that panics.
abbrev pub unless_panic :
    Option (List Fields) → (Server → Server) → (List Fields → Handler) → Handler
unless_panic none left k = λ s. (panicked, left s)
unless_panic (some reps) left k = k reps

abbrev pub on_payloads : Option (List Fields) → (List Fields → Handler) → Handler
on_payloads none k = answer bad_json
on_payloads (some ms) k = k ms
