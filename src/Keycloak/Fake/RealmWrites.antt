-- ===== src/Keycloak/Fake/RealmWrites.antt =====
-- What the handlers of realms make of the bodies that the client writes, and what the test for
-- drift makes of the representation that is then stored.
use keycloak_operator.Base.{String, false, none, some, ◌≡◌, ap, ◌∙◌, ◌==◌, arith, eq_iff}
use mathlib.Core.Option
use keycloak_operator.Json.{string, object, Fields, lookup, insert, IsWellFields}
use keycloak_operator.Json.Laws.{lookup-insert}
use keycloak_operator.Json.Text.{marshal, sort_keys, sort_fields}
use keycloak_operator.Json.RoundTrip.{lookup-sort_fields, sort_keys-IsWell}
use keycloak_operator.Platform.{get, put, delete}
use keycloak_operator.LastApplied.{payload_differs}
use keycloak_operator.LastApplied.Sorted.{payload_differs-sorted}
use keycloak_operator.Keycloak.Mappings.{text_at}
use keycloak_operator.Keycloak.Fake.State.{
  http_error, Server, created, no_content, write_json, page_not_found, merge,
}
use keycloak_operator.Keycloak.Fake.Realms as Handlers
use keycloak_operator.Keycloak.Fake.Bodies.{
  decode_map-marshal, text_at-sort_fields, lookup-merge, or_else,
}
use keycloak_operator.Drivers.Sets

-- What comes of an update, and of a creation, in the state of the server.
pub put_realm :
    (realm : String) (payload rep : Fields) (s : Server)
    → IsWellFields payload
    → Sets.get realm s.realms ≡ some rep
    → Handlers.handle_realm put realm (some (marshal (object payload))) s ≡ (
      no_content,
      record s { realms = Sets.put realm (merge rep (sort_fields payload)) s.realms },
    )
unfolding Handlers.handle_realm
put_realm realm payload rep s w e = rw (decode_map-marshal payload w, e)

pub get_found :
    (realm : String) (rep : Fields) (s : Server)
    → Sets.get realm s.realms ≡ some rep
    → Handlers.handle_realm get realm none s ≡ (write_json (object rep), s)
unfolding Handlers.handle_realm
get_found realm rep s e = rw e

pub make_realm :
    (realm : String) (payload : Fields) (s : Server)
    → IsWellFields payload
    → text_at "realm" payload ≡ realm
    → (realm == "") ≡ false
    → Sets.get realm s.realms ≡ none
    → Handlers.create_realm (some (marshal (object payload))) s ≡ (
      created,
      record s {
        realms = Sets.put realm (insert "id" (string realm) (sort_fields payload)) s.realms;
      },
    )
unfolding Handlers.create_realm
make_realm realm payload s w t n e =
    rw (decode_map-marshal payload w, text_at-sort_fields "realm" payload w, t, n, e)

pub make_realm_again :
    (realm : String) (payload rep : Fields) (s : Server)
    → IsWellFields payload
    → text_at "realm" payload ≡ realm
    → (realm == "") ≡ false
    → Sets.get realm s.realms ≡ some rep
    → Handlers.create_realm (some (marshal (object payload))) s ≡ (http_error "realm exists" 409, s)
unfolding Handlers.create_realm
make_realm_again realm payload rep s w t n e =
    rw (decode_map-marshal payload w, text_at-sort_fields "realm" payload w, t, n, e)

pub erase_realm :
    (realm : String) (rep : Fields) (s : Server)
    → Sets.get realm s.realms ≡ some rep
    → Handlers.handle_realm delete realm none s
      ≡ (no_content, record s { realms = Sets.erase realm s.realms })
unfolding Handlers.handle_realm
erase_realm realm rep s e = rw e

pub erase_missing :
    (realm : String) (s : Server)
    → Sets.get realm s.realms ≡ none
    → Handlers.handle_realm delete realm none s ≡ (page_not_found, s)
unfolding Handlers.handle_realm
erase_missing realm s e = rw e

pub get_missing :
    (realm : String) (s : Server)
    → Sets.get realm s.realms ≡ none
    → Handlers.handle_realm get realm none s ≡ (page_not_found, s)
unfolding Handlers.handle_realm
get_missing realm s e = rw e

-- The merged representation has each entry of the payload.
pub payload_differs-merge :
    (rep payload : Fields)
    → IsWellFields payload
    → payload_differs (merge rep (sort_fields payload)) payload ≡ false
unfolding sort_keys
payload_differs-merge rep payload w =
    payload_differs-sorted payload (merge rep (sort_fields payload)) w (λ k v e.
      lookup-merge rep (sort_fields payload) k (sort_keys-IsWell (object payload) w)
      ∙ ap (λ o. or_else o (lookup k rep))
          (lookup-sort_fields k payload w ∙ ap (Option.map sort_keys) e))

pub payload_differs-new :
    (realm : String) (payload : Fields)
    → IsWellFields payload
    → lookup "id" payload ≡ none
    → payload_differs (insert "id" (string realm) (sort_fields payload)) payload ≡ false
payload_differs-new realm payload w absent =
    payload_differs-sorted payload (insert "id" (string realm) (sort_fields payload)) w (λ k v e.
      ground (
        arith,
        lookup-insert "id" k (string realm) (sort_fields payload),
        lookup-sort_fields k payload w,
        e,
        absent,
        eq_iff "id" k,
      ))
