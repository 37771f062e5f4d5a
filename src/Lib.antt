-- ===== src/Lib.antt =====
-- The Keycloak operator: a Kubernetes operator that keeps realms, clients, client scopes, realm
-- roles, identity providers and groups of Keycloak servers as custom resources declare them.
--
-- The parts. A controller per kind reads the custom resource and hands it, with a driver for the
-- kind, to the engine, which runs the lifecycle that all kinds share: deletion and the finalizer,
-- protected resources, the payload to enforce, creation, adoption, the test for drift, its
-- correction, and the conditions. The drivers call the Admin API through the resource functions of
-- a client, which the provider makes from a connection and its Secret.
--
-- Where each part is modelled:
-- - internal/keycloak/errors.go: Errors, by what errors.Is finds and the message;
-- - the values, the texts and the maps of encoding/json: Json, Json/Text, with laws in Json/Laws
--   and Json/RoundTrip; Go structs with their tags: Json/Structs and its children;
-- - internal/controller/lastapplied.go: LastApplied, EffectivePayload as effective_payload,
--   MergePayload as merge_payload, PayloadDiffers as payload_differs; results in its children;
-- - api/v1alpha1: Api and Api/Policy (common.go, methods.go), Api/Specs and its children (the
--   specs with every field, realm_types.go in Specs/Realm, and their tags in Specs/RealmTags and
--   Specs/Tags); Drivers/Payloads says what of a spec the payload holds;
-- - internal/controller/engine.go: Driver (the interface), Engine (durations, outcomes, state),
--   Engine/Status (setCondition, fail, the end of finalize), Engine/Lifecycle (Reconcile, which is
--   reconcile with the parts run, manage, apply_spec and read_and_apply, handleCreate,
--   handleExisting with enforce, correct_drift and after_update, handleDeletion); results in
--   Engine/Untouched, Refusal, Deletion, Conditions, Ending, Convergence, Correction, Creation,
--   Encoding and Generation;
-- - internal/controller/driver_*.go: Drivers and its children, a Driver per kind; Drivers/Sets has
--   the differences of maps by which assignments are corrected;
-- - internal/keycloak/resources.go: Keycloak/Resources and Keycloak/Mappings, on the escapes of
--   net/url in Keycloak/Escape;
-- - internal/keycloak/client.go: Keycloak/Client (Token as token, Do as request, doOnce as
--   do_once), with the grant and the meaning of answers in Client/Protocol, results
--   in Client/Tokens and Client/Requests;
-- - internal/keycloak/provider.go: Keycloak/Provider (For as for), results in Provider/Cache;
-- - internal/controller/*_controller.go: Controllers/Kinds (the six kinds) and
--   Controllers/Connections (keycloakconnection_controller.go);
-- - internal/keycloak/fake/server.go: Keycloak/Fake (State, a file per kind of resource, Router
--   for the mux, handleToken, handleAdmin and handleRealmScoped, Inspect for the methods of
--   tests). Fake/Steps has the requests as steps of the state, Fake/Reach the states that can be
--   reached, Fake/Served the client in front of the server, Fake/Settling the creation and
--   deletion of realms through both, and Fake/Corrections the updates of realms, providers and
--   groups, Fake/Assignments the scopes of clients, Fake/Ready, Passes, Healing, Founding and
--   Removal whole passes of the engine over realms (through Engine/Correction, Engine/Creation
--   and Engine/Deletion), Fake/Revocation the retry of a request. A panic of a handler is an
--   answer, since it closes the connection and no more;
-- - internal/metrics/metrics.go: Metrics (the vectors, init as register_vectors), and
--   Class in Engine;
-- - cmd/main.go and internal/version/version.go: Startup (main, its options and flags, String as
--   banner), results in Startup/Order and Startup/Namespaces; strings.Split, Join and TrimSpace are
--   in Strings;
-- - Base and World have the shared names and the effects, Tests the theorems at concrete data.
--
-- State and effects. A function that calls out is an action on a world whose type is left open. The
-- record Cluster of Platform holds what the engine asks of Kubernetes (writes of the object and of
-- its status, events, metrics, Secrets, the condition and finalizer helpers, and the connection);
-- Admin is a client of the Admin API. They are parameters, with documented behaviour as hypotheses
-- where a result needs it. The engine's state is the object in memory beside the world; the object
-- as it was read is the base of patches. What a part leaves alone is said with an observer, any
-- function of the world that the harmless calls do not change.
--
-- Conventions. A Go map is an association list in the order in which a loop visits it. A JSON text
-- is its sequence of tokens, and parsing takes the number of tokens as fuel, which is enough for
-- every text that is printed. A float64 is the text that is printed for it, and an
-- integer of a spec the text of the float64 that it is read back as, so that the rounding of large
-- ones is not seen. A nil slice or map of a spec is an empty one, since omitempty leaves out both.
-- Durations are natural numbers of nanoseconds.
--
-- Not modelled: log lines and the duration of a reconciliation, the registration of controllers,
-- the parsing of flags, the validation rules that Kubernetes applies to a spec, generated
-- code, the locks of the client and the provider, the listener and the mutex of the
-- fake server, and the nil map that it keeps of an identity provider created with the body null.
pub mod Base
pub mod Errors
pub mod Json
pub mod LastApplied
pub mod Strings
pub mod World
pub mod Api
pub mod Platform
pub mod Driver
pub mod Keycloak
pub mod Drivers
pub mod Engine
pub mod Controllers
pub mod Metrics
pub mod Startup
pub mod Tests
