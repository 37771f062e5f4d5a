-- ===== src/Keycloak/Resources/Answers.antt =====
-- The resource functions after the answer of their request.
use keycloak_operator.Base.{String, Option, none, ◌≡◌}
use keycloak_operator.Errors.{Error, ok, err}
use keycloak_operator.Json.{Value}
use keycloak_operator.Platform.{Admin, Method, get, one_map, discard}
use keycloak_operator.Keycloak.Resources.{map_of, get_map, send}

module _ {W : Type 0} (kc : Admin W) (path : String) (x x' : W) where
  pub get_map-ok :
      (out : Option Value)
      → kc.request get path none one_map x ≡ (ok out, x')
      → get_map kc path x ≡ (ok (map_of out), x')
  get_map-ok out h = rw h

  pub get_map-err :
      (e : Error)
      → kc.request get path none one_map x ≡ (err e, x')
      → get_map kc path x ≡ (err e, x')
  get_map-err e h = rw h

  pub send-ok :
      (method : Method) (body out : Option Value)
      → kc.request method path body discard x ≡ (ok out, x')
      → send kc method path body x ≡ (ok tt, x')
  send-ok method body out h = rw h

  pub send-err :
      (method : Method) (body : Option Value) (e : Error)
      → kc.request method path body discard x ≡ (err e, x')
      → send kc method path body x ≡ (err e, x')
  send-err method body e h = rw h
