-- ===== src/Keycloak/Fake/Routing.antt =====
-- Which handler a path of the client reaches: the segments that the client escapes and joins come
-- to `handleRealmScoped` as they were.
use keycloak_operator.Base.{
  String, ◌<>◌, Bool, true, false, ◌&&◌, Option, none, some, List, [], ◌∷◌, ◌≡◌, refl, sym, ap, ◌∙◌,
  ◌==◌, eq_iff, arith, inl, inr, Bool-cases,
}
use text.Mathlib.TextLemmas.{append_assoc, append-nil}
use keycloak_operator.Json.Text.{Text}
use keycloak_operator.Platform.{Method, post}
use keycloak_operator.Keycloak.Fake.State.{Server}
use keycloak_operator.Keycloak.Fake.Realms.{create_realm}
use keycloak_operator.Keycloak.Fake.Router.{
  Net, handle_resource, handle_realm_scoped, handle_rest, handle_admin, serve,
}
use keycloak_operator.Strings.{split, is_free_of, split-append, split_whole}
use keycloak_operator.Keycloak.Fake.Router.Paths.{
  slash, after_prefix, trim_prefix, after_prefix-append,
}

abbrev pub slashes : List String → String
slashes [] = ""
slashes (s ∷ ss) = "/" <> (s <> slashes ss)

-- The texts without a slash.
abbrev pub are_segments : List String → Bool
are_segments [] = true
are_segments (s ∷ ss) = is_free_of slash s && are_segments ss

split-slashes :
    (s : String) (ss : List String)
    → are_segments (s ∷ ss) ≡ true
    → split slash (s <> slashes ss) ≡ s ∷ ss
split-slashes s [] h = ap (split slash) (append-nil s) ∙ split_whole slash s (ground (arith, h))
split-slashes s (x ∷ ss) h =
    split-append "/" s (x <> slashes ss) (ground (arith, h))
    ∙ ap (λ l. s ∷ l) (split-slashes x ss (ground (arith, h)))

-- A text that starts otherwise is another one.
ne_of_prefix : (p rest t : String) → after_prefix p t ≡ none → ((p <> rest) == t) ≡ false
ne_of_prefix p rest t h = elim (Bool-cases ((p <> rest) == t)) [
  | inl e ↦
      ground (arith, after_prefix-append p rest, ap (after_prefix p) ((eq_iff (p <> rest) t).0 e))
  | inr e ↦ e
]

module _ (net : Net) (method : Method) (query : String → String) (body : Option Text) where
  handle_rest_realm :
      (realm : String) (sub : List String)
      → are_segments (realm ∷ sub) ≡ true
      → net.path_unescape realm ≡ some realm
      → handle_rest net method query ("/realms/" <> (realm <> slashes sub)) body
        ≡ handle_resource net method query realm sub body
  unfolding handle_rest handle_realm_scoped
  handle_rest_realm realm sub h u =
      let rest = realm <> slashes sub in
      rw (
        ne_of_prefix "/realms/" rest "/serverinfo" refl,
        ne_of_prefix "/realms/" rest "/realms" refl,
        after_prefix-append "/realms/" rest,
        split-slashes realm sub h,
        u,
      )

-- The text that three literal pieces make with the rest.
pub join_admin : (rest : String) → "/" <> ("admin" <> ("/" <> rest)) ≡ "/admin/" <> rest
join_admin rest =
    sym (append_assoc "/" "admin" ("/" <> rest)) ∙ sym (append_assoc "/admin" "/" rest)

join_realms : (rest : String) → "/" <> ("realms" <> ("/" <> rest)) ≡ "/realms/" <> rest
join_realms rest =
    sym (append_assoc "/" "realms" ("/" <> rest)) ∙ sym (append_assoc "/realms" "/" rest)

path_admin : (rest : String) → "/" <> ("admin" <> ("/" <> rest)) ≡ "/admin" <> ("/" <> rest)
path_admin rest = sym (append_assoc "/" "admin" ("/" <> rest))

-- A request to the path of segments without a slash, whose second is a realm that has nothing to
-- unescape, comes to the handler of that realm with the other segments as they are.
pub serve-handle_resource :
    (net : Net) (method : Method) (url realm : String) (sub : List String) (body : Option Text)
    (s : Server)
    → net.path url ≡ slashes ("admin" ∷ "realms" ∷ realm ∷ sub)
    → are_segments (realm ∷ sub) ≡ true
    → net.path_unescape realm ≡ some realm
    → serve net method url body s ≡ handle_resource net method (net.query url) realm sub body s
unfolding serve handle_admin
serve-handle_resource net method url realm sub body s p h u =
    let rest = realm <> slashes sub in
    let whole : net.path url ≡ "/admin" <> ("/realms/" <> rest) =
      p ∙ path_admin ("realms" <> ("/" <> rest)) ∙ ap (λ t. "/admin" <> t) (join_realms rest) in
    let cut : net.path url ≡ "/admin/" <> ("realms" <> ("/" <> rest)) =
      p ∙ join_admin ("realms" <> ("/" <> rest)) in
    rw (
      serve,
      ap (after_prefix "/admin/") cut ∙ after_prefix-append "/admin/" ("realms" <> ("/" <> rest)),
      trim_prefix,
      ap (after_prefix "/admin") whole ∙ after_prefix-append "/admin" ("/realms/" <> rest),
      handle_rest_realm net method (net.query url) body realm sub h u,
    )

-- A POST to the collection of realms comes to `createRealm`.
pub serve-create_realm :
    (net : Net) (url : String) (body : Option Text) (s : Server)
    → net.path url ≡ "/admin/realms"
    → serve net post url body s ≡ create_realm body s
unfolding serve handle_admin handle_rest after_prefix
serve-create_realm net url body s p = rw (serve, p, trim_prefix, p)
