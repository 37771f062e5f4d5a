-- ===== src/Startup/Namespaces.antt =====
-- Which namespaces the operator watches.
use keycloak_operator.Base.{
  String, Bool, true, false, not, ◌&&◌, ◌||◌, none, some, Option, List, [], ◌∷◌, ◌≡◌, refl, ◌∙◌, ap,
  ◌==◌, eq_iff, arith, Bool-cases, inl, inr, if◌then◌else◌,
}
use keycloak_operator.Strings.{split, trim_space, join, are_free_of, split-join}
use keycloak_operator.Drivers.Sets.{get, put, has, get-put}
use keycloak_operator.Drivers.Scopes.{Names, is_empty}
use keycloak_operator.Startup.{
  Flags, add_namespace, collect, comma, default_namespaces, manager_options,
}

-- A part of the list names a namespace if that is what is left of it without the space around it.
abbrev pub names : String → String → Bool
names ns part = trim_space part == ns && not (ns == "")

abbrev pub is_named : String → List String → Bool
is_named ns [] = false
is_named ns (part ∷ parts) = names ns part || is_named ns parts

abbrev pub are_blank : List String → Bool
are_blank [] = true
are_blank (part ∷ parts) = trim_space part == "" && are_blank parts

-- The cache of the manager has the objects of the namespace.
abbrev pub is_watched : String → Option Names → Bool
is_watched ns none = true
is_watched ns (some namespaces) = has ns namespaces

has-add_namespace :
    (ns part : String) (out : Names)
    → has ns (add_namespace (trim_space part) out) ≡ (has ns out || names ns part)
has-add_namespace ns part out = ground (
  arith,
  get-put (trim_space part) ns tt out,
  eq_iff (trim_space part) "",
  eq_iff (trim_space part) ns,
  eq_iff ns "",
)

has-collect :
    (ns : String) (parts : List String) (out : Names)
    → has ns (collect parts out) ≡ (has ns out || is_named ns parts)
unfolding collect
has-collect ns [] out = ground arith
has-collect ns (part ∷ parts) out =
    has-collect ns parts (add_namespace (trim_space part) out)
    ∙ ground (arith, has-add_namespace ns part out)

is_empty-put : (ns : String) (out : Names) → is_empty (put ns tt out) ≡ false
unfolding put
is_empty-put ns [] = refl
is_empty-put ns ((k, u) ∷ out) = ground arith

is_empty-collect :
    (parts : List String) (out : Names)
    → is_empty (collect parts out) ≡ (is_empty out && are_blank parts)
unfolding collect
is_empty-collect [] out = ground arith
is_empty-collect (part ∷ parts) out =
    is_empty-collect parts (add_namespace (trim_space part) out)
    ∙ ground (arith, is_empty-put (trim_space part) out)

-- The test for the empty list changes nothing: its one part is blank.
default_namespaces-parts :
    (watched : String)
    → default_namespaces watched ≡ (
        let namespaces = collect (split comma watched) [] in
        if is_empty namespaces then none else some namespaces)
unfolding default_namespaces split collect trim_space
default_namespaces-parts watched = elim (Bool-cases (watched == "")) [
  | inl e ↦ rw ((eq_iff watched "").0 e) refl
  | inr e ↦ rw e refl
]

is_watched-collected :
    (ns : String) (namespaces : Names)
    → is_watched ns (if is_empty namespaces then none else some namespaces)
      ≡ (is_empty namespaces || has ns namespaces)
is_watched-collected ns [] = refl
is_watched-collected ns (n ∷ namespaces) = refl

-- The flag --watch-namespace means what its text says. Where its value joins parts without a comma
-- by commas, there being at least one, the manager watches a namespace exactly if a part names it,
-- with any white space around it, or no part names one: blank parts and repetitions do not count,
-- and a list without a name is no restriction.
pub is_watched-join :
    (flags : Flags) (part : String) (parts : List String) (ns : String)
    → flags.watch_namespace_list ≡ join "," (part ∷ parts)
    → are_free_of comma (part ∷ parts) ≡ true
    → is_watched ns (manager_options flags).default_namespaces
      ≡ (are_blank (part ∷ parts) || is_named ns (part ∷ parts))
unfolding manager_options get
is_watched-join flags part parts ns e free =
    ap (is_watched ns) (default_namespaces-parts flags.watch_namespace_list)
    ∙ rw e (
        rw (split-join "," part parts free) (
          is_watched-collected ns (collect (part ∷ parts) [])
          ∙ rw (is_empty-collect (part ∷ parts) []) (rw (has-collect ns (part ∷ parts) []) refl)))
