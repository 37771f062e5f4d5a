-- ===== src/Errors.antt =====
-- Go errors (internal/keycloak/errors.go): what errors.Is and errors.As find in the chain of an
-- error, beside its message. fmt.Errorf with %w keeps the former and extends the latter.
use keycloak_operator.Base.{ℕ, String, Bool, true, false, ◌≡◌, refl, ◌⊎◌, inl, inr, ◌<>◌}

-- `ErrNotFound`, `ErrConflict`, `ErrAuth`, `*APIError` with its status code, the NotFound of the
-- Kubernetes API, or none of them. A panic, which controller-runtime turns into an error, is
-- one of the last.
pub data Kind : Type 0 where
  not_found conflict auth object_not_found other : Kind
  api : ℕ → Kind

pub record Error : Type 0 where
  pub kind : Kind
  pub message : String

-- errors.Is(err, ErrNotFound), and the two others
abbrev pub is_not_found : Error → Bool
is_not_found e = elim e.kind [ not_found ↦ true | _ ↦ false ]

abbrev pub is_conflict : Error → Bool
is_conflict e = elim e.kind [ conflict ↦ true | _ ↦ false ]

abbrev pub is_auth : Error → Bool
is_auth e = elim e.kind [ auth ↦ true | _ ↦ false ]

-- apierrors.IsNotFound(err)
abbrev pub is_object_not_found : Error → Bool
is_object_not_found e = elim e.kind [ object_not_found ↦ true | _ ↦ false ]

abbrev pub failure : Kind → String → Error
failure k m = record { kind = k; message = m }

-- fmt.Errorf("%s: %w", prefix, e)
abbrev pub wrap : String → Error → Error
wrap prefix e = record e { message = prefix <> ": " <> e.message }

-- %q of a text that needs no escape
abbrev pub quote : String → String
quote s = "\"" <> s <> "\""

pub data Result {ℓ} (A : Type ℓ) : Type ℓ where
  ok : A → Result A
  err : Error → Result A

pub Result-cases {ℓ} :
    {A : Type ℓ} (r : Result A) → ((a : A) × (r ≡ ok a)) ⊎ ((e : Error) × (r ≡ err e))
Result-cases (ok a) = inl (a, refl)
Result-cases (err e) = inr (e, refl)
