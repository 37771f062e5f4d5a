-- ===== src/World.antt =====
-- Effects. A Go function that calls out of the process is an action on the state of the world
-- `W`, which the model leaves open; one that can also fail is an `Op`.
use keycloak_operator.Errors.{Error, Result, ok, err}

abbrev pub Act : Type 0 → Type 0 → Type 0
Act W A = W → A × W

abbrev pub Op : Type 0 → Type 0 → Type 0
Op W A = Act W (Result A)

abbrev pub pure : {W A : Type 0} → A → Act W A
pure a w = (a, w)

infixl 5 ◌>>=◌ ◌>>◌
abbrev pub ◌>>=◌ : {W A B : Type 0} → Act W A → (A → Act W B) → Act W B
◌>>=◌ m f w = let (a, w') = m w in f a w'

abbrev pub ◌>>◌ : {W B : Type 0} → Act W (Unit {0}) → Act W B → Act W B
m >> k = m >>= λ _. k

-- `if err != nil { return err }` after a call, and the rest.
infixl 5 ◌>>?◌
abbrev pub ◌>>?◌ : {W A B : Type 0} → Op W A → (A → Op W B) → Op W B
◌>>?◌ m f = m >>= λ r. elim r [ ok a ↦ f a | err e ↦ pure (err e) ]

abbrev pub return : {W A : Type 0} → A → Op W A
return a = pure (ok a)

abbrev pub fail_with : {W A : Type 0} → Error → Op W A
fail_with e = pure (err e)
