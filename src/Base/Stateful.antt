-- ===== src/Base/Stateful.antt =====
-- Methods that may fail and that change the object they belong to.
use open_rfc_go.Base.Outcome.{Result, ok, err}

-- A method of an object of type S that may fail with an E: the outcome, and the object afterwards.
abbrev pub Method : Type 0 → Type 0 → Type 0 → Type 0
Method S E A = S → Result E A × S

-- `if err != nil { return err }` after a call.
abbrev pub bind : {S E A B : Type 0} → Result E A × S → (A → Method S E B) → Result E B × S
bind (ok a, s) f = f a s
bind (err e, s) f = (err e, s)

abbrev pub pure : {S E A : Type 0} → A → Method S E A
pure a s = (ok a, s)

infixl 5 ◌>>=◌ ◌>>◌
abbrev pub ◌>>=◌ : {S E A B : Type 0} → Method S E A → (A → Method S E B) → Method S E B
◌>>=◌ m f s = bind (m s) f

abbrev pub ◌>>◌ : {S E B : Type 0} → Method S E (Unit {0}) → Method S E B → Method S E B
◌>>◌ m k s = bind (m s) (λ _. k)
