-- ===== src/Pool/Runs.antt =====
-- What an event, or a run of events, leaves true, and the lists that events take a part out of.
use open_rfc_go.Base.{
  ℕ, zero, suc, ◌+◌, ◌≡◌, refl, ap, Option, none, some, List, [], ◌∷◌, length, get_elem?, arith,
}
use open_rfc_go.Pool.Grants.{total}
use open_rfc_go.Pool.System.{System, Event, remove_at, at, step, run}

-- What holds after an event, if it can happen.
abbrev pub Then {ℓ} : (System → Type ℓ) → Option System → Type ℓ
Then P none = Unit
Then P (some s) = P s

pub at_cases {ℓ κ} :
    {A : Type ℓ} (P : System → Type κ) (o : Option A) (f : A → Option System)
    → ((a : A) → o ≡ some a → Then P (f a))
    → Then P (at o f)
at_cases P none f h = tt
at_cases P (some a) f h = h a refl

pub total-remove_at {ℓ} :
    {A : Type ℓ} (f : A → ℕ) (xs : List A) (i : ℕ) {x : A}
    → get_elem? xs i ≡ some x
    → total f xs ≡ f x + total f (remove_at xs i)
unfolding remove_at
total-remove_at f [] i h = cc
total-remove_at f (y ∷ xs) zero h = ground arith
total-remove_at f (y ∷ xs) (suc i) h = omega (arith, total-remove_at f xs i h)

pub length-remove_at {ℓ} :
    {A : Type ℓ} (xs : List A) (i : ℕ) {x : A}
    → get_elem? xs i ≡ some x
    → length xs ≡ suc (length (remove_at xs i))
unfolding remove_at
length-remove_at [] i h = cc
length-remove_at (y ∷ xs) zero h = refl
length-remove_at (y ∷ xs) (suc i) h = ap suc (length-remove_at xs i h)

pub run-Then {ℓ} :
    (P : System → Type ℓ)
    → ((s : System) (e : Event) → P s → Then P (step s e))
    → (es : List Event) (s : System) → P s
    → Then P (run s es)
unfolding run
run-Then P keep [] s h = h
run-Then P keep (e ∷ es) s h = go (run-Then P keep es) (step s e) (keep s e h)
  where
    go :
        ((s' : System) → P s' → Then P (run s' es))
        → (o : Option System) → Then P o
        → Then P (elim o [ none ↦ none | some s' ↦ run s' es ])
    go ih none k = tt
    go ih (some s') k = ih s' k

pub run_ok :
    (P : System → Type 0) (s t : System) (es : List Event)
    → Then P (run s es)
    → run s es ≡ some t
    → P t
run_ok P s t es h e = rw e at h
