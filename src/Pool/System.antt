-- ===== src/Pool/System.antt =====
-- The pool among its callers: each event is one critical section of pool.go with the step of the
-- goroutine that runs it, so every interleaving of Acquire, Release, Discard, the janitor and
-- Close is a list of events.
use open_rfc_go.Base.{
  ℕ, zero, suc, ◌+◌, Bool, true, false, Option, none, some, List, [], ◌∷◌, ◌++◌, map, get_elem?,
}
use open_rfc_go.Pool.Defs.{
  Pool, Entry, Grant, has_resource, permit, Started, refused, queued, creates, took, new, start,
  release_slot, put_back, remove_waiter, evict_expired, shut,
}

-- What a caller is doing with what the pool counts as leased: useIdle's validation, createLeased,
-- or a Lease that was returned.
pub data Custody : Type 0 where
  validating leasing : ℕ → Custody
  creating : Custody

pub record System : Type 0 where
  pub pool : Pool
  pub custody : List Custody
  pub closed_resources : List ℕ
  pub dropped : List ℕ
  pub next : ℕ

pub data Event : Type 0 where
  acquire : ℕ → Event
  validated create_failed created validation_failed : ℕ → Event
  received abandoned_grant : ℕ → ℕ → Event
  abandoned : ℕ → Event
  released : ℕ → ℕ → Event
  discarded : ℕ → Event
  evicted : ℕ → Event
  closes : Bool → Event

unfoldable pub remove_at {ℓ} : {A : Type ℓ} → List A → ℕ → List A
remove_at [] i = []
remove_at (x ∷ xs) zero = xs
remove_at (x ∷ xs) (suc i) = x ∷ remove_at xs i

unfoldable pub init : ℕ → System
init n = record { pool = new n; custody = []; closed_resources = []; dropped = []; next = 0 }

abbrev pub after_start : System → Started × Pool → System
after_start s (refused, p) = record s { pool = p }
after_start s (queued, p) = record s { pool = p }
after_start s (creates, p) = record s { pool = p; custody = creating ∷ s.custody }
after_start s (took r, p) = record s { pool = p; custody = validating r ∷ s.custody }

-- Without the i-th caller's part.
abbrev pub drop_custody : System → ℕ → System
drop_custody s i = record s { custody = remove_at s.custody i }

abbrev pub drop_mail : System → ℕ → System
drop_mail s i = record s { pool = record (s.pool) { mail = remove_at s.pool.mail i } }

abbrev pub after_put_back : ℕ → System → Bool × Pool → System
after_put_back r s (true, p) = record s { pool = p; closed_resources = r ∷ s.closed_resources }
after_put_back r s (false, p) = record s { pool = p }

abbrev pub closing : ℕ → System → System
closing r s = record s { closed_resources = r ∷ s.closed_resources }

abbrev pub with_slot : System → System
with_slot s = record s { pool = release_slot s.pool }

abbrev pub on_validated : ℕ → System → Custody → Option System
on_validated i s (validating r) = some (record s { custody = leasing r ∷ remove_at s.custody i })
on_validated i s _ = none

-- useIdle closes the resource, and gives its slot away.
abbrev pub on_validation_failed : ℕ → System → Custody → Option System
on_validation_failed i s (validating r) = some (with_slot (closing r (drop_custody s i)))
on_validation_failed i s _ = none

abbrev pub on_created : ℕ → System → Custody → Option System
on_created i s creating =
    some (record s { custody = leasing s.next ∷ remove_at s.custody i; next = s.next + 1 })
on_created i s _ = none

abbrev pub on_create_failed : ℕ → System → Custody → Option System
on_create_failed i s creating = some (with_slot (drop_custody s i))
on_create_failed i s _ = none

abbrev pub on_released : ℕ → ℕ → System → Custody → Option System
on_released now i s (leasing r) = some (after_put_back r (drop_custody s i) (put_back now r s.pool))
on_released now i s _ = none

abbrev pub on_discarded : ℕ → System → Custody → Option System
on_discarded i s (leasing r) = some (with_slot (closing r (drop_custody s i)))
on_discarded i s _ = none

-- The grant is received: validation or creation follows.
abbrev pub on_received : ℕ → System → ℕ × Grant → Option System
on_received i s (w, has_resource r) =
    some (record (drop_mail s i) { custody = validating r ∷ s.custody })
on_received i s (w, permit) = some (record (drop_mail s i) { custody = creating ∷ s.custody })

-- abandon, where the grant was already under way.
abbrev pub on_abandoned_grant : ℕ → ℕ → System → ℕ × Grant → Option System
on_abandoned_grant now i s (w, has_resource r) =
    some (after_put_back r (drop_mail s i) (put_back now r (drop_mail s i).pool))
on_abandoned_grant now i s (w, permit) = some (with_slot (drop_mail s i))

-- abandon, where the waiter is still queued.
abbrev pub on_abandoned : System → Option (List ℕ) → Option System
on_abandoned s none = none
on_abandoned s (some ws) = some (record s { pool = record (s.pool) { waiters = ws } })

abbrev pub resources : List Entry → List ℕ
resources = map (λ e. e.resource)

-- Close goes on to close what was idle if the janitor stops (or there is none) before its ctx
-- ends; otherwise it returns first. `none` is ErrClosed: a second Close changes nothing.
abbrev pub on_close : Bool → System → Option (List Entry × Pool) → Option System
on_close stopped s none = some s
on_close true s (some (idle, p)) =
    some (record s { pool = p; closed_resources = resources idle ++ s.closed_resources })
on_close false s (some (idle, p)) =
    some (record s { pool = p; dropped = resources idle ++ s.dropped })

abbrev pub on_evicted : System → List ℕ × Pool → System
on_evicted s (gone, p) = record s { pool = p; closed_resources = gone ++ s.closed_resources }

abbrev pub at {ℓ} : {A : Type ℓ} → Option A → (A → Option System) → Option System
at none f = none
at (some a) f = f a

-- `none`: the event cannot happen there. A number names a caller by its place in `custody` or a
-- grant by its place in `mail`.
unfoldable pub step : System → Event → Option System
step s (acquire w) = some (after_start s (start w s.pool))
step s (validated i) = at (get_elem? s.custody i) (on_validated i s)
step s (validation_failed i) = at (get_elem? s.custody i) (on_validation_failed i s)
step s (created i) = at (get_elem? s.custody i) (on_created i s)
step s (create_failed i) = at (get_elem? s.custody i) (on_create_failed i s)
step s (received w i) = at (get_elem? s.pool.mail i) (on_received i s)
step s (abandoned_grant now i) = at (get_elem? s.pool.mail i) (on_abandoned_grant now i s)
step s (abandoned w) = on_abandoned s (remove_waiter w s.pool.waiters)
step s (released now i) = at (get_elem? s.custody i) (on_released now i s)
step s (discarded i) = at (get_elem? s.custody i) (on_discarded i s)
step s (evicted cutoff) = some (on_evicted s (evict_expired cutoff s.pool))
step s (closes stopped) = on_close stopped s (shut s.pool)

unfoldable pub run : System → List Event → Option System
run s [] = some s
run s (e ∷ es) = elim (step s e) [ none ↦ none | some s' ↦ run s' es ]
