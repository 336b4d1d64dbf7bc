-- ===== src/Pool/Custody.antt =====
-- Where each resource is: idle, with one caller, under way to one waiter, closed, or dropped.
use open_rfc_go.Base.{
  ℕ, ◌+◌, ◌≡◌, refl, Bool, true, false, Option, none, some, List, [], ◌∷◌, get_elem?, arith, ltb,
  if◌then◌else◌, ◌==◌,
}
use open_rfc_go.Pool.Defs.{
  Entry, Grant, has_resource, permit, start, put_back, remove_waiter, evict_expired, shut, new,
}
use open_rfc_go.Pool.Grants.{
  count, in_idle, in_mail, in_grant, total, release_slot-placed, evict_expired-placed, count-append,
}
use open_rfc_go.Pool.System.{
  System, Custody, validating, leasing, creating, Event, acquire, validated, validation_failed,
  created, create_failed, received, abandoned_grant, abandoned, released, discarded, evicted,
  closes, init, after_start, drop_custody, drop_mail, after_put_back, closing, with_slot,
  on_validated, on_validation_failed, on_created, on_create_failed, on_received, resources,
  on_abandoned_grant, on_abandoned, on_released, on_discarded, on_evicted, on_close, step, run,
}
use open_rfc_go.Pool.Runs.{Then, at_cases, total-remove_at, run-Then}

abbrev pub in_custody : ℕ → Custody → ℕ
in_custody r (validating x) = if x == r then 1 else 0
in_custody r (leasing x) = if x == r then 1 else 0
in_custody r creating = 0

-- How often the resource r is anywhere.
abbrev pub placed : ℕ → System → ℕ
placed r s =
    in_idle r s.pool.idle
    + total (in_custody r) s.custody
    + in_mail r s.pool.mail
    + count r s.closed_resources
    + count r s.dropped

-- Each resource that was created is in one place, and no other is anywhere.
abbrev pub IsPlaced : ℕ → System → Type 0
IsPlaced r s = placed r s ≡ (if ltb r s.next then 1 else 0)

module _ (r : ℕ) where
  start-IsPlaced : (s : System) (w : ℕ) → IsPlaced r s → IsPlaced r (after_start s (start w s.pool))
  unfolding start
  start-IsPlaced s w h = ground arith

  with_slot-IsPlaced : (s : System) → placed r (with_slot s) ≡ placed r s
  with_slot-IsPlaced s = omega (arith, release_slot-placed r s.pool)

  -- A resource that somebody has just let go of.
  put_back-IsPlaced :
      (s : System) (now x : ℕ)
      → placed r s + (if x == r then 1 else 0) ≡ (if ltb r s.next then 1 else 0)
      → IsPlaced r (after_put_back x s (put_back now x s.pool))
  unfolding put_back
  put_back-IsPlaced s now x h = ground arith

  pub resources-count : (es : List Entry) → count r (resources es) ≡ in_idle r es
  resources-count [] = refl
  resources-count (e ∷ es) = omega (arith, resources-count es)

  closes-IsPlaced :
      (s : System) (stopped : Bool)
      → IsPlaced r s
      → Then (IsPlaced r) (on_close stopped s (shut s.pool))
  unfolding shut
  closes-IsPlaced s true h = ground (
    arith,
    resources-count s.pool.idle,
    count-append r (resources s.pool.idle) s.closed_resources,
  )
  closes-IsPlaced s false h =
      ground (arith, resources-count s.pool.idle, count-append r (resources s.pool.idle) s.dropped)

  evicted-IsPlaced :
      (s : System) (cutoff : ℕ)
      → IsPlaced r s
      → IsPlaced r (on_evicted s (evict_expired cutoff s.pool))
  evicted-IsPlaced s cutoff h = omega (
    arith,
    evict_expired-placed r cutoff s.pool,
    count-append r (evict_expired cutoff s.pool).0 s.closed_resources,
  )

  abandoned-IsPlaced :
      (s : System) (o : Option (List ℕ)) → IsPlaced r s → Then (IsPlaced r) (on_abandoned s o)
  abandoned-IsPlaced s none h = tt
  abandoned-IsPlaced s (some ws) h = h

  next_placed :
      (n : ℕ)
      → (if ltb r (n + 1) then 1 else 0) ≡ (if ltb r n then 1 else 0) + (if n == r then 1 else 0)
  next_placed n = ground arith

module _ (r : ℕ) (s : System) (i now : ℕ) (h : IsPlaced r s) where
  on_custody :
      (c : Custody)
      → get_elem? s.custody i ≡ some c
      → Then (IsPlaced r) (on_validated i s c)
        × Then (IsPlaced r) (on_validation_failed i s c)
        × Then (IsPlaced r) (on_created i s c)
        × Then (IsPlaced r) (on_create_failed i s c)
        × Then (IsPlaced r) (on_released now i s c)
        × Then (IsPlaced r) (on_discarded i s c)
  on_custody (validating x) e =
      let out = total-remove_at (in_custody r) s.custody i e in
      (
        omega (arith, out),
        omega (arith, out, with_slot-IsPlaced r (closing x (drop_custody s i))),
        tt,
        tt,
        tt,
        tt,
      )
  on_custody (leasing x) e =
      let out = total-remove_at (in_custody r) s.custody i e in
      (
        tt,
        tt,
        tt,
        tt,
        put_back-IsPlaced r (drop_custody s i) now x (omega (arith, out)),
        omega (arith, out, with_slot-IsPlaced r (closing x (drop_custody s i))),
      )
  on_custody creating e =
      let out = total-remove_at (in_custody r) s.custody i e in
      (
        tt,
        tt,
        omega (arith, out, next_placed r s.next),
        omega (arith, out, with_slot-IsPlaced r (drop_custody s i)),
        tt,
        tt,
      )

  on_mail :
      (m : ℕ × Grant)
      → get_elem? s.pool.mail i ≡ some m
      → Then (IsPlaced r) (on_received i s m) × Then (IsPlaced r) (on_abandoned_grant now i s m)
  on_mail (w, has_resource x) e =
      let out = total-remove_at (λ (m : ℕ × Grant). in_grant r m.1) s.pool.mail i e in
      (omega (arith, out), put_back-IsPlaced r (drop_mail s i) now x (omega (arith, out)))
  on_mail (w, permit) e =
      let out = total-remove_at (λ (m : ℕ × Grant). in_grant r m.1) s.pool.mail i e in
      (omega (arith, out), omega (arith, out, with_slot-IsPlaced r (drop_mail s i)))

pub step-IsPlaced : (r : ℕ) (s : System) (e : Event) → IsPlaced r s → Then (IsPlaced r) (step s e)
unfolding step
step-IsPlaced r s (acquire w) v = start-IsPlaced r s w v
step-IsPlaced r s (validated i) v = at_cases (IsPlaced r) _ _ λ c h. (on_custody r s i 0 v c h).0
step-IsPlaced r s (validation_failed i) v =
    at_cases (IsPlaced r) _ _ λ c h. (on_custody r s i 0 v c h).1
step-IsPlaced r s (created i) v = at_cases (IsPlaced r) _ _ λ c h. (on_custody r s i 0 v c h).2
step-IsPlaced r s (create_failed i) v =
    at_cases (IsPlaced r) _ _ λ c h. (on_custody r s i 0 v c h).3
step-IsPlaced r s (received w i) v = at_cases (IsPlaced r) _ _ λ m h. (on_mail r s i 0 v m h).0
step-IsPlaced r s (abandoned_grant now i) v =
    at_cases (IsPlaced r) _ _ λ m h. (on_mail r s i now v m h).1
step-IsPlaced r s (abandoned w) v = abandoned-IsPlaced r s (remove_waiter w s.pool.waiters) v
step-IsPlaced r s (released now i) v =
    at_cases (IsPlaced r) _ _ λ c h. (on_custody r s i now v c h).4
step-IsPlaced r s (discarded i) v = at_cases (IsPlaced r) _ _ λ c h. (on_custody r s i 0 v c h).5
step-IsPlaced r s (evicted cutoff) v = evicted-IsPlaced r s cutoff v
step-IsPlaced r s (closes stopped) v = closes-IsPlaced r s stopped v

init-IsPlaced : (r n : ℕ) → IsPlaced r (init n)
unfolding init new
init-IsPlaced r n = ground arith

-- After any events, every created resource is in exactly one place: idle, with one caller, under
-- way to one waiter, closed once, or dropped; and nothing else is anywhere.
pub run-IsPlaced : (r n : ℕ) (es : List Event) → Then (IsPlaced r) (run (init n) es)
run-IsPlaced r n es = run-Then (IsPlaced r) (step-IsPlaced r) es (init n) (init-IsPlaced r n)
