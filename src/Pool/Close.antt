-- ===== src/Pool/Close.antt =====
-- Close and what it leaves behind.
use open_rfc_go.Base.{
  ℕ, ◌≤◌, ◌≡◌, Bool, true, false, Option, none, some, List, [], ◌∷◌, ◌++◌, arith,
}
use open_rfc_go.Pool.Defs.{Grant, has_resource, permit, start, put_back, remove_waiter, shut}
use open_rfc_go.Pool.Grants.{count, in_idle, count-append}
use open_rfc_go.Pool.System.{
  System, Custody, validating, leasing, creating, Event, acquire, validated, validation_failed,
  created, create_failed, received, abandoned_grant, abandoned, released, discarded, evicted,
  closes, init, after_start, after_put_back, on_validated, on_validation_failed, on_created,
  on_create_failed, on_received, on_abandoned_grant, on_abandoned, on_released, on_discarded,
  on_close, resources, drop_mail, step, run,
}
use open_rfc_go.Pool.Runs.{Then, at_cases, run-Then, run_ok}
use open_rfc_go.Pool.Custody.{IsPlaced, resources-count, run-IsPlaced, step-IsPlaced}

-- What Close has dropped is never seen again.
abbrev HasDropped : ℕ → System → Type 0
HasDropped r s = 1 ≤ count r s.dropped

module _ (r : ℕ) (s : System) (h : HasDropped r s) where
  put_back_dropped :
      (t : System) (now x : ℕ)
      → HasDropped r t
      → HasDropped r (after_put_back x t (put_back now x t.pool))
  unfolding put_back
  put_back_dropped t now x k = ground arith

  on_custody :
      (i now : ℕ) (c : Custody)
      → Then (HasDropped r) (on_validated i s c)
        × Then (HasDropped r) (on_validation_failed i s c)
        × Then (HasDropped r) (on_created i s c)
        × Then (HasDropped r) (on_create_failed i s c)
        × Then (HasDropped r) (on_released now i s c)
        × Then (HasDropped r) (on_discarded i s c)
  on_custody i now (validating x) = (h, h, tt, tt, tt, tt)
  on_custody i now (leasing x) = (tt, tt, tt, tt, put_back_dropped _ now x h, h)
  on_custody i now creating = (tt, tt, h, h, tt, tt)

  on_mail :
      (i now : ℕ) (m : ℕ × Grant)
      → Then (HasDropped r) (on_received i s m) × Then (HasDropped r) (on_abandoned_grant now i s m)
  on_mail i now (w, has_resource x) = (h, put_back_dropped (drop_mail s i) now x h)
  on_mail i now (w, permit) = (h, h)

  start_dropped : (w : ℕ) → HasDropped r (after_start s (start w s.pool))
  unfolding start
  start_dropped w = ground arith

  closes_dropped : (stopped : Bool) → Then (HasDropped r) (on_close stopped s (shut s.pool))
  unfolding shut
  closes_dropped true = ground arith
  closes_dropped false = ground (arith, count-append r (resources s.pool.idle) s.dropped)

  abandoned_dropped : (o : Option (List ℕ)) → Then (HasDropped r) (on_abandoned s o)
  abandoned_dropped none = tt
  abandoned_dropped (some ws) = h

step-HasDropped : (r : ℕ) (s : System) (e : Event) → HasDropped r s → Then (HasDropped r) (step s e)
unfolding step
step-HasDropped r s (acquire w) h = start_dropped r s h w
step-HasDropped r s (validated i) h = at_cases (HasDropped r) _ _ λ c _. (on_custody r s h i 0 c).0
step-HasDropped r s (validation_failed i) h =
    at_cases (HasDropped r) _ _ λ c _. (on_custody r s h i 0 c).1
step-HasDropped r s (created i) h = at_cases (HasDropped r) _ _ λ c _. (on_custody r s h i 0 c).2
step-HasDropped r s (create_failed i) h =
    at_cases (HasDropped r) _ _ λ c _. (on_custody r s h i 0 c).3
step-HasDropped r s (received w i) h = at_cases (HasDropped r) _ _ λ m _. (on_mail r s h i 0 m).0
step-HasDropped r s (abandoned_grant now i) h =
    at_cases (HasDropped r) _ _ λ m _. (on_mail r s h i now m).1
step-HasDropped r s (abandoned w) h = abandoned_dropped r s h (remove_waiter w s.pool.waiters)
step-HasDropped r s (released now i) h =
    at_cases (HasDropped r) _ _ λ c _. (on_custody r s h i now c).4
step-HasDropped r s (discarded i) h = at_cases (HasDropped r) _ _ λ c _. (on_custody r s h i 0 c).5
step-HasDropped r s (evicted cutoff) h = h
step-HasDropped r s (closes stopped) h = closes_dropped r s h stopped

abbrev after_close : System → System
after_close s = record s {
  pool = record (s.pool) { closed = true; idle = [] };
  dropped = resources s.pool.idle ++ s.dropped;
}

run_closes :
    (s : System) (es : List Event)
    → s.pool.closed ≡ false
    → run s (closes false ∷ es) ≡ run (after_close s) es
unfolding run step shut
run_closes s es h = rw h

one_place : (r : ℕ) (s : System) → IsPlaced r s → HasDropped r s → count r s.closed_resources ≡ 0
one_place r s p d = ground arith

-- If Close returns because its context ends before the janitor has stopped, a resource that was
-- idle then is never closed, whatever happens afterwards.
pub close_leaks :
    (n r : ℕ) (before after : List Event) (s t : System)
    → run (init n) before ≡ some s
    → s.pool.closed ≡ false
    → 1 ≤ in_idle r s.pool.idle
    → run s (closes false ∷ after) ≡ some t
    → count r t.closed_resources ≡ 0
close_leaks n r before after s t made still_open idle later =
    let es = closes false ∷ after in
    let placed_s = run_ok (IsPlaced r) (init n) s before (run-IsPlaced r n before) made in
    let placed_t =
      run_ok (IsPlaced r) s t es (run-Then (IsPlaced r) (step-IsPlaced r) es s placed_s) later in
    let dropped : HasDropped r (after_close s) =
      omega
        (arith, count-append r (resources s.pool.idle) s.dropped, resources-count r s.pool.idle) in
    one_place r t placed_t (
      run_ok (HasDropped r) (after_close s) t after
        (run-Then (HasDropped r) (step-HasDropped r) after (after_close s) dropped)
        (rw (run_closes s after still_open) at later))
