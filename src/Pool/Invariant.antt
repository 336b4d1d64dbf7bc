-- ===== src/Pool/Invariant.antt =====
-- The pool's accounts through every interleaving: no slot is lost or made up, every leased
-- resource has one owner, and nobody waits beside an idle resource or a free slot.
use open_rfc_go.Base.{
  ℕ, suc, ◌+◌, ◌≤◌, ◌≡◌, refl, ap, sym, ◌∙◌, inl, inr, ◌≢◌, Bool, true, false, Option, none, some,
  List, [], ◌∷◌, length, length-append, get_elem?, arith,
}
use open_rfc_go.Pool.Defs.{
  Grant, has_resource, permit, start, put_back, remove_waiter, evict_expired, shut, new,
}
use open_rfc_go.Pool.Grants.{IsAwake, occupancy, release_slot-Granted, evict_expired-Granted}
use open_rfc_go.Pool.System.{
  System, Custody, validating, leasing, creating, Event, acquire, validated, validation_failed,
  created, create_failed, received, abandoned_grant, abandoned, released, discarded, evicted,
  closes, remove_at, init, after_start, drop_custody, drop_mail, after_put_back, closing, with_slot,
  on_validated, on_validation_failed, on_created, on_create_failed, on_received, on_abandoned_grant,
  on_abandoned, on_released, on_discarded, on_evicted, on_close, step, run,
}
use open_rfc_go.Pool.Runs.{Then, at_cases, length-remove_at, run-Then}

pub record IsValid (s : System) : Type 0 where
  pub room : occupancy s.pool ≤ s.pool.max_size
  pub in_full : s.pool.closed ≡ false → occupancy s.pool ≡ s.pool.max_size
  pub owned : s.pool.leased ≡ length s.custody + length s.pool.mail
  pub awake : IsAwake s.pool
  pub drained : s.pool.closed ≡ true → s.pool.idle ≡ []

start-IsValid : (s : System) (w : ℕ) → IsValid s → IsValid (after_start s (start w s.pool))
unfolding start
start-IsValid s w v = ground (arith, v.in_full, v.drained, length-append s.pool.waiters (w ∷ []))

-- A system where somebody has just let go of what the pool still counts as leased.
record IsOwed (s : System) : Type 0 where
  room : occupancy s.pool ≤ s.pool.max_size
  in_full : s.pool.closed ≡ false → occupancy s.pool ≡ s.pool.max_size
  owed : s.pool.leased ≡ suc (length s.custody + length s.pool.mail)
  awake : IsAwake s.pool
  drained : s.pool.closed ≡ true → s.pool.idle ≡ []

drop_custody-IsOwed :
    (s : System) (i : ℕ) {c : Custody}
    → IsValid s
    → get_elem? s.custody i ≡ some c
    → IsOwed (drop_custody s i)
drop_custody-IsOwed s i v h = record {
  room = v.room;
  in_full = v.in_full;
  owed = omega (arith, v.owned, length-remove_at s.custody i h);
  awake = v.awake;
  drained = v.drained;
}

drop_mail-IsOwed :
    (s : System) (i : ℕ) {m : ℕ × Grant}
    → IsValid s
    → get_elem? s.pool.mail i ≡ some m
    → IsOwed (drop_mail s i)
drop_mail-IsOwed s i v h = record {
  room = v.room;
  in_full = v.in_full;
  owed = omega (arith, v.owned, length-remove_at s.pool.mail i h);
  awake = v.awake;
  drained = v.drained;
}

with_slot-IsValid : (s : System) → IsOwed s → IsValid (with_slot s)
with_slot-IsValid s v =
    let g = release_slot-Granted s.pool in
    record {
      room = omega (arith, g.occupied, g.same_size, v.room, v.owed);
      in_full = λ e.
          let full : occupancy s.pool ≡ s.pool.max_size = v.in_full (sym g.same_closed ∙ e) in
          omega (arith, g.occupied, g.same_size, v.owed);
      owned = omega (arith, g.sent, v.owed);
      awake = g.awake;
      drained = λ e. g.same_idle_if_none (v.drained (sym g.same_closed ∙ e));
    }

put_back-IsValid :
    (s : System) (now r : ℕ) → IsOwed s → IsValid (after_put_back r s (put_back now r s.pool))
unfolding put_back
put_back-IsValid s now r v = ground (arith, v.in_full, v.drained)

evicted-IsValid :
    (s : System) (cutoff : ℕ) → IsValid s → IsValid (on_evicted s (evict_expired cutoff s.pool))
evicted-IsValid s cutoff v =
    let g = evict_expired-Granted cutoff s.pool v.awake in
    record {
      room = omega (arith, g.occupied, g.same_size, v.room);
      in_full = λ e.
          let full : occupancy s.pool ≡ s.pool.max_size = v.in_full (sym g.same_closed ∙ e) in
          omega (arith, g.occupied, g.same_size);
      owned = omega (arith, g.sent, v.owned);
      awake = g.awake;
      drained = λ e. g.same_idle_if_none (v.drained (sym g.same_closed ∙ e));
    }

closes-IsValid :
    (s : System) (stopped : Bool) → IsValid s → Then IsValid (on_close stopped s (shut s.pool))
unfolding shut
closes-IsValid s true v = ground (arith, v.in_full)
closes-IsValid s false v = ground (arith, v.in_full)

remove_waiter-nil : (w : ℕ) (ws vs : List ℕ) → remove_waiter w ws ≡ some vs → ws ≢ []
unfolding remove_waiter
remove_waiter-nil w [] vs h e = cc
remove_waiter-nil w (x ∷ ws) vs h e = cc

abandoned-IsValid :
    (s : System) (w : ℕ)
    → IsValid s
    → Then IsValid (on_abandoned s (remove_waiter w s.pool.waiters))
abandoned-IsValid s w v = go (remove_waiter w s.pool.waiters) refl
  where
    go :
        (o : Option (List ℕ)) → remove_waiter w s.pool.waiters ≡ o → Then IsValid (on_abandoned s o)
    go none h = tt
    go (some ws) h = record {
      room = v.room;
      in_full = v.in_full;
      owned = v.owned;
      awake = still_awake v.awake;
      drained = v.drained;
    }
      where
        still_awake : IsAwake s.pool → IsAwake (record (s.pool) { waiters = ws })
        still_awake (inl e) = absurd (remove_waiter-nil w s.pool.waiters ws h e)
        still_awake (inr f) = inr f

closing-IsOwed : (r : ℕ) (s : System) → IsOwed s → IsOwed (closing r s)
closing-IsOwed r s v = record {
  room = v.room;
  in_full = v.in_full;
  owed = v.owed;
  awake = v.awake;
  drained = v.drained;
}

-- A caller's part goes on in another form.
exchange-IsValid :
    (s : System) (i n : ℕ) (c d : Custody)
    → IsValid s
    → get_elem? s.custody i ≡ some c
    → IsValid (record s { custody = d ∷ remove_at s.custody i; next = n })
exchange-IsValid s i n c d v h = record {
  room = v.room;
  in_full = v.in_full;
  owned = v.owned ∙ ap (λ k. k + length s.pool.mail) (length-remove_at s.custody i h);
  awake = v.awake;
  drained = v.drained;
}

receive-IsValid :
    (s : System) (i : ℕ) (m : ℕ × Grant) (c : Custody)
    → IsValid s
    → get_elem? s.pool.mail i ≡ some m
    → IsValid (record (drop_mail s i) { custody = c ∷ s.custody })
receive-IsValid s i m c v h = record {
  room = v.room;
  in_full = v.in_full;
  owned = omega (arith, v.owned, length-remove_at s.pool.mail i h);
  awake = v.awake;
  drained = v.drained;
}

module _ (s : System) (i : ℕ) (v : IsValid s) where
  module _ (now : ℕ) where
    on_custody :
        (c : Custody)
        → get_elem? s.custody i ≡ some c
        → Then IsValid (on_validated i s c)
          × Then IsValid (on_validation_failed i s c)
          × Then IsValid (on_created i s c)
          × Then IsValid (on_create_failed i s c)
          × Then IsValid (on_released now i s c)
          × Then IsValid (on_discarded i s c)
    on_custody (validating r) h = (
      exchange-IsValid s i s.next _ (leasing r) v h,
      with_slot-IsValid _ (closing-IsOwed r _ (drop_custody-IsOwed s i v h)),
      tt,
      tt,
      tt,
      tt,
    )
    on_custody (leasing r) h = (
      tt,
      tt,
      tt,
      tt,
      put_back-IsValid (drop_custody s i) now r (drop_custody-IsOwed s i v h),
      with_slot-IsValid _ (closing-IsOwed r _ (drop_custody-IsOwed s i v h)),
    )
    on_custody creating h = (
      tt,
      tt,
      exchange-IsValid s i (s.next + 1) _ (leasing s.next) v h,
      with_slot-IsValid _ (drop_custody-IsOwed s i v h),
      tt,
      tt,
    )

    on_mail :
        (m : ℕ × Grant)
        → get_elem? s.pool.mail i ≡ some m
        → Then IsValid (on_received i s m) × Then IsValid (on_abandoned_grant now i s m)
    on_mail (w, has_resource r) h = (
      receive-IsValid s i _ (validating r) v h,
      put_back-IsValid (drop_mail s i) now r (drop_mail-IsOwed s i v h),
    )
    on_mail (w, permit) h =
        (receive-IsValid s i _ creating v h, with_slot-IsValid _ (drop_mail-IsOwed s i v h))

-- Every event keeps the accounts.
pub step-IsValid : (s : System) (e : Event) → IsValid s → Then IsValid (step s e)
unfolding step
step-IsValid s (acquire w) v = start-IsValid s w v
step-IsValid s (validated i) v = at_cases IsValid _ _ λ c h. (on_custody s i v 0 c h).0
step-IsValid s (validation_failed i) v = at_cases IsValid _ _ λ c h. (on_custody s i v 0 c h).1
step-IsValid s (created i) v = at_cases IsValid _ _ λ c h. (on_custody s i v 0 c h).2
step-IsValid s (create_failed i) v = at_cases IsValid _ _ λ c h. (on_custody s i v 0 c h).3
step-IsValid s (received w i) v = at_cases IsValid _ _ λ m h. (on_mail s i v 0 m h).0
step-IsValid s (abandoned_grant now i) v = at_cases IsValid _ _ λ m h. (on_mail s i v now m h).1
step-IsValid s (abandoned w) v = abandoned-IsValid s w v
step-IsValid s (released now i) v = at_cases IsValid _ _ λ c h. (on_custody s i v now c h).4
step-IsValid s (discarded i) v = at_cases IsValid _ _ λ c h. (on_custody s i v 0 c h).5
step-IsValid s (evicted cutoff) v = evicted-IsValid s cutoff v
step-IsValid s (closes stopped) v = closes-IsValid s stopped v

init-IsValid : (n : ℕ) → IsValid (init n)
unfolding init new
init-IsValid n = ground arith

-- After any events from a new pool of any size: idle, leased and free slots add up to at most the
-- size, and to exactly the size while the pool is open; the leased count is the number of callers
-- and of grants under way; nobody waits while a resource is idle or a slot free; a closed pool has
-- no idle resource.
pub run-IsValid : (n : ℕ) (es : List Event) → Then IsValid (run (init n) es)
run-IsValid n es = run-Then IsValid step-IsValid es (init n) (init-IsValid n)
