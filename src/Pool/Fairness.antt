-- ===== src/Pool/Fairness.antt =====
-- pool.go: whom grantAvailable, putBack and evictExpired serve, and with what.
use open_rfc_go.Base.{
  ℕ, zero, suc, some, ◌≢◌, ◌+◌, ◌-◌, ◌≡◌, refl, subst, Bool, true, false, List, [], ◌∷◌, ◌++◌,
  length, drop, map, replicate, sym, ap, ap₂, ◌∙◌, arith, ltb, if◌then◌else◌, Bool-cases, inl, inr,
}
use open_rfc_go.Pool.System.{System, Event, acquire, init, step, run}
use open_rfc_go.Pool.Runs.{run_ok}
use open_rfc_go.Pool.Invariant.{IsValid, run-IsValid}
use open_rfc_go.Pool.Defs.{
  start, Pool, Entry, Grant, has_resource, permit, grant_loop, grant_available, hand_idle,
  hand_slot, release_slot, put_back, evict_expired, kept, expired,
}

-- What can be handed out: the idle resources, the newest first, and then the free slots.
abbrev pub offers : List Entry → ℕ → List Grant
offers es slots = map (λ e. has_resource e.resource) es ++ replicate slots permit

-- The mail once each caller has been sent one grant, in turn, while there are both; the newest
-- stands first.
abbrev pub sent_to : List ℕ → List Grant → List (ℕ × Grant) → List (ℕ × Grant)
sent_to ws [] sent = sent
sent_to [] (g ∷ gs) sent = sent
sent_to (w ∷ ws) (g ∷ gs) sent = sent_to ws gs ((w, g) ∷ sent)

-- From `p` to `q` the waiters that came first were sent the grants, one each and in turn; as many
-- left the queue as there were grants, or all, and the others kept their order.
pub record HandsOut (gs : List Grant) (p q : Pool) : Type 0 where
  pub left : q.waiters ≡ drop (length gs) p.waiters
  pub in_turn : q.mail ≡ sent_to p.waiters gs p.mail

none_served : (p q : Pool) → q.waiters ≡ p.waiters → q.mail ≡ p.mail → HandsOut [] p q
none_served p q w m = record { left = w; in_turn = m }

nobody_waits : (gs : List Grant) (p : Pool) → p.waiters ≡ [] → HandsOut gs p p
nobody_waits [] p h = none_served p p refl refl
nobody_waits (g ∷ gs) p h = record { left = rw h refl; in_turn = rw h refl }

slots-HandsOut :
    (n : ℕ) (ws : List ℕ) (p : Pool)
    → p.free_slots ≡ n
    → p.waiters ≡ ws
    → HandsOut (replicate n permit) p (grant_loop [] ws p)
unfolding grant_loop
slots-HandsOut n [] p f h = nobody_waits (replicate n permit) p h
slots-HandsOut zero (w ∷ ws) p f h =
    let full : ltb 0 p.free_slots ≡ false = ground arith in
    rw (grant_loop, full) (none_served p p refl refl)
slots-HandsOut (suc n) (w ∷ ws) p f h =
    let s = slots-HandsOut n ws (hand_slot w ws p) (omega arith) refl in
    let free : ltb 0 p.free_slots ≡ true = ground arith in
    rw (grant_loop, free) (record { left = rw h s.left; in_turn = rw h s.in_turn })

grant_loop-HandsOut :
    (es : List Entry) (ws : List ℕ) (p : Pool)
    → p.waiters ≡ ws
    → HandsOut (offers es p.free_slots) p (grant_loop es ws p)
unfolding grant_loop
grant_loop-HandsOut [] ws p h = slots-HandsOut p.free_slots ws p refl h
grant_loop-HandsOut (e ∷ es) [] p h = nobody_waits _ p h
grant_loop-HandsOut (e ∷ es) (w ∷ ws) p h =
    let s = grant_loop-HandsOut es ws (hand_idle w ws e es p) refl in
    record { left = rw h s.left; in_turn = rw h s.in_turn }

grant_available-HandsOut :
    (p q : Pool)
    → q.waiters ≡ p.waiters
    → q.mail ≡ p.mail
    → HandsOut (offers q.idle q.free_slots) p (grant_available q)
unfolding grant_available
grant_available-HandsOut p q w m =
    let s = grant_loop-HandsOut q.idle q.waiters q refl in
    record {
      left = s.left ∙ ap (drop (length (offers q.idle q.free_slots))) w;
      in_turn = s.in_turn ∙ ap₂ (λ ws sent. sent_to ws (offers q.idle q.free_slots) sent) w m;
    }

-- What a resource that is put back offers.
abbrev pub put_back_offers : ℕ → Pool → List Grant
put_back_offers r p = if p.closed then [] else has_resource r ∷ []

put_back-HandsOut : (now r : ℕ) (p : Pool) → HandsOut (put_back_offers r p) p (put_back now r p).1
unfolding put_back
put_back-HandsOut now r p = elim (Bool-cases p.closed) [
  | inl shut ↦
      let q : Pool = record p { leased = p.leased - 1 } in
      let e : put_back now r p ≡ (true, q) = ground arith in
      let none_offered : [] ≡ put_back_offers r p = ground arith in
      subst (λ t. HandsOut (put_back_offers r p) p t.1) (sym e)
        (subst (λ gs. HandsOut gs p q) none_offered (none_served p q refl refl))
  | inr still_open ↦
      let one_offered : has_resource r ∷ [] ≡ put_back_offers r p = ground arith in
      subst (λ gs. HandsOut gs p (put_back now r p).1) one_offered
        (handed p.waiters refl still_open)
]
  where
    handed :
        (ws : List ℕ)
        → p.waiters ≡ ws
        → p.closed ≡ false
        → HandsOut (has_resource r ∷ []) p (put_back now r p).1
    handed [] h o = record { left = ground arith; in_turn = ground arith }
    handed (w ∷ ws) h o = record { left = ground arith; in_turn = ground arith }

-- What the janitor's round offers, if it evicts anything.
abbrev pub evict_offers : ℕ → Pool → List Grant
evict_offers cutoff p =
    let gone = length (expired cutoff p.idle) in
    if ltb 0 gone then offers (kept cutoff p.idle) (p.free_slots + gone) else []

-- A slot that comes free serves the waiters that came first with the idle resources and the free
-- slots that there are, one each and in turn, until either runs out, and keeps the order of the
-- others. So does the janitor's round, where it evicts a resource, with what it keeps and the slots
-- that come free; and a resource that is put back in an open pool goes to the first waiter.
-- Otherwise nobody is served.
pub serves_in_order :
    (p : Pool) (now r cutoff : ℕ)
    → HandsOut (offers p.idle (p.free_slots + 1)) p (release_slot p)
      × HandsOut (put_back_offers r p) p (put_back now r p).1
      × HandsOut (evict_offers cutoff p) p (evict_expired cutoff p).1
unfolding release_slot evict_expired
serves_in_order p now r cutoff = (
  grant_available-HandsOut p (record p { leased = p.leased - 1; free_slots = p.free_slots + 1 })
      refl refl,
  put_back-HandsOut now r p,
  evicted (ltb 0 (length (expired cutoff p.idle))),
)
  where
    evicted :
        (b : Bool)
        → let p' : Pool = record p {
          idle = kept cutoff p.idle;
          free_slots = p.free_slots + length (expired cutoff p.idle);
        } in
          HandsOut
            (if b then offers p'.idle p'.free_slots else [])
            p
            (if b then grant_available p' else p')
    evicted true = grant_available-HandsOut p _ refl refl
    evicted false = none_served p _ refl refl

-- After any events from a new pool of any size, while the pool is open and others wait, an Acquire
-- gets nothing that they could have had: it queues behind them, and nothing else changes.
pub run_queues :
    (n w : ℕ) (es : List Event) (s : System)
    → run (init n) es ≡ some s
    → s.pool.closed ≡ false
    → s.pool.waiters ≢ []
    → step s (acquire w)
      ≡ some (record s { pool = record (s.pool) { waiters = s.pool.waiters ++ (w ∷ []) } })
unfolding step start
run_queues n w es s made still_open waits =
    let v = run_ok IsValid (init n) s es (run-IsValid n es) made in ground (arith, v.awake)
