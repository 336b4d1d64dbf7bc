-- ===== src/Pool/Examples.antt =====
-- Runs of pool.go, and its theorems at concrete histories.
use open_rfc_go.Base.{◌≡◌, refl, true, false, some, List, [], ◌∷◌, arith}
use open_rfc_go.Pool.Defs.{
  start, put_back, release_slot, evict_expired, shut, new, permit, has_resource,
}
use open_rfc_go.Pool.Grants.{count}
use open_rfc_go.Pool.System.{
  System, leasing, Event, acquire, created, received, released, closes, init, step, remove_at, run,
}
use open_rfc_go.Pool.Runs.{Then}
use open_rfc_go.Pool.Invariant.{IsValid, run-IsValid}
use open_rfc_go.Pool.Custody.{IsPlaced, run-IsPlaced}
use open_rfc_go.Pool.Fairness.{HandsOut, evict_offers, serves_in_order, run_queues}
use open_rfc_go.Pool.Close.{close_leaks}

-- Two slots; three callers, the third waits and gets what the first releases.
abbrev history : List Event
history =
    acquire 1 ∷ created 0 ∷ acquire 2 ∷ created 0 ∷ acquire 3 ∷ released 50 1 ∷ received 3 0 ∷ []

-- The second resource parks, and Close returns early.
abbrev leaking : List Event
leaking = acquire 1 ∷ created 0 ∷ released 50 0 ∷ []

abbrev parked : System
parked = record {
  pool = record {
    max_size = 2;
    idle = record { resource = 0; last_used = 50 } ∷ [];
    leased = 0;
    free_slots = 1;
    waiters = [];
    closed = false;
    mail = [];
  };
  custody = [];
  closed_resources = [];
  dropped = [];
  next = 1;
}

abbrev closed_early : System
closed_early = record parked {
  pool = record (parked.pool) { closed = true; idle = [] };
  dropped = 0 ∷ [];
}

-- Both slots leased, and one caller waits.
abbrev busy : List Event
busy = acquire 1 ∷ created 0 ∷ acquire 2 ∷ created 0 ∷ acquire 3 ∷ []

abbrev contended : System
contended = record {
  pool = record {
    max_size = 2;
    idle = [];
    leased = 2;
    free_slots = 0;
    waiters = 3 ∷ [];
    closed = false;
    mail = [];
  };
  custody = leasing 1 ∷ leasing 0 ∷ [];
  closed_resources = [];
  dropped = [];
  next = 2;
}

parked-run : run (init 2) leaking ≡ some parked
unfolding run step init new start put_back remove_at
parked-run = refl

contended-run : run (init 2) busy ≡ some contended
unfolding run step init new start remove_at
contended-run = refl

closed_early-run : run parked (closes false ∷ []) ≡ some closed_early
unfolding run step shut
closed_early-run = refl

run-IsValid_example : Then IsValid (run (init 2) history)
run-IsValid_example = run-IsValid 2 history

run-IsPlaced_example : Then (IsPlaced 0) (run (init 2) history)
run-IsPlaced_example = run-IsPlaced 0 2 history

run_queues_example :
    step contended (acquire 4)
    ≡ some (record contended { pool = record (contended.pool) { waiters = 3 ∷ 4 ∷ [] } })
run_queues_example = run_queues 2 4 busy contended contended-run refl λ e. cc

serves_in_order_example :
    HandsOut (permit ∷ []) contended.pool (release_slot contended.pool)
    × HandsOut (has_resource 1 ∷ []) contended.pool (put_back 60 1 contended.pool).1
    × HandsOut (evict_offers 0 contended.pool) contended.pool (evict_expired 0 contended.pool).1
serves_in_order_example = serves_in_order contended.pool 60 1 0

close_leaks_example : count 0 closed_early.closed_resources ≡ 0
close_leaks_example =
    close_leaks 2 0 leaking [] parked closed_early parked-run refl (omega arith) closed_early-run
