-- ===== src/Pool/Defs.antt =====
-- pool.go: the state that p.mu guards, and the functions that run under it.
use open_rfc_go.Base.{
  ℕ, ◌+◌, ◌-◌, Bool, true, false, Option, none, some, List, [], ◌∷◌, ◌++◌, ltb, ◌==◌, if◌then◌else◌,
  length,
}

pub record Entry : Type 0 where
  pub resource : ℕ
  pub last_used : ℕ

-- A resource, or the permit to create one in a reserved slot.
pub data Grant : Type 0 where
  has_resource : ℕ → Grant
  permit : Grant

pub record Pool : Type 0 where
  pub max_size : ℕ
  pub idle : List Entry
  pub leased : ℕ
  pub free_slots : ℕ
  pub waiters : List ℕ
  pub closed : Bool
  pub mail : List (ℕ × Grant)

abbrev pub default_max_size : ℕ
default_max_size = 8

-- New, for a factory that can create resources: a size that is not positive, here 0, selects the
-- default.
unfoldable pub new : ℕ → Pool
new max_size =
    let n = if max_size == 0 then default_max_size else max_size in
    record {
      max_size = n;
      idle = [];
      leased = 0;
      free_slots = n;
      waiters = [];
      closed = false;
      mail = [];
    }

-- popWaiter and the send on its channel, with what the grant takes from the pool.
abbrev pub hand_idle : ℕ → List ℕ → Entry → List Entry → Pool → Pool
hand_idle w ws e es p = record p {
  idle = es;
  leased = p.leased + 1;
  waiters = ws;
  mail = (w, has_resource e.resource) ∷ p.mail;
}

abbrev pub hand_slot : ℕ → List ℕ → Pool → Pool
hand_slot w ws p = record p {
  leased = p.leased + 1;
  free_slots = p.free_slots - 1;
  waiters = ws;
  mail = (w, permit) ∷ p.mail;
}

-- `for len(p.waiters) > 0`; the first two arguments are p.idle and p.waiters.
unfoldable pub grant_loop : List Entry → List ℕ → Pool → Pool
grant_loop idle [] p = p
grant_loop (e ∷ es) (w ∷ ws) p = grant_loop es ws (hand_idle w ws e es p)
grant_loop [] (w ∷ ws) p = elim (ltb 0 p.free_slots) [
  | true ↦ grant_loop [] ws (hand_slot w ws p)
  | false ↦ p
]

unfoldable pub grant_available : Pool → Pool
grant_available p = grant_loop p.idle p.waiters p

-- One round of Acquire's loop, up to the unlock: what the caller has then.
pub data Started : Type 0 where
  refused queued creates : Started
  took : ℕ → Started

unfoldable pub start : ℕ → Pool → Started × Pool
start w p = if p.closed then (refused, p) else elim p.idle [
  | e ∷ es ↦ (took e.resource, record p { idle = es; leased = p.leased + 1 })
  | [] ↦
      if ltb 0 p.free_slots
      then (creates, record p { free_slots = p.free_slots - 1; leased = p.leased + 1 })
      else (queued, record p { waiters = p.waiters ++ (w ∷ []) })
]

-- `p.leased--; p.freeSlots++; p.grantAvailable()`: a failed validation or creation, an abandoned
-- permit, a discard.
unfoldable pub release_slot : Pool → Pool
unfolding grant_available
release_slot p = grant_available (record p { leased = p.leased - 1; free_slots = p.free_slots + 1 })

-- The resource is closed where the flag is true.
unfoldable pub put_back : ℕ → ℕ → Pool → Bool × Pool
put_back now r p = if p.closed then (true, record p { leased = p.leased - 1 }) else elim p.waiters [
  | w ∷ ws ↦ (false, record p { waiters = ws; mail = (w, has_resource r) ∷ p.mail })
  | [] ↦ (
    false,
    record p { leased = p.leased - 1; idle = record { resource = r; last_used = now } ∷ p.idle },
  )
]

-- removeWaiter: the queue without the first occurrence, if there is one.
unfoldable pub remove_waiter : ℕ → List ℕ → Option (List ℕ)
remove_waiter w [] = none
remove_waiter w (x ∷ xs) =
    let rest = remove_waiter w xs in
    if x == w then some xs else elim rest [ none ↦ none | some ys ↦ some (x ∷ ys) ]

-- evictExpired: those kept and those expired.
unfoldable pub kept : ℕ → List Entry → List Entry
kept cutoff [] = []
kept cutoff (e ∷ es) = if ltb e.last_used cutoff then kept cutoff es else e ∷ kept cutoff es

unfoldable pub expired : ℕ → List Entry → List ℕ
expired cutoff [] = []
expired cutoff (e ∷ es) =
    if ltb e.last_used cutoff then e.resource ∷ expired cutoff es else expired cutoff es

unfoldable pub evict_expired : ℕ → Pool → List ℕ × Pool
unfolding grant_available
evict_expired cutoff p =
    let gone = expired cutoff p.idle in
    let p' : Pool = record p {
      idle = kept cutoff p.idle;
      free_slots = p.free_slots + length gone;
    } in
    (gone, if ltb 0 (length gone) then grant_available p' else p')

-- Close, up to the unlock; `none` is ErrClosed.
unfoldable pub shut : Pool → Option (List Entry × Pool)
shut p = if p.closed then none else some (p.idle, record p { closed = true; idle = [] })

pub record Stats : Type 0 where
  pub max_size : ℕ
  pub idle : ℕ
  pub leased : ℕ
  pub open_count : ℕ

unfoldable pub stats : Pool → Stats
stats p = record {
  max_size = p.max_size;
  idle = length p.idle;
  leased = p.leased;
  open_count = length p.idle + p.leased;
}
