-- ===== src/Pool/Grants.antt =====
-- What grantAvailable does to the pool's accounts.
use open_rfc_go.Base.{
  ℕ, ◌+◌, ◌-◌, ◌≡◌, refl, ◌⊎◌, inl, inr, true, false, List, [], ◌∷◌, ◌++◌, length, arith, ltb, ◌==◌,
  if◌then◌else◌, Bool-cases,
}
use open_rfc_go.Pool.Defs.{
  Pool, Entry, Grant, has_resource, permit, grant_loop, grant_available, hand_idle, hand_slot,
  release_slot, evict_expired, kept, expired,
}

-- Nobody waits while there is something to hand out.
abbrev pub IsAwake : Pool → Type 0
IsAwake p = (p.waiters ≡ []) ⊎ ((p.idle ≡ []) × (p.free_slots ≡ 0))

abbrev pub occupancy : Pool → ℕ
occupancy p = length p.idle + p.leased + p.free_slots

abbrev pub count : ℕ → List ℕ → ℕ
count r [] = 0
count r (x ∷ xs) = (if x == r then 1 else 0) + count r xs

abbrev pub in_idle : ℕ → List Entry → ℕ
in_idle r [] = 0
in_idle r (e ∷ es) = (if e.resource == r then 1 else 0) + in_idle r es

abbrev pub in_grant : ℕ → Grant → ℕ
in_grant r (has_resource x) = if x == r then 1 else 0
in_grant r permit = 0

-- A sum over a list, by which its parts are counted.
abbrev pub total {ℓ} : {A : Type ℓ} → (A → ℕ) → List A → ℕ
total f [] = 0
total f (x ∷ xs) = f x + total f xs

abbrev pub in_mail : ℕ → List (ℕ × Grant) → ℕ
in_mail r = total (λ m. in_grant r m.1)

-- The pool that grants leave.
pub record Granted (p q : Pool) : Type 0 where
  pub occupied : occupancy q ≡ occupancy p
  pub sent : q.leased + length p.mail ≡ p.leased + length q.mail
  pub same_size : q.max_size ≡ p.max_size
  pub same_closed : q.closed ≡ p.closed
  pub same_idle_if_none : p.idle ≡ [] → q.idle ≡ []
  pub awake : IsAwake q

grant_loop-Granted :
    (es : List Entry) (ws : List ℕ) (p : Pool)
    → p.idle ≡ es
    → p.waiters ≡ ws
    → Granted p (grant_loop es ws p)
unfolding grant_loop
grant_loop-Granted [] [] p i w = record {
  occupied = refl;
  sent = refl;
  same_size = refl;
  same_closed = refl;
  same_idle_if_none = λ e. e;
  awake = inl w;
}
grant_loop-Granted (e ∷ es) [] p i w = record {
  occupied = refl;
  sent = refl;
  same_size = refl;
  same_closed = refl;
  same_idle_if_none = λ e. e;
  awake = inl w;
}
grant_loop-Granted (e ∷ es) (w ∷ ws) p i h =
    ground (arith, grant_loop-Granted es ws (hand_idle w ws e es p) refl refl)
grant_loop-Granted [] (w ∷ ws) p i h = ground (arith, grant_loop-Granted [] ws (hand_slot w ws p))

module _ (r : ℕ) where
  grant_loop-placed :
      (es : List Entry) (ws : List ℕ) (p : Pool)
      → p.idle ≡ es
      → let q = grant_loop es ws p in
        in_idle r q.idle + in_mail r q.mail ≡ in_idle r p.idle + in_mail r p.mail
  unfolding grant_loop
  grant_loop-placed [] [] p i = refl
  grant_loop-placed (e ∷ es) [] p i = refl
  grant_loop-placed (e ∷ es) (w ∷ ws) p i =
      ground (arith, grant_loop-placed es ws (hand_idle w ws e es p) refl)
  grant_loop-placed [] (w ∷ ws) p i = ground (arith, grant_loop-placed [] ws (hand_slot w ws p))

pub release_slot-Granted :
    (p : Pool)
    → Granted (record p { leased = p.leased - 1; free_slots = p.free_slots + 1 }) (release_slot p)
unfolding release_slot
release_slot-Granted p = grant_loop-Granted p.idle p.waiters _ refl refl

pub release_slot-placed :
    (r : ℕ) (p : Pool)
    → in_idle r (release_slot p).idle + in_mail r (release_slot p).mail
      ≡ in_idle r p.idle + in_mail r p.mail
unfolding release_slot
release_slot-placed r p = grant_loop-placed r p.idle p.waiters _ refl

kept-expired :
    (cutoff : ℕ) (es : List Entry)
    → length (kept cutoff es) + length (expired cutoff es) ≡ length es
unfolding kept expired
kept-expired cutoff [] = refl
kept-expired cutoff (e ∷ es) = ground (arith, kept-expired cutoff es)

kept_placed :
    (r cutoff : ℕ) (es : List Entry)
    → in_idle r (kept cutoff es) + count r (expired cutoff es) ≡ in_idle r es
unfolding kept expired
kept_placed r cutoff [] = refl
kept_placed r cutoff (e ∷ es) = ground (arith, kept_placed r cutoff es)

pub count-append : (r : ℕ) (xs ys : List ℕ) → count r (xs ++ ys) ≡ count r xs + count r ys
count-append r [] ys = omega arith
count-append r (x ∷ xs) ys = omega (arith, count-append r xs ys)

kept-nil : (cutoff : ℕ) (es : List Entry) → es ≡ [] → kept cutoff es ≡ []
unfolding kept
kept-nil cutoff [] h = refl
kept-nil cutoff (e ∷ es) h = cc

abbrev without_expired : ℕ → Pool → Pool
without_expired cutoff p = record p {
  idle = kept cutoff p.idle;
  free_slots = p.free_slots + length (expired cutoff p.idle);
}

evict_some :
    (cutoff : ℕ) (p : Pool)
    → ltb 0 (length (expired cutoff p.idle)) ≡ true
    → (evict_expired cutoff p).1
      ≡ grant_loop (kept cutoff p.idle) p.waiters (without_expired cutoff p)
unfolding evict_expired grant_available
evict_some cutoff p h = rw h

evict_none :
    (cutoff : ℕ) (p : Pool)
    → ltb 0 (length (expired cutoff p.idle)) ≡ false
    → (evict_expired cutoff p).1 ≡ without_expired cutoff p
unfolding evict_expired
evict_none cutoff p h = rw h

-- evictExpired turns expired resources into free slots, and hands those out.
pub evict_expired-Granted :
    (cutoff : ℕ) (p : Pool) → IsAwake p → Granted p (evict_expired cutoff p).1
evict_expired-Granted cutoff p awake =
    let n = kept-expired cutoff p.idle in
    elim (Bool-cases (ltb 0 (length (expired cutoff p.idle)))) [
      | inl h ↦
          let g =
            grant_loop-Granted (kept cutoff p.idle) p.waiters (without_expired cutoff p) refl
              refl in
          rw (evict_some cutoff p h) (record {
            occupied = omega (arith, g.occupied);
            sent = g.sent;
            same_size = g.same_size;
            same_closed = g.same_closed;
            same_idle_if_none = λ e. g.same_idle_if_none (kept-nil cutoff p.idle e);
            awake = g.awake;
          })
      | inr h ↦ rw (evict_none cutoff p h) (record {
        occupied = ground arith;
        sent = refl;
        same_size = refl;
        same_closed = refl;
        same_idle_if_none = kept-nil cutoff p.idle;
        awake = still_awake h awake;
      })
    ]
  where
    still_awake :
        ltb 0 (length (expired cutoff p.idle)) ≡ false
        → IsAwake p
        → IsAwake (without_expired cutoff p)
    still_awake h (inl w) = inl w
    still_awake h (inr (i, f)) = inr (kept-nil cutoff p.idle i, ground arith)

pub evict_expired-placed :
    (r cutoff : ℕ) (p : Pool)
    → let (gone, q) = evict_expired cutoff p in
      in_idle r q.idle + in_mail r q.mail + count r gone ≡ in_idle r p.idle + in_mail r p.mail
evict_expired-placed r cutoff p = elim (Bool-cases (ltb 0 (length (expired cutoff p.idle)))) [
  | inl h ↦ rw (evict_some cutoff p h) (
      unfold evict_expired in
      omega (
        arith,
        grant_loop-placed r (kept cutoff p.idle) p.waiters (without_expired cutoff p) refl,
        kept_placed r cutoff p.idle,
      ))
  | inr h ↦
      rw (evict_none cutoff p h)
        (unfold evict_expired in omega (arith, kept_placed r cutoff p.idle))
]
