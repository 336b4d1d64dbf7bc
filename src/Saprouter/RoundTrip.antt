-- ===== src/Saprouter/RoundTrip.antt =====
-- saprouter.go: a route that is written down is admitted again.
use open_rfc_go.Base.{
  ℕ, ◌+◌, ◌≤◌, ◌≡◌, ◌≢◌, ◌⊎◌, inl, inr, refl, sym, ap, Bool, true, false, not, ◌&&◌, Option, none,
  some, All, List, [], ◌∷◌, ◌++◌, append-nil, length, length-append, leb, ◌==◌, arith,
  if◌then◌else◌, Result, ok, err, ◌>>=◌,
}
use open_rfc_go.Saprouter.{
  Error, is_service_char, is_host_char, is_password_char, is_printable, every, FieldKind,
  host_field, service_field, password_field, route_field, InternalHop, split_slash, is_empty,
  finished, add_option, take_pair, parse_hops, total_length, last_is_open, route_of, starts_empty,
  admit,
}

-- A hop, as the parts between the slashes.
abbrev pub option_parts : ℕ → List ℕ → List (List ℕ)
option_parts letter value = if is_empty value then [] else (letter ∷ []) ∷ value ∷ []

abbrev pub parts_of : List InternalHop → List (List ℕ)
parts_of [] = []
parts_of (hop ∷ hops) =
    (72 ∷ [])
    ∷ hop.host
    ∷ (option_parts 83 hop.service ++ (option_parts 87 hop.password ++ parts_of hops))

-- Each part behind a slash.
abbrev pub joined : List (List ℕ) → List ℕ
joined [] = []
joined (part ∷ parts) = 47 ∷ (part ++ joined parts)

-- The string of a route: /H/host[/S/service][/W/password] for each hop.
abbrev pub written : List InternalHop → List ℕ
written hops = joined (parts_of hops)

-- A hop whose fields are well-formed, or empty where they may be.
pub record IsHop (hop : InternalHop) : Type 0 where
  pub host_accepted : route_field hop.host host_field ≡ ok hop.host
  pub service_accepted :
      (hop.service ≡ []) ⊎ (route_field hop.service service_field ≡ ok hop.service)
  pub password_accepted :
      (hop.password ≡ []) ⊎ (route_field hop.password password_field ≡ ok hop.password)

-- A byte that may stand in a part, and a part of such bytes.
abbrev IsClean : ℕ → Type 0
IsClean c = (c ≢ 47) × (is_printable c ≡ true)

abbrev AllClean : List ℕ → Type 0
AllClean cs = All IsClean cs

split_slash-joined :
    (part : List ℕ) (parts : List (List ℕ))
    → AllClean part
    → All AllClean parts
    → split_slash (part ++ joined parts) ≡ part ∷ parts
unfolding split_slash
split_slash-joined [] [] h hs = refl
split_slash-joined [] (p ∷ ps) h (k, ks) = ap (λ l. [] ∷ l) (split_slash-joined p ps k ks)
split_slash-joined (c ∷ cs) parts ((n, _), h) hs =
    let other : (c == 47) ≡ false = ground (arith, n) in
    rw (other, split_slash-joined cs parts h hs) refl

every-printable :
    (part : List ℕ) (parts : List (List ℕ))
    → AllClean part
    → All AllClean parts
    → every is_printable (part ++ joined parts) ≡ true
unfolding every
every-printable [] [] h hs = refl
every-printable [] (p ∷ ps) h (k, ks) = every-printable p ps k ks
every-printable (c ∷ cs) parts ((_, p), h) hs = rw (p, every-printable cs parts h hs) refl

-- The bytes of accepted fields are clean.
every-AllClean :
    (p : ℕ → Bool) (cs : List ℕ)
    → ((c : ℕ) → p c ≡ true → IsClean c)
    → every p cs ≡ true
    → AllClean cs
unfolding every
every-AllClean p [] clean h = tt
every-AllClean p (c ∷ cs) clean h =
    let (here, rest) = both-true (p c) (every p cs) h in
    (clean c here, every-AllClean p cs clean rest)
  where
    both-true : (a b : Bool) → (a && b) ≡ true → (a ≡ true) × (b ≡ true)
    both-true true b h = (refl, h)
    both-true false b h = absurd (ground arith)

accepted-AllClean :
    (kind : FieldKind) (value : List ℕ) → route_field value kind ≡ ok value → AllClean value
unfolding route_field
accepted-AllClean host_field value h =
    every-AllClean is_host_char value (λ c k. (ground arith, ground arith)) (ground arith)
accepted-AllClean service_field value h =
    every-AllClean is_service_char value (λ c k. (ground arith, ground arith)) (ground arith)
accepted-AllClean password_field value h =
    every-AllClean is_password_char value (λ c k. (ground arith, ground arith)) (ground arith)

bind-ok : {A : Type 0} (r : Result Error A) → (r >>= λ x. ok x) ≡ r
bind-ok (ok x) = refl
bind-ok (err e) = refl

service-parsed :
    (host service : List ℕ) (rest : List (List ℕ))
    → (service ≡ []) ⊎ (route_field service service_field ≡ ok service)
    → parse_hops
        (some (record { host = host; service = []; password = [] }))
        (option_parts 83 service ++ rest)
      ≡ parse_hops (some (record { host = host; service = service; password = [] })) rest
unfolding parse_hops take_pair add_option
service-parsed host [] rest h = refl
service-parsed host (c ∷ cs) rest (inl e) = absurd (cc)
service-parsed host (c ∷ cs) rest (inr h) = rw h (bind-ok _)

password-parsed :
    (host service password : List ℕ) (rest : List (List ℕ))
    → (password ≡ []) ⊎ (route_field password password_field ≡ ok password)
    → parse_hops
        (some (record { host = host; service = service; password = [] }))
        (option_parts 87 password ++ rest)
      ≡ parse_hops (some (record { host = host; service = service; password = password })) rest
unfolding parse_hops take_pair add_option
password-parsed host service [] rest h = refl
password-parsed host service (c ∷ cs) rest (inl e) = absurd (cc)
password-parsed host service (c ∷ cs) rest (inr h) = rw h (bind-ok _)

parse_hops-parts_of :
    (current : Option InternalHop) (hops : List InternalHop)
    → All IsHop hops
    → parse_hops current (parts_of hops) ≡ ok (finished current ++ hops)
unfolding parse_hops take_pair
parse_hops-parts_of current [] h = ap ok (sym (append-nil (finished current)))
parse_hops-parts_of current (hop ∷ hops) (v, vs) =
    rw
      (
        v.host_accepted,
        service-parsed hop.host hop.service (option_parts 87 hop.password ++ parts_of hops)
            v.service_accepted,
        password-parsed hop.host hop.service hop.password (parts_of hops) v.password_accepted,
        parse_hops-parts_of (some hop) hops vs,
      )
      refl

option_parts-AllClean :
    (letter : ℕ) (kind : FieldKind) (value : List ℕ) (rest : List (List ℕ))
    → IsClean letter
    → (value ≡ []) ⊎ (route_field value kind ≡ ok value)
    → All AllClean rest
    → All AllClean (option_parts letter value ++ rest)
option_parts-AllClean letter kind [] rest l h k = k
option_parts-AllClean letter kind (c ∷ cs) rest l (inl e) k = absurd (cc)
option_parts-AllClean letter kind (c ∷ cs) rest l (inr h) k =
    ((l, tt), (accepted-AllClean kind (c ∷ cs) h, k))

letter-IsClean : (letter : ℕ) → 65 ≤ letter → letter ≤ 90 → IsClean letter
letter-IsClean letter h k = (ground arith, ground arith)

parts_of-AllClean : (hops : List InternalHop) → All IsHop hops → All AllClean (parts_of hops)
parts_of-AllClean [] h = tt
parts_of-AllClean (hop ∷ hops) (v, vs) = (
  (letter-IsClean 72 (omega arith) (omega arith), tt),
  (
    accepted-AllClean host_field hop.host v.host_accepted,
    option_parts-AllClean 83 service_field hop.service _
        (letter-IsClean 83 (omega arith) (omega arith)) v.service_accepted
        (option_parts-AllClean 87 password_field hop.password _
          (letter-IsClean 87 (omega arith) (omega arith)) v.password_accepted
          (parts_of-AllClean hops vs)),
  ),
)

length-parts_of : (hops : List InternalHop) → length hops + length hops ≤ length (parts_of hops)
length-parts_of [] = omega arith
length-parts_of (hop ∷ hops) = omega (
  arith,
  length-parts_of hops,
  length-append (option_parts 83 hop.service) (option_parts 87 hop.password ++ parts_of hops),
  length-append (option_parts 87 hop.password) (parts_of hops),
)

written-nonempty : (hops : List InternalHop) → 2 ≤ length hops → 1 ≤ length (written hops)
written-nonempty [] h = absurd (omega arith)
written-nonempty (hop ∷ hops) h = omega arith

bounded :
    (n : ℕ) (b : Bool) → 1 ≤ n → n ≤ 2048 → b ≡ true → (leb n 2048 && not (n == 0) && b) ≡ true
bounded n b h k e = ground arith

enough_parts :
    (parts : List (List ℕ))
    → 4 ≤ length parts
    → (leb 5 (length {A = List ℕ} ([] ∷ parts)) && starts_empty ([] ∷ parts)) ≡ true
enough_parts parts h = ground arith

not_above : (n k : ℕ) → n ≤ k → leb n k ≡ true
not_above n k h = ground arith

-- a route of 2 to 255 hops, each of an accepted host and an accepted or no service and password, the last
-- without a password, is admitted from its string, if that and the bytes of the hops are at most 2048;
-- the hops are then those of the route.
pub admit-written :
    (hops : List InternalHop)
    → All IsHop hops
    → 2 ≤ length hops
    → length hops ≤ 255
    → last_is_open hops ≡ true
    → total_length hops ≤ 2048
    → length (written hops) ≤ 2048
    → admit (written hops) ≡ ok (route_of hops)
unfolding admit
admit-written hops h two most unlocked fits short =
    let clean = parts_of-AllClean hops h in
    rw
      (
        bounded (length (written hops)) _ (written-nonempty hops two) short
            (every-printable [] (parts_of hops) tt clean),
        split_slash-joined [] (parts_of hops) tt clean,
        enough_parts (parts_of hops) (omega (arith, two, length-parts_of hops)),
        parse_hops-parts_of none hops h,
        not_above (length hops) 255 most,
        not_above 2 (length hops) two,
        unlocked,
        not_above (total_length hops) 2048 fits,
      )
      refl
