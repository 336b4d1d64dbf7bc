-- ===== src/Saprouter.antt =====
-- internal/saprouter/saprouter.go: route strings. A string is the list of its bytes.
pub mod RoundTrip
pub mod Examples
use open_rfc_go.Base.{
  ℕ, ℤ, pos, negsuc, ◌+◌, ◌-◌, ◌%◌, Bool, true, false, not, ◌&&◌, ◌||◌, Option, none, some, List,
  [], ◌∷◌, ◌++◌, length, take, drop, replicate, get_or, leb, ltb, ◌==◌, if◌then◌else◌, Result, ok,
  err, guard, ◌>>=◌, ◌>>◌,
}
use open_rfc_go.Base.Bytes.{put_uint16_be, put_uint32_be, uint32_be, to_int32}

-- ErrInvalidRoute
pub data Error : Type 0 where
  invalid_route : Error

abbrev pub is_between : ℕ → ℕ → ℕ → Bool
is_between a b c = leb a c && leb c b

abbrev pub is_alphanumeric : ℕ → Bool
is_alphanumeric c = is_between 48 57 c || is_between 65 90 c || is_between 97 122 c

-- servicePattern, hostPattern, passwordPattern and printableASCII, for one byte.
abbrev pub is_service_char : ℕ → Bool
is_service_char c = is_alphanumeric c || c == 95 || c == 46 || c == 45

abbrev pub is_host_char : ℕ → Bool
is_host_char c = is_service_char c || c == 58 || c == 37 || c == 91 || c == 93

abbrev pub is_password_char : ℕ → Bool
is_password_char c = is_between 32 46 c || is_between 48 126 c

abbrev pub is_printable : ℕ → Bool
is_printable c = is_between 32 126 c

unfoldable pub every : (ℕ → Bool) → List ℕ → Bool
every p [] = true
every p (c ∷ cs) = p c && every p cs

pub data FieldKind : Type 0 where
  host_field service_field password_field : FieldKind

-- What the `switch` asks of a value that is not empty.
abbrev pub is_field : FieldKind → List ℕ → Bool
is_field host_field value = is_between 2 255 (length value) && every is_host_char value
is_field service_field value = leb (length value) 63 && every is_service_char value
is_field password_field value = leb (length value) 255 && every is_password_char value

unfoldable pub route_field : List ℕ → FieldKind → Result Error (List ℕ)
route_field value kind =
    if not (length value == 0) && is_field kind value then ok value else err invalid_route

pub record InternalHop : Type 0 where
  pub host : List ℕ
  pub service : List ℕ
  pub password : List ℕ

unfoldable pub byte_length : InternalHop → ℕ
byte_length hop = length hop.host + 1 + length hop.service + 1 + length hop.password + 1

pub record Hop : Type 0 where
  pub host : List ℕ
  pub service : List ℕ
  pub uses_default_service : Bool
  pub password_protected : Bool

pub record FirstHop : Type 0 where
  pub host : List ℕ
  pub service : List ℕ
  pub uses_default_service : Bool

-- A route without hops, which no function makes, has no first one.
pub record Route : Type 0 where
  pub hop_count : ℕ
  pub byte_length : ℕ
  pub first_hop : Option FirstHop
  pub public_hops : List Hop
  pub redacted_route_string : List ℕ
  pub hops : List InternalHop

-- "/H/", "/S/", "/W/" and "[REDACTED]"
abbrev pub marker : ℕ → List ℕ
marker letter = 47 ∷ letter ∷ 47 ∷ []

abbrev pub redacted : List ℕ
redacted = 91 ∷ 82 ∷ 69 ∷ 68 ∷ 65 ∷ 67 ∷ 84 ∷ 69 ∷ 68 ∷ 93 ∷ []

abbrev pub is_empty : List ℕ → Bool
is_empty [] = true
is_empty (b ∷ bs) = false

unfoldable pub redacted_route : List InternalHop → List ℕ
redacted_route [] = []
redacted_route (hop ∷ hops) =
    marker 72
    ++ hop.host
    ++ (if is_empty hop.service then [] else marker 83 ++ hop.service)
    ++ (if is_empty hop.password then [] else marker 87 ++ redacted)
    ++ redacted_route hops

-- "3299" where the service is empty.
abbrev pub service_or_default : List ℕ → List ℕ
service_or_default service = if is_empty service then 51 ∷ 50 ∷ 57 ∷ 57 ∷ [] else service

-- strings.Split(input, "/")
abbrev pub onto_first : ℕ → List (List ℕ) → List (List ℕ)
onto_first b [] = (b ∷ []) ∷ []
onto_first b (part ∷ parts) = (b ∷ part) ∷ parts

unfoldable pub split_slash : List ℕ → List (List ℕ)
split_slash [] = [] ∷ []
split_slash (b ∷ bs) = if b == 47 then [] ∷ split_slash bs else onto_first b (split_slash bs)

abbrev pub is_letter : ℕ → List ℕ → Bool
is_letter letter (c ∷ []) = c == letter
is_letter letter _ = false

abbrev pub finished : Option InternalHop → List InternalHop
finished none = []
finished (some hop) = hop ∷ []

-- `S` and `W`. A service or password that was seen is not empty.
unfoldable pub add_option :
    Option InternalHop → List ℕ → List ℕ → Result Error (List InternalHop × InternalHop)
add_option none token value = err invalid_route
add_option (some hop) token value =
    if is_letter 83 token
    then guard (is_empty hop.service && is_empty hop.password) invalid_route
      >> (route_field value service_field >>= λ s. ok ([], record hop { service = s }))
    else if is_letter 87 token
    then guard (is_empty hop.password) invalid_route
      >> (route_field value password_field >>= λ p. ok ([], record hop { password = p }))
    else err invalid_route

-- One token and its value: the hop that the token ends, and the hop under way.
unfoldable pub take_pair :
    Option InternalHop → List ℕ → List ℕ → Result Error (List InternalHop × InternalHop)
take_pair current token value =
    if is_letter 72 token
    then (route_field value host_field >>= λ h.
        ok (finished current, record { host = h; service = []; password = [] }))
    else add_option current token value

-- Both loops of Admit. Each error is ErrInvalidRoute, so the bound on the hops is checked at the end.
unfoldable pub parse_hops : Option InternalHop → List (List ℕ) → Result Error (List InternalHop)
parse_hops current [] = ok (finished current)
parse_hops current (token ∷ []) = err invalid_route
parse_hops current (token ∷ value ∷ rest) =
    take_pair current token value >>= λ r. parse_hops (some r.1) rest >>= λ hops. ok (r.0 ++ hops)

unfoldable pub total_length : List InternalHop → ℕ
total_length [] = 0
total_length (hop ∷ hops) = byte_length hop + total_length hops

unfoldable pub last_is_open : List InternalHop → Bool
last_is_open [] = true
last_is_open (hop ∷ []) = is_empty hop.password
last_is_open (hop ∷ hop' ∷ hops) = last_is_open (hop' ∷ hops)

abbrev pub public_hop : InternalHop → Hop
public_hop hop = record {
  host = hop.host;
  service = service_or_default hop.service;
  uses_default_service = is_empty hop.service;
  password_protected = not (is_empty hop.password);
}

abbrev pub public_view : List InternalHop → List Hop
public_view [] = []
public_view (hop ∷ hops) = public_hop hop ∷ public_view hops

abbrev pub first_of : List InternalHop → Option FirstHop
first_of [] = none
first_of (hop ∷ hops) = some (record {
  host = hop.host;
  service = service_or_default hop.service;
  uses_default_service = is_empty hop.service;
})

unfoldable pub route_of : List InternalHop → Route
route_of hops = record {
  hop_count = length hops;
  byte_length = total_length hops;
  first_hop = first_of hops;
  public_hops = public_view hops;
  redacted_route_string = redacted_route hops;
  hops = hops;
}

abbrev pub starts_empty : List (List ℕ) → Bool
starts_empty ([] ∷ parts) = true
starts_empty _ = false

unfoldable pub admit : List ℕ → Result Error Route
admit input = do
  guard (leb (length input) 2048 && not (length input == 0) && every is_printable input)
      invalid_route
  let parts = split_slash input
  guard (leb 5 (length parts) && starts_empty parts) invalid_route
  hops ← parse_hops none (drop 1 parts)
  guard (leb (length hops) 255) invalid_route
  guard (leb 2 (length hops) && last_is_open hops) invalid_route
  guard (leb (total_length hops) 2048) invalid_route
  ok (route_of hops)
