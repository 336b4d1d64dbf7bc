-- ===== src/Saprouter/Examples.antt =====
-- A run of saprouter.go, and its theorem at a concrete route.
use open_rfc_go.Base.{◌≡◌, refl, inl, inr, [], ◌∷◌, arith, ok, err}
use open_rfc_go.Saprouter.{
  InternalHop, every, route_field, total_length, byte_length, last_is_open, route_of, admit,
  invalid_route, split_slash, parse_hops, take_pair, add_option,
}
use open_rfc_go.Saprouter.RoundTrip.{IsHop, written, admit-written}

-- /H/ab/S/9/W/x/H/cd
abbrev router : InternalHop
router = record { host = 97 ∷ 98 ∷ []; service = 57 ∷ []; password = 120 ∷ [] }

abbrev target : InternalHop
target = record { host = 99 ∷ 100 ∷ []; service = []; password = [] }

router-IsHop : IsHop router
unfolding route_field every
router-IsHop = record {
  host_accepted = refl;
  service_accepted = inr refl;
  password_accepted = inr refl;
}

target-IsHop : IsHop target
unfolding route_field every
target-IsHop = record {
  host_accepted = refl;
  service_accepted = inl refl;
  password_accepted = inl refl;
}

admit-written_example :
    admit (
      47 ∷ 72 ∷ 47 ∷ 97 ∷ 98 ∷ 47 ∷ 83 ∷ 47 ∷ 57 ∷ 47 ∷ 87 ∷ 47 ∷ 120 ∷ 47 ∷ 72 ∷ 47 ∷ 99 ∷ 100
      ∷ [])
    ≡ ok (route_of (router ∷ target ∷ []))
unfolding last_is_open total_length byte_length
admit-written_example =
    admit-written (router ∷ target ∷ []) (router-IsHop, (target-IsHop, tt)) (omega arith)
      (omega arith) refl (omega arith) (omega arith)

-- A password on the final target is refused.
closed_target : admit (written (target ∷ router ∷ [])) ≡ err invalid_route
unfolding admit split_slash every parse_hops take_pair add_option route_field last_is_open
closed_target = refl
