-- ===== src/Appc/Parameters/RoundTrip.antt =====
-- records.go: setup parameters are decoded to what was encoded.
use open_rfc_go.Base.{ℕ, ◌≡◌, refl, true, List, [], ◌++◌, length, length-append, arith, ◌==◌, ok}
use open_rfc_go.Appc.{in_record}
use open_rfc_go.Appc.Ascii.{exact_bytes_ok}
use open_rfc_go.Appc.Parameters.{
  InitializeParameters, encode_initialize_parameters, read_initialize_parameters,
  decode_initialize_parameters, PartnerLogicalUnitParameters,
  encode_partner_logical_unit_parameters, read_partner_logical_unit_parameters,
  decode_partner_logical_unit_parameters,
}
use open_rfc_go.Wire.{context_or_default}
use open_rfc_go.Wire.Positions.{drop_next, read_bytes_next, finish_at}
use open_rfc_go.Wire.Reader
use open_rfc_go.Wire.Reader.{Reader}
use open_rfc_go.Wire.Record.Puts.{compose_puts_ok}
use Prim.Native.String.{String}
use open_rfc_go.Appc.Parameters.Fields.{IsPaddable, padded_bytes, read_padded_next}
use open_rfc_go.Appc.Parameters.Options.{IsOptions, decode-encode_extended_initialize_options}

-- the parameters of F_INITIALIZE (a printable identifier without spaces of at most 32 bytes and options
-- in range) are encoded to 373 bytes and decoded to the same.
pub decode-encode_initialize_parameters :
    (p : InitializeParameters)
    → IsPaddable p.client_identifier 32 32
    → IsOptions p.options
    → (bs : List ℕ) × (encode_initialize_parameters p ≡ ok bs)
      × (length bs ≡ 373)
      × (decode_initialize_parameters bs ≡ ok p)
unfolding encode_initialize_parameters decode_initialize_parameters read_initialize_parameters
    Reader.new_reader context_or_default
decode-encode_initialize_parameters p v o =
    let (client, client_ok, client_length, client_back) =
      padded_bytes p.client_identifier 32 32 v in
    let (options, options_ok, options_length, options_back) =
      decode-encode_extended_initialize_options p.options o in
    let rest : List ℕ = options ++ [] in
    let bs : List ℕ = client ++ rest in
    let c : String = "APPC initialize parameters" in
    let sized : length bs ≡ 373 =
      omega (
        arith,
        length-append client rest,
        length-append options [],
        client_length,
        options_length,
      ) in
    let at32 = drop_next bs client rest 0 32 refl client_length in
    let is373 : (length bs == 373) ≡ true = rw sized refl in
    (
      bs,
      rw (encode_initialize_parameters, client_ok, options_ok)
          (compose_puts_ok in_record 373 c _ tt sized),
      sized,
      rw
          (
            is373,
            read_padded_next bs c 0 "clientIdentifier" 32 32 client p.client_identifier rest refl
                client_length (omega arith) client_back,
            read_bytes_next bs c 32 "extendedOptions" 341 options [] at32 options_length
                (omega arith),
            options_back,
            finish_at bs c 373 (omega (arith, sized)),
          )
          refl,
    )

-- the parameters of F_SET_PARTNER_LU_NAME (a printable name without spaces of at most 128 bytes and an
-- address of 16) are encoded to 144 bytes and decoded to the same.
pub decode-encode_partner_logical_unit_parameters :
    (p : PartnerLogicalUnitParameters)
    → IsPaddable p.long_logical_unit_name 128 32
    → length p.partner_host_address ≡ 16
    → (bs : List ℕ) × (encode_partner_logical_unit_parameters p ≡ ok bs)
      × (length bs ≡ 144)
      × (decode_partner_logical_unit_parameters bs ≡ ok p)
unfolding encode_partner_logical_unit_parameters decode_partner_logical_unit_parameters
    read_partner_logical_unit_parameters Reader.new_reader context_or_default
decode-encode_partner_logical_unit_parameters p v host =
    let (name, name_ok, name_length, name_back) = padded_bytes p.long_logical_unit_name 128 32 v in
    let rest : List ℕ = p.partner_host_address ++ [] in
    let bs : List ℕ = name ++ rest in
    let c : String = "APPC partner logical-unit parameters" in
    let sized : length bs ≡ 144 = omega (
      arith,
      length-append name rest,
      length-append p.partner_host_address [],
      name_length,
      host,
    ) in
    let at128 = drop_next bs name rest 0 128 refl name_length in
    let is144 : (length bs == 144) ≡ true = rw sized refl in
    (
      bs,
      rw
          (
            encode_partner_logical_unit_parameters,
            name_ok,
            exact_bytes_ok p.partner_host_address 16 host,
          )
          (compose_puts_ok in_record 144 c _ tt sized),
      sized,
      rw
          (
            is144,
            read_padded_next bs c 0 "longLogicalUnitName" 128 32 name p.long_logical_unit_name rest
                refl name_length (omega arith) name_back,
            read_bytes_next bs c 128 "partnerHostAddress" 16 p.partner_host_address [] at128 host
                (omega arith),
            finish_at bs c 144 (omega (arith, sized)),
          )
          refl,
    )
