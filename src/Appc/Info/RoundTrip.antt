-- ===== src/Appc/Info/RoundTrip.antt =====
-- records.go: operation information is decoded to what was encoded.
use open_rfc_go.Base.{
  ℕ, ◌≤◌, ◌<◌, ◌≡◌, refl, true, false, not, ◌||◌, List, [], ◌∷◌, ◌++◌, length, length-append,
  length-take, zero, suc, take, drop, arith, ltb, leb, ◌==◌, min, ok,
}
use open_rfc_go.Base.Bytes.{put_uint16_be, put_uint32_be}
use open_rfc_go.Appc.{in_record}
use open_rfc_go.Appc.Ascii.{
  all_printable, encode_fixed_ascii, decode_fixed_ascii, EndsInText, decode-encode_fixed_ascii,
}
use open_rfc_go.Appc.Info.{
  ExtendedInfo, encode_extended_info, read_ascii, read_extended_info, decode_extended_info,
  PartnerLogicalUnitInfoInput, PartnerLogicalUnitInfo, encode_partner_logical_unit_info,
  read_partner_logical_unit_info, decode_partner_logical_unit_info,
}
use open_rfc_go.Wire.{context_or_default}
use open_rfc_go.Wire.Positions.{
  drop_next, read_uint8_next, read_uint16_be_next, read_uint32_be_next, read_bytes_next, finish_at,
}
use open_rfc_go.Wire.Reader
use open_rfc_go.Wire.Record.Puts.{compose_puts_ok}
use Prim.Native.String.{String}

-- A name that survives its encoding in 8 bytes.
pub record IsName (name : List ℕ) : Type 0 where
  pub printable : all_printable name ≡ true
  pub short : length name ≤ 8
  pub ending : EndsInText name

pub record IsExtendedInfo (info : ExtendedInfo) : Type 0 where
  pub destination_name : IsName info.short_destination_name
  pub unit_name : IsName info.logical_unit_name
  pub program_name : IsName info.transaction_program_name
  pub type_byte : info.connection_type < 256
  pub client_byte : info.client_info < 256
  pub communication_word : info.communication_index < 65536
  pub connection_word : info.connection_index < 65536

-- The 8 bytes of a name.
name_bytes :
    (name : List ℕ)
    → IsName name
    → (bs : List ℕ) × (encode_fixed_ascii name ≡ ok bs)
      × (length bs ≡ 8)
      × (decode_fixed_ascii bs ≡ ok name)
name_bytes name v = decode-encode_fixed_ascii name v.printable v.short v.ending

-- the operation information of names that are printable, of at most 8 bytes and without a space at the
-- end, and of numbers in range, is encoded to 32 bytes and decoded to the same.
pub decode-encode_extended_info :
    (info : ExtendedInfo)
    → IsExtendedInfo info
    → (bs : List ℕ) × (encode_extended_info info ≡ ok bs)
      × (length bs ≡ 32)
      × (decode_extended_info bs ≡ ok info)
unfolding encode_extended_info decode_extended_info read_extended_info read_ascii Reader.new_reader
    context_or_default
decode-encode_extended_info info v =
    let (b1, e1, l1, d1) = name_bytes info.short_destination_name v.destination_name in
    let (b2, e2, l2, d2) = name_bytes info.logical_unit_name v.unit_name in
    let (b3, e3, l3, d3) = name_bytes info.transaction_program_name v.program_name in
    let r5 : List ℕ = put_uint16_be info.connection_index ++ [] in
    let r4 : List ℕ = put_uint16_be info.communication_index ++ r5 in
    let r3 : List ℕ = put_uint16_be 0 ++ r4 in
    let numbers : List ℕ = info.connection_type ∷ info.client_info ∷ r3 in
    let bs : List ℕ = b1 ++ (b2 ++ (b3 ++ numbers)) in
    let c : String = "APPC extended info" in
    let sized : length bs ≡ 32 = omega (
      arith,
      length-append b1 (b2 ++ (b3 ++ numbers)),
      length-append b2 (b3 ++ numbers),
      length-append b3 numbers,
    ) in
    let at8 : drop 8 bs ≡ b2 ++ (b3 ++ numbers) =
      drop_next bs b1 (b2 ++ (b3 ++ numbers)) 0 8 refl l1 in
    let at16 : drop 16 bs ≡ b3 ++ numbers = drop_next bs b2 (b3 ++ numbers) 8 8 at8 l2 in
    let at24 : drop 24 bs ≡ numbers = drop_next bs b3 numbers 16 8 at16 l3 in
    let at25 = drop_next bs (info.connection_type ∷ []) (info.client_info ∷ r3) 24 1 at24 refl in
    let at26 = drop_next bs (info.client_info ∷ []) r3 25 1 at25 refl in
    let at28 = drop_next bs (put_uint16_be 0) r4 26 2 at26 refl in
    let at30 = drop_next bs (put_uint16_be info.communication_index) r5 28 2 at28 refl in
    let is32 : (length bs == 32) ≡ true = rw sized refl in
    (
      bs,
      rw (e1, e2, e3) (compose_puts_ok in_record 32 c _ tt sized),
      sized,
      rw
          (
            is32,
            read_bytes_next bs c 0 "shortDestinationName" 8 b1 (b2 ++ (b3 ++ numbers)) refl l1
                (omega arith),
            d1,
            read_bytes_next bs c 8 "logicalUnitName" 8 b2 (b3 ++ numbers) at8 l2 (omega arith),
            d2,
            read_bytes_next bs c 16 "transactionProgramName" 8 b3 numbers at16 l3 (omega arith),
            d3,
            read_uint8_next bs c 24 "connectionType" info.connection_type (info.client_info ∷ r3)
                at24,
            read_uint8_next bs c 25 "clientInfo" info.client_info r3 at25,
            read_uint16_be_next bs c 26 "reserved" 0 r4 at26 (omega arith),
            read_uint16_be_next bs c 28 "communicationIndex" info.communication_index r5 at28
                v.communication_word,
            read_uint16_be_next bs c 30 "connectionIndex" info.connection_index [] at30
                v.connection_word,
            finish_at bs c 32 (omega (arith, sized)),
          )
          refl,
    )

-- A name of at most 128 bytes whose first 8 bytes survive their encoding.
pub record IsPartnerInput (info : PartnerLogicalUnitInfoInput) : Type 0 where
  pub printable : all_printable info.logical_unit_name ≡ true
  pub short : length info.logical_unit_name ≤ 128
  pub prefix_ending : EndsInText (take 8 info.logical_unit_name)
  pub host_length : length info.partner_host_address ≡ 16
  pub communication_word : info.communication_index < 65536
  pub connection_word : info.connection_index < 65536

printable-take :
    (n : ℕ) (name : List ℕ) → all_printable name ≡ true → all_printable (take n name) ≡ true
unfolding all_printable
printable-take zero name h = refl
printable-take (suc n) [] h = refl
printable-take (suc n) (b ∷ bs) h = ground (arith, printable-take n bs)

abbrev pub partner_info : PartnerLogicalUnitInfoInput → PartnerLogicalUnitInfo
partner_info info = record {
  logical_unit_name_prefix = take 8 info.logical_unit_name;
  logical_unit_name_length = length info.logical_unit_name;
  partner_host_address = info.partner_host_address;
  communication_index = info.communication_index;
  connection_index = info.connection_index;
}

-- the information of a partner is encoded to 32 bytes and decoded to the first 8 bytes of its name, the
-- length of the name, its address and its indices, if the name is printable, of at most 128 bytes, and
-- its first 8 bytes do not end in a space, the address has 16 bytes and the indices are in range.
pub decode-encode_partner_logical_unit_info :
    (info : PartnerLogicalUnitInfoInput)
    → IsPartnerInput info
    → (bs : List ℕ) × (encode_partner_logical_unit_info info ≡ ok bs)
      × (length bs ≡ 32)
      × (decode_partner_logical_unit_info bs ≡ ok (partner_info info))
unfolding encode_partner_logical_unit_info decode_partner_logical_unit_info
    read_partner_logical_unit_info Reader.new_reader context_or_default
decode-encode_partner_logical_unit_info info v =
    let name = info.logical_unit_name in
    let cut : length (take 8 name) ≡ min 8 (length name) = length-take 8 name in
    let (b1, e1, l1, d1) =
      decode-encode_fixed_ascii (take 8 name) (printable-take 8 name v.printable)
        (omega (arith, cut)) v.prefix_ending in
    let r4 : List ℕ = put_uint16_be info.connection_index ++ [] in
    let r3 : List ℕ = put_uint16_be info.communication_index ++ r4 in
    let r2 : List ℕ = info.partner_host_address ++ r3 in
    let r1 : List ℕ = put_uint32_be (length name) ++ r2 in
    let bs : List ℕ = b1 ++ r1 in
    let c : String = "APPC partner logical-unit info" in
    let sized : length bs ≡ 32 =
      omega
        (arith, length-append b1 r1, length-append info.partner_host_address r3, v.host_length) in
    let at8 : drop 8 bs ≡ r1 = drop_next bs b1 r1 0 8 refl l1 in
    let at12 = drop_next bs (put_uint32_be (length name)) r2 8 4 at8 refl in
    let at28 = drop_next bs info.partner_host_address r3 12 16 at12 v.host_length in
    let at30 = drop_next bs (put_uint16_be info.communication_index) r4 28 2 at28 refl in
    let is32 : (length bs == 32) ≡ true = rw sized refl in
    (
      bs,
      rw
          (
            accepted name v.printable v.short,
            e1,
            host_accepted info.partner_host_address v.host_length,
          )
          (compose_puts_ok in_record 32 c _ tt sized),
      sized,
      rw
          (
            is32,
            read_bytes_next bs c 0 "logicalUnitNamePrefix" 8 b1 r1 refl l1 (omega arith),
            read_uint32_be_next bs c 8 "logicalUnitNameLength" (length name) r2 at8
                (omega (arith, v.short)),
            length_accepted (length name) v.short,
            d1,
            prefix_accepted (length (take 8 name)) (length name) cut,
            read_bytes_next bs c 12 "partnerHostAddress" 16 info.partner_host_address r3 at12
                v.host_length (omega arith),
            read_uint16_be_next bs c 28 "communicationIndex" info.communication_index r4 at28
                v.communication_word,
            read_uint16_be_next bs c 30 "connectionIndex" info.connection_index [] at30
                v.connection_word,
            finish_at bs c 32 (omega (arith, sized)),
          )
          refl,
    )
  where
    accepted :
        (name : List ℕ)
        → all_printable name ≡ true
        → length name ≤ 128
        → (not (all_printable name) || ltb 128 (length name)) ≡ false
    accepted name p h = ground arith

    host_accepted : (host : List ℕ) → length host ≡ 16 → (length host == 16) ≡ true
    host_accepted host h = rw h refl

    length_accepted : (n : ℕ) → n ≤ 128 → leb n 128 ≡ true
    length_accepted n h = ground arith

    prefix_accepted : (k n : ℕ) → k ≡ min 8 n → (k == min n 8) ≡ true
    prefix_accepted k n h = ground arith
