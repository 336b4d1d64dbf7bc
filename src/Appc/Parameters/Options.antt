-- ===== src/Appc/Parameters/Options.antt =====
-- records.go: the extended options of F_INITIALIZE are decoded to what was encoded.
use open_rfc_go.Base.{
  ℕ, ◌+◌, ◌<◌, ◌^◌, ◌≡◌, refl, true, List, [], ◌∷◌, ◌++◌, length, length-append, length-replicate,
  replicate, drop, arith, ◌==◌, ok,
}
use open_rfc_go.Base.Bytes.{put_uint32_be, of_int32, IsInt32}
use open_rfc_go.Appc.{in_record}
use open_rfc_go.Appc.Ascii.{all_printable, all_hex, exact_bytes_ok, fixed_hex_id}
use open_rfc_go.Appc.Conversation.Decoder.{bytes_equal}
use open_rfc_go.Appc.Parameters.{
  ExtendedInitializeOptions, protocol_name, encode_extended_initialize_options,
  read_extended_initialize_options, decode_extended_initialize_options,
}
use open_rfc_go.Wire.{context_or_default}
use open_rfc_go.Wire.Positions.{
  drop_next, read_uint8_next, read_uint32_be_next, read_int32_be_next, read_bytes_next, finish_at,
}
use open_rfc_go.Wire.Reader
use open_rfc_go.Wire.Reader.{Reader}
use open_rfc_go.Wire.Record.Puts.{compose_puts_ok}
use Prim.Native.String.{String}
use open_rfc_go.Appc.Parameters.Fields.{
  IsPaddable, padded_bytes, read_padded_next, read_zero_next, read_hex_next,
}

-- IDs of 16 hexadecimal digits, texts that fit their fields, and numbers and addresses in range.
pub record IsOptions (o : ExtendedInitializeOptions) : Type 0 where
  pub root_length : length o.root_id ≡ 16
  pub root_hex : all_hex o.root_id ≡ true
  pub connection_length : length o.connection_id ≡ 16
  pub connection_hex : all_hex o.connection_id ≡ true
  pub suffix_word : o.connection_id_suffix < 2 ^ 32
  pub timeout_word : IsInt32 o.timeout
  pub keepalive_word : IsInt32 o.keepalive_timeout
  pub v6_length : length o.local_address_v6 ≡ 16
  pub unit_name : IsPaddable o.long_logical_unit_name 128 0
  pub user_name : IsPaddable o.operating_system_user 12 32
  pub v4_length : length o.local_address_v4 ≡ 4
  pub program_name : IsPaddable o.long_transaction_program_name 64 0

protocol_name-IsPaddable : IsPaddable protocol_name 8 0
unfolding all_printable
protocol_name-IsPaddable = record {
  printable = refl;
  short = omega arith;
  unpadded = (ground arith, (ground arith, (ground arith, (ground arith, tt))));
}

hex_ok : (id : List ℕ) → length id ≡ 16 → all_hex id ≡ true → fixed_hex_id id ≡ ok id
unfolding fixed_hex_id
hex_ok id n h = ground arith

longer : (x rest : List ℕ) (n k : ℕ) → length x ≡ n → length rest ≡ k → length (x ++ rest) ≡ n + k
longer x rest n k h h' = omega (arith, length-append x rest)

-- The options are encoded to 341 bytes and decoded to the same.
pub decode-encode_extended_initialize_options :
    (o : ExtendedInitializeOptions)
    → IsOptions o
    → (bs : List ℕ) × (encode_extended_initialize_options o ≡ ok bs)
      × (length bs ≡ 341)
      × (decode_extended_initialize_options bs ≡ ok o)
unfolding encode_extended_initialize_options decode_extended_initialize_options
    read_extended_initialize_options Reader.new_reader context_or_default bytes_equal
decode-encode_extended_initialize_options o v =
    let (pn, pn_ok, pn_length, pn_back) = padded_bytes protocol_name 8 0 protocol_name-IsPaddable in
    let (lu, lu_ok, lu_length, lu_back) = padded_bytes o.long_logical_unit_name 128 0 v.unit_name in
    let (us, us_ok, us_length, us_back) = padded_bytes o.operating_system_user 12 32 v.user_name in
    let (tp, tp_ok, tp_length, tp_back) =
      padded_bytes o.long_transaction_program_name 64 0 v.program_name in
    let r22 : List ℕ = [] in
    let r21 : List ℕ = tp ++ r22 in
    let r20 : List ℕ = (replicate 4 0) ++ r21 in
    let r19 : List ℕ = o.local_address_v4 ++ r20 in
    let r18 : List ℕ = (replicate 16 0) ++ r19 in
    let r17 : List ℕ = (replicate 12 0) ++ r18 in
    let r16 : List ℕ = (replicate 4 0) ++ r17 in
    let r15 : List ℕ = (replicate 8 0) ++ r16 in
    let r14 : List ℕ = us ++ r15 in
    let r13 : List ℕ = (replicate 16 0) ++ r14 in
    let r12 : List ℕ = lu ++ r13 in
    let r11 : List ℕ = o.local_address_v6 ++ r12 in
    let r10 : List ℕ = (o.network_protocol ∷ []) ++ r11 in
    let r9 : List ℕ = (o.start_type ∷ []) ++ r10 in
    let r8 : List ℕ = (o.export_trace ∷ []) ++ r9 in
    let r7 : List ℕ = (put_uint32_be (of_int32 o.keepalive_timeout)) ++ r8 in
    let r6 : List ℕ = (put_uint32_be (of_int32 o.timeout)) ++ r7 in
    let r5 : List ℕ = (put_uint32_be o.connection_id_suffix) ++ r6 in
    let r4 : List ℕ = o.connection_id ++ r5 in
    let r3 : List ℕ = o.root_id ++ r4 in
    let r2 : List ℕ = pn ++ r3 in
    let r1 : List ℕ = (o.option_flags ∷ []) ++ r2 in
    let bs : List ℕ = (1 ∷ []) ++ r1 in
    let c : String = "APPC extended initialize options" in
    let n22 : length r22 ≡ 0 = refl in
    let n21 : length r21 ≡ 64 = longer tp r22 64 0 tp_length n22 in
    let n20 : length r20 ≡ 68 =
      longer (replicate 4 0) r21 4 64 (length-replicate {A = ℕ} 4 0) n21 in
    let n19 : length r19 ≡ 72 = longer o.local_address_v4 r20 4 68 v.v4_length n20 in
    let n18 : length r18 ≡ 88 =
      longer (replicate 16 0) r19 16 72 (length-replicate {A = ℕ} 16 0) n19 in
    let n17 : length r17 ≡ 100 =
      longer (replicate 12 0) r18 12 88 (length-replicate {A = ℕ} 12 0) n18 in
    let n16 : length r16 ≡ 104 =
      longer (replicate 4 0) r17 4 100 (length-replicate {A = ℕ} 4 0) n17 in
    let n15 : length r15 ≡ 112 =
      longer (replicate 8 0) r16 8 104 (length-replicate {A = ℕ} 8 0) n16 in
    let n14 : length r14 ≡ 124 = longer us r15 12 112 us_length n15 in
    let n13 : length r13 ≡ 140 =
      longer (replicate 16 0) r14 16 124 (length-replicate {A = ℕ} 16 0) n14 in
    let n12 : length r12 ≡ 268 = longer lu r13 128 140 lu_length n13 in
    let n11 : length r11 ≡ 284 = longer o.local_address_v6 r12 16 268 v.v6_length n12 in
    let n10 : length r10 ≡ 285 = longer (o.network_protocol ∷ []) r11 1 284 refl n11 in
    let n9 : length r9 ≡ 286 = longer (o.start_type ∷ []) r10 1 285 refl n10 in
    let n8 : length r8 ≡ 287 = longer (o.export_trace ∷ []) r9 1 286 refl n9 in
    let n7 : length r7 ≡ 291 =
      longer (put_uint32_be (of_int32 o.keepalive_timeout)) r8 4 287 refl n8 in
    let n6 : length r6 ≡ 295 = longer (put_uint32_be (of_int32 o.timeout)) r7 4 291 refl n7 in
    let n5 : length r5 ≡ 299 = longer (put_uint32_be o.connection_id_suffix) r6 4 295 refl n6 in
    let n4 : length r4 ≡ 315 = longer o.connection_id r5 16 299 v.connection_length n5 in
    let n3 : length r3 ≡ 331 = longer o.root_id r4 16 315 v.root_length n4 in
    let n2 : length r2 ≡ 339 = longer pn r3 8 331 pn_length n3 in
    let n1 : length r1 ≡ 340 = longer (o.option_flags ∷ []) r2 1 339 refl n2 in
    let sized : length bs ≡ 341 = longer (1 ∷ []) r1 1 340 refl n1 in
    let at1 : drop 1 bs ≡ r1 = drop_next bs (1 ∷ []) r1 0 1 refl refl in
    let at2 : drop 2 bs ≡ r2 = drop_next bs (o.option_flags ∷ []) r2 1 1 at1 refl in
    let at10 : drop 10 bs ≡ r3 = drop_next bs pn r3 2 8 at2 pn_length in
    let at26 : drop 26 bs ≡ r4 = drop_next bs o.root_id r4 10 16 at10 v.root_length in
    let at42 : drop 42 bs ≡ r5 = drop_next bs o.connection_id r5 26 16 at26 v.connection_length in
    let at46 : drop 46 bs ≡ r6 =
      drop_next bs (put_uint32_be o.connection_id_suffix) r6 42 4 at42 refl in
    let at50 : drop 50 bs ≡ r7 =
      drop_next bs (put_uint32_be (of_int32 o.timeout)) r7 46 4 at46 refl in
    let at54 : drop 54 bs ≡ r8 =
      drop_next bs (put_uint32_be (of_int32 o.keepalive_timeout)) r8 50 4 at50 refl in
    let at55 : drop 55 bs ≡ r9 = drop_next bs (o.export_trace ∷ []) r9 54 1 at54 refl in
    let at56 : drop 56 bs ≡ r10 = drop_next bs (o.start_type ∷ []) r10 55 1 at55 refl in
    let at57 : drop 57 bs ≡ r11 = drop_next bs (o.network_protocol ∷ []) r11 56 1 at56 refl in
    let at73 : drop 73 bs ≡ r12 = drop_next bs o.local_address_v6 r12 57 16 at57 v.v6_length in
    let at201 : drop 201 bs ≡ r13 = drop_next bs lu r13 73 128 at73 lu_length in
    let at217 : drop 217 bs ≡ r14 =
      drop_next bs (replicate 16 0) r14 201 16 at201 (length-replicate {A = ℕ} 16 0) in
    let at229 : drop 229 bs ≡ r15 = drop_next bs us r15 217 12 at217 us_length in
    let at237 : drop 237 bs ≡ r16 =
      drop_next bs (replicate 8 0) r16 229 8 at229 (length-replicate {A = ℕ} 8 0) in
    let at241 : drop 241 bs ≡ r17 =
      drop_next bs (replicate 4 0) r17 237 4 at237 (length-replicate {A = ℕ} 4 0) in
    let at253 : drop 253 bs ≡ r18 =
      drop_next bs (replicate 12 0) r18 241 12 at241 (length-replicate {A = ℕ} 12 0) in
    let at269 : drop 269 bs ≡ r19 =
      drop_next bs (replicate 16 0) r19 253 16 at253 (length-replicate {A = ℕ} 16 0) in
    let at273 : drop 273 bs ≡ r20 = drop_next bs o.local_address_v4 r20 269 4 at269 v.v4_length in
    let at277 : drop 277 bs ≡ r21 =
      drop_next bs (replicate 4 0) r21 273 4 at273 (length-replicate {A = ℕ} 4 0) in
    let is341 : (length bs == 341) ≡ true = rw sized refl in
    (
      bs,
      rw
          (
            pn_ok,
            hex_ok o.root_id v.root_length v.root_hex,
            hex_ok o.connection_id v.connection_length v.connection_hex,
            exact_bytes_ok o.local_address_v6 16 v.v6_length,
            lu_ok,
            us_ok,
            exact_bytes_ok o.local_address_v4 4 v.v4_length,
            tp_ok,
          )
          (compose_puts_ok in_record 341 c _ tt sized),
      sized,
      rw
          (
            is341,
            read_uint8_next bs c 0 "version" 1 r1 refl,
            read_uint8_next bs c 1 "optionFlags" o.option_flags r2 at1,
            read_padded_next bs c 2 "protocolName" 8 0 pn protocol_name r3 at2 pn_length
                (omega arith) pn_back,
            read_hex_next bs c 10 "rootId" o.root_id r4 at10 v.root_length
                (hex_ok o.root_id v.root_length v.root_hex),
            read_hex_next bs c 26 "connectionId" o.connection_id r5 at26 v.connection_length
                (hex_ok o.connection_id v.connection_length v.connection_hex),
            read_uint32_be_next bs c 42 "connectionIdSuffix" o.connection_id_suffix r6 at42
                v.suffix_word,
            read_int32_be_next bs c 46 "timeout" o.timeout r7 at46 v.timeout_word,
            read_int32_be_next bs c 50 "keepaliveTimeout" o.keepalive_timeout r8 at50
                v.keepalive_word,
            read_uint8_next bs c 54 "exportTrace" o.export_trace r9 at54,
            read_uint8_next bs c 55 "startType" o.start_type r10 at55,
            read_uint8_next bs c 56 "networkProtocol" o.network_protocol r11 at56,
            read_bytes_next bs c 57 "localAddressV6" 16 o.local_address_v6 r12 at57 v.v6_length
                (omega arith),
            read_padded_next bs c 73 "longLogicalUnitName" 128 0 lu o.long_logical_unit_name r13
                at73 lu_length (omega arith) lu_back,
            read_zero_next bs c 201 "reserved1" 16 r14 at201 (omega arith),
            read_padded_next bs c 217 "operatingSystemUser" 12 32 us o.operating_system_user r15
                at217 us_length (omega arith) us_back,
            read_zero_next bs c 229 "reserved2" 8 r16 at229 (omega arith),
            read_zero_next bs c 237 "reserved3" 4 r17 at237 (omega arith),
            read_zero_next bs c 241 "reserved4" 12 r18 at241 (omega arith),
            read_zero_next bs c 253 "reserved5" 16 r19 at253 (omega arith),
            read_bytes_next bs c 269 "localAddressV4" 4 o.local_address_v4 r20 at269 v.v4_length
                (omega arith),
            read_zero_next bs c 273 "reserved6" 4 r21 at273 (omega arith),
            read_padded_next bs c 277 "longTransactionProgramName" 64 0 tp
                o.long_transaction_program_name r22 at277 tp_length (omega arith) tp_back,
            finish_at bs c 341 (omega (arith, sized)),
          )
          refl,
    )
