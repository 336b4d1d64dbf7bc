-- ===== src/Appc/Outgoing/Steps.antt =====
-- fragmentation.go: each of the three kinds of step in a plan is encoded.
use open_rfc_go.Base.{
  ℕ, zero, suc, inl, inr, ◌+◌, ◌-◌, ◌*◌, ◌/◌, ◌≤◌, ◌<◌, ◌≡◌, refl, sym, subst, min, true, false,
  ◌||◌, some, All, List, [], length, length-take, length-drop, drop, arith, ◌==◌, ok, replicate,
}
use open_rfc_go.Appc.{
  func_receive, func_async_send_data, func_send_data, outgoing_fragment_semantics,
  validate_final_sap_parameters,
}
use open_rfc_go.Appc.Ascii.{all_printable}
use open_rfc_go.Appc.Control.{indices_info}
use open_rfc_go.Appc.DataInfo.{info_bytes, encode_bytes}
use open_rfc_go.Appc.Info.{encode_extended_info}
use open_rfc_go.Appc.Info.RoundTrip.{IsName, decode-encode_extended_info}
use open_rfc_go.Appc.Records.{or_default}
use open_rfc_go.Appc.Records.RoundTrip.{IsInput}
use open_rfc_go.Appc.Outgoing.{
  OutgoingDataPlanInput, OutgoingDataPlannerOptions, OutgoingDataFragment, outgoing_operation_info,
  planned_count, slice_of, fragment_at, plan_loop, plan_outgoing_data_fragments, check_slice,
  fragment_info,
}
use open_rfc_go.Appc.Outgoing.Slices.{slice_of-short, plan-IsPlanned, single_record-cases}
use open_rfc_go.Appc.Outgoing.Encoded.{Encodes, not_above, below, fragment_at-Encodes}

indices_info-ok :
    (communication connection : ℕ)
    → communication < 65536
    → connection < 65536
    → (bs : List ℕ) × (encode_extended_info (indices_info communication connection) ≡ ok bs)
      × (length bs ≡ 32)
indices_info-ok communication connection h k =
    let (bs, encoded, sized, _) =
      decode-encode_extended_info (indices_info communication connection) (record {
        destination_name = no_name;
        unit_name = no_name;
        program_name = no_name;
        type_byte = omega arith;
        client_byte = omega arith;
        communication_word = h;
        connection_word = k;
      }) in
    (bs, encoded, sized)
  where
    no_name : IsName []
    no_name = record { printable = unfold all_printable in refl; short = omega arith; ending = tt }

-- What a slice and the terminator are sent as.
abbrev function_at : ℕ → ℕ → ℕ
function_at index k = (outgoing_fragment_semantics index (k + 1)).function_code

slice-function :
    (index k : ℕ)
    → index < k
    → ((function_at index k == func_receive) ≡ false)
      × ((function_at index k == func_async_send_data || function_at index k == func_send_data)
          ≡ true)
unfolding outgoing_fragment_semantics
slice-function index k h = (ground arith, ground arith)

terminator-function :
    (k : ℕ)
    → 1 ≤ k
    → ((function_at k k == func_receive) ≡ true)
      × ((function_at k k == func_async_send_data || function_at k k == func_send_data) ≡ false)
unfolding outgoing_fragment_semantics
terminator-function k h = (ground arith, ground arith)

slice_of-nonempty :
    (content : List ℕ) (index : ℕ)
    → index * 28000 < length content
    → 1 ≤ length (slice_of content (min (index * 28000) (length content)) false)
slice_of-nonempty content index h =
    let start : ℕ = min (index * 28000) (length content) in
    omega (
      arith,
      length-take (min (start + 28000) (length content) - start) (drop start content),
      length-drop start content,
    )

-- The input's numbers in the range of their Go types.
pub record IsPlanInput (input : OutgoingDataPlanInput) : Type 0 where
  pub header_fields : IsInput 0 input.header
  pub communication_word : input.communication_index < 65536
  pub connection_word : input.connection_index < 65536

module _ (input : OutgoingDataPlanInput) (id : List ℕ) (valid : IsPlanInput input)
    (eight : length id ≡ 8) (bound : length input.application_data ≤ 2147483647) where
  pub whole-Encodes :
      (ps : List ℕ)
      → input.final_sap_parameters ≡ some ps
      → length ps ≡ 8
      → validate_final_sap_parameters ps (length input.application_data) ≡ ok tt
      → Encodes (fragment_at input id true 1 0)
  unfolding check_slice fragment_info outgoing_operation_info outgoing_fragment_semantics
  whole-Encodes ps here sized accepted =
      let (operation, info, width) =
        indices_info-ok input.communication_index input.connection_index valid.communication_word
          valid.connection_word in
      fragment_at-Encodes input id operation true 1 0 valid.header_fields eight bound
        (rw here (omega (arith, sized))) (omega arith)
        (rw
          (
            not_above _ _ (
                slice_of-short input.application_data (min 0 (length input.application_data))
                  false),
            here,
            accepted,
          )
          refl)
        info width

  module _ (k : ℕ) (some_slice : 1 ≤ k) where
    several : (k + 1 == 1) ≡ false
    several = ground arith

    pub slice-Encodes :
        (index : ℕ)
        → index < k
        → index * 28000 < length input.application_data
        → Encodes (fragment_at input id false (k + 1) index)
    unfolding check_slice fragment_info outgoing_operation_info
    slice-Encodes index place inside =
        let content : List ℕ = input.application_data in
        let (goes_on, sends) = slice-function index k place in
        let start : ℕ = min (index * 28000) (length content) in
        let there = slice_of-nonempty content index inside in
        let short = slice_of-short content start false in
        fragment_at-Encodes input id
          (info_bytes (length (slice_of content start false)) input.communication_index
            input.connection_index)
          false (k + 1) index valid.header_fields eight bound (omega arith) (omega (arith, place))
          (rw (several, goes_on, sends, not_above _ _ there, not_above _ _ short) refl)
          (rw (goes_on, sends)
            (encode_bytes _ input.communication_index input.connection_index there short))
          refl

    pub terminator-Encodes : Encodes (fragment_at input id false (k + 1) k)
    unfolding check_slice fragment_info
    terminator-Encodes =
        let (ends, sends) = terminator-function k some_slice in
        fragment_at-Encodes input id
          (info_bytes 28000 input.communication_index input.connection_index) false (k + 1) k
          valid.header_fields eight bound (omega arith) (omega arith)
          (rw (several, ends, sends) refl)
          (rw (ends, below 1 (k + 1) (omega (arith, some_slice)))
            (encode_bytes 28000 input.communication_index input.connection_index (omega arith)
              (omega arith)))
          refl

    -- The loop over the slices that are left, and the terminator.
    pub plan_loop-Encodes :
        (left index : ℕ)
        → left + index ≡ k
        → k * 28000 < length input.application_data + 28000
        → All Encodes (plan_loop (suc left) input id false (k + 1) index)
    unfolding plan_loop
    plan_loop-Encodes zero index h n = (
      subst (λ i. Encodes (fragment_at input id false (k + 1) i)) (omega (arith, h))
          terminator-Encodes,
      tt,
    )
    plan_loop-Encodes (suc left) index h n = (
      slice-Encodes index (omega arith) (omega arith),
      plan_loop-Encodes left (index + 1) (omega arith) n,
    )

-- if a plan is made, every fragment of it is encoded without error, and the header that is decoded from
-- the record has the function, conversation ID, sequence number, info and vector of the fragment, whose
-- data and SAP parameters are behind it; the input's numbers are in the range of their types.
pub plan-Encodes :
    (input : OutgoingDataPlanInput) (options : OutgoingDataPlannerOptions)
    (fs : List OutgoingDataFragment)
    → IsPlanInput input
    → plan_outgoing_data_fragments input options ≡ ok fs
    → All Encodes fs
unfolding planned_count plan_loop
plan-Encodes input options fs valid h =
    let plan = plan-IsPlanned input options fs h in
    let id : List ℕ = or_default input.header.conversation_id (replicate 8 0) in
    let n : ℕ = length input.application_data in
    let k : ℕ = (n + 28000 - 1) / 28000 in
    let one_more : suc k ≡ k + 1 = omega arith in
    subst (All Encodes) (sym plan.steps)
      (elim (single_record-cases input.final_sap_parameters n plan.single plan.decided) [
        | inl (ps, is_single, short, here, sized, accepted) ↦ rw is_single (
          whole-Encodes input id valid plan.id_length plan.message_within ps here sized accepted,
          tt,
        )
        | inr (is_streamed, long, _) ↦ rw is_streamed (
            subst (λ left. All Encodes (plan_loop left input id false (k + 1) 0)) one_more
              (plan_loop-Encodes input id valid plan.id_length plan.message_within k (omega arith) k
                0 (omega arith) (omega arith)))
      ])
