-- ===== src/Appc/Outgoing/Slices.antt =====
-- fragmentation.go: what the slices of a plan add up to.
use open_rfc_go.Base.{
  ℕ, zero, suc, ℤ, pos, ◌⊎◌, inl, inr, ◌+◌, ◌-◌, ◌*◌, ◌/◌, ◌≤◌, ◌<◌, ◌≡◌, refl, sym, ap, ◌∙◌, subst,
  min, Bool, true, false, not, ◌&&◌, ◌||◌, Option, some, none, All, List, [], ◌∷◌, ◌++◌, append-nil,
  concat, length, length-take, take, drop, take-append-drop, drop_all, take_all, drop-drop, arith,
  leb, ◌==◌, ==_iff, Result, ok, guard, replicate, >>=-eq-ok,
}
use open_rfc_go.Appc.{
  Error, range, state, wrong_length, func_receive, outgoing_fragment_semantics,
  validate_final_sap_parameters,
}
use open_rfc_go.Appc.Records.{or_default}
use open_rfc_go.Appc.Outgoing.{
  OutgoingDataPlanInput, OutgoingDataPlannerOptions, OutgoingDataFragment, checked_length,
  checked_fragments, is_known, preflight, is_enabled, single_record, planned_count, slice_of,
  plan_loop, plan_outgoing_data_fragments,
}

abbrev pub slices : List OutgoingDataFragment → List (List ℕ)
slices [] = []
slices (f ∷ fs) = f.application_data ∷ slices fs

pub is_terminator :
    (index count : ℕ)
    → ((outgoing_fragment_semantics index count).function_code == func_receive)
      ≡ (not (count == 1) && index == count - 1)
unfolding outgoing_fragment_semantics
is_terminator index count = ground arith

slice-rest :
    (content : List ℕ) (start : ℕ)
    → start ≤ length content
    → slice_of content start false ++ drop (min (start + 28000) (length content)) content
      ≡ drop start content
slice-rest content start h =
    let stop : ℕ = min (start + 28000) (length content) in
    let reached : start + (stop - start) ≡ stop = omega arith in
    ap (λ n. take (stop - start) (drop start content) ++ drop n content) (sym reached)
    ∙ ap (λ xs. take (stop - start) (drop start content) ++ xs)
        (sym (drop-drop (stop - start) start content))
    ∙ take-append-drop (stop - start) (drop start content)

module _ (input : OutgoingDataPlanInput) (conversation : List ℕ) where
  -- The first of several fragments has the rest of the message before it, and the last none.
  plan_loop-slices :
      (k left index : ℕ)
      → left + index ≡ k
      → 1 ≤ k
      → length input.application_data ≤ k * 28000
      → concat (slices (plan_loop (suc left) input conversation false (k + 1) index))
        ≡ drop (min (index * 28000) (length input.application_data)) input.application_data
  unfolding plan_loop
  plan_loop-slices k zero index h some_slice n =
      let content : List ℕ = input.application_data in
      let whole : min (index * 28000) (length content) ≡ length content = omega arith in
      let ends : (not (k + 1 == 1) && index == k + 1 - 1) ≡ true = ground arith in
      rw (is_terminator index (k + 1), ends, whole)
        (sym (drop_all (length content) content (omega arith)))
  plan_loop-slices k (suc left) index h some_slice n =
      let content : List ℕ = input.application_data in
      let start : ℕ = min (index * 28000) (length content) in
      let rest = plan_loop-slices k left (index + 1) (omega arith) some_slice n in
      let next : min ((index + 1) * 28000) (length content) ≡ min (start + 28000) (length content) =
        omega arith in
      let goes_on : (not (k + 1 == 1) && index == k + 1 - 1) ≡ false = ground arith in
      rw (is_terminator index (k + 1), goes_on, rest, next) (slice-rest content start (omega arith))

guard-true : (b : Bool) (e : Error) (u : Unit {0}) → guard b e ≡ ok u → b ≡ true
guard-true b e u h = ground arith

checked_length-within : (z : ℤ) (top : ℕ) → checked_length z ≡ ok top → top ≤ 2147483647
unfolding checked_length
checked_length-within z top h = ground arith

-- What a plan that is made consists of.
pub record IsPlanned (input : OutgoingDataPlanInput) (options : OutgoingDataPlannerOptions)
    (fs : List OutgoingDataFragment) : Type 0 where
  pub single : Bool
  pub max_fragments : ℕ
  pub bound : checked_fragments (or_default options.max_fragments (pos 65536)) ≡ ok max_fragments
  pub decided : single_record input.final_sap_parameters (length input.application_data) ≡ ok single
  pub enabled : (single || is_enabled options.cpic_streaming) ≡ true
  pub message_within : length input.application_data ≤ 2147483647
  pub id_length : length (or_default input.header.conversation_id (replicate 8 0)) ≡ 8
  pub count_within : planned_count single (length input.application_data) ≤ max_fragments
  pub steps :
      fs
      ≡ plan_loop
          (planned_count single (length input.application_data))
          input
          (or_default input.header.conversation_id (replicate 8 0))
          single
          (planned_count single (length input.application_data))
          0

pub plan-IsPlanned :
    (input : OutgoingDataPlanInput) (options : OutgoingDataPlannerOptions)
    (fs : List OutgoingDataFragment)
    → plan_outgoing_data_fragments input options ≡ ok fs
    → IsPlanned input options fs
unfolding plan_outgoing_data_fragments
plan-IsPlanned input options fs h =
    let n : ℕ = length input.application_data in
    let (top, top_ok, h1) =
      >>=-eq-ok (checked_length (or_default options.max_application_data_length (pos 1400000))) _
        h in
    let (m, bound, h2) =
      >>=-eq-ok (checked_fragments (or_default options.max_fragments (pos 65536))) _ h1 in
    let (_, _, h3) = >>=-eq-ok (guard (is_known options.cpic_streaming) range) _ h2 in
    let (v, below, h4) = >>=-eq-ok (guard (leb n top) range) _ h3 in
    let (single, decided, h5) = >>=-eq-ok (single_record input.final_sap_parameters n) _ h4 in
    let (u, enabled, h6) =
      >>=-eq-ok (guard (single || is_enabled options.cpic_streaming) state) _ h5 in
    let (u', within, h7) = >>=-eq-ok (guard (leb (planned_count single n) m) range) _ h6 in
    let id : List ℕ = or_default input.header.conversation_id (replicate 8 0) in
    let (v', eight, h8) = >>=-eq-ok (guard (length id == 8) (wrong_length (length id))) _ h7 in
    let (_, _, h9) = >>=-eq-ok (preflight single input) _ h8 in
    record {
      single = single;
      max_fragments = m;
      bound = bound;
      decided = decided;
      enabled = guard-true (single || is_enabled options.cpic_streaming) state u enabled;
      message_within =
          top_within n top _ top_ok (leb-true n top (guard-true (leb n top) range v below));
      id_length =
          (==_iff (length id) 8).0
            (guard-true (length id == 8) (wrong_length (length id)) v' eight);
      count_within = leb-true _ m (guard-true (leb (planned_count single n) m) range u' within);
      steps = ok-injective _ fs h9;
    }
  where
    leb-true : (a b : ℕ) → leb a b ≡ true → a ≤ b
    leb-true a b h = ground arith

    top_within : (n top : ℕ) (z : ℤ) → checked_length z ≡ ok top → n ≤ top → n ≤ 2147483647
    top_within n top z h k = omega (arith, k, checked_length-within z top h)

    ok-injective :
        (xs ys : List OutgoingDataFragment)
        → ◌≡◌ {A = Result Error (List OutgoingDataFragment)} (ok xs) (ok ys)
        → ys ≡ xs
    ok-injective xs ys h = cc

-- A message goes out in one record exactly if it has SAP parameters, which then are accepted.
pub single_record-cases :
    (parameters : Option (List ℕ)) (n : ℕ) (single : Bool)
    → single_record parameters n ≡ ok single
    → ((ps : List ℕ) × (single ≡ true)
        × (n ≤ 28000)
        × (parameters ≡ some ps)
        × (length ps ≡ 8)
        × (validate_final_sap_parameters ps n ≡ ok tt))
      ⊎ ((single ≡ false) × (28000 < n) × (parameters ≡ none))
unfolding single_record
single_record-cases none n single h = inr (ground arith)
single_record-cases (some ps) n single h =
    inl (ps, ground arith, ground arith, refl, ground arith, ground arith)

pub slice_of-short :
    (content : List ℕ) (start : ℕ) (ends : Bool) → length (slice_of content start ends) ≤ 28000
slice_of-short content start true = omega arith
slice_of-short content start false =
    omega (arith, length-take (min (start + 28000) (length content) - start) (drop start content))

plan_loop-short :
    (input : OutgoingDataPlanInput) (conversation : List ℕ) (single : Bool) (count left index : ℕ)
    → All
        (λ f. length f.application_data ≤ 28000)
        (plan_loop left input conversation single count index)
      × (length (plan_loop left input conversation single count index) ≡ left)
unfolding plan_loop
plan_loop-short input conversation single count zero index = (tt, refl)
plan_loop-short input conversation single count (suc left) index =
    let (short, counted) = plan_loop-short input conversation single count left (index + 1) in
    ((slice_of-short input.application_data _ _, short), omega (arith, counted))

in_one :
    (input : OutgoingDataPlanInput) (conversation : List ℕ)
    → length input.application_data ≤ 28000
    → concat (slices (plan_loop 1 input conversation true 1 0)) ≡ input.application_data
unfolding plan_loop
in_one input conversation short =
    let content : List ℕ = input.application_data in
    let start : min 0 (length content) ≡ 0 = omega arith in
    let stop : min 28000 (length content) ≡ length content = omega arith in
    rw (is_terminator 0 1, start, stop)
      (append-nil (take (length content - 0) content)
        ∙ take_all (length content - 0) content (omega arith))

in_several :
    (input : OutgoingDataPlanInput) (conversation : List ℕ)
    → 28000 < length input.application_data
    → concat (
        slices (
          plan_loop
            ((length input.application_data + 28000 - 1) / 28000 + 1)
            input
            conversation
            false
            ((length input.application_data + 28000 - 1) / 28000 + 1)
            0))
      ≡ input.application_data
in_several input conversation long =
    let content : List ℕ = input.application_data in
    let k : ℕ = (length content + 28000 - 1) / 28000 in
    let start : min 0 (length content) ≡ 0 = omega arith in
    subst (λ left. concat (slices (plan_loop left input conversation false (k + 1) 0)) ≡ content)
      (omega arith)
      (plan_loop-slices input conversation k k 0 (omega arith) (omega arith) (omega arith)
        ∙ ap (λ i. drop i content) start)

plan_loop-covers :
    (input : OutgoingDataPlanInput) (conversation : List ℕ) (single : Bool)
    → single_record input.final_sap_parameters (length input.application_data) ≡ ok single
    → concat (
        slices (
          plan_loop
            (planned_count single (length input.application_data))
            input
            conversation
            single
            (planned_count single (length input.application_data))
            0))
      ≡ input.application_data
unfolding planned_count
plan_loop-covers input conversation single h =
    elim (single_record-cases input.final_sap_parameters _ single h) [
      | inl (ps, is_single, short, _, _, _) ↦ rw is_single (in_one input conversation short)
      | inr (is_streamed, long, _) ↦ rw is_streamed (in_several input conversation long)
    ]

-- if a plan is made, the data of its fragments, joined in order, is the message; each fragment carries
-- at most 28000 bytes, and their number is within the configured limit.
pub plan-covers :
    (input : OutgoingDataPlanInput) (options : OutgoingDataPlannerOptions)
    (fs : List OutgoingDataFragment)
    → plan_outgoing_data_fragments input options ≡ ok fs
    → (concat (slices fs) ≡ input.application_data)
      × All (λ f. length f.application_data ≤ 28000) fs
      × ((m : ℕ) × (checked_fragments (or_default options.max_fragments (pos 65536)) ≡ ok m)
          × (length fs ≤ m))
plan-covers input options fs h =
    let plan = plan-IsPlanned input options fs h in
    let n : ℕ = length input.application_data in
    let id : List ℕ = or_default input.header.conversation_id (replicate 8 0) in
    let count = planned_count plan.single n in
    let (short, counted) = plan_loop-short input id plan.single count count 0 in
    subst
      (λ l.
        (concat (slices l) ≡ input.application_data)
        × All (λ f. length f.application_data ≤ 28000) l
        × ((m : ℕ) × (checked_fragments (or_default options.max_fragments (pos 65536)) ≡ ok m)
            × (length l ≤ m)))
      (sym plan.steps)
      (
        plan_loop-covers input id plan.single plan.decided,
        short,
        (plan.max_fragments, plan.bound, omega (arith, counted, plan.count_within)),
      )
