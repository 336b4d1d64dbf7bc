-- ===== src/Appc/Conversation/Reassembly.antt =====
-- conversation.go: a message that was sent in several records is put together again.
use open_rfc_go.Base.{
  Bool, subst, append-nil, ℕ, ◌+◌, ◌≤◌, ◌≡◌, refl, sym, ap, ◌∙◌, true, false, none, some, List, [],
  ◌∷◌, ◌++◌, append_assoc, length, length-append, concat, length-concat-snoc, ok, arith,
}
use open_rfc_go.Base.Stateful.{Method, pure, ◌>>=◌}
use open_rfc_go.Appc.{Error, func_receive, func_sap_send}
use open_rfc_go.Appc.Conversation.Decoder.{Message, ConversationDecoder, assembled, push}
use open_rfc_go.Appc.Conversation.Parts.{Ids, IsPart, pending_of, holding, push_first, push_next}

-- Calls of Push, up to the first error.
abbrev pub push_all : List (List ℕ) → Method ConversationDecoder Error (List Message)
push_all [] = pure []
push_all (bs ∷ bss) = do ms ← push bs; rest ← push_all bss; pure (ms ++ rest)

length-concat-append :
    (xss yss : List (List ℕ))
    → length (concat (xss ++ yss)) ≡ length (concat xss) + length (concat yss)
length-concat-append [] yss = omega arith
length-concat-append (xs ∷ xss) yss = omega (
  arith,
  length-append xs (concat (xss ++ yss)),
  length-append xs (concat xss),
  length-concat-append xss yss,
)

-- The records and the data of fragments.
abbrev pub records : List (List ℕ × List ℕ) → List (List ℕ)
records [] = []
records ((bs, content) ∷ parts) = bs ∷ records parts

abbrev pub contents : List (List ℕ × List ℕ) → List (List ℕ)
contents [] = []
contents ((bs, content) ∷ parts) = content ∷ contents parts

abbrev pub AllParts : Bool → Ids → List (List ℕ × List ℕ) → Type 0
AllParts v ids [] = Unit
AllParts v ids ((bs, content) ∷ parts) =
    IsPart v ids func_receive false bs content × AllParts v ids parts

concat-snoc : (xss : List (List ℕ)) (ys : List ℕ) → concat (xss ++ (ys ∷ [])) ≡ concat xss ++ ys
concat-snoc [] ys = append-nil ys
concat-snoc (xs ∷ xss) ys =
    ap (λ zs. xs ++ zs) (concat-snoc xss ys) ∙ sym (append_assoc xs (concat xss) ys)

push_rest :
    (ids : Ids) (d : ConversationDecoder) (chunks : List (List ℕ)) (middle : List (List ℕ × List ℕ))
    (last content : List ℕ)
    → AllParts d.validates_info ids middle
    → IsPart d.validates_info ids func_receive true last content
    → length (concat (chunks ++ (contents middle ++ (content ∷ [])))) ≤ d.max_message_length
    → length chunks + (length middle + 1) ≤ d.max_fragments
    → push_all (records middle ++ (last ∷ [])) (holding d (some (pending_of ids chunks))) ≡ (
      ok (assembled (pending_of ids (chunks ++ (contents middle ++ (content ∷ [])))) ∷ []),
      holding d none,
    )
push_rest ids d chunks [] last content hs h n k =
    rw
      (push_next ids true last content chunks d h (omega (arith, length-concat-snoc chunks content))
        (omega (arith, k)))
      refl
push_rest ids d chunks ((bs, part) ∷ middle) last content (h, hs) h' n k =
    let behind : List (List ℕ) = contents middle ++ (content ∷ []) in
    let same : (chunks ++ (part ∷ [])) ++ behind ≡ chunks ++ (part ∷ behind) =
      append_assoc chunks (part ∷ []) behind in
    rw
      (
        push_next ids false bs part chunks d h
            (omega (
              arith,
              n,
              length-concat-append chunks (part ∷ behind),
              length-append part (concat behind),
            ))
            (omega (arith, k)),
        push_rest ids d (chunks ++ (part ∷ [])) middle last content hs h'
            (subst (λ l. length (concat l) ≤ d.max_message_length) (sym same) n)
            (omega (arith, k, length-append chunks (part ∷ []))),
        same,
      )
      refl

-- the records of a message with the same IDs (a first F_SAP_SEND and any number of F_RECEIVE without
-- the end-of-message flag, then an F_RECEIVE with it), whose data and number are within the limits,
-- given to a decoder that holds nothing, deliver one message with the data joined in order, and
-- leave the decoder as it was.
pub push_all-reassembles :
    (ids : Ids) (d : ConversationDecoder) (first content : List ℕ) (middle : List (List ℕ × List ℕ))
    (last ending : List ℕ)
    → IsPart d.validates_info ids func_sap_send false first content
    → AllParts d.validates_info ids middle
    → IsPart d.validates_info ids func_receive true last ending
    → d.pending ≡ none
    → length (content ++ (concat (contents middle) ++ ending)) ≤ d.max_message_length
    → length middle + 2 ≤ d.max_fragments
    → push_all (first ∷ (records middle ++ (last ∷ []))) d ≡ (
      ok (
          record {
            content = content ++ (concat (contents middle) ++ ending);
            conversation_id = ids.conversation_id;
            sequence_number = ids.sequence_number;
            fragment_count = length middle + 2;
            communication_index = ids.communication_index;
            connection_index = ids.connection_index;
          }
          ∷ []),
      d,
    )
push_all-reassembles ids d first content middle last ending h hs h' fresh n k =
    let joined : content ++ concat (contents middle ++ (ending ∷ []))
        ≡ content ++ (concat (contents middle) ++ ending) =
      ap (λ xs. content ++ xs) (concat-snoc (contents middle) ending) in
    let empty : holding d none ≡ d = λ i. record d { pending = sym fresh i } in
    subst (λ e. push_all (first ∷ (records middle ++ (last ∷ []))) e ≡ (ok (whole ∷ []), e)) empty
      (rw
        (
          push_first ids first content d h
              (omega (arith, n, length-append content (concat (contents middle) ++ ending)))
              (omega (arith, k)),
          push_rest ids d (content ∷ []) middle last ending hs h'
              (subst (λ xs. length xs ≤ d.max_message_length) (sym joined) n) (omega (arith, k)),
        )
        (λ i. (
          ok (record whole { content = joined i; fragment_count = counted middle i } ∷ []),
          holding d none,
        )))
  where
    whole : Message
    whole = record {
      content = content ++ (concat (contents middle) ++ ending);
      conversation_id = ids.conversation_id;
      sequence_number = ids.sequence_number;
      fragment_count = length middle + 2;
      communication_index = ids.communication_index;
      connection_index = ids.connection_index;
    }

    counted :
        (ms : List (List ℕ × List ℕ))
        → length (content ∷ (contents ms ++ (ending ∷ []))) ≡ length ms + 2
    counted [] = refl
    counted (m ∷ ms) = omega (arith, counted ms)
