-- ===== src/Assistant/Answering/Replies.antt =====
-- What a model's reply is read as, and what the model is sent (`_parse_citations`,
-- `_build_grounding_context` and the texts of `_call_llm_tiered` in
-- app/slots/accessibility_assistant/service.py). The `json` library is the parameter `Json`.
use oss_us_web_design_system.Base.{
  ◌≡◌, refl, not, ◌&&◌, any, AllPass, text_eq, Bool, true, false, Option, none, some, String, List,
  [], ◌∷◌, ◌++◌, map, str_eq, if◌then◌else◌, Text, codes, sort_by, ltb,
}
use oss_us_web_design_system.Tenancy.{visible}
use oss_us_web_design_system.Assistant.Retry.{
  FailureType, rate_limit_exceeded, authentication_failure, service_timeout,
}
use oss_us_web_design_system.Assistant.Answering.{
  Citation, Message, InformationSource, AnswerDb, retrieval_augmented,
}

-- `result["choices"][0]["message"]["content"]`: a text, `None`, or an exception for another shape.
pub data ChatReply : Type 0 where
  content : Text → ChatReply
  null_content malformed : ChatReply

-- What `json.loads` makes of a text: a dictionary, with the texts of its `response` and `reasoning`
-- where it has them and the entries of its `citations` (`none` is a value that is no sequence; an
-- entry that is no dictionary is `none`), another value, or an exception.
pub data Decoded : Type 0 where
  dictionary : Option Text → Option Text → Option (List (Option Citation)) → Decoded
  not_a_dictionary undecodable : Decoded

-- A dictionary whose values are texts, by its members, and whether no key of it stands twice.
abbrev pub TextDict : Type 0
TextDict = List (Text × Text)

unfoldable pub has_distinct_keys : TextDict → Bool
has_distinct_keys [] = true
has_distinct_keys ((key, _) ∷ d) = not (any (λ m. text_eq m.0 key) d) && has_distinct_keys d

-- The `json` library. `load_dictionaries` is what `json.loads` makes of a list of dictionaries, whose
-- members are `none` where they are no text; any other value and an exception are `none`.
-- `dump_dictionaries` is `json.dumps` of a list of dictionaries of texts, which are read back.
pub record Json : Type 0 where
  pub loads : Text → Decoded
  pub load_dictionaries : Text → Option (List (List (Text × Option Text)))
  pub dump_dictionaries : List TextDict → Text
  pub load-dump :
      (ds : List TextDict)
      → AllPass has_distinct_keys ds
      → load_dictionaries (dump_dictionaries ds) ≡ some (map (map (λ m. (m.0, some m.1))) ds)

pub record Answer : Type 0 where
  pub response_text : Text
  pub reasoning : Text
  pub citations : List Citation

unfoldable pub text_or : Option Text → Text → Text
text_or none d = d
text_or (some t) _ = t

-- The entries that are dictionaries.
unfoldable pub dictionaries : List (Option Citation) → List Citation
dictionaries [] = []
dictionaries (none ∷ cs) = dictionaries cs
dictionaries (some c ∷ cs) = c ∷ dictionaries cs

-- `c[key]`, for a value that is a text; a missing key and another value raise.
unfoldable pub text_at : Text → List (Text × Option Text) → Option Text
text_at key [] = none
text_at key ((k, v) ∷ d) = if text_eq k key then v else text_at key d

abbrev pub source_name_key : Text
source_name_key = codes "source_name"

abbrev pub hyperlink_key : Text
hyperlink_key = codes "hyperlink"

unfoldable pub citation_of : List (Text × Option Text) → Option Citation
unfolding text_at
citation_of d = elim (text_at source_name_key d) [
  | none ↦ none
  | some source_name ↦ elim (text_at hyperlink_key d) [
    | none ↦ none
    | some hyperlink ↦ some (record { source_name = source_name; hyperlink = hyperlink })
  ]
]

-- The list of `_parse_citations`; one entry that raises loses all of them.
unfoldable pub citations_of : List (List (Text × Option Text)) → Option (List Citation)
unfolding citation_of
citations_of [] = some []
citations_of (d ∷ ds) = elim (citation_of d) [
  | none ↦ none
  | some c ↦ elim (citations_of ds) [ none ↦ none | some cs ↦ some (c ∷ cs) ]
]

-- `_parse_citations`: any exception gives no citations.
unfoldable pub parse_citations : Json → Text → List Citation
unfolding citations_of
parse_citations json text = elim (json.load_dictionaries text) [
  | none ↦ []
  | some ds ↦ elim (citations_of ds) [ none ↦ [] | some cs ↦ cs ]
]

unfoldable pub dictionary_of : Citation → TextDict
dictionary_of c = (source_name_key, c.source_name) ∷ (hyperlink_key, c.hyperlink) ∷ []

-- `_serialise_citations`.
unfoldable pub serialise_citations : Json → List Citation → Text
unfolding dictionary_of
serialise_citations json cs = json.dump_dictionaries (map dictionary_of cs)

dictionaries_of-AllPass : (cs : List Citation) → AllPass has_distinct_keys (map dictionary_of cs)
unfolding has_distinct_keys dictionary_of
dictionaries_of-AllPass [] = tt
dictionaries_of-AllPass (c ∷ cs) = (refl, dictionaries_of-AllPass cs)

citations_of-dictionaries :
    (cs : List Citation)
    → citations_of (map (map (λ m. (m.0, some m.1))) (map dictionary_of cs)) ≡ some cs
unfolding citations_of citation_of text_at dictionary_of
citations_of-dictionaries [] = refl
citations_of-dictionaries (c ∷ cs) = rw (citations_of-dictionaries cs) refl

-- The citations that are written are read back as they were.
pub parse_citations-serialise :
    (json : Json) (cs : List Citation) → parse_citations json (serialise_citations json cs) ≡ cs
unfolding parse_citations serialise_citations
parse_citations-serialise json cs =
    rw
      (
        parse_citations,
        json.load-dump (map dictionary_of cs) (dictionaries_of-AllPass cs),
        citations_of-dictionaries cs,
      )
      refl

-- `str` of a failure type.
unfoldable pub failure_text : FailureType → Text
failure_text rate_limit_exceeded = codes "rate limit exceeded"
failure_text authentication_failure = codes "authentication failure"
failure_text service_timeout = codes "service timeout"

-- The exceptions of the tiered call: `_UnanswerableError`, with the type of the failure, and any
-- other, which the caller does not catch.
pub data CallError : Type 0 where
  unanswerable : Option FailureType → CallError
  uncaught : CallError

abbrev pub system_text : Text
system_text =
    codes
      "You are an accessibility assistant. Answer the user's question about accessibility clearly and helpfully. Provide: 1) An expository response, 2) Your reasoning, 3) Any relevant source citations in JSON format. Format your response as JSON with keys: \"response\", \"reasoning\", \"citations\" (array of {\"source_name\", \"hyperlink\"})."

abbrev pub grounding_text : Text
grounding_text =
    codes "\n\nGround your answer in the following configured information sources when relevant:\n"

unfoldable pub system_prompt : Text → Text
system_prompt [] = system_text
system_prompt (c ∷ cs) = system_text ++ grounding_text ++ c ∷ cs

unfoldable pub prompt : Text → List Message → Text → List Message
prompt system history question =
    record { role = "system"; content = system } ∷ history
    ++ record { role = "user"; content = question } ∷ []

-- The order of texts that ORDER BY uses.
unfoldable pub text_before : Text → Text → Bool
text_before [] [] = false
text_before [] (_ ∷ _) = true
text_before (_ ∷ _) [] = false
text_before (a ∷ s) (b ∷ t) = if ltb a b then true else (if ltb b a then false else text_before s t)

unfoldable pub source_line : InformationSource → Text
source_line s = codes "- " ++ s.name ++ codes " (" ++ s.source_type ++ codes ")"

unfoldable pub join_lines : List Text → Text
join_lines [] = []
join_lines (l ∷ []) = l
join_lines (l ∷ m ∷ ls) = l ++ codes "\n" ++ join_lines (m ∷ ls)

-- `_build_grounding_context`.
unfoldable pub build_grounding_context : AnswerDb → Text
unfolding visible sort_by text_before source_line join_lines
build_grounding_context db = join_lines (
    map source_line (
      sort_by (λ a b. text_before a.name b.name)
        (visible (λ s. s.org_id) db.current_org db.sources)))

unfoldable pub grounding_for : String → AnswerDb → Text
unfolding build_grounding_context
grounding_for mode db = if str_eq mode retrieval_augmented then build_grounding_context db else []
