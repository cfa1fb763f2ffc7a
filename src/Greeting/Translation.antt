-- ===== src/Greeting/Translation.antt =====
-- The text of a greeting (app/slots/greeting/providers/translation.py): the static texts and the
-- model, which may call tools. The model's transport and `json` are parameters; the transport also
-- gets the number of the call.
pub mod Laws
pub mod Origin
use oss_us_web_design_system.Greeting.Templates.{
  Template, fill, is_supported, static_greetings, template, template_of,
}
use oss_us_web_design_system.Base.{
  ℕ, zero, suc, ◌+◌, Bool, true, false, Option, none, some, String, List, [], ◌∷◌, ◌++◌, Result, ok,
  err, find?, is_some, if◌then◌else◌, Text, codes, text_eq, strip,
}
use oss_us_web_design_system.Llm.Crypto.{Cipher, CryptoSettings}
use oss_us_web_design_system.Llm.Keys.{
  KeyDb, KeyError, provider_required, key_required, key_unavailable, crypto, resolve_api_key,
}
use oss_us_web_design_system.Mcp.{
  ConnectionDb, Client, ToolSpec, ToolResult, ToolException, discover_tools, invoke_tool,
}

-- A call of a tool that the model asks for; a missing name is empty, and `none` are missing arguments.
pub record ToolCall : Type 0 where
  pub id : Text
  pub name : Text
  pub arguments : Option Text

-- The message of the model's reply.
pub record Reply : Type 0 where
  pub content : Option Text
  pub tool_calls : List ToolCall

pub data ChatMessage : Type 0 where
  user_message : Text → ChatMessage
  assistant_message : Reply → ChatMessage
  tool_message : Text → ToolResult → ChatMessage

-- How a call of the transport fails: with an exception that the translation catches, such as
-- `LLMError` or a reply without its message, or with another.
pub data ChatError : Type 0 where
  caught other : ChatError

pub data Source : Type 0 where
  static llm : Source

pub record TranslationResult : Type 0 where
  pub text : Text
  pub locale_used : Text
  pub fallback : Bool
  pub source : Source
  pub tools_used : List Text

abbrev pub max_tool_iterations : ℕ
max_tool_iterations = 3

-- `content.strip() if content else None`.
unfoldable pub stripped : Option Text → Option Text
stripped none = none
stripped (some []) = none
stripped (some (c ∷ cs)) = some (strip (c ∷ cs))

-- A text that is there and not empty.
unfoldable pub non_empty : Option Text → Option Text
non_empty none = none
non_empty (some []) = none
non_empty (some (c ∷ cs)) = some (c ∷ cs)

unfoldable pub greeting_prompt : Text → Text → Text
greeting_prompt name locale =
    codes "Translate the following greeting into the language and regional conventions of locale '"
    ++ locale
    ++ codes
        "'. If a tool is available for looking up a regional greeting convention, you may call it first to inform your translation. Reply with ONLY the greeting text, no explanation, no quotes: Hello, "
    ++ name
    ++ codes "!"

unfoldable pub static_result : Text → Text → Bool → Template → TranslationResult
unfolding fill
static_result name locale fallback t = record {
  text = fill name t;
  locale_used = locale;
  fallback = fallback;
  source = static;
  tools_used = [];
}

abbrev pub default_template : Template
default_template = template "en-US" "Hello, " "!"

-- The last resort: the organization's locale, or American English.
unfoldable pub fallback_result : Text → Text → TranslationResult
unfolding template_of static_result
fallback_result name tenant_default_locale = elim (template_of tenant_default_locale) [
  | some t ↦ static_result name tenant_default_locale true t
  | none ↦ static_result name (codes "en-US") true default_template
]

-- The services that the model's calls use, and the `json` library: the arguments of a tool, as they
-- are given to the server, where `none` is a text that does not parse.
pub record Services : Type 0 where
  pub cipher : Cipher
  pub settings : CryptoSettings
  pub client : Client
  pub keys : KeyDb
  pub connections : ConnectionDb
  pub parse_arguments : Text → Option Text

abbrev pub Transport : Type 0
Transport = Text → List ChatMessage → List ToolSpec → ℕ → Result ChatError Reply

unfoldable pub arguments_of : Services → ToolCall → Text
arguments_of env call =
    elim (env.parse_arguments (elim call.arguments [
      | none ↦ codes "{}"
      | some a ↦ elim a [ [] ↦ codes "{}" | c ∷ cs ↦ c ∷ cs ]
    ])) [ none ↦ codes "{}" | some a ↦ a ]

-- The loop over the tool calls of one reply: the messages it adds and the names it calls.
unfoldable pub run_calls :
    Services → ℕ → List ToolCall → Result ToolException (List ChatMessage × List Text)
unfolding arguments_of invoke_tool
run_calls env org_id [] = ok ([], [])
run_calls env org_id (call ∷ calls) =
    elim (invoke_tool env.cipher env.settings env.client org_id call.name (arguments_of env call)
      env.connections) [
        | err e ↦ err e
        | ok answer ↦ elim (run_calls env org_id calls) [
          | err e ↦ err e
          | ok (messages, names) ↦ ok (tool_message call.id answer ∷ messages, call.name ∷ names)
        ]
      ]

module _ (env : Services) (transport : Transport) (org_id : ℕ) where
  -- `complete` for the greeting's provider; the key's absence is caught, a cipher's failure is not.
  unfoldable pub complete : List ChatMessage → List ToolSpec → ℕ → Result ChatError Reply
  unfolding resolve_api_key
  complete messages tools n =
      elim (resolve_api_key env.cipher env.settings (codes "openai") (some org_id) env.keys).0 [
        | ok api_key ↦ transport api_key messages tools n
        | err key_unavailable ↦ err caught
        | err provider_required ↦ err other
        | err key_required ↦ err other
        | err (crypto _) ↦ err other
      ]

  -- `_run_tool_calling_loop`: `left` rounds remain, and `n` calls have been made.
  unfoldable pub tool_loop :
      ℕ
      → ℕ
      → List ToolSpec
      → List ChatMessage
      → List Text
      → Reply
      → Result ChatError (Option Text × List Text)
  unfolding run_calls complete stripped
  tool_loop zero n tools messages used reply = ok (stripped reply.content, used)
  tool_loop (suc left) n tools messages used reply = elim reply.tool_calls [
    | [] ↦ ok (stripped reply.content, used)
    | c ∷ cs ↦ elim (run_calls env org_id (c ∷ cs)) [
      | err e ↦ err other
      | ok (answers, names) ↦
          let sent = messages ++ assistant_message reply ∷ answers in
          elim (complete sent tools n) [
            | err e ↦ err e
            | ok next ↦ tool_loop left (suc n) tools sent (used ++ names) next
          ]
    ]
  ]

  -- The tools for the model; a discovery that fails gives none.
  unfoldable pub tools_for : List ToolSpec
  unfolding discover_tools
  tools_for = elim (discover_tools env.cipher env.settings env.client org_id env.connections) [
    | err _ ↦ []
    | ok tools ↦ tools
  ]

  -- The first reply, with tools and without.
  unfoldable pub after_first :
      List ToolSpec → List ChatMessage → Reply → Result ChatError (Option Text × List Text)
  unfolding tool_loop stripped
  after_first [] messages reply = ok (stripped reply.content, [])
  after_first (t ∷ ts) messages reply = tool_loop max_tool_iterations 1 (t ∷ ts) messages [] reply

  -- What the model is asked and what its answer is read as, up to the handler of the exceptions.
  unfoldable pub ask_model :
      Text → Text → List ToolSpec → Result ChatError (Option Text × List Text)
  unfolding complete after_first greeting_prompt
  ask_model name locale tools =
      let messages = user_message (greeting_prompt name locale) ∷ [] in
      elim (complete messages tools 0) [
        | err e ↦ err e
        | ok reply ↦ after_first tools messages reply
      ]

  -- `_try_llm_translate`: `none` is a failure that the caller falls back from.
  unfoldable pub try_llm_translate : Text → Text → Result ChatError (Option (Text × List Text))
  unfolding tools_for ask_model non_empty
  try_llm_translate name locale = elim (ask_model name locale tools_for) [
    | err caught ↦ ok none
    | err other ↦ err other
    | ok (text, used) ↦ elim (non_empty text) [ none ↦ ok none | some t ↦ ok (some (t, used)) ]
  ]

  -- `translate`.
  unfoldable pub translate : Text → Text → Text → Bool → Result ChatError TranslationResult
  unfolding template_of static_result fallback_result try_llm_translate
  translate name locale tenant_default_locale use_llm = elim (template_of locale) [
    | some t ↦ ok (static_result name locale false t)
    | none ↦
        if use_llm
        then (elim (try_llm_translate name locale) [
          | err e ↦ err e
          | ok none ↦ ok (fallback_result name tenant_default_locale)
          | ok (some (text, used)) ↦ ok (record {
            text = text;
            locale_used = locale;
            fallback = false;
            source = llm;
            tools_used = used;
          })
        ])
        else ok (fallback_result name tenant_default_locale)
  ]
