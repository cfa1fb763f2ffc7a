-- ===== src/Mcp.antt =====
-- Connections to MCP servers and the tools they offer (app/mcp/service.py, app/mcp/models.py). The
-- MCP client is the parameter `Client`. Creation and update stamps are left out.
pub mod Laws
use oss_us_web_design_system.Base.{
  ℕ, ◌+◌, ◌≡◌, Bool, true, false, not, ◌&&◌, ◌||◌, Option, none, some, String, List, [], ◌∷◌, ◌++◌,
  filter, find?, map, update_where, is_some, Action, pure, raise_if, gets, modify, ◌>>=◌, ◌>>◌,
  Result, ok, err, ◌==◌, ltb, if◌then◌else◌, Text, strip, text_eq, sort_by,
}
use oss_us_web_design_system.Llm.Crypto.{
  CryptoError, decryption_error, insecure_key_error, value_error, Cipher, CryptoSettings, encrypt,
  decrypt, mask,
}

pub record Connection : Type 0 where
  pub id : ℕ
  pub organization_id : ℕ
  pub name : Text
  pub url : Text
  pub encrypted_credential : Option Text
  pub enabled : Bool
  pub created_by_user_id : Option ℕ

pub record ConnectionDb : Type 0 where
  pub connections : List Connection
  pub next_id : ℕ

pub data ConnectionError : Type 0 where
  name_required url_required : ConnectionError
  crypto : CryptoError → ConnectionError

pub record Tool : Type 0 where
  pub name : Text
  pub description : Option Text
  pub input_schema : Text

-- The answer of a tool: whether it is an error, and the texts of its parts.
pub record ToolReply : Type 0 where
  pub is_error : Bool
  pub content : List Text

-- The MCP client: the tools at a URL, and a call of one; a failure is the text of `MCPClientError`.
pub record Client : Type 0 where
  pub list_tools : Text → Option Text → Result Text (List Tool)
  pub call_tool : Text → Option Text → Text → Text → Result Text ToolReply

abbrev pub is_empty_text : Text → Bool
is_empty_text [] = true
is_empty_text (_ ∷ _) = false

-- The credential that is encrypted: one that is not blank.
unfoldable pub given_credential : Option Text → Option Text
given_credential none = none
given_credential (some c) = if is_empty_text (strip c) then none else some (strip c)

-- `get_connection`.
unfoldable pub get_connection : ℕ → ℕ → ConnectionDb → Option Connection
get_connection org_id connection_id db =
    find? (λ c. c.id == connection_id && c.organization_id == org_id) db.connections

unfoldable pub set_enabled : Bool → Connection → Action ConnectionDb ConnectionError Connection
set_enabled b connection = do
  let c = record connection { enabled = b }
  modify (λ db. record db {
    connections = update_where (λ x. x.id == connection.id) (λ _. c) db.connections;
  })
  pure c

-- `enable_connection`, `disable_connection` and `delete_connection`.
unfoldable pub enable_connection : Connection → Action ConnectionDb ConnectionError Connection
unfolding set_enabled
enable_connection = set_enabled true

unfoldable pub disable_connection : Connection → Action ConnectionDb ConnectionError Connection
unfolding set_enabled
disable_connection = set_enabled false

unfoldable pub delete_connection : Connection → Action ConnectionDb ConnectionError Connection
delete_connection connection = do
  modify
      (λ db. record db { connections = filter (λ x. not (x.id == connection.id)) db.connections })
  pure connection

-- `_qualified_name`.
unfoldable pub qualified_name : Text → Text → Text
qualified_name connection_name tool_name = connection_name ++ 46 ∷ tool_name

-- `s.split(".", 1)`; `none` is a text with no dot.
unfoldable pub split_dot : Text → Option (Text × Text)
split_dot [] = none
split_dot (c ∷ s) =
    let rest = split_dot s in
    if c == 46 then some ([], s) else elim rest [ none ↦ none | some (a, b) ↦ some (c ∷ a, b) ]

unfoldable pub is_enabled_in : ℕ → Connection → Bool
is_enabled_in org_id c = c.organization_id == org_id && c.enabled

-- What a qualified name stands for, before any server is called.
pub data Target : Type 0 where
  malformed unknown_connection multiple_results : Target
  found : Connection → Text → Target

-- `scalar_one_or_none`.
unfoldable pub the_one : Text → List Connection → Target
the_one tool [] = unknown_connection
the_one tool (c ∷ []) = found c tool
the_one tool (_ ∷ _ ∷ _) = multiple_results

unfoldable pub target : ℕ → Text → ConnectionDb → Target
unfolding split_dot is_enabled_in the_one
target org_id name db = elim (split_dot name) [
  | none ↦ malformed
  | some (connection_name, tool_name) ↦
      the_one tool_name
        (filter (λ c. is_enabled_in org_id c && text_eq c.name connection_name) db.connections)
]

-- What `invoke_tool` returns, or the exception that it lets through.
pub data ToolResult : Type 0 where
  result : List Text → ToolResult
  tool_error : List Text → ToolResult
  client_error : Text → ToolResult
  unreadable_credential malformed_name no_connection : ToolResult

pub data ToolException : Type 0 where
  multiple_results_found : ToolException
  crypto_failure : CryptoError → ToolException

-- The entry of a tool in the list for the model.
pub record ToolSpec : Type 0 where
  pub name : Text
  pub description : Text
  pub parameters : Text

unfoldable pub tool_spec : Connection → Tool → ToolSpec
unfolding qualified_name
tool_spec c t = record {
  name = qualified_name c.name t.name;
  description = elim t.description [ none ↦ [] | some d ↦ d ];
  parameters = t.input_schema;
}

module _ (cipher : Cipher) (s : CryptoSettings) where
  unfoldable pub sealed : List ℕ → Option Text → Action ConnectionDb ConnectionError (Option Text)
  sealed nonce none db = (ok none, db)
  sealed nonce (some c) db = elim (encrypt cipher s nonce c) [
    | ok t ↦ (ok (some t), db)
    | err e ↦ (err (crypto e), db)
  ]

  -- `create_connection`: a new connection is not enabled.
  unfoldable pub create_connection :
      List ℕ
      → ℕ
      → Text
      → Text
      → Option Text
      → Option ℕ
      → Action ConnectionDb ConnectionError Connection
  unfolding given_credential sealed
  create_connection nonce org_id name url credential user_id = do
    raise_if (is_empty_text (strip name)) name_required
    raise_if (is_empty_text (strip url)) url_required
    token ← sealed nonce (given_credential credential)
    id ← gets (λ db. db.next_id)
    let c : Connection = record {
      id = id;
      organization_id = org_id;
      name = strip name;
      url = strip url;
      encrypted_credential = token;
      enabled = false;
      created_by_user_id = user_id;
    }
    modify (λ db. record db { connections = db.connections ++ c ∷ []; next_id = id + 1 })
    pure c

  -- The credential of a connection; an empty one is none.
  unfoldable pub credential_of : Connection → Result CryptoError (Option Text)
  credential_of c = elim c.encrypted_credential [
    | none ↦ ok none
    | some token ↦
        if is_empty_text token
        then ok none
        else elim (decrypt cipher s token) [ ok t ↦ ok (some t) | err e ↦ err e ]
  ]

  module _ (client : Client) where
    -- One pass of the loop of `discover_tools`: a server that fails, or a credential that does not
    -- decrypt, is skipped.
    unfoldable pub tools_of : Connection → Result CryptoError (List ToolSpec)
    unfolding credential_of tool_spec
    tools_of c = elim (credential_of c) [
      | err decryption_error ↦ ok []
      | err insecure_key_error ↦ err insecure_key_error
      | err value_error ↦ err value_error
      | ok credential ↦ elim (client.list_tools c.url credential) [
        | err _ ↦ ok []
        | ok ts ↦ ok (map (tool_spec c) ts)
      ]
    ]

    unfoldable pub all_tools : List Connection → Result CryptoError (List ToolSpec)
    unfolding tools_of
    all_tools [] = ok []
    all_tools (c ∷ cs) = elim (tools_of c) [
      | err e ↦ err e
      | ok specs ↦ elim (all_tools cs) [ err e ↦ err e | ok rest ↦ ok (specs ++ rest) ]
    ]

    unfoldable pub discover_tools : ℕ → ConnectionDb → Result CryptoError (List ToolSpec)
    unfolding all_tools is_enabled_in
    discover_tools org_id db = all_tools (filter (is_enabled_in org_id) db.connections)

    -- The call of one tool of a connection.
    unfoldable pub call_connection : Connection → Text → Text → Result ToolException ToolResult
    unfolding credential_of
    call_connection c tool_name arguments = elim (credential_of c) [
      | err decryption_error ↦ ok unreadable_credential
      | err insecure_key_error ↦ err (crypto_failure insecure_key_error)
      | err value_error ↦ err (crypto_failure value_error)
      | ok credential ↦ elim (client.call_tool c.url credential tool_name arguments) [
        | err text ↦ ok (client_error text)
        | ok r ↦ ok (if r.is_error then tool_error r.content else result r.content)
      ]
    ]

    -- `invoke_tool`.
    unfoldable pub invoke_tool : ℕ → Text → Text → ConnectionDb → Result ToolException ToolResult
    unfolding target call_connection
    invoke_tool org_id name arguments db = elim (target org_id name db) [
      | malformed ↦ ok malformed_name
      | unknown_connection ↦ ok no_connection
      | multiple_results ↦ err multiple_results_found
      | found c tool_name ↦ call_connection c tool_name arguments
    ]
