-- ===== src/Routing/Binding.antt =====
-- internal/agentrouting/approval_binding.go, and the transport request of
-- internal/mcpairlock/tool_call.go: the keyed fingerprint of one exact tool call. The keyed hash is a
-- parameter, `digest key message`, its value in hexadecimal.
use Prim.Native.Char.{code}
use text.Mathlib.Text.{starts_with}
use ia_cstudio.Prelude.{
  ℕ, zero, suc, ◌+◌, ◌/◌, ◌%◌, ◌^◌, String, ◌<>◌, len, Bool, true, false, not, ◌&&◌, ◌||◌, List, [],
  ◌∷◌, ◌++◌, if◌then◌else◌, ltb, leb, eqb, length, ◌==◌, Result, ok, err,
}
use ia_cstudio.Text.Trim.{trim_space}
use ia_cstudio.Runs.Types.{Mode}
use ia_cstudio.Airlock.Types.{risk_text}
use ia_cstudio.Routing.Policy.{Request, valid_field, valid_request}

-- the UTF-8 bytes of a code point
unfoldable pub utf8 : ℕ → List ℕ
utf8 c =
    let low = 0x80 + c % 2 ^ 6 in
    let mid = 0x80 + c / 2 ^ 6 % 2 ^ 6 in
    let high = 0x80 + c / 2 ^ 12 % 2 ^ 6 in
    if ltb c 0x80
    then c ∷ []
    else if ltb c 0x800
    then (0xc0 + c / 2 ^ 6) ∷ low ∷ []
    else if ltb c 0x10000
    then (0xe0 + c / 2 ^ 12) ∷ mid ∷ low ∷ []
    else (0xf0 + c / 2 ^ 18) ∷ high ∷ mid ∷ low ∷ []

-- `[]byte(s)`
unfoldable pub bytes : String → List ℕ
unfolding utf8
bytes String.[] = []
bytes (String.◌∷◌ c s) = utf8 (code c) ++ bytes s

abbrev pub mode_text : Mode → String
mode_text Mode.read_only = "read_only"
mode_text Mode.propose_only = "propose_only"
mode_text Mode.approved_execute = "approved_execute"
mode_text (Mode.other s) = s

-- `ToolCallArguments`: the bytes of a normalised JSON object, none for the zero value
pub record ToolCallRequest : Type 0 where
  pub server_id : String
  pub tool_name : String
  pub arguments : List ℕ

-- a character that `validateToolCallIdentifier` allows
abbrev identifier_char : Bool → ℕ → Bool
identifier_char allow_slash c =
    leb b'a' c && leb c b'z'
    || leb b'A' c && leb c b'Z'
    || leb b'0' c && leb c b'9'
    || eqb c b'.'
    || eqb c b'_'
    || eqb c b'-'
    || allow_slash && eqb c b'/'

identifier_chars : Bool → String → Bool
identifier_chars allow_slash String.[] = true
identifier_chars allow_slash (String.◌∷◌ c s) =
    identifier_char allow_slash (code c) && identifier_chars allow_slash s

abbrev pub max_tool_call_identifier_bytes : ℕ
max_tool_call_identifier_bytes = 128

-- `validateToolCallIdentifier`
unfoldable pub valid_identifier : Bool → String → Bool
unfolding identifier_chars
valid_identifier allow_slash value =
    not (trim_space value == "")
    && trim_space value == value
    && leb (len value) max_tool_call_identifier_bytes
    && identifier_chars allow_slash value

abbrev is_object : List ℕ → Bool
is_object [] = false
is_object (b ∷ bs) = true

-- `ToolCallRequest.Validate`
unfoldable pub valid_tool_call : ToolCallRequest → Bool
valid_tool_call r =
    valid_identifier false r.server_id && valid_identifier true r.tool_name && is_object r.arguments

-- `binary.BigEndian.PutUint64`
unfoldable pub put_uint64 : ℕ → List ℕ
put_uint64 n =
    n / 2 ^ 56 % 256
    ∷ n / 2 ^ 48 % 256
    ∷ n / 2 ^ 40 % 256
    ∷ n / 2 ^ 32 % 256
    ∷ n / 2 ^ 24 % 256
    ∷ n / 2 ^ 16 % 256
    ∷ n / 2 ^ 8 % 256
    ∷ n % 256
    ∷ []

-- `writeApprovalBindingField`, on the bytes that the hash has read
unfoldable pub binding_field : List ℕ → List ℕ
unfolding put_uint64
binding_field field = put_uint64 (length field) ++ field

unfoldable pub binding_fields : List (List ℕ) → List ℕ
unfolding binding_field
binding_fields [] = []
binding_fields (field ∷ fields) = binding_field field ++ binding_fields fields

abbrev pub binding_prefix : String
binding_prefix = "mcp-tool-approval-v1:"

-- the fields that a binding covers, in order
unfoldable pub operation_fields : String → Request → List ℕ → List (List ℕ)
unfolding bytes
operation_fields run_id r arguments =
    bytes run_id
    ∷ bytes r.project
    ∷ bytes r.provider_id
    ∷ bytes r.connection_id
    ∷ bytes r.server_id
    ∷ bytes r.tool_name
    ∷ bytes (mode_text r.mode)
    ∷ bytes (risk_text r.risk)
    ∷ arguments
    ∷ []

-- what is hashed
unfoldable pub binding_message : String → Request → List ℕ → List ℕ
unfolding binding_fields operation_fields
binding_message run_id r arguments =
    bytes binding_prefix ++ binding_fields (operation_fields run_id r arguments)

abbrev pub min_binding_key_bytes : ℕ
min_binding_key_bytes = 32

-- why there is no binding
pub data BindingError : Type 0 where
  short_key invalid_run_id invalid_request invalid_tool_call : BindingError

abbrev pub tool_call : Request → List ℕ → ToolCallRequest
tool_call r arguments = record {
  server_id = r.server_id;
  tool_name = r.tool_name;
  arguments = arguments;
}

-- `NewToolApprovalBinding`
unfoldable pub new_tool_approval_binding :
    (List ℕ → List ℕ → String) → List ℕ → String → Request → List ℕ → Result BindingError String
unfolding binding_message
new_tool_approval_binding digest key run_id r arguments =
    if ltb (length key) min_binding_key_bytes
    then err BindingError.short_key
    else if not (valid_field run_id)
    then err BindingError.invalid_run_id
    else if not (valid_request r)
    then err BindingError.invalid_request
    else if not (valid_tool_call (tool_call r arguments))
    then err BindingError.invalid_tool_call
    else ok (binding_prefix <> digest key (binding_message run_id r arguments))

after : ℕ → String → String
after zero s = s
after (suc n) String.[] = String.[]
after (suc n) (String.◌∷◌ c s) = after n s

lower_hex : String → Bool
lower_hex String.[] = true
lower_hex (String.◌∷◌ c s) =
    (leb b'0' (code c) && leb (code c) b'9' || leb b'a' (code c) && leb (code c) b'f')
    && lower_hex s

-- `ToolApprovalBinding.Validate`
unfoldable pub valid_binding : String → Bool
unfolding after lower_hex
valid_binding value =
    eqb (len value) (len binding_prefix + 64)
    && starts_with value binding_prefix
    && lower_hex (after (len binding_prefix) value)

-- `ToolApprovalBinding.Matches`
unfoldable pub binding_matches :
    (List ℕ → List ℕ → String) → String → List ℕ → String → Request → List ℕ → Bool
binding_matches digest value key run_id r arguments =
    if not (valid_binding value)
    then false
    else elim (new_tool_approval_binding digest key run_id r arguments) [
      | err e ↦ false
      | ok expected ↦ value == expected
    ]
