-- ===== src/Metadata.antt =====
-- control-plane/lib/model-metadata.ts: what a provider says of a model, normalised, and merged over
-- the accounts that offer it. Keys that every JavaScript object inherits are left out.
pub mod Merge
pub mod Merged
mod Tests
use papi.Common.{
  ℕ, ◌+◌, List, [], ◌∷◌, ◌++◌, Option, none, some, Bool, true, false, not, ◌&&◌, ◌||◌,
  if◌then◌else◌, ltb, ◌==◌, length, take, first, select, find, map,
}
use papi.Common.Text.{Text, codes, same, member, trim}
use papi.Common.Json.{
  Json, null, bool, num, str, arr, obj, Items, nil, cons, Fields, end, field, get,
}

-- `null` is `none`.
pub record ModelMetadata : Type 0 where
  pub context_window : Option ℕ
  pub tools : Option Bool
  pub function_calling : Option Bool
  pub reasoning : Option Bool
  pub image_generation : Option Bool
  pub supported_in_api : Option Bool
  pub tier : Option Text
  pub owner : Option Text
  pub description : Option Text
  pub tool_names : Option (List Text)
  pub input_modalities : Option (List Text)
  pub parallel_tool_calls : Option Bool
  pub available_in_plans : Option (List Text)
  pub last_seen_at : Option Text

abbrev pub string_limit : ℕ
string_limit = 1024

-- `TOOL_ALIASES[key]`
unfoldable pub tool_alias : Text → Option Text
tool_alias key =
    if member key (codes "web_search" ∷ codes "search" ∷ codes "supports_search_tool" ∷ [])
    then some (codes "web_search")
    else if member key (codes "code_execution" ∷ codes "data_analysis" ∷ [])
    then some (codes "code_execution")
    else if member key (codes "vision" ∷ codes "image_input" ∷ [])
    then some (codes "vision")
    else if member key (codes "audio" ∷ codes "audio_input" ∷ [])
    then some (codes "audio")
    else if member key (codes "file_upload" ∷ codes "files" ∷ [])
    then some (codes "file_upload")
    else if same key (codes "photo_upload")
    then some (codes "photo_upload")
    else if same key (codes "prompt_caching")
    then some (codes "prompt_caching")
    else if member key (
        codes "image_generation"
        ∷ codes "image_gen"
        ∷ codes "generate_image"
        ∷ codes "dalle_image_generation"
        ∷ [])
    then some (codes "image_generation")
    else none

-- `pushTool`
unfoldable pub push_tool : Text → List Text → List Text
push_tool name tools =
    if length name == 0 then tools else if member name tools then tools else tools ++ name ∷ []

unfoldable pub push_tools : List Text → List Text → List Text
unfolding push_tool
push_tools [] tools = tools
push_tools (name ∷ names) tools = push_tools names (push_tool name tools)

unfoldable pub push_alias : Option Text → Json → List Text → List Text
unfolding push_tool
push_alias (some name) (bool true) tools = push_tool name tools
push_alias _ _ tools = tools

unfoldable pub push_aliases : Fields → List Text → List Text
unfolding push_alias tool_alias
push_aliases end tools = tools
push_aliases (field key value fs) tools = push_aliases fs (push_alias (tool_alias key) value tools)

-- A text that is not blank.
abbrev pub is_written : Text → Bool
is_written s = ltb 0 (length (trim s))

unfoldable pub push_search : Option Json → List Text → List Text
unfolding push_tool
push_search (some (str s)) tools =
    if is_written s then push_tool (codes "web_search") tools else tools
push_search _ tools = tools

-- The texts of an array that are not blank, trimmed and cut.
unfoldable pub written_items : Items → List Text
written_items nil = []
written_items (cons (str s) rest) =
    let others = written_items rest in
    if is_written s then take string_limit (trim s) ∷ others else others
written_items (cons item rest) = written_items rest

unfoldable pub written_array : Option Json → List Text
unfolding written_items
written_array (some (arr items)) = written_items items
written_array _ = []

-- `record(value)`
unfoldable pub record_of : Option Json → Fields
record_of (some (obj fs)) = fs
record_of _ = end

abbrev push_source : Fields → List Text → List Text
push_source source tools =
    push_search (get (codes "web_search_tool_type") source) (push_aliases source tools)

abbrev pub explicit_tools : Fields → List Text
explicit_tools source = written_array (get (codes "experimental_supported_tools") source)

unfoldable pub push_if : Bool → Text → List Text → List Text
unfolding push_tool
push_if true name tools = push_tool name tools
push_if false name tools = tools

unfoldable pub modality_tools : Option (List Text) → List Text → List Text
unfolding push_if
modality_tools none tools = tools
modality_tools (some modalities) tools =
    push_if (member (codes "audio") modalities) (codes "audio")
      (push_if (member (codes "image") modalities) (codes "vision") tools)

-- `firstBoolean`
first_boolean : List (Option Json) → Option Bool
first_boolean [] = none
first_boolean (some (bool b) ∷ values) = some b
first_boolean (value ∷ values) = first_boolean values

first_string : List (Option Json) → Option Text
first_string [] = none
first_string (some (str s) ∷ values) =
    let rest = first_string values in
    if is_written s then some (take string_limit (trim s)) else rest
first_string (value ∷ values) = first_string values

unfoldable pub first_string_array : List (Option Json) → Option (List Text)
unfolding written_array
first_string_array [] = none
first_string_array (value ∷ values) =
    let items = written_array value in
    let rest = first_string_array values in if length items == 0 then rest else some items

-- A number above zero; `read` is `Math.floor(Number(text))` for a text where that number is finite
-- and above zero.
positive_number : (Text → Option ℕ) → Option Json → Option ℕ
positive_number read (some (num n)) = if ltb 0 n then some n else none
positive_number read (some (str s)) = if is_written s then read s else none
positive_number read _ = none

or_next {ℓ} : {A : Type ℓ} → Option A → Option A → Option A
or_next none rest = rest
or_next (some a) rest = some a

first_positive_number : (Text → Option ℕ) → List (Option Json) → Option ℕ
unfolding positive_number or_next
first_positive_number read [] = none
first_positive_number read (value ∷ values) =
    or_next (positive_number read value) (first_positive_number read values)

unfoldable pub nonempty_list : List Text → Option (List Text)
nonempty_list [] = none
nonempty_list (t ∷ ts) = some (t ∷ ts)

unfoldable pub tools_of : Fields → Fields → Option (List Text) → List Text
unfolding push_aliases push_search push_tools modality_tools written_array
tools_of root capabilities modalities = modality_tools modalities (
    push_tools (explicit_tools root ++ explicit_tools capabilities)
      (push_source capabilities (push_source root [])))

unfoldable pub normalize_model_metadata : (Text → Option ℕ) → Option Json → ModelMetadata
unfolding tools_of record_of first_boolean first_string first_string_array first_positive_number
    nonempty_list
normalize_model_metadata read input =
    let root = record_of input in
    let capabilities = record_of (get (codes "capabilities") root) in
    let r = λ (key : Text). get key root in
    let c = λ (key : Text). get key capabilities in
    let modalities =
      first_string_array (
        r (codes "input_modalities")
        ∷ r (codes "modalities")
        ∷ c (codes "input_modalities")
        ∷ []) in
    record {
      context_window = first_positive_number read (
          r (codes "context_window")
          ∷ r (codes "context_length")
          ∷ r (codes "max_context_tokens")
          ∷ c (codes "context_window")
          ∷ c (codes "context_length")
          ∷ []);
      tools = first_boolean (
          r (codes "tool_call")
          ∷ r (codes "tools")
          ∷ r (codes "supports_tools")
          ∷ c (codes "tools")
          ∷ c (codes "tool_call")
          ∷ []);
      function_calling = first_boolean (
          r (codes "function_call")
          ∷ r (codes "function_calling")
          ∷ r (codes "supports_function_calling")
          ∷ c (codes "function_calling")
          ∷ c (codes "function_call")
          ∷ []);
      reasoning =
          first_boolean
            (r (codes "reasoning") ∷ r (codes "supports_reasoning") ∷ c (codes "reasoning") ∷ []);
      image_generation = first_boolean (
          r (codes "image_generation")
          ∷ c (codes "image_generation")
          ∷ r (codes "image_gen")
          ∷ c (codes "image_gen")
          ∷ r (codes "generate_image")
          ∷ c (codes "generate_image")
          ∷ r (codes "dalle_image_generation")
          ∷ c (codes "dalle_image_generation")
          ∷ []);
      supported_in_api =
          first_boolean (r (codes "supported_in_api") ∷ c (codes "supported_in_api") ∷ []);
      tier = first_string (r (codes "tier") ∷ c (codes "tier") ∷ []);
      owner = first_string (r (codes "owned_by") ∷ r (codes "owner") ∷ c (codes "owner") ∷ []);
      description =
          first_string (r (codes "description") ∷ r (codes "blurb") ∷ c (codes "description") ∷ []);
      tool_names = nonempty_list (tools_of root capabilities modalities);
      input_modalities = modalities;
      parallel_tool_calls = first_boolean (
          r (codes "supports_parallel_tool_calls")
          ∷ r (codes "parallel_tool_calls")
          ∷ c (codes "supports_parallel_tool_calls")
          ∷ c (codes "parallel_tool_calls")
          ∷ []);
      available_in_plans =
          first_string_array (r (codes "available_in_plans") ∷ c (codes "available_in_plans") ∷ []);
      last_seen_at = first_string (r (codes "last_seen_at") ∷ c (codes "last_seen_at") ∷ []);
    }
