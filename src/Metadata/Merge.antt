-- ===== src/Metadata/Merge.antt =====
-- control-plane/lib/model-metadata.ts: `mergeModelMetadata` and `planIncompatibility`.
use papi.Common.{
  ℕ, List, [], ◌∷◌, ◌++◌, Option, none, some, Bool, true, false, not, ◌&&◌, ◌||◌, if◌then◌else◌,
  ltb, ◌==◌, length, max, all, any, map, String,
}
use papi.Common.Text.{Text, member, to_lower}
use papi.Common.Json.{Json, str}
use papi.Metadata.{ModelMetadata, nonempty_list, is_written}

-- The largest of the numbers that are there.
unfoldable pub max_number : List (Option ℕ) → Option ℕ
max_number [] = none
max_number (none ∷ values) = max_number values
max_number (some n ∷ values) = max_with n (max_number values)
  where
    max_with : ℕ → Option ℕ → Option ℕ
    max_with n none = some n
    max_with n (some m) = some (max n m)

abbrev pub is_yes : Option Bool → Bool
is_yes none = false
is_yes (some b) = b

abbrev pub is_denied : Option Bool → Bool
is_denied none = false
is_denied (some b) = not b

unfoldable pub merge_boolean : List (Option Bool) → Option Bool
merge_boolean values =
    if any is_yes values
    then some true
    else if ltb 0 (length values) && all is_denied values
    then some false
    else none

unfoldable pub first_present : List (Option Text) → Option Text
first_present [] = none
first_present (none ∷ values) = first_present values
first_present (some s ∷ values) = some s

unfoldable pub add_new : List Text → List Text → List Text
add_new [] out = out
add_new (item ∷ items) out = add_new items (if member item out then out else out ++ item ∷ [])

unfoldable pub add_groups : List (Option (List Text)) → List Text → List Text
unfolding add_new
add_groups [] out = out
add_groups (none ∷ groups) out = add_groups groups out
add_groups (some items ∷ groups) out = add_groups groups (add_new items out)

unfoldable pub merge_string_array : List (Option (List Text)) → Option (List Text)
unfolding add_groups
merge_string_array groups = nonempty_list (add_groups groups [])

-- The texts that are dates, with their times; `date` is `Date.parse`, `none` where that is no number.
dated : (Text → Option ℕ) → List (Option Text) → List (Text × ℕ)
dated date [] = []
dated date (none ∷ values) = dated date values
dated date (some s ∷ values) = with_time s (date s) (dated date values)
  where
    with_time : Text → Option ℕ → List (Text × ℕ) → List (Text × ℕ)
    with_time s none rest = rest
    with_time s (some t) rest = (s, t) ∷ rest

-- `reduce`: a later date takes over.
latest_from : Text → ℕ → List (Text × ℕ) → Text
latest_from best time [] = best
latest_from best time ((s, t) ∷ values) =
    let newer = latest_from s t values in
    let older = latest_from best time values in if ltb time t then newer else older

latest_or : Option Text → List (Text × ℕ) → Option Text
unfolding latest_from
latest_or otherwise [] = otherwise
latest_or otherwise ((s, t) ∷ values) = some (latest_from s t values)

unfoldable pub latest_string : (Text → Option ℕ) → List (Option Text) → Option Text
unfolding dated latest_or first_present
latest_string date values = latest_or (first_present values) (dated date values)

unfoldable pub merge_model_metadata : (Text → Option ℕ) → List ModelMetadata → ModelMetadata
unfolding max_number merge_boolean merge_string_array latest_string
merge_model_metadata date items = record {
  context_window = max_number (map (λ m. m.context_window) items);
  tools = merge_boolean (map (λ m. m.tools) items);
  function_calling = merge_boolean (map (λ m. m.function_calling) items);
  reasoning = merge_boolean (map (λ m. m.reasoning) items);
  image_generation = merge_boolean (map (λ m. m.image_generation) items);
  supported_in_api = merge_boolean (map (λ m. m.supported_in_api) items);
  tier = first_present (map (λ m. m.tier) items);
  owner = first_present (map (λ m. m.owner) items);
  description = first_present (map (λ m. m.description) items);
  tool_names = merge_string_array (map (λ m. m.tool_names) items);
  input_modalities = merge_string_array (map (λ m. m.input_modalities) items);
  parallel_tool_calls = merge_boolean (map (λ m. m.parallel_tool_calls) items);
  available_in_plans = merge_string_array (map (λ m. m.available_in_plans) items);
  last_seen_at = latest_string date (map (λ m. m.last_seen_at) items);
}

-- The plans of the accounts that are texts and not blank; `plan_of` is the map from accounts. Plans
-- are lowered by their ASCII letters.
unfoldable pub known_plans : (String → Option Json) → List String → List Text
known_plans plan_of [] = []
known_plans plan_of (id ∷ ids) = with_plan (plan_of id) (known_plans plan_of ids)
  where
    with_plan : Option Json → List Text → List Text
    with_plan (some (str s)) rest = if is_written s then s ∷ rest else rest
    with_plan _ rest = rest

plans_of : Option ModelMetadata → List Text
plans_of none = []
plans_of (some m) = or_none m.available_in_plans
  where
    or_none : Option (List Text) → List Text
    or_none none = []
    or_none (some plans) = plans

unfoldable pub plan_incompatibility :
    Option ModelMetadata → List String → (String → Option Json) → Bool
unfolding known_plans plans_of
plan_incompatibility metadata ids plan_of =
    let plans = plans_of metadata in
    let known = known_plans plan_of ids in
    if length plans == 0 || length ids == 0
    then false
    else if length known == 0
    then false
    else all (λ plan. not (member (map to_lower plan) (map (map to_lower) plans))) known
