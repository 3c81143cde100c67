-- ===== src/Metadata/Tests.antt =====
-- Runs of control-plane/lib/model-metadata.ts on concrete metadata.
use papi.Common.{ℕ, ◌≡◌, refl, List, [], ◌∷◌, Option, none, some, Bool, true, false}
use papi.Common.Text.{Text, codes}
use papi.Common.Json.{Json, bool, num, str, arr, obj, nil, cons, end, field}
use papi.Metadata.{ModelMetadata, normalize_model_metadata}
use papi.Metadata.Merge.{merge_model_metadata, plan_incompatibility}
use papi.Metadata.Merged.{IsUnion, merge_model_metadata-IsUnion}

abbrev no_date : Text → Option ℕ
no_date s = none

abbrev answer : Json
answer = obj (
    field (codes "context_window") (num 8000) (
      field (codes "search") (bool true) (
        field (codes "supports_search_tool") (bool true) (
          field (codes "modalities") (arr (cons (str (codes "image")) nil))
            (field (codes "available_in_plans") (arr (cons (str (codes " Plus ")) nil)) end)))))

abbrev read : ModelMetadata
read = normalize_model_metadata no_date (some answer)

answer_tools : read.tool_names ≡ some (codes "web_search" ∷ codes "vision" ∷ [])
unfolding normalize_model_metadata papi.Common.Json.get papi.Common.Text.same papi.Common.Text.trim
    papi.Common.Text.member
answer_tools = refl

answer_plans : read.available_in_plans ≡ some (codes "Plus" ∷ [])
unfolding normalize_model_metadata papi.Common.Json.get papi.Common.Text.same papi.Common.Text.trim
answer_plans = refl

merge_model_metadata-IsUnion_example :
    IsUnion
      (codes "vision")
      (λ m. m.tool_names)
      (read ∷ read ∷ [])
      (merge_model_metadata no_date (read ∷ read ∷ []))
    × IsUnion
        (codes "vision")
        (λ m. m.input_modalities)
        (read ∷ read ∷ [])
        (merge_model_metadata no_date (read ∷ read ∷ []))
    × IsUnion
        (codes "vision")
        (λ m. m.available_in_plans)
        (read ∷ read ∷ [])
        (merge_model_metadata no_date (read ∷ read ∷ []))
merge_model_metadata-IsUnion_example =
    merge_model_metadata-IsUnion no_date (read ∷ read ∷ []) (codes "vision")

-- An account whose plan is not among the model's.
free_plan : plan_incompatibility (some read) ("a1" ∷ []) (λ id. some (str (codes "free"))) ≡ true
unfolding plan_incompatibility normalize_model_metadata papi.Common.Json.get papi.Common.Text.same
    papi.Common.Text.trim papi.Common.Text.member
free_plan = refl

plus_plan : plan_incompatibility (some read) ("a1" ∷ []) (λ id. some (str (codes "PLUS"))) ≡ false
unfolding plan_incompatibility normalize_model_metadata papi.Common.Json.get papi.Common.Text.same
    papi.Common.Text.trim papi.Common.Text.member
plus_plan = refl
