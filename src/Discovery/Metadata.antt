-- ===== src/Discovery/Metadata.antt =====
-- control-plane/lib/codex/operations.ts: `parseModels` and `sanitizeMetadata`: a provider's
-- answer read as models, with metadata that is filtered and cut to 32 KiB.
pub mod Fitting
use papi.Common.{
  ℕ, zero, suc, ◌*◌, ◌≤◌, ◌<◌, ◌≡◌, refl, List, [], ◌∷◌, Option, none, some, Bool, true, false,
  if◌then◌else◌, leb, ◌==◌, length, All, Bool-cases, inl, inr, arith, leb→le, le→leb,
}
use papi.Common.Text.{Text, codes, same, contains}
use papi.Common.Json.{
  Json, null, bool, num, str, arr, obj, Items, nil, cons, Fields, end, field, get,
}
use papi.Common.Result.{Result, ok, err, api, zod, ◌>>=◌, >>=-eq-ok}
use papi.Common.Stringify.{json_bytes}
use papi.Discovery.Secrets.{
  filter_fields, clean_json, clean_fields, filter_fields-clean, is_secret_key,
}

abbrev pub metadata_limit : ℕ
metadata_limit = 32 * 1024

-- `out[key] = value`
unfoldable pub set_field : Text → Json → Fields → Fields
set_field key value end = field key value end
set_field key value (field k v fs) =
    let rest = set_field key value fs in if same k key then field k value fs else field k v rest

-- A property is taken over where it fits.
grow : Fields → Fields → Fields
unfolding set_field
grow out end = out
grow out (field k v entries) =
    let next = set_field k v out in
    if leb (json_bytes (obj next)) metadata_limit then grow next entries else grow out entries

unfoldable pub drop_last : Fields → Fields
drop_last end = end
drop_last (field k v end) = end
drop_last (field k v (field j w fs)) = field k v (drop_last (field j w fs))

-- The `while` loop; each round takes one property away, so `fuel` is their number.
shrink : ℕ → Fields → Fields
unfolding drop_last
shrink zero out = out
shrink (suc fuel) out =
    let rest = shrink fuel (drop_last out) in
    if leb (json_bytes (obj out)) metadata_limit then out else rest

count_fields : Fields → ℕ
count_fields end = 0
count_fields (field k v fs) = suc (count_fields fs)

abbrev pub truncated : Fields
truncated = field (codes "truncated") (bool true) end

-- `parseModels` only gives it objects.
unfoldable pub sanitize_metadata : Fields → Fields
unfolding grow shrink count_fields
sanitize_metadata input =
    let filtered = filter_fields input in
    if leb (json_bytes (obj filtered)) metadata_limit
    then filtered
    else (let out = grow truncated filtered in shrink (count_fields out) out)

pub record ParsedModel : Type 0 where
  pub upstream_model : Text
  pub display_name : Text
  pub capabilities : Fields
  pub visibility : Text
  pub supported_in_api : Bool
  pub raw_metadata : Fields

-- The properties of `DiscoveryModelSchema`: absent, or of the type it asks for.
opt_name : Option Json → Result (Option Text)
opt_name none = ok none
opt_name (some (str s)) = if length s == 0 then err zod else ok (some s)
opt_name (some j) = err zod

opt_text : Option Json → Result (Option Text)
opt_text none = ok none
opt_text (some (str s)) = ok (some s)
opt_text (some j) = err zod

opt_record : Option Json → Result (Option Fields)
opt_record none = ok none
opt_record (some (obj fs)) = ok (some fs)
opt_record (some j) = err zod

opt_bool : Option Json → Result (Option Bool)
opt_bool none = ok none
opt_bool (some (bool b)) = ok (some b)
opt_bool (some j) = err zod

-- `a ?? b`
abbrev pub or_default {ℓ} : {A : Type ℓ} → Option A → A → A
or_default none b = b
or_default (some a) b = a

upstream_of : Option Text → Option Text → Option Text → Result Text
upstream_of (some slug) id name = ok slug
upstream_of none (some id) name = ok id
upstream_of none none (some name) = ok name
upstream_of none none none = err (api 502 "provider_model_missing_slug")

parse_fields : Fields → Result ParsedModel
unfolding opt_name opt_text opt_record opt_bool upstream_of
parse_fields fs = do
  slug ← opt_name (get (codes "slug") fs)
  id ← opt_name (get (codes "id") fs)
  name ← opt_name (get (codes "name") fs)
  display_name ← opt_name (get (codes "display_name") fs)
  capabilities ← opt_record (get (codes "capabilities") fs)
  visibility ← opt_text (get (codes "visibility") fs)
  supported ← opt_bool (get (codes "supported_in_api") fs)
  upstream ← upstream_of slug id name
  ok (record {
    upstream_model = upstream;
    display_name = or_default display_name upstream;
    capabilities = or_default capabilities end;
    visibility = or_default visibility (codes "unknown");
    supported_in_api = or_default supported false;
    raw_metadata = sanitize_metadata fs;
  })

parse_item : Json → Result ParsedModel
unfolding parse_fields
parse_item (obj fs) = parse_fields fs
parse_item j = err zod

parse_items : Items → Result (List ParsedModel)
unfolding parse_item
parse_items nil = ok []
parse_items (cons x xs) = do model ← parse_item x; models ← parse_items xs; ok (model ∷ models)

array_of : Option Json → Option Items
array_of (some (arr xs)) = some xs
array_of _ = none

-- `data.models`, else `data.data`, else `data` itself, where it is an array.
models_of : Json → Items
unfolding array_of
models_of (obj fs) =
    or_default (array_of (get (codes "models") fs))
      (or_default (array_of (get (codes "data") fs)) nil)
models_of (arr xs) = xs
models_of j = nil

unfoldable pub parse_models : Json → Result (List ParsedModel)
unfolding models_of parse_items
parse_models answer = parse_items (models_of answer)
