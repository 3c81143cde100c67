-- ===== src/Discovery/Metadata/Fitting.antt =====
-- On what `parseModels` of control-plane/lib/codex/operations.ts reads.
use papi.Common.{
  ℕ, zero, suc, ◌≤◌, ◌<◌, ◌≡◌, refl, List, Option, none, some, true, false, leb, length, All,
  Bool-cases, inl, inr, arith, leb→le, le→leb,
}
use papi.Common.Text.{Text, codes, contains}
use papi.Common.Json.{
  Json, null, bool, num, str, arr, obj, Items, nil, cons, Fields, end, field, get,
}
use papi.Common.Result.{ok, >>=-eq-ok}
use papi.Common.Stringify.{json_bytes}
use papi.Discovery.Secrets.{
  filter_fields, clean_json, clean_fields, filter_fields-clean, is_secret_key,
}
use papi.Discovery.Metadata.{
  metadata_limit, set_field, grow, shrink, count_fields, truncated, sanitize_metadata, ParsedModel,
  opt_name, opt_text, opt_record, opt_bool, upstream_of, parse_fields, parse_item, parse_items,
  models_of, parse_models, or_default,
}

abbrev pub IsFit : Fields → Type 0
IsFit fs = (json_bytes (obj fs) ≤ metadata_limit) × (clean_fields fs ≡ true)

set_field-clean :
    (key : Text) (value : Json) (fs : Fields)
    → is_secret_key key ≡ false
    → clean_json value ≡ true
    → clean_fields fs ≡ true
    → clean_fields (set_field key value fs) ≡ true
unfolding set_field clean_fields
set_field-clean key value end s v h = ground (arith, s, v)
set_field-clean key value (field k w fs) s v h = ground (arith, set_field-clean key value fs s v)

clean_fields-field :
    (k : Text) (v : Json) (fs : Fields)
    → clean_fields (field k v fs) ≡ true
    → (is_secret_key k ≡ false) × (clean_json v ≡ true) × (clean_fields fs ≡ true)
unfolding clean_fields
clean_fields-field k v fs h = ground arith

grow-IsFit :
    (out entries : Fields) → clean_fields entries ≡ true → IsFit out → IsFit (grow out entries)
unfolding grow
grow-IsFit out end h fit = fit
grow-IsFit out (field k v entries) h fit =
    let (s, c, d) = clean_fields-field k v entries h in
    elim (Bool-cases (leb (json_bytes (obj (set_field k v out))) metadata_limit)) [
      | inl b ↦ rw b (
          grow-IsFit (set_field k v out) entries d
            (leb→le _ _ b, set_field-clean k v out s c fit.1))
      | inr b ↦ rw b (grow-IsFit out entries d fit)
    ]

-- The loop has nothing to take away.
shrink_idle : (fuel : ℕ) (out : Fields) → IsFit out → shrink fuel out ≡ out
unfolding shrink
shrink_idle zero out fit = refl
shrink_idle (suc fuel) out fit = rw (le→leb (json_bytes (obj out)) metadata_limit fit.0) refl

truncated-IsFit : IsFit truncated
unfolding json_bytes clean_fields is_secret_key contains
truncated-IsFit = (omega arith, refl)

-- The metadata that `sanitizeMetadata` gives takes at most 32 KiB as JSON, and no property of it has
-- a secret key, at any depth.
pub sanitize_metadata-IsFit : (input : Fields) → IsFit (sanitize_metadata input)
unfolding sanitize_metadata
sanitize_metadata-IsFit input =
    elim (Bool-cases (leb (json_bytes (obj (filter_fields input))) metadata_limit)) [
      | inl b ↦ rw b (leb→le _ _ b, filter_fields-clean input)
      | inr b ↦
          let fit =
            grow-IsFit truncated (filter_fields input) (filter_fields-clean input)
              truncated-IsFit in
          rw (b, shrink_idle (count_fields (grow truncated (filter_fields input))) _ fit) fit
    ]

-- A model has a name, a name to show and fitting metadata.
abbrev pub IsModel : ParsedModel → Type 0
IsModel m = (0 < length m.upstream_model) × (0 < length m.display_name) × IsFit m.raw_metadata

opt_name-some : (j : Option Json) (s : Text) → opt_name j ≡ ok (some s) → 0 < length s
unfolding opt_name
opt_name-some none s h = cc
opt_name-some (some (str t)) s h = ground arith
opt_name-some (some null) s h = cc
opt_name-some (some (bool b)) s h = cc
opt_name-some (some (num n)) s h = cc
opt_name-some (some (arr xs)) s h = cc
opt_name-some (some (obj fs)) s h = cc

or_default-some :
    (j : Option Json) (o : Option Text) (d : Text)
    → opt_name j ≡ ok o
    → 0 < length d
    → 0 < length (or_default o d)
or_default-some j none d h k = k
or_default-some j (some s) d h k = opt_name-some j s h

upstream_of-some :
    (a b c : Option Json) (slug id name : Option Text) (s : Text)
    → opt_name a ≡ ok slug
    → opt_name b ≡ ok id
    → opt_name c ≡ ok name
    → upstream_of slug id name ≡ ok s
    → 0 < length s
unfolding upstream_of
upstream_of-some a b c (some slug) id name s p q r h =
    ground (arith, opt_name-some a s, opt_name-some a slug)
upstream_of-some a b c none (some id) name s p q r h =
    ground (arith, opt_name-some b s, opt_name-some b id)
upstream_of-some a b c none none (some name) s p q r h =
    ground (arith, opt_name-some c s, opt_name-some c name)
upstream_of-some a b c none none none s p q r h = cc

parse_fields-IsModel : (fs : Fields) (m : ParsedModel) → parse_fields fs ≡ ok m → IsModel m
unfolding parse_fields
parse_fields-IsModel fs m h =
    let (slug, e1, h1) = >>=-eq-ok (opt_name (get (codes "slug") fs)) _ h in
    let (id, e2, h2) = >>=-eq-ok (opt_name (get (codes "id") fs)) _ h1 in
    let (name, e3, h3) = >>=-eq-ok (opt_name (get (codes "name") fs)) _ h2 in
    let (display, e4, h4) = >>=-eq-ok (opt_name (get (codes "display_name") fs)) _ h3 in
    let (caps, e5, h5) = >>=-eq-ok (opt_record (get (codes "capabilities") fs)) _ h4 in
    let (vis, e6, h6) = >>=-eq-ok (opt_text (get (codes "visibility") fs)) _ h5 in
    let (sup, e7, h7) = >>=-eq-ok (opt_bool (get (codes "supported_in_api") fs)) _ h6 in
    let (up, e8, h8) = >>=-eq-ok (upstream_of slug id name) _ h7 in
    let some_name =
      upstream_of-some (get (codes "slug") fs) (get (codes "id") fs) (get (codes "name") fs) slug id
        name up e1 e2 e3 e8 in
    let shown = or_default-some (get (codes "display_name") fs) display up e4 some_name in
    let fit = sanitize_metadata-IsFit fs in ground (arith, some_name, shown, fit)

parse_item-IsModel : (j : Json) (m : ParsedModel) → parse_item j ≡ ok m → IsModel m
unfolding parse_item
parse_item-IsModel (obj fs) m h = parse_fields-IsModel fs m h
parse_item-IsModel null m h = cc
parse_item-IsModel (bool b) m h = cc
parse_item-IsModel (num n) m h = cc
parse_item-IsModel (str s) m h = cc
parse_item-IsModel (arr xs) m h = cc

parse_items-IsModel : (xs : Items) (ms : List ParsedModel) → parse_items xs ≡ ok ms → All IsModel ms
unfolding parse_items
parse_items-IsModel nil ms h = ground arith
parse_items-IsModel (cons x xs) ms h =
    let (m, e1, h1) = >>=-eq-ok (parse_item x) _ h in
    let (rest, e2, h2) = >>=-eq-ok (parse_items xs) _ h1 in
    ground (arith, parse_item-IsModel x m e1, parse_items-IsModel xs rest e2)

-- Every model that `parseModels` reads from a provider's answer has a non-empty name and a non-empty
-- display name, and its metadata is fitting: at most 32 KiB as JSON and, at any depth, without secret
-- keys.
pub parse_models-IsModel :
    (answer : Json) (ms : List ParsedModel) → parse_models answer ≡ ok ms → All IsModel ms
unfolding parse_models
parse_models-IsModel answer ms h = parse_items-IsModel (models_of answer) ms h
