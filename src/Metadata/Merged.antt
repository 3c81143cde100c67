-- ===== src/Metadata/Merged.antt =====
-- On the lists that mergeModelMetadata and normalizeModelMetadata of
-- control-plane/lib/model-metadata.ts give.
use papi.Common.{
  ℕ, ◌≡◌, refl, ◌∙◌, List, [], ◌∷◌, ◌++◌, Option, none, some, Bool, true, false, ◌||◌,
  if◌then◌else◌, ◌==◌, length, any, map, Bool-cases, inl, inr, arith,
}
use papi.Common.Text.{Text, same, same_iff, member, codes}
use papi.Common.Json.{Json, null, bool, num, str, arr, obj, Fields, end, field, get}
use papi.Common.Distinct.{distinct, distinct-append, member-append}
use papi.Metadata.{
  ModelMetadata, nonempty_list, push_tool, push_tools, push_alias, push_aliases, tool_alias,
  push_search, push_if, modality_tools, tools_of, is_written, explicit_tools, record_of,
  normalize_model_metadata, first_string_array,
}
use papi.Metadata.Merge.{add_new, add_groups, merge_string_array, merge_model_metadata}

-- No list stands for the empty one.
abbrev pub or_empty : Option (List Text) → List Text
or_empty none = []
or_empty (some ts) = ts

or_empty-nonempty_list : (ts : List Text) → or_empty (nonempty_list ts) ≡ ts
unfolding nonempty_list
or_empty-nonempty_list [] = refl
or_empty-nonempty_list (t ∷ ts) = refl

added-distinct :
    (item : Text) (out : List Text)
    → distinct out ≡ true
    → distinct (if member item out then out else out ++ item ∷ []) ≡ true
added-distinct item out d = elim (Bool-cases (member item out)) [
  | inl b ↦ rw b d
  | inr b ↦ rw b (distinct-append out item d b)
]

added-member :
    (t item : Text) (out : List Text)
    → member t (if member item out then out else out ++ item ∷ []) ≡ (same t item || member t out)
added-member t item out = elim (Bool-cases (member item out)) [
  | inl b ↦ rw b (ground (arith, b, same_iff t item, member-same t item))
  | inr b ↦ rw (b, member-append t out item) (ground (arith, same_iff t item, same_iff item t))
]
  where
    member-same : (s u : Text) → same s u ≡ true → member s out ≡ member u out
    member-same s u e = rw ((same_iff s u).0 e) refl

add_new-distinct :
    (items out : List Text) → distinct out ≡ true → distinct (add_new items out) ≡ true
unfolding add_new
add_new-distinct [] out d = d
add_new-distinct (item ∷ items) out d = add_new-distinct items _ (added-distinct item out d)

add_new-member :
    (t : Text) (items out : List Text)
    → member t (add_new items out) ≡ (member t items || member t out)
unfolding add_new member
add_new-member t [] out = refl
add_new-member t (item ∷ items) out =
    add_new-member t items (if member item out then out else out ++ item ∷ [])
    ∙ rw (added-member t item out) (ground (arith, same_iff t item, same_iff item t))

add_groups-distinct :
    (groups : List (Option (List Text))) (out : List Text)
    → distinct out ≡ true
    → distinct (add_groups groups out) ≡ true
unfolding add_groups
add_groups-distinct [] out d = d
add_groups-distinct (none ∷ groups) out d = add_groups-distinct groups out d
add_groups-distinct (some items ∷ groups) out d =
    add_groups-distinct groups (add_new items out) (add_new-distinct items out d)

-- A group has the text.
abbrev pub offers : Text → Option (List Text) → Bool
offers t group = member t (or_empty group)

add_groups-member :
    (t : Text) (groups : List (Option (List Text))) (out : List Text)
    → member t (add_groups groups out) ≡ (any (offers t) groups || member t out)
unfolding add_groups member
add_groups-member t [] out = refl
add_groups-member t (none ∷ groups) out = add_groups-member t groups out
add_groups-member t (some items ∷ groups) out =
    add_groups-member t groups (add_new items out) ∙ rw (add_new-member t items out) (ground arith)

member-nothing : (t : Text) (b : Bool) → (b || member t []) ≡ b
unfolding member
member-nothing t b = ground arith

-- A list that `mergeStringArray` gives has no text twice, and a text is in it exactly when it is in
-- one of the groups.
pub merge_string_array-member :
    (t : Text) (groups : List (Option (List Text)))
    → (distinct (or_empty (merge_string_array groups)) ≡ true)
      × (member t (or_empty (merge_string_array groups)) ≡ any (offers t) groups)
unfolding merge_string_array
merge_string_array-member t groups = rw (or_empty-nonempty_list (add_groups groups [])) (
  add_groups-distinct groups [] refl,
  add_groups-member t groups [] ∙ member-nothing t (any (offers t) groups),
)

push_tool-distinct :
    (name : Text) (tools : List Text)
    → distinct tools ≡ true
    → distinct (push_tool name tools) ≡ true
unfolding push_tool
push_tool-distinct name tools d = elim (Bool-cases (length name == 0)) [
  | inl b ↦ rw b d
  | inr b ↦ rw b (added-distinct name tools d)
]

push_tools-distinct :
    (names tools : List Text) → distinct tools ≡ true → distinct (push_tools names tools) ≡ true
unfolding push_tools
push_tools-distinct [] tools d = d
push_tools-distinct (name ∷ names) tools d =
    push_tools-distinct names (push_tool name tools) (push_tool-distinct name tools d)

push_alias-distinct :
    (name : Option Text) (value : Json) (tools : List Text)
    → distinct tools ≡ true
    → distinct (push_alias name value tools) ≡ true
unfolding push_alias
push_alias-distinct none value tools d = d
push_alias-distinct (some name) (bool true) tools d = push_tool-distinct name tools d
push_alias-distinct (some name) (bool false) tools d = d
push_alias-distinct (some name) null tools d = d
push_alias-distinct (some name) (num n) tools d = d
push_alias-distinct (some name) (str s) tools d = d
push_alias-distinct (some name) (arr xs) tools d = d
push_alias-distinct (some name) (obj fs) tools d = d

push_aliases-distinct :
    (fs : Fields) (tools : List Text)
    → distinct tools ≡ true
    → distinct (push_aliases fs tools) ≡ true
unfolding push_aliases
push_aliases-distinct end tools d = d
push_aliases-distinct (field key value fs) tools d =
    push_aliases-distinct fs _ (push_alias-distinct (tool_alias key) value tools d)

push_search-distinct :
    (value : Option Json) (tools : List Text)
    → distinct tools ≡ true
    → distinct (push_search value tools) ≡ true
unfolding push_search
push_search-distinct none tools d = d
push_search-distinct (some (str s)) tools d = elim (Bool-cases (is_written s)) [
  | inl b ↦ rw b (push_tool-distinct (codes "web_search") tools d)
  | inr b ↦ rw b d
]
push_search-distinct (some null) tools d = d
push_search-distinct (some (bool b)) tools d = d
push_search-distinct (some (num n)) tools d = d
push_search-distinct (some (arr xs)) tools d = d
push_search-distinct (some (obj fs)) tools d = d

push_if-distinct :
    (test : Bool) (name : Text) (tools : List Text)
    → distinct tools ≡ true
    → distinct (push_if test name tools) ≡ true
unfolding push_if
push_if-distinct true name tools d = push_tool-distinct name tools d
push_if-distinct false name tools d = d

modality_tools-distinct :
    (modalities : Option (List Text)) (tools : List Text)
    → distinct tools ≡ true
    → distinct (modality_tools modalities tools) ≡ true
unfolding modality_tools
modality_tools-distinct none tools d = d
modality_tools-distinct (some modalities) tools d =
    push_if-distinct (member (codes "audio") modalities) _ _
      (push_if-distinct (member (codes "image") modalities) _ tools d)

-- The tools of normalised metadata have no name twice.
pub tools_of-distinct :
    (root capabilities : Fields) (modalities : Option (List Text))
    → distinct (tools_of root capabilities modalities) ≡ true
unfolding tools_of
tools_of-distinct root capabilities modalities = modality_tools-distinct modalities _ (
    push_tools-distinct (explicit_tools root ++ explicit_tools capabilities) _ (
      push_search-distinct (get (codes "web_search_tool_type") capabilities) _ (
        push_aliases-distinct capabilities _ (
          push_search-distinct (get (codes "web_search_tool_type") root) _
            (push_aliases-distinct root [] refl)))))

any-map :
    (p : Option (List Text) → Bool) (f : ModelMetadata → Option (List Text))
    (items : List ModelMetadata)
    → any p (map f items) ≡ any (λ m. p (f m)) items
any-map p f [] = refl
any-map p f (m ∷ items) = ground (arith, any-map p f items)

-- A field of the merged metadata holds the texts of that field over the items, each once.
abbrev pub IsUnion :
    Text → (ModelMetadata → Option (List Text)) → List ModelMetadata → ModelMetadata → Type 0
IsUnion t f items merged =
    (distinct (or_empty (f merged)) ≡ true)
    × (member t (or_empty (f merged)) ≡ any (λ m. offers t (f m)) items)

union_lem :
    (t : Text) (f : ModelMetadata → Option (List Text)) (items : List ModelMetadata)
    → (distinct (or_empty (merge_string_array (map f items))) ≡ true)
      × (member t (or_empty (merge_string_array (map f items))) ≡ any (λ m. offers t (f m)) items)
union_lem t f items =
    let (d, m) = merge_string_array-member t (map f items) in (d, m ∙ any-map (offers t) f items)

-- In the metadata that `mergeModelMetadata` gives, the names of tools, the modalities and the plans
-- are those of the items: a text is there exactly when some item has it, and no text is there
-- twice.
pub merge_model_metadata-IsUnion :
    (date : Text → Option ℕ) (items : List ModelMetadata) (t : Text)
    → IsUnion t (λ m. m.tool_names) items (merge_model_metadata date items)
      × IsUnion t (λ m. m.input_modalities) items (merge_model_metadata date items)
      × IsUnion t (λ m. m.available_in_plans) items (merge_model_metadata date items)
unfolding merge_model_metadata
merge_model_metadata-IsUnion date items t = (
  union_lem t (λ m. m.tool_names) items,
  union_lem t (λ m. m.input_modalities) items,
  union_lem t (λ m. m.available_in_plans) items,
)

-- Normalised metadata names no tool twice, whatever the provider sent.
pub normalize_model_metadata-distinct :
    (read : Text → Option ℕ) (input : Option Json)
    → distinct (or_empty (normalize_model_metadata read input).tool_names) ≡ true
unfolding normalize_model_metadata
normalize_model_metadata-distinct read input =
    let root = record_of input in
    let capabilities = record_of (get (codes "capabilities") root) in
    let modalities = first_string_array (
      get (codes "input_modalities") root
      ∷ get (codes "modalities") root
      ∷ get (codes "input_modalities") capabilities
      ∷ []) in
    rw (or_empty-nonempty_list (tools_of root capabilities modalities))
      (tools_of-distinct root capabilities modalities)
