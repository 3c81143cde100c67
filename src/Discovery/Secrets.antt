-- ===== src/Discovery/Secrets.antt =====
-- `filterSecretMetadata` of control-plane/lib/codex/operations.ts, on JSON values at any depth.
use papi.Common.{
  ℕ, ◌≡◌, refl, List, [], ◌∷◌, Bool, true, not, ◌&&◌, ◌||◌, if◌then◌else◌, leb, any, select,
  Bool-cases, inl, inr, arith, map,
}
use papi.Common.Text.{Text, codes, contains, is_digit, to_lower}
use papi.Common.Json.{Json, null, bool, num, str, arr, obj, Items, nil, cons, Fields, end, field}

abbrev pub secret_parts : List Text
secret_parts =
    codes "oauth"
    ∷ codes "token"
    ∷ codes "apikey"
    ∷ codes "authorization"
    ∷ codes "cookie"
    ∷ codes "clientsecret"
    ∷ codes "password"
    ∷ codes "privatekey"
    ∷ codes "secret"
    ∷ codes "credential"
    ∷ codes "bearer"
    ∷ codes "session"
    ∷ []

-- `[a-z0-9]` without regard to case.
abbrev pub is_alphanumeric : ℕ → Bool
is_alphanumeric c = (leb b'a' c && leb c b'z') || (leb b'A' c && leb c b'Z') || is_digit c

unfoldable pub is_secret_key : Text → Bool
is_secret_key key =
    let normalized = map to_lower (select is_alphanumeric key) in
    any (λ part. contains normalized part) secret_parts

unfoldable mutual
  pub filter_json : Json → Json
  filter_json null = null
  filter_json (bool b) = bool b
  filter_json (num n) = num n
  filter_json (str s) = str s
  filter_json (arr xs) = arr (filter_items xs)
  filter_json (obj fs) = obj (filter_fields fs)

  pub filter_items : Items → Items
  filter_items nil = nil
  filter_items (cons x xs) = cons (filter_json x) (filter_items xs)

  pub filter_fields : Fields → Fields
  filter_fields end = end
  filter_fields (field k v fs) =
      let rest = filter_fields fs in
      let kept = filter_json v in if is_secret_key k then rest else field k kept rest

-- No key is secret, at any depth.
unfoldable mutual
  pub clean_json : Json → Bool
  clean_json null = true
  clean_json (bool b) = true
  clean_json (num n) = true
  clean_json (str s) = true
  clean_json (arr xs) = clean_items xs
  clean_json (obj fs) = clean_fields fs

  pub clean_items : Items → Bool
  clean_items nil = true
  clean_items (cons x xs) = clean_json x && clean_items xs

  pub clean_fields : Fields → Bool
  clean_fields end = true
  clean_fields (field k v fs) = not (is_secret_key k) && clean_json v && clean_fields fs

mutual
  unfolding filter_json clean_json

  pub filter_json-clean : (j : Json) → clean_json (filter_json j) ≡ true
  filter_json-clean null = refl
  filter_json-clean (bool b) = refl
  filter_json-clean (num n) = refl
  filter_json-clean (str s) = refl
  filter_json-clean (arr xs) = filter_items-clean xs
  filter_json-clean (obj fs) = filter_fields-clean fs

  filter_items-clean : (xs : Items) → clean_items (filter_items xs) ≡ true
  filter_items-clean nil = refl
  filter_items-clean (cons x xs) = rw (filter_json-clean x) (filter_items-clean xs)

  pub filter_fields-clean : (fs : Fields) → clean_fields (filter_fields fs) ≡ true
  filter_fields-clean end = refl
  filter_fields-clean (field k v fs) = elim (Bool-cases (is_secret_key k)) [
    | inl s ↦ rw s (filter_fields-clean fs)
    | inr s ↦ rw (s, s, filter_json-clean v) (filter_fields-clean fs)
  ]

-- Filtering changes nothing in metadata without secret keys.
mutual
  unfolding filter_json clean_json

  pub filter_json-same : (j : Json) → clean_json j ≡ true → filter_json j ≡ j
  filter_json-same null h = refl
  filter_json-same (bool b) h = refl
  filter_json-same (num n) h = refl
  filter_json-same (str s) h = refl
  filter_json-same (arr xs) h = rw (filter_items-same xs h) refl
  filter_json-same (obj fs) h = rw (filter_fields-same fs h) refl

  filter_items-same : (xs : Items) → clean_items xs ≡ true → filter_items xs ≡ xs
  filter_items-same nil h = refl
  filter_items-same (cons x xs) h = ground (arith, filter_json-same x, filter_items-same xs)

  filter_fields-same : (fs : Fields) → clean_fields fs ≡ true → filter_fields fs ≡ fs
  filter_fields-same end h = refl
  filter_fields-same (field k v fs) h = ground (arith, filter_json-same v, filter_fields-same fs)

-- What `filterSecretMetadata` gives has no secret key at any depth, and filtering it again changes
-- nothing.
pub filter_json-settled :
    (j : Json) → (clean_json (filter_json j) ≡ true) × (filter_json (filter_json j) ≡ filter_json j)
filter_json-settled j =
    (filter_json-clean j, filter_json-same (filter_json j) (filter_json-clean j))
