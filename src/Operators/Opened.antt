-- ===== src/Operators/Opened.antt =====
-- A bearer token from tokenCore of control-plane/lib/cloud-auth.ts, sent to requireOperator of
-- control-plane/lib/edition.ts.
use papi.Common.{
  ℕ, ◌+◌, ◌/◌, ◌≡◌, ◌<◌, refl, ◌∙◌, ap, [], ◌∷◌, ◌++◌, Option, none, some, Bool, true, false, ◌&&◌,
  if◌then◌else◌, ltb, max, length, any, any-append, arith, str_eq_iff, lt→ltb,
}
use mathlib.Core.List.{reverse, reverse-cons, reverse-reverse}
use papi.Common.Number.{Number}
use papi.Common.Text.{Text, codes, same, starts_with, is_space, trim_start, trim}
use papi.Common.Json.{str, obj, Fields, get}
use papi.Common.Result.{ok, err, api}
use papi.Accounts.Directory.{User, Directory}
use papi.Operators.Tokens.{
  Engine, header_json, payload_fields, b64u, sign_jwt, is_text, verify_jwt, or_null, has_bearer,
  bearer_from,
}
use papi.Operators.Editions.{Edition, oss, cloud, ent, Resolved, is_hosted, require_hosted}
use papi.Operators.Gate.{
  Request, Outside, Operator, is_operator_claim, claimed, subject_of, from_claims,
  operator_by_token, signed_in, gate_hosted, require_operator, token_ttl, mint, token_core,
}
use papi.Operators.Minted.{ReadsBack, HasNoDots, is_within, sign_jwt-verify}

-- Base64url has no white space.
abbrev pub HasNoSpaces : Engine → Type 0
HasNoSpaces engine =
    ((s : Text) → any is_space (engine.encode s) ≡ false)
    × ((k s : Text) → any is_space (engine.mac k s) ≡ false)

any-reverse : (s : Text) → any is_space (reverse s) ≡ any is_space s
any-reverse [] = refl
any-reverse (c ∷ s) =
    ap (any is_space) (reverse-cons c s)
    ∙ any-append is_space (reverse s) (c ∷ [])
    ∙ ground (arith, any-reverse s)

trim_start-whole : (s : Text) → any is_space s ≡ false → trim_start s ≡ s
unfolding trim_start
trim_start-whole [] h = refl
trim_start-whole (c ∷ s) h = ground arith

trim-whole : (s : Text) → any is_space s ≡ false → trim s ≡ s
unfolding trim
trim-whole s h =
    ap (λ t. reverse (trim_start (reverse t))) (trim_start-whole s h)
    ∙ ap reverse (trim_start-whole (reverse s) (any-reverse s ∙ h))
    ∙ reverse-reverse s

trim-space : (s : Text) → trim (32 ∷ s) ≡ trim s
unfolding trim trim_start
trim-space s = refl

bearer_from-sent :
    (s : Text)
    → 0 < length s
    → any is_space s ≡ false
    → bearer_from (some (codes "Bearer " ++ s)) ≡ some s
unfolding bearer_from has_bearer starts_with or_null
bearer_from-sent [] full h = absurd (omega arith)
bearer_from-sent (c ∷ s) full h = ap or_null (trim-space (c ∷ s) ∙ trim-whole (c ∷ s) h)

sign_jwt-spaceless :
    (engine : Engine) (sub role secret : Text) (ttl now : ℕ)
    → HasNoSpaces engine
    → any is_space (sign_jwt engine sub role secret ttl now) ≡ false
unfolding sign_jwt b64u
sign_jwt-spaceless engine sub role secret ttl now (plain, marked) =
    let header = b64u engine header_json in
    let payload =
      b64u engine (obj (payload_fields sub role (now / 1000) (now / 1000 + max 1 ttl))) in
    three header payload (engine.mac secret (header ++ b'.' ∷ payload)) (plain _) (plain _)
      (marked secret _)
  where
    three :
        (h p s : Text)
        → any is_space h ≡ false
        → any is_space p ≡ false
        → any is_space s ≡ false
        → any is_space ((h ++ b'.' ∷ p) ++ b'.' ∷ s) ≡ false
    three h p s a b c =
        ground
          (arith, any-append is_space (h ++ b'.' ∷ p) (b'.' ∷ s), any-append is_space h (b'.' ∷ p))

sign_jwt-filled :
    (engine : Engine) (sub role secret : Text) (ttl now : ℕ)
    → 0 < length (sign_jwt engine sub role secret ttl now)
unfolding sign_jwt
sign_jwt-filled engine sub role secret ttl now = longer _ _
  where
    longer : (s t : Text) → 0 < length (s ++ b'.' ∷ t)
    longer [] t = omega arith
    longer (c ∷ s) t = omega arith

-- Who a minted token stands for.
abbrev pub bearer_of : User → Operator
bearer_of u = record { id = str (codes u.id); email = codes "operator:" ++ codes u.id }

abbrev pub at_later : Outside → ℕ → Outside
at_later o later = record o { now = later }

operator_by_token-minted :
    (o : Outside) (u : User) (later : ℕ) (inside : Bool) (fs : Fields) (token : Text)
    → verify_jwt o.engine token o.master_key later ≡ ok (if inside then some fs else none)
    → is_text (get (codes "role") fs) (codes "operator") ≡ true
    → get (codes "sub") fs ≡ some (str (codes u.id))
    → operator_by_token (at_later o later) token
      ≡ (if inside then ok (bearer_of u) else err (api 401 "operator_session_required"))
unfolding operator_by_token claimed from_claims subject_of is_operator_claim
operator_by_token-minted o u later true fs token e role sub = rw e (rw role (rw sub refl))
operator_by_token-minted o u later false fs token e role sub = rw e refl

require_operator-bearer :
    (o : Outside) (edition : Edition) (req : Request) (bearer : Text) (d : Directory)
    → is_hosted edition ≡ true
    → bearer_from req.authorization ≡ some bearer
    → (require_operator o edition req d).0 ≡ operator_by_token o bearer
unfolding require_operator is_hosted gate_hosted
require_operator-bearer o oss req bearer d hosted sent = absurd (ground arith)
require_operator-bearer o cloud req bearer d hosted sent = rw sent refl
require_operator-bearer o ent req bearer d hosted sent = rw sent refl

-- The payload of a token for the user.
abbrev pub payload_of : User → ℕ → ℕ → Fields
payload_of u now ttl =
    payload_fields (codes u.id) (codes "operator") (now / 1000) (now / 1000 + max 1 ttl)

payload_of-role :
    (u : User) (now ttl : ℕ)
    → is_text (get (codes "role") (payload_of u now ttl)) (codes "operator") ≡ true
unfolding is_text get same
payload_of-role u now ttl = refl

payload_of-sub :
    (u : User) (now ttl : ℕ) → get (codes "sub") (payload_of u now ttl) ≡ some (str (codes u.id))
unfolding get same
payload_of-sub u now ttl = refl

token_core-hosted :
    (o : Outside) (resolved : Resolved) (ttl : Number) (req : Request) (d : Directory)
    → is_hosted resolved.edition ≡ true
    → (token_core o resolved ttl req d).0 ≡ mint o ttl (signed_in o req d).0
unfolding token_core require_hosted
token_core-hosted o resolved ttl req d hosted = rw (hosted, token_core, require_hosted) refl

mint-operator :
    (o : Outside) (ttl : Number) (u : User)
    → u.platform_role ≡ "operator"
    → mint o ttl (some u)
      ≡ ok (
        sign_jwt o.engine (codes u.id) (codes "operator") o.master_key (token_ttl ttl) o.now,
        token_ttl ttl,
      )
unfolding mint
mint-operator o ttl u role = rw ((str_eq_iff u.platform_role "operator").1 role) refl

-- On a hosted edition, a user who is signed in as an operator, with an id that is not empty, gets a
-- token from `tokenCore`, with its time to live. Sent as a bearer token, it passes `requireOperator`
-- on a hosted edition exactly while that time and thirty seconds more are not over, and stands for
-- the user, whatever the tables then hold. The engine's base64url has neither dots nor white space,
-- and the token's header and payload are read back as they were written.
pub token_core-opens :
    (o : Outside) (resolved : Resolved) (ttl : Number) (req : Request) (d : Directory) (u : User)
    (later : ℕ) (edition : Edition) (cookie : Option Text) (d' : Directory)
    → HasNoDots o.engine
    → HasNoSpaces o.engine
    → ReadsBack o.engine header_json
    → ReadsBack o.engine (obj (payload_of u o.now (token_ttl ttl)))
    → is_hosted resolved.edition ≡ true
    → (signed_in o req d).0 ≡ some u
    → u.platform_role ≡ "operator"
    → 0 < length (codes u.id)
    → is_hosted edition ≡ true
    → (token : Text) × ((token_core o resolved ttl req d).0 ≡ ok (token, token_ttl ttl))
      × ((require_operator
            (at_later o later)
            edition
            (record { authorization = some (codes "Bearer " ++ token); cookie = cookie })
            d').0
          ≡ (if is_within o.now (token_ttl ttl) later
              then ok (bearer_of u)
              else err (api 401 "operator_session_required")))
token_core-opens o resolved ttl req d u later edition cookie d' dots spaces head body hosted who
      role named gate =
    let token =
      sign_jwt o.engine (codes u.id) (codes "operator") o.master_key (token_ttl ttl) o.now in
    let given : ltb 0 (length (codes u.id)) ≡ true = lt→ltb _ _ named in
    let inside = is_within o.now (token_ttl ttl) later in
    let verified : verify_jwt o.engine token o.master_key later
        ≡ ok (if inside then some (payload_of u o.now (token_ttl ttl)) else none) =
      sign_jwt-verify o.engine (codes u.id) (codes "operator") o.master_key (token_ttl ttl) o.now
        later dots head body
      ∙ ap (λ b. ok (if b && inside then some (payload_of u o.now (token_ttl ttl)) else none))
          given in
    let sent =
      bearer_from-sent token (sign_jwt-filled o.engine _ _ _ _ _)
        (sign_jwt-spaceless o.engine _ _ _ _ _ spaces) in
    (
      token,
      token_core-hosted o resolved ttl req d hosted
          ∙ ap (mint o ttl) who
          ∙ mint-operator o ttl u role,
      require_operator-bearer (at_later o later) edition _ token d' gate sent
          ∙ operator_by_token-minted o u later inside _ token verified
              (payload_of-role u o.now (token_ttl ttl)) (payload_of-sub u o.now (token_ttl ttl)),
    )
