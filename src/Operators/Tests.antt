-- ===== src/Operators/Tests.antt =====
-- An operator who mints a token, and a license that is kept.
use papi.Common.{
  ℕ, suc, zero, ◌+◌, ◌-◌, ◌≡◌, refl, String, List, [], ◌∷◌, ◌++◌, Option, none, some, Bool, true,
  false, map, any, if◌then◌else◌, arith, ltb, ◌⊎◌, inl, inr, length, Memᴰ,
}
use papi.Common.Number.{nan, num as amount}
use papi.Common.Text.{Text, codes, same, has, is_space}
use papi.Common.Json.{Json, str, num, obj, arr, nil, cons, Fields, end, field}
use papi.Common.Stringify.{stringify}
use papi.Common.Result.{ok, err, api, plain}
use papi.Accounts.Directory.{User, Directory}
use papi.Accounts.Sessions.{resolve_session}
use papi.Operators.Tokens.{Engine, header_json, sign_jwt, verify_jwt, bearer_from}
use papi.Operators.Editions.{
  Edition, oss, cloud, ent, Resolved, nothing, known_features, Signatures, validate_license, Moment,
  resolve,
}
use papi.Operators.Gate.{
  Request, session_cookie, Outside, Operator, signed_in, require_operator, token_ttl, token_core,
}
use papi.Operators.Minted.{HasNoDots, ReadsBack, is_within}
use papi.Operators.Admitted.{ByToken, BySession, require_operator_sound}
use papi.Operators.Opened.{HasNoSpaces, bearer_of, at_later, payload_of, token_core-opens}
use papi.Operators.Licensed.{IsLicense, validate_license_sound}
use papi.Operators.Kept.{start, call, Grounds, resolve_sound}
use papi.Operators.Lasting.{after_moments, resolve-outlives}

abbrev shift : Text → Text
shift [] = []
shift (c ∷ s) = (c + 65536) ∷ shift s

abbrev back : Text → Text
back [] = []
back (c ∷ s) = (c - 65536) ∷ back s

shift-has : (s : Text) → has b'.' (shift s) ≡ false
unfolding has
shift-has [] = refl
shift-has (c ∷ s) = ground (arith, shift-has s)

shift-spaces : (s : Text) → any is_space (shift s) ≡ false
shift-spaces [] = refl
shift-spaces (c ∷ s) = ground (arith, shift-spaces s)

abbrev ada : User
ada = record {
  id = "ada";
  email = "ada@example.com";
  password_hash = "hash";
  platform_role = "operator";
  disabled = false;
  email_verified = true;
}

abbrev license_payload : Json
license_payload = obj (
    field (codes "ed") (str (codes "ent"))
      (field (codes "f") (arr (cons (str (codes "sso")) nil)) (field (codes "exp") (num 2000) end)))

-- An engine that reads the three texts of these tests.
abbrev engine : Engine
engine = record {
  encode = shift;
  decode = back;
  parse = λ s.
      if same s (stringify header_json)
      then some header_json
      else if same s (stringify (obj (payload_of ada 5000000 60)))
      then some (obj (payload_of ada 5000000 60))
      else if same s (stringify license_payload)
      then some license_payload
      else none;
  number = λ s. nan;
  shown = λ j. codes "[object Object]";
  mac = λ k s. shift s;
}

no_dots : HasNoDots engine
no_dots = (shift-has, (λ k s. shift-has s))

no_spaces : HasNoSpaces engine
no_spaces = (shift-spaces, (λ k s. shift-spaces s))

abbrev desk : Outside
desk = record {
  engine = engine;
  master_key = codes "master";
  hash_token = λ s. s;
  written = λ s. "cookie";
  now = 5000000;
}

abbrev office : Directory
office = record {
  users = ada ∷ [];
  tokens = [];
  sessions = record { user_id = "ada"; token_hash = "cookie"; expires_at = 9000000 } ∷ [];
  members = [];
  ledger = record {
    events = [];
    next_id = 1;
    attempts = [];
    spend = [];
    keys = [];
    teams = [];
    credits = [];
    audits = [];
  };
}

abbrev with_cookie : Request
with_cookie = record {
  authorization = none;
  cookie = some (codes "theme=dark;  papi_session=cookie; lang=en");
}

reads_cookie : session_cookie with_cookie.cookie ≡ some (codes "cookie")
unfolding session_cookie papi.Common.Text.starts_with papi.Common.Text.trim_start
    papi.Operators.Tokens.or_null
reads_cookie = refl

reads_bearer : bearer_from (some (codes "bearer   abc ")) ≡ some (codes "abc")
unfolding bearer_from papi.Common.Text.starts_with papi.Common.Text.trim
reads_bearer = refl

knows_ada : (signed_in desk with_cookie office).0 ≡ some ada
unfolding signed_in session_cookie resolve_session papi.Operators.Gate.resolve_cookie
    papi.Common.Text.starts_with papi.Common.Text.trim_start papi.Operators.Tokens.or_null
knows_ada = refl

-- The cookie of an operator opens the gate now, and a token that it mints opens it 89 seconds later,
-- when no session is left.
by_session :
    (require_operator desk ent with_cookie office).0
    ≡ ok (record { id = str (codes "ada"); email = codes "ada@example.com" })
unfolding require_operator signed_in session_cookie resolve_session bearer_from
    papi.Operators.Gate.resolve_cookie papi.Common.Text.starts_with papi.Common.Text.trim_start
by_session = refl

require_operator_sound_example :
    ByToken desk with_cookie (record { id = str (codes "ada"); email = codes "ada@example.com" })
    ⊎ BySession desk with_cookie office
        (record { id = str (codes "ada"); email = codes "ada@example.com" })
unfolding papi.Operators.Editions.is_hosted
require_operator_sound_example =
    require_operator_sound desk ent with_cookie office
      (record { id = str (codes "ada"); email = codes "ada@example.com" }) refl by_session

abbrev hosted_edition : Resolved
hosted_edition = record { edition = cloud; features = known_features }

reads_header : ReadsBack engine header_json
unfolding stringify same papi.Operators.Tokens.b64u
reads_header = refl

reads_payload : ReadsBack engine (obj (payload_of ada 5000000 60))
unfolding stringify same papi.Operators.Tokens.b64u papi.Common.Cut.print
reads_payload = refl

token_core-opens_example :
    (token : Text) × ((token_core desk hosted_edition (amount 60) with_cookie office).0
      ≡ ok (token, token_ttl (amount 60)))
    × ((require_operator
          (at_later desk 5089000)
          ent
          (record { authorization = some (codes "Bearer " ++ token); cookie = none })
          (record office { sessions = [] })).0
        ≡ (if is_within 5000000 (token_ttl (amount 60)) 5089000
            then ok (bearer_of ada)
            else err (api 401 "operator_session_required")))
unfolding token_ttl papi.Operators.Editions.is_hosted
token_core-opens_example =
    token_core-opens desk hosted_edition (amount 60) with_cookie office ada 5089000 ent none
      (record office { sessions = [] }) no_dots no_spaces reads_header reads_payload refl knows_ada
      refl (omega arith) refl

-- A signature is its message under `shift`; 32 zeros are the key.
abbrev zeros : ℕ → List ℕ
zeros zero = []
zeros (suc n) = 0 ∷ zeros n

abbrev sigs : Signatures
sigs = record {
  from_hex = λ s. zeros 32;
  from_base64url = λ s. s;
  is_key = λ k. true;
  verify = λ key message sig. some (same sig (shift message));
}

abbrev license_text : Text
license_text =
    codes "ent:"
    ++ shift (stringify license_payload)
    ++ b'.' ∷ shift (codes "ent." ++ shift (stringify license_payload))

abbrev sso_only : Resolved
sso_only = record { edition = ent; features = codes "sso" ∷ [] }

validates : validate_license engine sigs license_text (codes "00") 1999000 ≡ ok sso_only
unfolding validate_license stringify same papi.Common.Cut.cut_first papi.Common.Text.trim
    papi.Common.Cut.print papi.Common.Cut.cut_last papi.Common.Json.member_of
    papi.Common.Text.member papi.Common.Json.truthy
validates = refl

validate_license_sound_example : IsLicense engine sigs license_text (codes "00") 1999000 sso_only
validate_license_sound_example =
    validate_license_sound engine sigs license_text (codes "00") 1999000 sso_only validates

abbrev monday : Moment
monday = record {
  edition_env = none;
  pubkey_env = some (codes "00");
  modified = some 7;
  text = some license_text;
  now = 1999000;
}

abbrev tuesday : Moment
tuesday = record monday { now = 88399000 }

resolve_sound_example :
    Grounds engine sigs tuesday
      (monday ∷ [])
      (resolve engine sigs tuesday (resolve engine sigs monday none).1).0
resolve_sound_example =
    resolve_sound engine sigs (monday ∷ []) (resolve engine sigs monday none).1 tuesday
      (call monday start)

-- The file is away for a while, and back.
abbrev away : Moment
away = record monday { modified = none; text = none; now = 2000000 }

resolve-outlives_example :
    (resolve engine sigs tuesday
      (after_moments engine sigs (resolve engine sigs monday none).1 (monday ∷ away ∷ []))).0
    ≡ (resolve engine sigs monday none).0
unfolding papi.Operators.Editions.env_edition papi.Common.Text.trim
resolve-outlives_example =
    resolve-outlives engine sigs none monday (monday ∷ away ∷ []) tuesday 7 refl refl
      (inl refl, (inr refl, tt)) refl refl

-- On tuesday the license is over, when it is read anew.
over_on_tuesday :
    validate_license engine sigs license_text (codes "00") tuesday.now
    ≡ err (plain "license expired")
unfolding validate_license stringify same papi.Common.Cut.cut_first papi.Common.Text.trim
    papi.Common.Cut.print papi.Common.Cut.cut_last papi.Common.Json.member_of
    papi.Common.Text.member papi.Common.Json.truthy
over_on_tuesday = refl
