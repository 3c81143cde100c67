-- ===== src/Operators/Minted.antt =====
-- What a bearer token of control-plane/lib/jwt.ts holds: verifyJwt after signJwt, and after any text.
use papi.Common.{
  ℕ, ◌+◌, ◌/◌, ◌≡◌, refl, sym, ◌∙◌, ap, List, [], ◌∷◌, ◌++◌, Option, none, some, Bool, true, false,
  ◌&&◌, if◌then◌else◌, ltb, max, length, ◌==◌, ==_iff, arith, Bool-cases, inl, inr, &&_split,
}
use mathlib.Core.List.{append_assoc}
use papi.Common.Text.{Text, same, same_iff, has, split, join, prepend}
use papi.Common.Cut.{split-append, split-whole}
use papi.Common.Json.{Json, null, bool, num, str, arr, obj, Fields, get, truthy}
use papi.Common.Result.{ok, >>=-eq-ok}
use papi.Operators.Tokens.{
  Engine, header_json, payload_fields, b64u, sign_jwt, claims_pass, read_claims, is_hs256,
  verify_parts, verify_jwt,
}

-- `Buffer.from` and `JSON.parse` read back what was written of a value.
abbrev pub ReadsBack : Engine → Json → Type 0
ReadsBack engine j = engine.parse (engine.decode (b64u engine j)) ≡ some j

-- Base64url has no dots.
abbrev pub HasNoDots : Engine → Type 0
HasNoDots engine =
    ((s : Text) → has b'.' (engine.encode s) ≡ false)
    × ((k s : Text) → has b'.' (engine.mac k s) ≡ false)

abbrev pub is_within : ℕ → ℕ → ℕ → Bool
is_within now ttl later = ltb (later / 1000) (now / 1000 + max 1 ttl + 30)

payload-passes :
    (engine : Engine) (sub role : Text) (now ttl later : ℕ)
    → claims_pass engine later (payload_fields sub role (now / 1000) (now / 1000 + max 1 ttl))
      ≡ (ltb 0 (length sub) && is_within now ttl later)
unfolding claims_pass get same truthy
payload-passes engine sub role now ttl later = ground arith

split-three :
    (h p s : Text)
    → has b'.' h ≡ false
    → has b'.' p ≡ false
    → has b'.' s ≡ false
    → split b'.' ((h ++ b'.' ∷ p) ++ b'.' ∷ s) ≡ h ∷ p ∷ s ∷ []
split-three h p s a b c =
    ap (split b'.') (append_assoc h (b'.' ∷ p) (b'.' ∷ s))
    ∙ split-append b'.' h (p ++ b'.' ∷ s) a
    ∙ ap (λ t. h ∷ t) (split-append b'.' p s b ∙ ap (λ t. p ∷ t) (split-whole b'.' s c))

header-fits : is_hs256 (some header_json) ≡ ok true
unfolding is_hs256 get same
header-fits = refl

verify_parts-minted :
    (engine : Engine) (secret header payload : Text) (fs : Fields) (later : ℕ)
    → engine.parse (engine.decode header) ≡ some header_json
    → engine.parse (engine.decode payload) ≡ some (obj fs)
    → verify_parts engine secret later
        (header ∷ payload ∷ engine.mac secret (header ++ b'.' ∷ payload) ∷ [])
      ≡ ok (if claims_pass engine later fs then some fs else none)
unfolding verify_parts read_claims
verify_parts-minted engine secret header payload fs later a b =
    let sig = engine.mac secret (header ++ b'.' ∷ payload) in
    rw a (rw header-fits (rw ((same_iff sig sig).1 refl) (rw b refl)))

-- A token that `signJwt` made of a subject and a role, and that is read back as it was written, with
-- base64url that has no dots,
-- passes `verifyJwt` with the same secret exactly while its time to live and thirty seconds more are
-- not over and its subject is not empty; it then gives the claims that were signed.
pub sign_jwt-verify :
    (engine : Engine) (sub role secret : Text) (ttl now later : ℕ)
    → HasNoDots engine
    → ReadsBack engine header_json
    → ReadsBack engine (obj (payload_fields sub role (now / 1000) (now / 1000 + max 1 ttl)))
    → verify_jwt engine (sign_jwt engine sub role secret ttl now) secret later
      ≡ ok (
          if ltb 0 (length sub) && is_within now ttl later
          then some (payload_fields sub role (now / 1000) (now / 1000 + max 1 ttl))
          else none)
unfolding verify_jwt sign_jwt b64u
sign_jwt-verify engine sub role secret ttl now later (plain, marked) head body =
    let fs = payload_fields sub role (now / 1000) (now / 1000 + max 1 ttl) in
    ap (verify_parts engine secret later) (split-three _ _ _ (plain _) (plain _) (marked _ _))
    ∙ verify_parts-minted engine secret _ _ fs later head body
    ∙ ap (λ b. ok (if b then some fs else none)) (payload-passes engine sub role now ttl later)

split-cons : (c : ℕ) (s : Text) → (t : Text) × (ts : List Text) × (split c s ≡ t ∷ ts)
unfolding split
split-cons c [] = ([], [], refl)
split-cons c (x ∷ s) = elim (Bool-cases (x == c)) [
  | inl hit ↦ ([], split c s, rw hit refl)
  | inr other ↦ (let (t, ts, e) = split-cons c s in (x ∷ t, ts, rw other (ap (prepend x) e)))
]

join-prepend : (c x : ℕ) (s : Text) (ss : List Text) → join c ((x ∷ s) ∷ ss) ≡ x ∷ join c (s ∷ ss)
unfolding join
join-prepend c x s [] = refl
join-prepend c x s (t ∷ ss) = refl

join-split : (c : ℕ) (s : Text) → join c (split c s) ≡ s
unfolding split join
join-split c [] = refl
join-split c (x ∷ s) =
    let (t, ts, e) = split-cons c s in
    elim (Bool-cases (x == c)) [
      | inl hit ↦ rw hit (
          rw e (
            ap (λ r. c ∷ r) (ap (join c) (sym e) ∙ join-split c s)
            ∙ ap (λ y. y ∷ s) (sym ((==_iff x c).0 hit))))
      | inr other ↦
          rw other
            (rw e (join-prepend c x t ts ∙ ap (λ r. x ∷ r) (ap (join c) (sym e) ∙ join-split c s)))
    ]

-- What the header and the payload say, and who signed them.
pub record IsSigned (engine : Engine) (secret : Text) (now : ℕ) (token : Text) (fs : Fields)
    : Type 0 where
  pub header : Text
  pub payload : Text
  pub written :
      token ≡ header ++ b'.' ∷ (payload ++ b'.' ∷ engine.mac secret (header ++ b'.' ∷ payload))
  pub algorithm : is_hs256 (engine.parse (engine.decode header)) ≡ ok true
  pub claims : engine.parse (engine.decode payload) ≡ some (obj fs)
  pub passes : claims_pass engine now fs ≡ true

read_claims-some :
    (engine : Engine) (now : ℕ) (read : Option Json) (fs : Fields)
    → read_claims engine now read ≡ ok (some fs)
    → (read ≡ some (obj fs)) × (claims_pass engine now fs ≡ true)
unfolding read_claims
read_claims-some engine now none fs e = absurd (ground arith)
read_claims-some engine now (some null) fs e = absurd (ground arith)
read_claims-some engine now (some (bool b)) fs e = absurd (ground arith)
read_claims-some engine now (some (num n)) fs e = absurd (ground arith)
read_claims-some engine now (some (str s)) fs e = absurd (ground arith)
read_claims-some engine now (some (arr xs)) fs e = absurd (ground arith)
read_claims-some engine now (some (obj gs)) fs e = elim (Bool-cases (claims_pass engine now gs)) [
  | inl pass ↦
      (let q : ok (some gs) ≡ ok (some fs) = rw pass at e in
        let r : gs ≡ fs = cc in (rw r refl, rw (← r) pass))
  | inr fail ↦ (let q : ok none ≡ ok (some fs) = rw fail at e in absurd (ground arith))
]

verify_parts_sound :
    (engine : Engine) (secret token : Text) (now : ℕ) (parts : List Text) (fs : Fields)
    → token ≡ join b'.' parts
    → verify_parts engine secret now parts ≡ ok (some fs)
    → IsSigned engine secret now token fs
unfolding verify_parts join
verify_parts_sound engine secret token now (h ∷ p ∷ s ∷ []) fs w e =
    let (fits, known, e1) = >>=-eq-ok (is_hs256 (engine.parse (engine.decode h))) _ e in
    let sig = engine.mac secret (h ++ b'.' ∷ p) in
    elim (Bool-cases (fits && same s sig)) [
      | inl both ↦
          (let (is_fit, is_same) = &&_split fits (same s sig) both in
            let q : read_claims engine now (engine.parse (engine.decode p)) ≡ ok (some fs) =
              rw both at e1 in
            let (parsed, pass) =
              read_claims-some engine now (engine.parse (engine.decode p)) fs q in
            record {
              header = h;
              payload = p;
              written = w ∙ ap (λ t. h ++ b'.' ∷ (p ++ b'.' ∷ t)) ((same_iff s sig).0 is_same);
              algorithm = known ∙ ap ok is_fit;
              claims = parsed;
              passes = pass;
            })
      | inr not_both ↦ (let q : ok none ≡ ok (some fs) = rw not_both at e1 in absurd (ground arith))
    ]
verify_parts_sound engine secret token now [] fs w e = absurd (ground arith)
verify_parts_sound engine secret token now (h ∷ []) fs w e = absurd (ground arith)
verify_parts_sound engine secret token now (h ∷ p ∷ []) fs w e = absurd (ground arith)
verify_parts_sound engine secret token now (h ∷ p ∷ s ∷ t ∷ ts) fs w e = absurd (ground arith)

-- A token that `verifyJwt` accepts is a header and a payload with their MAC under the secret; the
-- header names HS256, and the payload holds the claims that are given, which pass the checks.
pub verify_jwt_sound :
    (engine : Engine) (token secret : Text) (now : ℕ) (fs : Fields)
    → verify_jwt engine token secret now ≡ ok (some fs)
    → IsSigned engine secret now token fs
unfolding verify_jwt
verify_jwt_sound engine token secret now fs e =
    verify_parts_sound engine secret token now (split b'.' token) fs (sym (join-split b'.' token)) e
