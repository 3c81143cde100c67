-- ===== src/Operators/Licensed.antt =====
-- What an edition of control-plane/lib/edition.ts rests on: a license that was valid when it was read,
-- or the environment.
use papi.Common.{
  ℕ, ◌/◌, ◌<◌, ◌≤◌, ◌≡◌, refl, sym, ◌∙◌, ap, subst, List, [], ◌∷◌, ◌++◌, Option, none, some, Bool,
  true, false, not, length, All, Memᴰ, Bool-cases, ◌⊎◌, inl, inr, arith,
}
use papi.Common.Text.{Text, codes, member, has, same, same_iff, trim}
use papi.Common.Json.{
  Json, null, bool, num, str, arr, obj, Items, nil, cons, Fields, get, member_of,
}
use papi.Common.Result.{ok, >>=-eq-ok, guard-eq-ok, or_throw-eq-ok}
use papi.Operators.Tokens.{Engine, is_text}
use papi.Operators.Editions.{
  Edition, cloud, ent, known_features, Resolved, Signatures, public_key_from_hex, license_parts,
  edition_of, is_expired, is_early, known_items, features_of, signed, validate_license,
}
use papi.Operators.Written.{
  license_parts-joins, public_key-size, signed-verifies, agrees-read, unexpired-num, begun-num,
  member_of-obj,
}

-- The features as the JSON list that names them.
abbrev pub texts : List Text → Items
texts [] = nil
texts (t ∷ ts) = cons (str t) (texts ts)

-- The editions that a license may be for, by their names.
pub data Names : Text → Edition → Type 0 where
  names_cloud : Names (codes "cloud") cloud
  names_ent : Names (codes "ent") ent

-- A license text: `prefix:payload.signature`, of which the key of 32 bytes signed `prefix.payload`,
-- with a payload that is JSON, names the same edition and is neither over nor to come by its
-- numbers, in seconds.
pub record IsLicense (engine : Engine) (sigs : Signatures) (text hex : Text) (now : ℕ)
    (r : Resolved) : Type 0 where
  pub prefix : Text
  pub payload : Text
  pub sig : Text
  pub fields : Fields
  pub edition : Names prefix r.edition
  pub written : trim text ≡ prefix ++ b':' ∷ (payload ++ b'.' ∷ sig)
  pub last_dot : has b'.' sig ≡ false
  pub filled : (0 < length payload) × (0 < length sig)
  pub key_size : length (sigs.from_hex (trim hex)) ≡ 32
  pub is_signed :
      sigs.verify (sigs.from_hex (trim hex)) (prefix ++ b'.' ∷ payload) (sigs.from_base64url sig)
      ≡ some true
  pub read : engine.parse (engine.decode payload) ≡ some (obj fields)
  pub agrees : get (codes "ed") fields ≡ some (str prefix)
  pub listed : (r.features ≡ []) ⊎ (get (codes "f") fields ≡ some (arr (texts r.features)))
  pub features : All (λ f. Memᴰ f known_features) r.features
  pub unexpired : (exp : ℕ) → get (codes "exp") fields ≡ some (num exp) → 0 < exp → now / 1000 < exp
  pub begun : (nbf : ℕ) → get (codes "nbf") fields ≡ some (num nbf) → nbf ≤ now / 1000

edition_of-Names : (s : Text) (e : Edition) → edition_of s ≡ some e → Names s e
unfolding edition_of
edition_of-Names s e h = elim (Bool-cases (same s (codes "cloud"))) [
  | inl is_cloud ↦
      let q : cloud ≡ e = ground (arith, is_cloud, h) in
      let at : s ≡ codes "cloud" = (same_iff s (codes "cloud")).0 is_cloud in
      rw (at, ← q) names_cloud
  | inr other ↦ elim (Bool-cases (same s (codes "ent"))) [
    | inl is_ent ↦
        let q : ent ≡ e = ground (arith, other, is_ent, h) in
        let at : s ≡ codes "ent" = (same_iff s (codes "ent")).0 is_ent in rw (at, ← q) names_ent
    | inr neither ↦ absurd (ground (arith, other, neither, h))
  ]
]

member-Mem : (s : Text) (ts : List Text) → member s ts ≡ true → Memᴰ s ts
unfolding member
member-Mem s [] e = absurd (ground arith)
member-Mem s (t ∷ ts) e = elim (Bool-cases (same t s)) [
  | inl here ↦ Memᴰ.head (sym ((same_iff t s).0 here))
  | inr away ↦ Memᴰ.tail (member-Mem s ts (ground (arith, away, e)))
]

AreKnown : List Text → Type 0
AreKnown features = All (λ f. Memᴰ f known_features) features

known_items_sound :
    (xs : Items) (features : List Text)
    → known_items xs ≡ ok features
    → (xs ≡ texts features) × AreKnown features
unfolding known_items AreKnown
known_items_sound nil features e = (let q : [] ≡ features = cc in rw (← q) (refl, tt))
known_items_sound (cons (str f) xs) features e =
    let (is_known, e1) = guard-eq-ok (member f known_features) _ _ e in
    let (rest, there, e2) = >>=-eq-ok (known_items xs) _ e1 in
    let (whole, all_known) = known_items_sound xs rest there in
    (let q : f ∷ rest ≡ features = cc in
      rw (← q) (ap (cons (str f)) whole, (member-Mem f known_features is_known, all_known)))
known_items_sound (cons null xs) features e = absurd (ground arith)
known_items_sound (cons (bool b) xs) features e = absurd (ground arith)
known_items_sound (cons (num n) xs) features e = absurd (ground arith)
known_items_sound (cons (arr ys) xs) features e = absurd (ground arith)
known_items_sound (cons (obj fs) xs) features e = absurd (ground arith)

IsRead : Option Json → List Text → Type 0
IsRead f features = ((features ≡ []) ⊎ (f ≡ some (arr (texts features)))) × AreKnown features

no_features : (f : Option Json) (features : List Text) → [] ≡ features → IsRead f features
unfolding IsRead AreKnown
no_features f features q = rw (← q) (inl refl, tt)

items-IsRead :
    (xs : Items) (features : List Text)
    → xs ≡ texts features
    → AreKnown features
    → IsRead (some (arr xs)) features
unfolding IsRead
items-IsRead xs features whole known = (inr (ap (λ k. some (arr k)) whole), known)

features_of_sound :
    (f : Option Json) (features : List Text) → features_of f ≡ ok features → IsRead f features
unfolding features_of
features_of_sound none features e = no_features none features cc
features_of_sound (some null) features e = no_features (some null) features cc
features_of_sound (some (arr xs)) features e =
    let (whole, known) = known_items_sound xs features e in items-IsRead xs features whole known
features_of_sound (some (str [])) features e = no_features (some (str [])) features cc
features_of_sound (some (str (c ∷ s))) features e = absurd (ground arith)
features_of_sound (some (bool b)) features e = absurd (ground arith)
features_of_sound (some (num n)) features e = absurd (ground arith)
features_of_sound (some (obj fs)) features e = absurd (ground arith)

listed_in :
    {f g : Option Json} {features : List Text}
    → f ≡ g
    → (features ≡ []) ⊎ (f ≡ some (arr (texts features)))
    → (features ≡ []) ⊎ (g ≡ some (arr (texts features)))
listed_in e (inl empty) = inl empty
listed_in e (inr listed) = inr (sym e ∙ listed)

not-true : (b : Bool) → not b ≡ true → b ≡ false
not-true b h = ground arith

-- A text that `validateLicense` accepts is, trimmed, `prefix:payload.signature` with a prefix `cloud`
-- or `ent` and nothing empty; a key of 32 bytes verifies the signature of `prefix.payload`; the
-- payload is a JSON object whose `ed` is the prefix; the edition given is the prefix's; the features
-- given are none or just the list `f` of the payload, and all known; and where `exp` is a number above
-- 0 it is after now, where `nbf` is a number it is not.
pub validate_license_sound :
    (engine : Engine) (sigs : Signatures) (text hex : Text) (now : ℕ) (r : Resolved)
    → validate_license engine sigs text hex now ≡ ok r
    → IsLicense engine sigs text hex now r
unfolding validate_license IsRead AreKnown
validate_license_sound engine sigs text hex now r e =
    let (p, written, e1) = or_throw-eq-ok (license_parts (trim text)) _ _ e in
    let (edition, named, e2) = or_throw-eq-ok (edition_of p.prefix) _ _ e1 in
    let (key, trusted, e3) = or_throw-eq-ok (public_key_from_hex sigs hex) _ _ e2 in
    let (is_signed, e4) = guard-eq-ok (signed sigs key p) _ _ e3 in
    let (payload, read, e5) = or_throw-eq-ok (engine.parse (engine.decode p.payload)) _ _ e4 in
    let (agrees, e6) =
      guard-eq-ok (is_text (member_of (codes "ed") (some payload)) p.prefix) _ _ e5 in
    let (features, lists, e7) =
      >>=-eq-ok (features_of (member_of (codes "f") (some payload))) _ e6 in
    let (unexpired, e8) =
      guard-eq-ok (not (is_expired engine (now / 1000) (member_of (codes "exp") (some payload)))) _
        _ e7 in
    let (begun, e9) =
      guard-eq-ok (not (is_early engine (now / 1000) (member_of (codes "nbf") (some payload)))) _ _
        e8 in
    let given : record { edition = edition; features = features } ≡ r = cc in
    let (whole, plain, payload_filled, sig_filled) = license_parts-joins (trim text) p written in
    let (key_is, size) = public_key-size sigs hex key trusted in
    let (fs, is_object, ed) = agrees-read payload p.prefix agrees in
    let member_is : (name : Text) → member_of name (some payload) ≡ get name fs =
      λ name. ap (λ k. member_of name (some k)) is_object ∙ member_of-obj name fs in
    let (listed, known) = features_of_sound _ r.features (lists ∙ ap (λ k. ok k.features) given) in
    record {
      prefix = p.prefix;
      payload = p.payload;
      sig = p.sig;
      fields = fs;
      edition = edition_of-Names p.prefix r.edition (named ∙ ap (λ k. some k.edition) given);
      written = whole;
      last_dot = plain;
      filled = (payload_filled, sig_filled);
      key_size = size;
      is_signed =
          subst
            (λ k.
              sigs.verify k (p.prefix ++ b'.' ∷ p.payload) (sigs.from_base64url p.sig) ≡ some true)
            key_is (signed-verifies sigs key p is_signed);
      read = read ∙ ap some is_object;
      agrees = ed;
      listed = listed_in (member_is (codes "f")) listed;
      features = known;
      unexpired = λ exp at.
          unexpired-num engine (now / 1000) exp _ (member_is (codes "exp") ∙ at)
            (not-true _ unexpired);
      begun = λ nbf at.
          begun-num engine (now / 1000) nbf _ (member_is (codes "nbf") ∙ at) (not-true _ begun);
    }
