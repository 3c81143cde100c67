-- ===== src/Operators/Written.antt =====
-- What a license text of control-plane/lib/edition.ts is made of when its parts, its key, its
-- signature and its payload pass the tests of `validateLicense`, one by one.
use papi.Common.{
  ℕ, ◌<◌, ◌≤◌, ◌≡◌, refl, ◌∙◌, ap, List, ◌∷◌, ◌++◌, Option, none, some, Bool, true, false, ◌&&◌,
  ◌==◌, length, Bool-cases, inl, inr, arith,
}
use papi.Common.Text.{Text, codes, has, same_iff, trim}
use papi.Common.Cut.{cut_first, cut_last, cut_first-joins, cut_last-joins}
use papi.Common.Json.{Json, null, bool, num, str, arr, obj, Fields, get, member_of, truthy}
use papi.Operators.Tokens.{Engine, is_text}
use papi.Operators.Editions.{
  Signatures, public_key_from_hex, Parts, filled, parts_after, parts_from, is_true, license_parts,
  is_expired, is_early, signed,
}

parts_after-joins :
    (prefix rest : Text) (p : Parts) (o : Option (Text × Text))
    → ((t u : Text) → o ≡ some (t, u) → (rest ≡ t ++ b'.' ∷ u) × (has b'.' u ≡ false))
    → parts_after prefix o ≡ some p
    → (prefix ++ b':' ∷ rest ≡ p.prefix ++ b':' ∷ (p.payload ++ b'.' ∷ p.sig))
      × (has b'.' p.sig ≡ false)
      × (0 < length p.payload)
      × (0 < length p.sig)
unfolding parts_after
parts_after-joins prefix rest p none cut e = absurd (ground arith)
parts_after-joins prefix rest p (some (t, u)) cut e =
    elim (Bool-cases (filled prefix && filled t && filled u)) [
      | inl good ↦
          let q : record { prefix = prefix; payload = t; sig = u } ≡ p = ground (arith, good, e) in
          let (joined, plain) = cut t u refl in
          rw (← q)
            (ap (λ k. prefix ++ b':' ∷ k) joined, plain, ground (arith, good), ground (arith, good))
      | inr bad ↦ absurd (ground (arith, bad, e))
    ]

parts_from-joins :
    (s : Text) (p : Parts) (o : Option (Text × Text))
    → ((t u : Text) → o ≡ some (t, u) → s ≡ t ++ b':' ∷ u)
    → parts_from o ≡ some p
    → (s ≡ p.prefix ++ b':' ∷ (p.payload ++ b'.' ∷ p.sig))
      × (has b'.' p.sig ≡ false)
      × (0 < length p.payload)
      × (0 < length p.sig)
unfolding parts_from
parts_from-joins s p none cut e = absurd (ground arith)
parts_from-joins s p (some (prefix, rest)) cut e =
    let (whole, plain, payload, sig) =
      parts_after-joins prefix rest p (cut_last b'.' rest) (λ t u. cut_last-joins b'.' rest t u)
        e in
    (cut prefix rest refl ∙ whole, plain, payload, sig)

-- The parts of a text, and how it is made of them.
pub license_parts-joins :
    (s : Text) (p : Parts)
    → license_parts s ≡ some p
    → (s ≡ p.prefix ++ b':' ∷ (p.payload ++ b'.' ∷ p.sig))
      × (has b'.' p.sig ≡ false)
      × (0 < length p.payload)
      × (0 < length p.sig)
unfolding license_parts
license_parts-joins s p e = parts_from-joins s p (cut_first b':' s) (cut_first-joins b':' s) e

pub public_key-size :
    (sigs : Signatures) (hex : Text) (key : List ℕ)
    → public_key_from_hex sigs hex ≡ some key
    → (key ≡ sigs.from_hex (trim hex)) × (length (sigs.from_hex (trim hex)) ≡ 32)
unfolding public_key_from_hex
public_key-size sigs hex key e =
    elim (Bool-cases
      (length (sigs.from_hex (trim hex)) == 32 && sigs.is_key (sigs.from_hex (trim hex)))) [
        | inl good ↦
            let q : some (sigs.from_hex (trim hex)) ≡ some key = rw good at e in
            (cc, ground (arith, good))
        | inr bad ↦ absurd (ground (arith, bad, e))
      ]

is_true-some : (o : Option Bool) → is_true o ≡ true → o ≡ some true
unfolding is_true
is_true-some none e = absurd (ground arith)
is_true-some (some b) e = ap some e

pub signed-verifies :
    (sigs : Signatures) (key : List ℕ) (p : Parts)
    → signed sigs key p ≡ true
    → sigs.verify key (p.prefix ++ b'.' ∷ p.payload) (sigs.from_base64url p.sig) ≡ some true
unfolding signed
signed-verifies sigs key p e = is_true-some _ e

is_text-some : (o : Option Json) (t : Text) → is_text o t ≡ true → o ≡ some (str t)
unfolding is_text
is_text-some (some (str s)) t e = ap (λ k. some (str k)) ((same_iff s t).0 e)
is_text-some none t e = absurd (ground arith)
is_text-some (some null) t e = absurd (ground arith)
is_text-some (some (bool b)) t e = absurd (ground arith)
is_text-some (some (num n)) t e = absurd (ground arith)
is_text-some (some (arr xs)) t e = absurd (ground arith)
is_text-some (some (obj fs)) t e = absurd (ground arith)

-- The payload is an object whose `ed` is the prefix.
pub agrees-read :
    (payload : Json) (prefix : Text)
    → is_text (member_of (codes "ed") (some payload)) prefix ≡ true
    → (fs : Fields) × (payload ≡ obj fs) × (get (codes "ed") fs ≡ some (str prefix))
unfolding is_text member_of
agrees-read (obj fs) prefix e = (fs, refl, is_text-some (get (codes "ed") fs) prefix e)
agrees-read null prefix e = absurd (ground arith)
agrees-read (bool b) prefix e = absurd (ground arith)
agrees-read (num n) prefix e = absurd (ground arith)
agrees-read (str s) prefix e = absurd (ground arith)
agrees-read (arr xs) prefix e = absurd (ground arith)

pub unexpired-num :
    (engine : Engine) (unix exp : ℕ) (o : Option Json)
    → o ≡ some (num exp)
    → is_expired engine unix o ≡ false
    → 0 < exp
    → unix < exp
unfolding is_expired truthy
unexpired-num engine unix exp o at e pos =
    let h : is_expired engine unix (some (num exp)) ≡ false = rw at at e in ground (arith, h)

pub begun-num :
    (engine : Engine) (unix nbf : ℕ) (o : Option Json)
    → o ≡ some (num nbf)
    → is_early engine unix o ≡ false
    → nbf ≤ unix
unfolding is_early truthy
begun-num engine unix nbf o at e =
    let h : is_early engine unix (some (num nbf)) ≡ false = rw at at e in ground (arith, h)

pub member_of-obj : (name : Text) (fs : Fields) → member_of name (some (obj fs)) ≡ get name fs
unfolding member_of
member_of-obj name fs = refl
