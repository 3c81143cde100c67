-- ===== src/Accounts/Verification.antt =====
-- What signup and verification (signupCore and verifyCore of control-plane/lib/cloud-auth.ts) grant.
use papi.Common.{
  ℕ, ◌≡◌, refl, sym, ◌∙◌, ap, String, List, [], ◌∷◌, ◌++◌, none, some, Bool, true, false, not, ◌||◌,
  ltb, str_eq, str_eq_refl, select, any, all, arith, Bool-cases, inl, inr,
}
use papi.Common.Result.{ok, err, api, >>=-eq-ok, >>-eq-ok, guard-eq-ok}
use papi.Billing.Tables.{Credit}
use papi.Common.Lists.{any-append}
use papi.Accounts.Directory.{User, VerificationToken, Directory}
use papi.Accounts.Signup.{
  Signup, Made, sign_up, signup_core, token_user, drop_tokens, has_bonus, bonus_credit,
  insert_bonus, insert_default, provision, verify_user, verify_core,
}

-- A signup with an address that has an account changes nothing: no new token is issued, also when
-- the account is not verified and its token has run out.
pub signup_core-known :
    (hash_token hash_password : String → String) (hosted passes : Bool) (body : Signup)
    (made : Made) (ttl_hours now : ℕ) (d d' : Directory)
    → any (λ u. str_eq u.email body.email) d.users ≡ true
    → signup_core hash_token hash_password hosted passes (ok body) made ttl_hours now d ≡ ok d'
    → d' ≡ d
unfolding signup_core sign_up
signup_core-known hash_token hash_password hosted passes body made ttl_hours now d d' known e =
    (let (is_hosted, e1) = guard-eq-ok hosted _ _ e in
      let (in_rate, e2) = guard-eq-ok passes _ _ e1 in
      let q : ok d ≡ ok d' = rw (known, sign_up) at e2 in cc)

-- Every token with the hash belongs to the user, as the unique index on hashes makes sure.
abbrev pub owned : String → String → List VerificationToken → Bool
owned hash user tokens = all (λ t. not (str_eq t.token_hash hash) || str_eq t.user_id user) tokens

token_user-dropped :
    (hash : String) (now : ℕ) (user : String) (users : List User) (tokens : List VerificationToken)
    → owned hash user tokens ≡ true
    → token_user hash now users (select (λ t. not (str_eq t.user_id user)) tokens) ≡ none
unfolding token_user
token_user-dropped hash now user users [] h = refl
token_user-dropped hash now user users (t ∷ tokens) h =
    ground (arith, token_user-dropped hash now user users tokens)

verify_user-tokens :
    (user : User) (made : Made) (bonus : ℕ) (d : Directory) (b : Bool) (d' : Directory)
    → verify_user user made bonus d ≡ ok (b, d')
    → d'.tokens ≡ select (λ t. not (str_eq t.user_id user.id)) d.tokens
unfolding verify_user provision
verify_user-tokens user made bonus d b d' e = elim (Bool-cases user.email_verified) [
  | inl before ↦
      (let q : ok (true, drop_tokens user.id d) ≡ ok (b, d') = rw (before, verify_user) at e in
        let s : drop_tokens user.id d ≡ d' = cc in ap (λ k. k.tokens) (sym s))
  | inr new ↦
      (let (next, made_it, last) =
          >>=-eq-ok (provision user made bonus d) _ (rw (new, verify_user) at e) in
        let (credits, paid, built) =
          >>=-eq-ok (insert_bonus made.team_id user.id bonus d.ledger.credits) _ made_it in
        let (named, stored) = >>-eq-ok (insert_default d.ledger.keys) _ built in
        let s : next ≡ d' = cc in
        ap (λ k. k.tokens) (sym s) ∙ sym (ap (λ o. elim o [ ok k ↦ k.tokens | err t ↦ [] ]) stored))
]

-- A token verifies once: after a verification with it, where the unique index holds, every further
-- verification with the same token is refused as invalid, at any time and whatever was granted.
pub verify_core-once :
    (hash_token : String → String) (token : String) (made made2 : Made) (bonus bonus2 now later : ℕ)
    (d : Directory) (b : Bool) (d' : Directory) (user : User)
    → token_user (hash_token token) now d.users d.tokens ≡ some user
    → owned (hash_token token) user.id d.tokens ≡ true
    → verify_core hash_token true true (ok token) made bonus now d ≡ ok (b, d')
    → verify_core hash_token true true (ok token) made2 bonus2 later d'
      ≡ err (api 400 "invalid_verification_token")
unfolding verify_core
verify_core-once hash_token token made made2 bonus bonus2 now later d b d' user who unique e =
    (let verified = rw (who, verify_core) at e in
      let tokens = verify_user-tokens user made bonus d b d' verified in
      let gone =
        ap (token_user (hash_token token) later d'.users) tokens
        ∙ token_user-dropped (hash_token token) later user.id d'.users d.tokens unique in
      rw gone refl)

-- The bonus is granted once: a verification that grants one finds no bonus of the user among the
-- credits, and leaves one there.
pub insert_bonus-once :
    (team user : String) (bonus : ℕ) (credits out : List Credit)
    → ltb 0 bonus ≡ true
    → str_eq user "" ≡ false
    → insert_bonus team user bonus credits ≡ ok out
    → (any (has_bonus user) credits ≡ false) × (any (has_bonus user) out ≡ true)
unfolding insert_bonus
insert_bonus-once team user bonus credits out above named e =
    (let (new, rest) =
        guard-eq-ok (not (any (has_bonus user) credits)) _ _ (rw (above, insert_bonus) at e) in
      let s : credits ++ bonus_credit team user bonus ∷ [] ≡ out = cc in
      (
        ground arith,
        ap (any (has_bonus user)) (sym s)
            ∙ any-append (has_bonus user) credits (bonus_credit team user bonus ∷ [])
            ∙ ground (arith, str_eq_refl user, str_eq_refl "signup_bonus"),
      ))
