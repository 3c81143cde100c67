-- ===== src/Operators/Admitted.antt =====
-- Whom requireOperator of control-plane/lib/edition.ts lets through, and that it lets through the
-- tokens of tokenCore.
use papi.Common.{
  ℕ, ◌≡◌, refl, sym, ◌∙◌, ap, Option, none, some, true, false, any, find, arith, inl, inr, ◌⊎◌,
  str_eq, str_eq_iff, Option-cases,
}
use papi.Common.Text.{Text, codes}
use papi.Common.Json.{str, Fields, get, truthy}
use papi.Common.Result.{ok, >>=-eq-ok, guard-eq-ok, or_throw-eq-ok}
use papi.Accounts.Directory.{User, Directory}
use papi.Accounts.Sessions.{is_user, resolve_session}
use papi.Accounts.Access.{belongs, resolve_session_sound}
use papi.Operators.Tokens.{Engine, is_text, claims_pass, verify_jwt, bearer_from}
use papi.Operators.Editions.{Edition, oss, cloud, ent, is_hosted}
use papi.Operators.Gate.{
  Request, session_cookie, Outside, Operator, is_operator_claim, claimed, subject_of, from_claims,
  from_user, operator_by_token, resolve_cookie, signed_in, operator_by_session, gate_hosted,
  require_operator,
}
use papi.Operators.Minted.{IsSigned, verify_jwt_sound}

-- A bearer token that the master key signed, with the role of an operator.
pub record ByToken (o : Outside) (req : Request) (op : Operator) : Type 0 where
  pub token : Text
  pub claims : Fields
  pub sent : bearer_from req.authorization ≡ some token
  pub signed : IsSigned o.engine o.master_key o.now token claims
  pub role : is_text (get (codes "role") claims) (codes "operator") ≡ true
  pub subject : get (codes "sub") claims ≡ some op.id

-- No bearer token, and a cookie whose session belongs to a user who is an operator.
pub record BySession (o : Outside) (req : Request) (d : Directory) (op : Operator) : Type 0 where
  pub cookie : Text
  pub user : User
  pub unsent : bearer_from req.authorization ≡ none
  pub sent : session_cookie req.cookie ≡ some cookie
  pub role : user.platform_role ≡ "operator"
  pub listed : find (is_user user.id) d.users ≡ some user
  pub able : user.disabled ≡ false
  pub session : any (belongs o.now (o.hash_token (o.written cookie)) user) d.sessions ≡ true
  pub subject : op.id ≡ str (codes user.id)

-- A subject that passes is there.
claims_pass-sub :
    (engine : Engine) (now : ℕ) (fs : Fields)
    → claims_pass engine now fs ≡ true
    → get (codes "sub") fs ≡ some (subject_of (get (codes "sub") fs))
unfolding claims_pass subject_of truthy
claims_pass-sub engine now fs pass = elim (Option-cases (get (codes "sub") fs)) [
  | inl gone ↦ absurd (ground arith)
  | inr (j, there) ↦ rw there refl
]

claimed_sound :
    (o : Outside) (req : Request) (bearer : Text) (claims : Option Fields) (op : Operator)
    → bearer_from req.authorization ≡ some bearer
    → verify_jwt o.engine bearer o.master_key o.now ≡ ok claims
    → is_operator_claim claims ≡ true
    → claimed o.engine claims ≡ ok op
    → ByToken o req op
unfolding claimed is_operator_claim from_claims
claimed_sound o req bearer none op sent verified is_op e = absurd (ground arith)
claimed_sound o req bearer (some fs) op sent verified is_op e =
    let signed = verify_jwt_sound o.engine bearer o.master_key o.now fs verified in
    let id : subject_of (get (codes "sub") fs) ≡ op.id = ground arith in
    record {
      token = bearer;
      claims = fs;
      sent = sent;
      signed = signed;
      role = is_op;
      subject = claims_pass-sub o.engine o.now fs signed.passes ∙ ap some id;
    }

operator_by_token_sound :
    (o : Outside) (req : Request) (bearer : Text) (op : Operator)
    → bearer_from req.authorization ≡ some bearer
    → operator_by_token o bearer ≡ ok op
    → ByToken o req op
unfolding operator_by_token
operator_by_token_sound o req bearer op sent e =
    let (claims, verified, e1) = >>=-eq-ok (verify_jwt o.engine bearer o.master_key o.now) _ e in
    let (is_op, e2) = guard-eq-ok (is_operator_claim claims) _ _ e1 in
    claimed_sound o req bearer claims op sent verified is_op e2

resolve_cookie-some :
    (o : Outside) (cookie : Option Text) (d d' : Directory) (u : User)
    → resolve_cookie o cookie d ≡ (some u, d')
    → (c : Text) × (cookie ≡ some c)
      × (resolve_session o.hash_token (some (o.written c)) o.now d ≡ (some u, d'))
unfolding resolve_cookie resolve_session
resolve_cookie-some o none d d' u e =
    (let r : none ≡ some u = ap (λ k. k.0) e in absurd (ground arith))
resolve_cookie-some o (some c) d d' u e = (c, refl, e)

operator_by_session_sound :
    (o : Outside) (req : Request) (d d' : Directory) (user : Option User) (op : Operator)
    → bearer_from req.authorization ≡ none
    → signed_in o req d ≡ (user, d')
    → operator_by_session user ≡ ok op
    → BySession o req d op
unfolding operator_by_session signed_in from_user
operator_by_session_sound o req d d' user op unsent resolved e =
    let (u, there, e1) = or_throw-eq-ok user _ _ e in
    let (is_op, e2) = guard-eq-ok (str_eq u.platform_role "operator") _ _ e1 in
    let (c, sent, found) =
      resolve_cookie-some o (session_cookie req.cookie) d d' u
        (resolved ∙ ap (λ v. (v, d')) there) in
    let (able, session, over, listed) =
      resolve_session_sound o.hash_token (o.written c) o.now d d' u found in
    let same : from_user u ≡ op = cc in
    record {
      cookie = c;
      user = u;
      unsent = unsent;
      sent = sent;
      role = (str_eq_iff u.platform_role "operator").0 is_op;
      listed = listed;
      able = able;
      session = session;
      subject = sym (ap (λ p. p.id) same);
    }

gate_hosted_sound :
    (o : Outside) (req : Request) (d : Directory) (bearer : Option Text) (op : Operator)
    → bearer_from req.authorization ≡ bearer
    → (gate_hosted o req bearer d).0 ≡ ok op
    → ByToken o req op ⊎ BySession o req d op
unfolding gate_hosted
gate_hosted_sound o req d none op sent e =
    inr
      (operator_by_session_sound o req d (signed_in o req d).1 (signed_in o req d).0 op sent refl e)
gate_hosted_sound o req d (some bearer) op sent e =
    inl (operator_by_token_sound o req bearer op sent e)

-- On a hosted edition, whoever `requireOperator` lets through either sent a bearer token that the
-- master key signed, whose claims pass the checks and name the role of an operator, and whose subject
-- is taken; or sent no bearer token, and a cookie whose session has not run out and belongs to a user
-- of the table who is an operator and is not disabled, and who is taken.
pub require_operator_sound :
    (o : Outside) (edition : Edition) (req : Request) (d : Directory) (op : Operator)
    → is_hosted edition ≡ true
    → (require_operator o edition req d).0 ≡ ok op
    → ByToken o req op ⊎ BySession o req d op
unfolding require_operator is_hosted
require_operator_sound o oss req d op hosted e = absurd (ground arith)
require_operator_sound o cloud req d op hosted e =
    gate_hosted_sound o req d (bearer_from req.authorization) op refl e
require_operator_sound o ent req d op hosted e =
    gate_hosted_sound o req d (bearer_from req.authorization) op refl e
