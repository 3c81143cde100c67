-- ===== src/Billing/Credits.antt =====
-- paddleWebhookCore of control-plane/lib/webhooks.ts: the payment notifications of Paddle. The MAC of
-- a text under a secret and the reading of the body by the schema are arguments. Amounts are in
-- millionths of a dollar; an amount below zero is taken as zero, which the code refuses alike.
use papi.Common.{
  ℕ, ◌+◌, ◌*◌, String, List, [], ◌∷◌, ◌++◌, Option, none, some, Bool, true, false, not, ◌&&◌, ◌||◌,
  if◌then◌else◌, ltb, str_eq, any, all, update_where,
}
use papi.Common.Int.{pos, ◌+ℤ◌}
use papi.Common.Result.{Result, ok, plain, api, ◌>>=◌, ◌>>◌, guard, or_throw}
use papi.Common.Number.{Number, nan, num}
use papi.Common.Text.{Text, codes, same, split, is_digit, decimal}
use papi.Common.Json.{Json, str, Fields, field, end}
use papi.Common.Audit.{audit}
use papi.Billing.Tables.{Team, Credit, Ledger}

-- `kv.split('=')`, of which the object takes the first two parts.
abbrev pub pair_of : List Text → Text × Option Text
pair_of [] = ([], none)
pair_of (k ∷ []) = (k, none)
pair_of (k ∷ v ∷ rest) = (k, some v)

-- `Object.fromEntries(…)[key]`: the last pair of a name counts.
unfoldable pub part : Text → List Text → Option Text
part key [] = none
part key (kv ∷ rest) =
    let (k, v) = pair_of (split b'=' kv) in
    elim (any (λ other. same (pair_of (split b'=' other)).0 key) rest) [
      | true ↦ part key rest
      | false ↦ if same k key then v else none
    ]

-- `Number(parts.ts)`, for a text of digits.
unfoldable pub stamp : Option Text → Number
stamp none = nan
stamp (some s) = if all is_digit s then num (decimal s) else nan

-- `Math.abs(Date.now() / 1000 - ts) > MAX_AGE_SECONDS`, with the clock in milliseconds.
unfoldable pub too_old : ℕ → ℕ → Bool
too_old now ts = ltb (1000 * ts + 300000) now || ltb (now + 300000) (1000 * ts)

-- The text's MAC under the secret, over the time stamp and the body.
abbrev pub Mac : Type 0
Mac = String → ℕ → Text → Text

unfoldable pub mac_matches : Mac → ℕ → Text → String → Number → Option Text → Bool
unfolding too_old
mac_matches hmac now body secret nan mac = false
mac_matches hmac now body secret (num ts) none = false
mac_matches hmac now body secret (num ts) (some []) = false
mac_matches hmac now body secret (num ts) (some (c ∷ mac)) =
    not (too_old now ts) && same (c ∷ mac) (hmac secret ts body)

unfoldable pub verify_signature : Mac → ℕ → Text → Option Text → String → Bool
unfolding mac_matches part stamp
verify_signature hmac now body none secret = false
verify_signature hmac now body (some []) secret = false
verify_signature hmac now body (some (c ∷ header)) secret =
    let parts = split b';' (c ∷ header) in
    mac_matches hmac now body secret (stamp (part (codes "ts") parts)) (part (codes "h1") parts)

-- The event that the schema reads; `total` is `Number(event.data.total) / 100`.
pub record PaddleEvent : Type 0 where
  pub event_type : String
  pub id : String
  pub status : Option String
  pub currency_code : Option String
  pub total : Number
  pub team_id : Option String

pub data PaddleReply : Type 0 where
  ignored : String → PaddleReply
  done : (credited : Bool) → (delta_usd : ℕ) → PaddleReply

-- `status && status !== 'completed' && status !== 'paid'`
abbrev pub not_payable : Option String → Bool
not_payable none = false
not_payable (some s) = not (str_eq s "") && not (str_eq s "completed") && not (str_eq s "paid")

abbrev pub is_usd : Option String → Bool
is_usd none = false
is_usd (some c) = str_eq c "USD"

abbrev pub positive : Number → Option ℕ
positive nan = none
positive (num n) = if ltb 0 n then some n else none

-- The row that the partial unique index on (source, external_id) sets against a new one.
abbrev pub same_source : String → String → Credit → Bool
same_source source external c =
    not (str_eq external "") && str_eq c.source source && str_eq c.external_id external

abbrev pub team_exists : List Team → String → Bool
team_exists teams id = any (λ t. str_eq t.id id) teams

unfoldable pub add_balance : String → ℕ → List Team → List Team
add_balance team delta teams =
    update_where (λ t. str_eq t.id team)
      (λ t. record t { balance_usd = t.balance_usd +ℤ pos delta }) teams

abbrev pub grant_payload : String → ℕ → Fields
grant_payload external delta = field (codes "source") (str (codes "paddle")) (
    field (codes "external_id") (str (codes external))
      (field (codes "delta_usd") (Json.num delta) end))

abbrev pub topup : String → String → ℕ → Credit
topup team external delta = record {
  team_id = team;
  delta_usd = pos delta;
  kind = "topup";
  source = "paddle";
  external_id = external;
}

unfoldable pub grant : String → String → ℕ → Ledger → Ledger
unfolding add_balance
grant team external delta l = record l {
  credits = l.credits ++ topup team external delta ∷ [];
  teams = add_balance team delta l.teams;
  audits = audit l.audits "topup" "team" (some team) (grant_payload external delta);
}

-- The transaction of the webhook.
unfoldable pub credit_team : String → String → ℕ → Ledger → Result (Bool × Ledger)
unfolding grant
credit_team team external delta l =
    if any (same_source "paddle" external) l.credits then ok (false, l) else do
      guard (team_exists l.teams team) (plain "credit_transactions_team_id_fkey")
      ok (true, grant team external delta l)

unfoldable pub completed : PaddleEvent → Ledger → Result (PaddleReply × Ledger)
unfolding credit_team
completed e l = do
  guard (is_usd e.currency_code) (api 422 "unsupported_currency")
  guard (not (not_payable e.status)) (api 422 "transaction_not_paid")
  team ← or_throw e.team_id (api 422 "missing_team_reference")
  delta ← or_throw (positive e.total) (api 422 "invalid_amount")
  (credited, next) ← credit_team team e.id delta l
  ok (done credited delta, next)

unfoldable pub apply_event : PaddleEvent → Ledger → Result (PaddleReply × Ledger)
unfolding completed
apply_event e l =
    if str_eq e.event_type "transaction.completed"
    then completed e l
    else ok (ignored e.event_type, l)

abbrev pub configured : Option String → Option String
configured none = none
configured (some s) = if str_eq s "" then none else some s

unfoldable pub paddle_webhook_core :
    Mac
    → (Text → Result PaddleEvent)
    → Bool
    → Option String
    → ℕ
    → Option Text
    → Text
    → Ledger
    → Result (PaddleReply × Ledger)
unfolding verify_signature apply_event
paddle_webhook_core hmac parse hosted secret now header body l = do
  guard hosted (api 403 "hosted_only")
  key ← or_throw (configured secret) (api 503 "webhook_not_configured")
  guard (verify_signature hmac now body header key) (api 401 "invalid_signature")
  event ← parse body
  apply_event event l
