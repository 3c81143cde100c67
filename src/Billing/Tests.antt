-- ===== src/Billing/Tests.antt =====
-- Runs of the billing operations on concrete teams, keys and events.
use papi.Common.{◌+◌, ◌≡◌, refl, List, [], ◌∷◌, ◌++◌, some, true, false, All, length}
use papi.Common.Int.{pos, ◌+ℤ◌, ◌-ℤ◌}
use papi.Common.Result.{Result, ok}
use papi.Common.Number.{Number}
use papi.Common.Text.{Text, codes, same, split, decimal, decimal_from}
use papi.Billing.Tables.{RequestAttempt, RequestEvent, EventRow, Ledger, success}
use papi.Billing.Events.{
  is_stale, sweep, key_exists, is_listed, insert_attempts, event_row, insert_new, insert_event,
  insert_events, add_spend, row_spend, spend_if, spend_of, add_optional, group_spend, upsert_spend,
  team_of, charges, spent, debit, charge, charge_inserted, store_request_events,
}
use papi.Billing.Credits.{
  completed, done, part, stamp, too_old, Mac, mac_matches, verify_signature, PaddleEvent, grant,
  credit_team, apply_event, paddle_webhook_core,
}
use papi.Billing.Reconcile.{credited, computed, reconcile_team_balances}
use papi.Billing.Retry.{store_request_events-again}
use papi.Billing.Spending.{total, usage, cost, store_request_events-spend}
use papi.Billing.Payments.{paddle_webhook_core-again}
use papi.Billing.Balances.{IsBooked, credit_team-IsBooked, store_request_events-IsBooked}
use papi.Billing.Nightly.{old_cost, recent_cost, with_balances, sweep-refunds}

abbrev attempt : RequestAttempt
attempt = record {
  account = "acc";
  adapter = "openai";
  alias = "";
  status = 200;
  outcome = success;
  latency_ms = 80;
  cooldown_ms = 0;
}

abbrev event : RequestEvent
event = record {
  request_id = "0123";
  occurred_at = 90000000;
  endpoint = "/v1/responses";
  public_model = "fast";
  upstream_model = "";
  virtual_key = "default";
  virtual_key_id = "key";
  cost_usd = 250;
  streaming = false;
  config_version = 1;
  final_status = 200;
  succeeded = true;
  total_latency_ms = 90;
  input_tokens = 10;
  output_tokens = 5;
  total_tokens = 15;
  attempts = attempt ∷ [];
}

abbrev ledger : Ledger
ledger = record {
  events = [];
  next_id = 1;
  attempts = [];
  spend = [];
  keys = record { id = "key"; name = "default"; team_id = some "team" } ∷ [];
  teams = record { id = "team"; balance_usd = pos 1000 } ∷ [];
  credits =
      record {
        team_id = "team";
        delta_usd = pos 1000;
        kind = "bonus";
        source = "signup_bonus";
        external_id = "user";
      }
      ∷ [];
  audits = [];
}

abbrev stored : Ledger
stored = record ledger {
  events = event_row 1 90000001 "gw" event ∷ [];
  next_id = 2;
  attempts = record { request_event_id = 1; position = 0; attempt = attempt } ∷ [];
  spend =
      record {
        virtual_key_id = "key";
        day = 1;
        cost_usd = 250;
        tokens_in = 10;
        tokens_out = 5;
        requests = 1;
      }
      ∷ [];
  teams = record { id = "team"; balance_usd = pos 750 } ∷ [];
}

stores : store_request_events 90000001 "gw" (event ∷ []) ledger ≡ ok (1, stored)
unfolding store_request_events sweep is_stale insert_events insert_event insert_new key_exists
    insert_attempts is_listed event_row charge charge_inserted upsert_spend group_spend add_optional
    add_spend spend_of spend_if row_spend debit charges spent team_of ◌-ℤ◌
stores = refl

booked : stored.teams ≡ record { id = "team"; balance_usd = computed stored "team" } ∷ []
unfolding computed credited spent charges team_of event_row ◌-ℤ◌ ◌+ℤ◌
booked = refl

store_request_events-IsBooked_example : All (IsBooked stored) stored.teams
unfolding computed credited spent ◌-ℤ◌ ◌+ℤ◌
store_request_events-IsBooked_example =
    store_request_events-IsBooked 90000001 "gw" (event ∷ []) ledger 1 stored tt refl
      ((refl, refl), tt) stores

store_request_events-again_example :
    store_request_events 90000002 "gw" (event ∷ []) stored ≡ ok (0, stored)
unfolding is_stale event_row
store_request_events-again_example =
    store_request_events-again 90000001 90000002 "gw" (event ∷ []) ledger 1 stored stores refl

store_request_events-spend_example :
    (new : List EventRow) × (stored.events ≡ (sweep 90000001 ledger).events ++ new)
    × (length new ≡ 1)
    × (total cost "key" 1 stored.spend ≡ usage cost "key" 1 new + total cost "key" 1 ledger.spend)
store_request_events-spend_example =
    store_request_events-spend 90000001 "gw" (event ∷ []) ledger 1 stored cost "key" 1 tt stores

listed :
    insert_event 90000001 "gw" event ledger
    ≡ ok (some 1, record stored { spend = []; teams = ledger.teams })
unfolding insert_event insert_new key_exists insert_attempts is_listed event_row
listed = refl

sweep-refunds_example :
    ((reconcile_team_balances (sweep 9000000000 stored)).1.teams
      ≡ with_balances
          (λ team.
            credited team stored.credits
            -ℤ pos (recent_cost 9000000000 stored.keys team stored.events))
          stored.teams)
    × ((reconcile_team_balances (sweep 9000000000 stored)).1.teams
        ≡ with_balances
            (λ team.
              computed stored team +ℤ pos (old_cost 9000000000 stored.keys team stored.events))
            stored.teams)
sweep-refunds_example = sweep-refunds 9000000000 stored

-- A payment of 15 dollars.
abbrev payment : PaddleEvent
payment = record {
  event_type = "transaction.completed";
  id = "txn_1";
  status = some "paid";
  currency_code = some "USD";
  total = Number.num 15000000;
  team_id = some "team";
}

abbrev mac : Mac
mac secret ts body = codes "abcd"

abbrev read : Text → Result PaddleEvent
read body = ok payment

abbrev paid : Ledger
paid = grant "team" "txn_1" 15000000 stored

granted :
    paddle_webhook_core mac read true
      (some "secret")
      1000000
      (some (codes "ts=1000;h1=abcd"))
      []
      stored
    ≡ ok (done true 15000000, paid)
unfolding paddle_webhook_core verify_signature part stamp too_old mac_matches apply_event completed
    credit_team split same decimal decimal_from
granted = refl

signed : verify_signature mac 1200000 [] (some (codes "ts=1200;h1=abcd")) "secret" ≡ true
unfolding verify_signature part stamp too_old mac_matches split same decimal decimal_from
signed = refl

paddle_webhook_core-again_example :
    paddle_webhook_core mac read true
      (some "secret")
      1200000
      (some (codes "ts=1200;h1=abcd"))
      []
      paid
    ≡ ok (done false 15000000, paid)
paddle_webhook_core-again_example =
    paddle_webhook_core-again mac read true (some "secret") 1000000 1200000
      (some (codes "ts=1000;h1=abcd")) (some (codes "ts=1200;h1=abcd")) [] [] stored true 15000000
      paid payment "secret" granted refl refl refl refl signed

topped_up : credit_team "team" "txn_1" 15000000 stored ≡ ok (true, paid)
unfolding credit_team
topped_up = refl

credit_team-IsBooked_example : All (IsBooked paid) paid.teams
unfolding computed credited spent charges team_of event_row ◌-ℤ◌ ◌+ℤ◌
credit_team-IsBooked_example =
    credit_team-IsBooked "team" "txn_1" 15000000 stored true paid (refl, tt) topped_up
