-- ===== src/Billing/Spending.antt =====
-- What a stored batch adds to key_spend_daily (storeRequestEvents of
-- control-plane/lib/request-events.ts).
use papi.Common.{
  ℕ, suc, ◌+◌, ◌≡◌, refl, sym, ◌∙◌, ap, String, List, [], ◌∷◌, ◌++◌, Option, none, some, Bool, true,
  false, ◌&&◌, if◌then◌else◌, ◌==◌, str_eq, str_eq_iff, length, arith,
}
use papi.Common.Result.{ok, >>=-eq-ok}
use papi.Billing.Tables.{RequestEvent, EventRow, Ledger, Spend}
use papi.Billing.Events.{
  sweep, insert_events, charge, charge_inserted, store_request_events, with_ids, add_spend,
  merge_spend, spend_of, spend_if, row_spend, add_optional, group_spend, upsert_spend, day_of,
}
use papi.Billing.Retry.{charge_inserted-events}
use papi.Billing.Inserts.{insert_events-Added, with_ids-Added, Fresh, Fresh-sweep, row_ids}

-- The columns of key_spend_daily that are summed.
pub data Column : Type 0 where
  cost : Column
  tokens_in : Column
  tokens_out : Column
  requests : Column

abbrev pub amount : Column → Spend → ℕ
amount cost s = s.cost_usd
amount tokens_in s = s.tokens_in
amount tokens_out s = s.tokens_out
amount requests s = s.requests

abbrev pub is_of : String → ℕ → Spend → Bool
is_of key day s = str_eq s.virtual_key_id key && s.day == day

-- What the table holds for a key and a day.
unfoldable pub total : Column → String → ℕ → List Spend → ℕ
total c key day [] = 0
total c key day (s ∷ table) = (if is_of key day s then amount c s else 0) + total c key day table

abbrev pub event_amount : Column → RequestEvent → ℕ
event_amount cost e = e.cost_usd
event_amount tokens_in e = e.input_tokens
event_amount tokens_out e = e.output_tokens
event_amount requests e = 1

abbrev pub names : String → Option String → Bool
names key none = false
names key (some k) = str_eq k key

-- What successful rows of a key used on a day.
unfoldable pub usage : Column → String → ℕ → List EventRow → ℕ
usage c key day [] = 0
usage c key day (r ∷ rows) =
    (if names key r.key_id && r.event.succeeded && day_of r.event.occurred_at == day
      then event_amount c r.event
      else 0)
    + usage c key day rows

amount-merge : (c : Column) (s t : Spend) → amount c (merge_spend s t) ≡ amount c t + amount c s
amount-merge cost s t = refl
amount-merge tokens_in s t = refl
amount-merge tokens_out s t = refl
amount-merge requests s t = refl

total-add_spend :
    (c : Column) (key : String) (day : ℕ) (s : Spend) (table : List Spend)
    → total c key day (add_spend s table)
      ≡ (if is_of key day s then amount c s else 0) + total c key day table
unfolding total add_spend
total-add_spend c key day s [] = refl
total-add_spend c key day s (t ∷ table) = ground (
  arith,
  amount-merge c s t,
  str_eq_iff s.virtual_key_id t.virtual_key_id,
  total-add_spend c key day s table,
)

total-upsert :
    (c : Column) (key : String) (day : ℕ) (groups table : List Spend)
    → total c key day (upsert_spend groups table) ≡ total c key day groups + total c key day table
unfolding upsert_spend total
total-upsert c key day [] table = omega arith
total-upsert c key day (s ∷ groups) table =
    total-add_spend c key day s (upsert_spend groups table)
    ∙ omega (arith, total-upsert c key day groups table)

total-row :
    (c : Column) (key : String) (day : ℕ) (k : Option String) (b : Bool) (r : EventRow)
    (table : List Spend)
    → total c key day (add_optional (spend_if k b r) table)
      ≡ (if names key k && b && day_of r.event.occurred_at == day
          then event_amount c r.event
          else 0)
        + total c key day table
unfolding spend_if row_spend add_optional
total-row c key day none b r table = omega arith
total-row c key day (some k) false r table = ground arith
total-row cost key day (some k) true r table =
    total-add_spend cost key day (row_spend k r) table ∙ ground arith
total-row tokens_in key day (some k) true r table =
    total-add_spend tokens_in key day (row_spend k r) table ∙ ground arith
total-row tokens_out key day (some k) true r table =
    total-add_spend tokens_out key day (row_spend k r) table ∙ ground arith
total-row requests key day (some k) true r table =
    total-add_spend requests key day (row_spend k r) table ∙ ground arith

total-group :
    (c : Column) (key : String) (day : ℕ) (rows : List EventRow)
    → total c key day (group_spend rows) ≡ usage c key day rows
unfolding group_spend usage total spend_of
total-group c key day [] = refl
total-group c key day (r ∷ rows) =
    total-row c key day r.key_id r.event.succeeded r (group_spend rows)
    ∙ ap
        (λ n.
          (if names key r.key_id && r.event.succeeded && day_of r.event.occurred_at == day
            then event_amount c r.event
            else 0)
          + n)
        (total-group c key day rows)

length-row_ids : (rows : List EventRow) → length (row_ids rows) ≡ length rows
length-row_ids [] = refl
length-row_ids (r ∷ rows) = ap suc (length-row_ids rows)

no_usage :
    (c : Column) (key : String) (day : ℕ) (rows : List EventRow)
    → usage c key day (with_ids [] rows) ≡ 0
unfolding usage
no_usage c key day [] = refl
no_usage c key day (r ∷ rows) = no_usage c key day rows

charge_inserted-spend :
    (c : Column) (key : String) (day : ℕ) (ids : List ℕ) (l : Ledger)
    → total c key day (charge_inserted ids l).spend
      ≡ usage c key day (with_ids ids l.events) + total c key day l.spend
unfolding charge charge_inserted
charge_inserted-spend c key day [] l = omega (arith, no_usage c key day l.events)
charge_inserted-spend c key day (i ∷ ids) l =
    total-upsert c key day (group_spend (with_ids (i ∷ ids) l.events)) l.spend
    ∙ ap (λ n. n + total c key day l.spend) (total-group c key day (with_ids (i ∷ ids) l.events))

-- After a batch is stored, what key_spend_daily holds for a key and a day, in each of its four
-- columns, is what it held before plus what the new rows of that key and day used with success. The
-- new rows stand after the rows that the thirty days leave, and their number is the answer.
pub store_request_events-spend :
    (now : ℕ) (gateway : String) (events : List RequestEvent) (l : Ledger) (n : ℕ) (l' : Ledger)
    (c : Column) (key : String) (day : ℕ)
    → Fresh l
    → store_request_events now gateway events l ≡ ok (n, l')
    → (new : List EventRow) × (l'.events ≡ (sweep now l).events ++ new)
      × (length new ≡ n)
      × (total c key day l'.spend ≡ usage c key day new + total c key day l.spend)
unfolding store_request_events sweep
store_request_events-spend now gateway events l n l' c key day fresh h =
    (let ((ids, next), inserted, rest) =
        >>=-eq-ok (insert_events now gateway events (sweep now l)) _ h in
      let s : charge_inserted ids next ≡ l' = cc in
      let count : length ids ≡ n = cc in
      let a = insert_events-Added now gateway events (sweep now l) ids next inserted in
      let rows = with_ids-Added (sweep now l) ids next a (Fresh-sweep now l fresh) in
      (
        a.new,
        ap (λ k. k.events) (sym s) ∙ charge_inserted-events ids next ∙ ap (λ k. k.events) a.same,
        sym (length-row_ids a.new) ∙ ap length (sym a.ids_same) ∙ count,
        ap (λ k. total c key day k.spend) (sym s)
            ∙ charge_inserted-spend c key day ids next
            ∙ ap (λ xs. usage c key day xs + total c key day next.spend) rows
            ∙ ap (λ k. usage c key day a.new + total c key day k.spend) a.same,
      ))
