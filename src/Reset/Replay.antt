-- ===== src/Reset/Replay.antt =====
-- A reset whose key was used before.
use papi.Common.{ℕ, ◌≡◌, ◌∙◌, ap, String, List, [], Option, some, true, arith}
use papi.Common.Number.{Number}
use papi.Common.Text.{Text}
use papi.Common.Result.{ok}
use papi.Reset.Table.{Operation, World, has_key, has_id, load_by_key, load_by_id, expire_pending}
use papi.Reset.Checks.{validate_idempotency_key}
use papi.Reset.Flow.{Inputs, reset}
use papi.Reset.Evolution.{IsSettled, Change, Change-trans, Evolves, find-Evolves}
use papi.Reset.Steps.{Reach, Reach-Evolves}
use papi.Reset.Rows.{expire-Evolves}
use papi.Reset.Counts.{has_key-kept, has_id-kept}

-- A row that is settled is found unchanged after any history.
pub Reach-settled :
    {w w' : World} (account id : String) (o : Operation)
    → Reach w w'
    → load_by_id account id w.operations ≡ some o
    → IsSettled o.status
    → load_by_id account id w'.operations ≡ some o
unfolding load_by_id
Reach-settled {w} {w'} account id o r e s =
    let (p, found, change) =
      find-Evolves (has_id account id) (has_id-kept account id) w.operations w'.operations o
        (Reach-Evolves r) e in
    found ∙ ap some (change.frozen s)

pub Evolves-load_by_key :
    (rows new : List Operation) (account : String) (key : Text) (o : Operation)
    → Evolves rows new
    → load_by_key account key rows ≡ some o
    → (p : Operation) × (load_by_key account key new ≡ some p) × Change o p
unfolding load_by_key
Evolves-load_by_key rows new account key o e found =
    find-Evolves (has_key account key) (has_key-kept account key) rows new o e found

-- A row with the key of a request is found, perhaps changed, after any history.
pub Reach-load_by_key :
    {w w' : World} (account : String) (key : Text) (o : Operation)
    → Reach w w'
    → load_by_key account key w.operations ≡ some o
    → (p : Operation) × (load_by_key account key w'.operations ≡ some p) × Change o p
unfolding load_by_key
Reach-load_by_key {w} {w'} account key o r e =
    find-Evolves (has_key account key) (has_key-kept account key) w.operations w'.operations o
      (Reach-Evolves r) e

pub expire-load_by_key :
    (now : ℕ) (account : String) (k : Option Text) (key : Text) (rows : List Operation)
    (o : Operation)
    → load_by_key account key rows ≡ some o
    → (p : Operation) × (load_by_key account key (expire_pending now account k rows) ≡ some p)
      × Change o p
unfolding load_by_key
expire-load_by_key now account k key rows o e =
    find-Evolves (has_key account key) (has_key-kept account key) rows _ o
      (expire-Evolves now account k rows) e

pub reset-saved :
    (date_parse : Text → Number) (w : World) (i : Inputs) (p : Operation)
    → i.confirmed ≡ true
    → validate_idempotency_key i.key ≡ ok tt
    → load_by_key i.account i.key (expire_pending i.looked_at i.account (some i.key) w.operations)
      ≡ some p
    → ((reset date_parse w i).calls ≡ []) × ((reset date_parse w i).result ≡ ok p)
unfolding reset
reset-saved date_parse w i p c v e = ground arith

-- Once a row with the account and the key exists, then after any history a confirmed reset with
-- that account and key makes no call to the provider, and returns that row, moved along the status
-- graph at most.
pub reset-replay :
    (date_parse : Text → Number) {w w' : World} (i : Inputs) (o : Operation)
    → Reach w w'
    → load_by_key i.account i.key w.operations ≡ some o
    → i.confirmed ≡ true
    → validate_idempotency_key i.key ≡ ok tt
    → ((reset date_parse w' i).calls ≡ [])
      × ((p : Operation) × ((reset date_parse w' i).result ≡ ok p) × Change o p)
reset-replay date_parse {w} {w'} i o r e c v =
    let (p, found, change) = Reach-load_by_key i.account i.key o r e in
    let (q, still, change') =
      expire-load_by_key i.looked_at i.account (some i.key) i.key w'.operations p found in
    let (calls, result) = reset-saved date_parse w' i q c v still in
    (calls, (q, result, Change-trans change change'))
