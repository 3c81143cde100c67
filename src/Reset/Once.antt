-- ===== src/Reset/Once.antt =====
-- At most one credit for an account and a key, and none while another reset is unresolved.
use papi.Common.{
  ◌≡◌, refl, String, List, [], ◌∷◌, ◌++◌, none, some, true, false, arith, Bool-cases, inl, inr,
}
use papi.Common.Number.{Number}
use papi.Common.Text.{Text}
use papi.Reset.Table.{Operation, World, load_by_key, active_of, find_last, is_codex}
use papi.Reset.Flow.{Inputs, Outcome, reset}
use papi.Reset.Steps.{Reach}
use papi.Reset.Rows.{prepare-rows}
use papi.Reset.Asked.{
  asks, reset-Asked, expire-active, expire-fresh, new-load_by_key, finish-Evolves,
}
use papi.Reset.Replay.{Reach-load_by_key, Evolves-load_by_key}

-- What holds of a request that asked the provider to spend a credit: before it the table had no row
-- with its key and no pending or unknown row of its account, the account is a Codex account, and
-- after it the table has a row with its key.
pub record Spent (w : World) (i : Inputs) (out : Outcome) : Type 0 where
  pub confirmed : i.confirmed ≡ true
  pub unused : load_by_key i.account i.key w.operations ≡ none
  pub idle : find_last (active_of i.account) w.operations ≡ none
  pub codex : is_codex i.account w.accounts ≡ true
  pub row : Operation
  pub recorded : load_by_key i.account i.key out.world.operations ≡ some row

new-row :
    (rows table : List Operation) (account : String) (key : Text) (o : Operation)
    → o.account_id ≡ account
    → o.idempotency_key ≡ key
    → load_by_key account key rows ≡ none
    → table ≡ rows ++ o ∷ []
    → load_by_key account key table ≡ some o
new-row rows table account key o a k fresh e =
    rw (e, ← a, ← k) (new-load_by_key rows o (rw (← a, ← k) at fresh))

-- A request that asks the provider to spend a credit is confirmed, finds no row with its key and no
-- pending or unknown reset of its account, which is a Codex account, and leaves a row with its key,
-- whatever the provider answers.
pub reset-Spent :
    (date_parse : Text → Number) (w : World) (i : Inputs)
    → asks (reset date_parse w i).calls ≡ true
    → Spent w i (reset date_parse w i)
reset-Spent date_parse w i h =
    let (confirmed, fresh, asked) = reset-Asked date_parse w i h in
    elim (prepare-rows _ i.account i.key i.id i.request_id _ i.prepared_at asked.p asked.made) [
      | inl (stays, table, saved) ↦ absurd (ground (arith, asked.goes))
      | inr (goes, made, table, unused, idle, codex) ↦
          let found =
            new-row _ _ i.account i.key asked.p.operation (rw made refl) (rw made refl) unused
              table in
          let (o, recorded, change) =
            Evolves-load_by_key _ _ i.account i.key asked.p.operation
              (finish-Evolves asked.p.world asked.p.operation.id i.consume i.finished_at) found in
          record {
            confirmed = confirmed;
            unused = expire-fresh i.looked_at i.account (some i.key) i.key w.operations fresh;
            idle =
                expire-active i.looked_at i.account i.account (some i.key) w.operations
                  (expire-active i.prepared_at i.account i.account none _ idle);
            codex = codex;
            row = o;
            recorded = rw asked.ends recorded;
          }
    ]

-- Once a request has asked the provider to spend a credit, then after any later history no request
-- with the same account and key asks for one, whatever the provider answered.
pub reset_once :
    (date_parse : Text → Number) (w w' : World) (i j : Inputs)
    → asks (reset date_parse w i).calls ≡ true
    → Reach (reset date_parse w i).world w'
    → j.account ≡ i.account
    → j.key ≡ i.key
    → asks (reset date_parse w' j).calls ≡ false
reset_once date_parse w w' i j h r a k = elim (Bool-cases (asks (reset date_parse w' j).calls)) [
  | inr quiet ↦ quiet
  | inl again ↦
      let spent = reset-Spent date_parse w i h in
      let (p, found, change) = Reach-load_by_key i.account i.key spent.row r spent.recorded in
      let unused = (reset-Spent date_parse w' j again).unused in
      let clash : load_by_key i.account i.key w'.operations ≡ none = rw (a, k) at unused in cc
]
