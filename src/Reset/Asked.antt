-- ===== src/Reset/Asked.antt =====
-- Where a request to reset a quota asks the provider to spend a credit, and what it leaves then.
use papi.Common.{
  ℕ, ◌≡◌, refl, ◌∙◌, ◌≢◌, String, List, [], ◌∷◌, ◌++◌, Option, none, some, Bool, true, false,
  find-append, update_where, arith, Bool-cases, Option-cases, inl, inr, str_eq_refl,
}
use papi.Common.Number.{Number}
use papi.Common.Text.{Text, same_iff}
use papi.Common.Json.{Fields}
use papi.Common.Result.{Result, ok, err, Thrown, api, guard, >>=-eq-ok}
use papi.Reset.Table.{
  Status, pending, succeeded, failed, unknown, Operation, World, has_key, load_by_key, expires,
  expired, expire_pending, active_of, find_last,
}
use papi.Reset.Checks.{
  validate_idempotency_key, require_available_credit, object_data, conclusive_reset_failure,
}
use papi.Reset.Actions.{Prepared, prepare, update_after_dispatch}
use papi.Reset.Flow.{
  Kind, read_usage, list_reset_credits, consume_reset_credit, Answer, readings, Inputs, Outcome,
  all_calls, commit, or_settle, failure_update, success_update, finish, after_prepare,
  after_readings, unless_saved, or_refuse, reset,
}
use papi.Reset.Evolution.{Evolves, Evolves-refl}
use papi.Reset.Steps.{finished, Step-Evolves}
use papi.Reset.Rows.{pending_of}
use papi.Reset.Replay.{expire-load_by_key}

abbrev pub asks : List Kind → Bool
asks [] = false
asks (consume_reset_credit ∷ calls) = true
asks (read_usage ∷ calls) = asks calls
asks (list_reset_credits ∷ calls) = asks calls

readings-asks : (usage credits : Answer) → asks (readings usage credits).0 ≡ false
unfolding readings
readings-asks (err e) credits = refl
readings-asks (ok usage) credits = refl

after_prepare-asks :
    (w : World) (i : Inputs) (r : Result Prepared)
    → asks (after_prepare w i r).calls ≡ true
    → (p : Prepared) × (r ≡ ok p)
      × (p.dispatch ≡ true)
      × (after_prepare w i r ≡ finish p.world p.operation.id i.consume i.finished_at)
unfolding after_prepare
after_prepare-asks w i (err e) h = cc
after_prepare-asks w i (ok p) h = elim (Bool-cases p.dispatch) [
  | inl goes ↦ (p, refl, goes, rw goes)
  | inr stays ↦ ground arith
]

-- The state at the middle transaction of a reset that asks for a credit.
pub record Asked (date_parse : Text → Number) (w : World) (i : Inputs) (out : Outcome)
    : Type 0 where
  pub quota : Fields
  pub credits : Fields
  pub available : require_available_credit date_parse i.checked_at credits ≡ ok tt
  pub p : Prepared
  pub made :
      prepare w i.account i.key i.id i.request_id
        (record { quota = quota; reset_credits = credits })
        i.prepared_at
      ≡ ok p
  pub goes : p.dispatch ≡ true
  pub ends : out ≡ finish p.world p.operation.id i.consume i.finished_at

or_refuse-asks :
    (r : Result (Unit {0})) (w : World) (calls : List Kind) (rest : Outcome)
    → asks calls ≡ false
    → asks (or_refuse r w calls rest).calls ≡ true
    → (r ≡ ok tt) × (or_refuse r w calls rest ≡ rest) × (asks rest.calls ≡ true)
unfolding or_refuse
or_refuse-asks (err e) w calls rest quiet h = cc
or_refuse-asks (ok u) w calls rest quiet h = (refl, refl, h)

unless_saved-asks :
    (w : World) (o : Option Operation) (rest : Outcome)
    → asks (unless_saved w o rest).calls ≡ true
    → (o ≡ none) × (unless_saved w o rest ≡ rest) × (asks rest.calls ≡ true)
unfolding unless_saved
unless_saved-asks w (some o) rest h = cc
unless_saved-asks w none rest h = (refl, refl, h)

after_readings-asks :
    (date_parse : Text → Number) (w : World) (i : Inputs)
    (r : List Kind × Result (Fields × Fields × Option String))
    → asks r.0 ≡ false
    → asks (after_readings date_parse w i r).calls ≡ true
    → Asked date_parse w i (after_readings date_parse w i r)
unfolding after_readings
after_readings-asks date_parse w i (calls, err e) quiet h = cc
after_readings-asks date_parse w i (calls, ok (quota, credits, warning)) quiet h =
    let (available, through, h') = or_refuse-asks _ w calls _ quiet h in
    let (p, made, goes, ends) = after_prepare-asks w i _ h' in
    record {
      quota = quota;
      credits = credits;
      available = available;
      p = p;
      made = made;
      goes = goes;
      ends = through ∙ ends;
    }

commit-Evolves :
    (w : World) (calls : List Kind) (r : Result (World × Operation))
    → ((w' : World) (o : Operation) → r ≡ ok (w', o) → Evolves w.operations w'.operations)
    → Evolves w.operations (commit w calls r).world.operations
commit-Evolves w calls (ok (w', o)) h = h w' o refl
commit-Evolves w calls (err e) h = Evolves-refl w.operations

update-Evolves :
    (w : World) (id : String) (status : Status) (summary : Fields) (warning : Option String)
    (now : ℕ) (w' : World) (o : Operation)
    → status ≢ pending
    → update_after_dispatch w id status summary warning now ≡ ok (w', o)
    → Evolves w.operations w'.operations
update-Evolves w id status summary warning now w' o ne e =
    Step-Evolves (finished id status summary warning now w' o ne e)

failure_update-Evolves :
    (w : World) (id : String) (e : Thrown) (now : ℕ) (w' : World) (o : Operation)
    → failure_update w id e now ≡ ok (w', o)
    → Evolves w.operations w'.operations
unfolding failure_update
failure_update-Evolves w id e now w' o q = elim (Bool-cases (conclusive_reset_failure e)) [
  | inl sure ↦ update-Evolves w id failed _ _ now w' o (λ x. cc) (rw (sure, failure_update) at q)
  | inr doubt ↦ update-Evolves w id unknown _ _ now w' o (λ x. cc) (rw (doubt, failure_update) at q)
]

success_update-Evolves :
    (w : World) (id : String) (consume : Answer) (now : ℕ) (w' : World) (o : Operation)
    → success_update w id consume now ≡ ok (w', o)
    → Evolves w.operations w'.operations
unfolding success_update
success_update-Evolves w id consume now w' o e =
    let (reply, answered, e') = >>=-eq-ok consume _ e in
    let (provider, object, e'') =
      >>=-eq-ok (object_data reply.content "provider_operation_invalid_response") _ e' in
    update-Evolves w id succeeded _ reply.warning_code now w' o (λ x. cc) e''

or_settle-Evolves :
    (w : World) (id : String) (now : ℕ) (r : Result (World × Operation))
    → ((w' : World) (o : Operation) → r ≡ ok (w', o) → Evolves w.operations w'.operations)
    → Evolves w.operations (or_settle w id now r).world.operations
unfolding or_settle
or_settle-Evolves w id now (ok r) h = commit-Evolves w all_calls (ok r) h
or_settle-Evolves w id now (err e) h =
    commit-Evolves w all_calls (failure_update w id e now) (failure_update-Evolves w id e now)

pub finish-Evolves :
    (w : World) (id : String) (consume : Answer) (now : ℕ)
    → Evolves w.operations (finish w id consume now).world.operations
unfolding finish
finish-Evolves w id consume now =
    or_settle-Evolves w id now (success_update w id consume now)
      (success_update-Evolves w id consume now)

-- The sweep keeps which rows are active.
find_last-update :
    (P q : Operation → Bool) (f : Operation → Operation) (rows : List Operation)
    → ((o : Operation) → q o ≡ true → P (f o) ≡ P o)
    → find_last P (update_where q f rows) ≡ none
    → find_last P rows ≡ none
unfolding find_last
find_last-update P q f [] h e = refl
find_last-update P q f (o ∷ rows) h e = elim (Option-cases (find_last P (update_where q f rows))) [
  | inr (p, found) ↦ ground arith
  | inl nothing ↦
      let rest = find_last-update P q f rows h nothing in
      elim (Bool-cases (q o)) [ inl hit ↦ ground (arith, h o hit) | inr miss ↦ ground arith ]
]

pub expire-active :
    (now : ℕ) (account a : String) (k : Option Text) (rows : List Operation)
    → find_last (active_of a) (expire_pending now account k rows) ≡ none
    → find_last (active_of a) rows ≡ none
unfolding expire_pending
expire-active now account a k rows =
    find_last-update (active_of a) (expires now account k) expired rows
      λ o h. let e = pending_of o.status (ground arith) in rw e refl

pub expire-fresh :
    (now : ℕ) (account : String) (k : Option Text) (key : Text) (rows : List Operation)
    → load_by_key account key (expire_pending now account k rows) ≡ none
    → load_by_key account key rows ≡ none
expire-fresh now account k key rows e = elim (Option-cases (load_by_key account key rows)) [
  | inl nothing ↦ nothing
  | inr (o, found) ↦
      let (p, still, change) = expire-load_by_key now account k key rows o found in cc
]

pub new-load_by_key :
    (rows : List Operation) (o : Operation)
    → load_by_key o.account_id o.idempotency_key rows ≡ none
    → load_by_key o.account_id o.idempotency_key (rows ++ o ∷ []) ≡ some o
unfolding load_by_key
new-load_by_key rows o e =
    find-append (has_key o.account_id o.idempotency_key) rows (o ∷ []) e
    ∙ rw (str_eq_refl o.account_id, (same_iff o.idempotency_key o.idempotency_key).1 refl) refl

pub reset-Asked :
    (date_parse : Text → Number) (w : World) (i : Inputs)
    → asks (reset date_parse w i).calls ≡ true
    → (i.confirmed ≡ true)
      × (load_by_key i.account i.key
            (expire_pending i.looked_at i.account (some i.key) w.operations)
          ≡ none)
      × Asked date_parse
          (record w { operations = expire_pending i.looked_at i.account (some i.key) w.operations })
          i
          (reset date_parse w i)
unfolding reset
reset-Asked date_parse w i h =
    let rows = expire_pending i.looked_at i.account (some i.key) w.operations in
    let looked = record w { operations = rows } in
    let (sure, e, h') =
      or_refuse-asks (guard i.confirmed (api 400 "quota_reset_confirmation_required")) w [] _ refl
        h in
    let (valid, e', h'') = or_refuse-asks (validate_idempotency_key i.key) w [] _ refl h' in
    let (fresh, e'', asked) = unless_saved-asks looked (load_by_key i.account i.key rows) _ h'' in
    let at =
      after_readings-asks date_parse looked i (readings i.usage i.credits)
        (readings-asks i.usage i.credits) asked in
    (ground arith, fresh, rw (e ∙ e' ∙ e'') at)
