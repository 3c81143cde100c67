-- ===== src/Reset/Outcomes.antt =====
-- What a reset, a reconciliation and a refresh leave behind for each answer of the provider.
use papi.Common.{
  ℕ, ◌≡◌, refl, String, Option, none, some, if◌then◌else◌, find, arith, Bool-cases, inl, inr,
}
use papi.Common.Number.{Number}
use papi.Common.Text.{Text, codes}
use papi.Common.Json.{Fields, get}
use papi.Common.Result.{Result, ok, err, Thrown, api, ◌>>=◌}
use papi.Reset.Table.{Status, succeeded, failed, unknown, Operation, World}
use papi.Reset.Checks.{
  object_data, conclusive_reset_failure, require_available_credit, credit_expiry,
}
use papi.Reset.Actions.{is_pending, update_after_dispatch}
use papi.Reset.Flow.{
  Reply, Answer, failure_update, success_update, or_settle, finish, consumed_summary,
}

-- The status that an answer to the consuming call stands for.
verdict_of : Result Fields → Status
verdict_of (ok provider) = succeeded
verdict_of (err e) = if conclusive_reset_failure e then failed else unknown

pub verdict : Answer → Status
unfolding verdict_of
verdict consume =
    verdict_of
      (consume >>= λ reply. object_data reply.content "provider_operation_invalid_response")

update-status :
    (w : World) (id : String) (s : Status) (summary : Fields) (warning : Option String) (now : ℕ)
    (o : Operation)
    → find (is_pending id) w.operations ≡ some o
    → (w' : World) × (p : Operation) × (update_after_dispatch w id s summary warning now
        ≡ ok (w', p))
      × (p.status ≡ s)
      × (p.id ≡ o.id)
unfolding update_after_dispatch
update-status w id s summary warning now o e = rw e (_, _, refl, refl, refl)

failure-status :
    (w : World) (id : String) (e : Thrown) (now : ℕ) (o : Operation)
    → find (is_pending id) w.operations ≡ some o
    → (w' : World) × (p : Operation) × (failure_update w id e now ≡ ok (w', p))
      × (p.status ≡ (if conclusive_reset_failure e then failed else unknown))
      × (p.id ≡ o.id)
unfolding failure_update
failure-status w id e now o found = elim (Bool-cases (conclusive_reset_failure e)) [
  | inl sure ↦ rw sure (update-status w id failed _ _ now o found)
  | inr doubt ↦ rw doubt (update-status w id unknown _ _ now o found)
]

or_settle-ok :
    (w : World) (id : String) (now : ℕ) (r : Result (World × Operation)) (w' : World)
    (p : Operation)
    → r ≡ ok (w', p)
    → (or_settle w id now r).result ≡ ok p
unfolding or_settle
or_settle-ok w id now r w' p e = rw e

or_settle-err :
    (w : World) (id : String) (now : ℕ) (r : Result (World × Operation)) (e : Thrown)
    (o : Operation)
    → r ≡ err e
    → find (is_pending id) w.operations ≡ some o
    → (p : Operation) × ((or_settle w id now r).result ≡ ok p)
      × (p.status ≡ (if conclusive_reset_failure e then failed else unknown))
      × (p.id ≡ o.id)
unfolding or_settle
or_settle-err w id now r e o q found =
    let (w', p, done, status, same) = failure-status w id e now o found in
    (p, rw (q, or_settle, done) refl, status, same)

finish-object :
    (w : World) (id : String) (reply : Reply) (now : ℕ) (o : Operation) (r : Result Fields)
    → find (is_pending id) w.operations ≡ some o
    → object_data reply.content "provider_operation_invalid_response" ≡ r
    → (p : Operation) × ((finish w id (ok reply) now).result ≡ ok p)
      × (p.status ≡ verdict_of r)
      × (p.id ≡ o.id)
unfolding finish success_update verdict_of
finish-object w id reply now o (ok provider) found q =
    let (w', p, done, status, same) =
      update-status w id succeeded (consumed_summary provider) reply.warning_code now o found in
    let whole : success_update w id (ok reply) now ≡ ok (w', p) = rw q done in
    (p, or_settle-ok w id now _ w' p whole, status, same)
finish-object w id reply now o (err e) found q =
    let whole : success_update w id (ok reply) now ≡ err e = rw q refl in
    or_settle-err w id now _ e o whole found

-- Where the row is still pending when the answer to the consuming call comes, the request returns
-- it with the answer's verdict: succeeded for an object, failed for an error that rules the
-- consumption out, and unknown for everything else.
pub finish-verdict :
    (w : World) (id : String) (consume : Answer) (now : ℕ) (o : Operation)
    → find (is_pending id) w.operations ≡ some o
    → (p : Operation) × ((finish w id consume now).result ≡ ok p)
      × (p.status ≡ verdict consume)
      × (p.id ≡ o.id)
unfolding finish success_update verdict
finish-verdict w id (err e) now o found = or_settle-err w id now _ e o refl found
finish-verdict w id (ok reply) now o found =
    finish-object w id reply now o (object_data reply.content "provider_operation_invalid_response")
      found refl

-- A credit whose expiry is missing, or is no text, is never taken for available, although the
-- default for it is a time that never comes.
pub credit_without_expiry :
    (date_parse : Text → Number) (now : ℕ) (credits : Fields)
    → credit_expiry date_parse (get (codes "next_expires_at") credits) ≡ none
    → require_available_credit date_parse now credits
      ≡ err (api 409 "quota_reset_credit_unavailable")
unfolding require_available_credit
credit_without_expiry date_parse now credits h = ground arith
