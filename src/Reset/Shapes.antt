-- ===== src/Reset/Shapes.antt =====
-- The time columns that go with each status of a reset, after every step.
use papi.Common.{
  ℕ, ◌≡◌, refl, ◌≢◌, String, List, Option, none, some, Bool, true, false, update_where, arith, inl,
  inr, All, All-append, All-update_where, is_some,
}
use papi.Common.Text.{Text, trim}
use papi.Common.Json.{Fields}
use papi.Reset.Table.{
  Status, pending, succeeded, failed, unknown, Operation, World, expires, expired, expire_pending,
}
use papi.Reset.Actions.{
  completion, is_pending, settled, is_unknown, inconclusive, reconcile_failed, is_unknown_of,
  reconciled, reconcile_commit, resolved,
}
use papi.Reset.Evolution.{IsSettled}
use papi.Reset.Steps.{
  Step, expire, prepared, finished, reconcile_begun, reconcile_unread, reconcile_done,
  resolved_by_hand,
}
use papi.Reset.Rows.{
  pending_of, unknown_of, prepare-rows, finished-rows, reconcile_begun-rows, resolve-rows,
}

-- The columns that go with a status: a lease on a pending row only, and a completion time on a
-- settled row only.
abbrev pub Shape : Status → Option ℕ → Option ℕ → Type 0
Shape pending lease done = (is_some lease ≡ true) × (done ≡ none)
Shape unknown lease done = (lease ≡ none) × (done ≡ none)
Shape succeeded lease done = (lease ≡ none) × (is_some done ≡ true)
Shape failed lease done = (lease ≡ none) × (is_some done ≡ true)

abbrev pub IsShaped : Operation → Type 0
IsShaped o = Shape o.status o.lease_expires_at o.completed_at

pub expire-IsShaped :
    (now : ℕ) (account : String) (key : Option Text) (rows : List Operation)
    → All IsShaped rows
    → All IsShaped (expire_pending now account key rows)
unfolding expire_pending
expire-IsShaped now account key rows h =
    All-update_where IsShaped (expires now account key) expired rows
      (λ o hit s. let e = pending_of o.status (ground arith) in (refl, (rw e at s).1)) h

pub settled-IsShaped :
    (id : String) (status : Status) (summary : Fields) (warning : Option String) (now : ℕ)
    (rows : List Operation)
    → status ≢ pending
    → All IsShaped rows
    → All IsShaped (update_where (is_pending id) (settled status summary warning now) rows)
settled-IsShaped id status summary warning now rows ne h =
    All-update_where IsShaped (is_pending id) (settled status summary warning now) rows
      (λ o hit s. shape status ne) h
  where
    shape : (t : Status) → t ≢ pending → Shape t none (completion t now)
    shape pending n = absurd (n refl)
    shape unknown n = (refl, refl)
    shape succeeded n = (refl, refl)
    shape failed n = (refl, refl)

pub reconciled-IsShaped :
    (account id : String) (c : Bool) (quota credits : Fields) (now : ℕ) (rows : List Operation)
    → All IsShaped rows
    → All IsShaped (update_where (is_unknown_of account id) (reconciled c quota credits now) rows)
reconciled-IsShaped account id c quota credits now rows h =
    All-update_where IsShaped (is_unknown_of account id) (reconciled c quota credits now) rows
      (λ o hit s. shape c o (rw (unknown_of o.status (ground arith)) at s)) h
  where
    shape :
        (b : Bool) (o : Operation)
        → Shape unknown o.lease_expires_at o.completed_at
        → IsShaped (reconciled b quota credits now o)
    shape true o s = (refl, refl)
    shape false o s = (refl, s.1)

pub resolved-IsShaped :
    (account id : String) (status : Status) (note : Text) (now : ℕ) (rows : List Operation)
    → IsSettled status
    → All IsShaped rows
    → All IsShaped (update_where (is_unknown_of account id) (resolved status note now) rows)
resolved-IsShaped account id status note now rows ne h =
    All-update_where IsShaped (is_unknown_of account id) (resolved status note now) rows
      (λ o hit s. shape status ne) h
  where
    shape : (t : Status) → IsSettled t → Shape t none (some now)
    shape succeeded n = (refl, refl)
    shape failed n = (refl, refl)
    shape pending n = elim n [ ]
    shape unknown n = elim n [ ]

pub inconclusive-IsShaped :
    (id code : String) (rows : List Operation)
    → All IsShaped rows
    → All IsShaped (update_where (is_unknown id) (inconclusive code) rows)
inconclusive-IsShaped id code rows h =
    All-update_where IsShaped (is_unknown id) (inconclusive code) rows (λ o hit s. s) h

pub Step-IsShaped :
    {w w' : World} → Step w w' → All IsShaped w.operations → All IsShaped w'.operations
Step-IsShaped {w} (expire now account key) h = expire-IsShaped now account key w.operations h
Step-IsShaped {w} (prepared account key id request_id preflight now p e) h =
    let kept = expire-IsShaped now account none w.operations h in
    elim (prepare-rows w account key id request_id preflight now p e) [
      | inl (d, table, saved) ↦ rw table kept
      | inr (d, row, table, fresh, idle, codex) ↦
          rw (table, row) (All-append IsShaped _ _ kept ((refl, refl), tt))
    ]
Step-IsShaped {w} (finished id status summary warning now w' o ne e) h =
    rw (finished-rows w id status summary warning now w' o e)
      (settled-IsShaped id status summary warning now w.operations ne h)
Step-IsShaped {w} (reconcile_begun account id now w' o e) h =
    rw (reconcile_begun-rows w account id now w' o e)
      (expire-IsShaped now account none w.operations h)
Step-IsShaped {w} (reconcile_unread id code) h =
    unfold reconcile_failed in inconclusive-IsShaped id code w.operations h
Step-IsShaped {w} (reconcile_done account id c quota credits now) h =
    unfold reconcile_commit in reconciled-IsShaped account id c quota credits now w.operations h
Step-IsShaped {w} (resolved_by_hand account id r note now w' o e) h =
    let (s, ne, table) = resolve-rows w account id r note now w' o e in
    rw table (
      resolved-IsShaped account id s (trim note) now _ ne
        (expire-IsShaped now account none w.operations h))
