-- ===== src/Billing/Retry.antt =====
-- A gateway that sends a batch of usage events again, to storeRequestEvents of
-- control-plane/lib/request-events.ts.
use papi.Common.{
  ℕ, ◌≡◌, refl, sym, ◌∙◌, ap, subst, String, List, [], ◌∷◌, Option, none, true, false, not, ◌&&◌,
  ◌==◌, str_eq_refl, select, any, arith, Bool-cases, All, inl, inr,
}
use papi.Common.Result.{ok, >>=-eq-ok}
use papi.Billing.Tables.{RequestEvent, EventRow, AttemptRow, Ledger}
use papi.Billing.Events.{
  is_stale, sweep, same_request, event_row, insert_event, insert_events, charge, charge_inserted,
  store_request_events,
}
use papi.Common.Lists.{any-append}
use papi.Billing.Inserts.{Added, insert_events-Added, insert_new-ok}

-- The table has a row for the event.
abbrev Stored : String → Ledger → RequestEvent → Type 0
Stored gateway l e = any (same_request gateway e.request_id) l.events ≡ true

insert_event-Stored :
    (now : ℕ) (gateway : String) (e : RequestEvent) (l : Ledger) (i : Option ℕ) (l' : Ledger)
    → insert_event now gateway e l ≡ ok (i, l')
    → Stored gateway l' e
unfolding insert_event event_row
insert_event-Stored now gateway e l i l' h =
    elim (Bool-cases (any (same_request gateway e.request_id) l.events)) [
      | inl dup ↦
          (let q : ok (none, l) ≡ ok (i, l') = rw dup at h in let s : l ≡ l' = cc in rw (← s) dup)
      | inr new ↦
          (let (rows, s, t) = insert_new-ok now gateway e l i l' (rw new at h) in
            rw t (
              any-append (same_request gateway e.request_id) l.events
                (event_row l.next_id now gateway e ∷ [])
              ∙ ground (arith, str_eq_refl gateway, str_eq_refl e.request_id)))
    ]

Stored-Added :
    (gateway : String) (e : RequestEvent) (l : Ledger) (ids : List ℕ) (l' : Ledger)
    → Added l ids l'
    → Stored gateway l e
    → Stored gateway l' e
Stored-Added gateway e l ids l' a h =
    subst (λ k. any (same_request gateway e.request_id) k.events ≡ true) (sym a.same)
      (any-append (same_request gateway e.request_id) l.events a.new ∙ rw h)

insert_events-Stored :
    (now : ℕ) (gateway : String) (events : List RequestEvent) (l : Ledger) (ids : List ℕ)
    (l' : Ledger)
    → insert_events now gateway events l ≡ ok (ids, l')
    → All (Stored gateway l') events
unfolding insert_events
insert_events-Stored now gateway [] l ids l' h = tt
insert_events-Stored now gateway (e ∷ events) l ids l' h =
    (let ((i, l1), first, rest) = >>=-eq-ok (insert_event now gateway e l) _ h in
      let ((jds, l2), others, last) = >>=-eq-ok (insert_events now gateway events l1) _ rest in
      let s : l2 ≡ l' = cc in
      let here = insert_event-Stored now gateway e l i l1 first in
      let kept =
        Stored-Added gateway e l1 jds l2 (insert_events-Added now gateway events l1 jds l2 others)
          here in
      (
        subst (λ k. Stored gateway k e) s kept,
        subst (λ k. All (Stored gateway k) events) s
            (insert_events-Stored now gateway events l1 jds l2 others),
      ))

insert_events-again :
    (now : ℕ) (gateway : String) (events : List RequestEvent) (l : Ledger)
    → All (Stored gateway l) events
    → insert_events now gateway events l ≡ ok ([], l)
unfolding insert_events insert_event
insert_events-again now gateway [] l h = refl
insert_events-again now gateway (e ∷ events) l (s, h) =
    rw (s, insert_events-again now gateway events l h)

-- Charging leaves the events alone.
pub charge_inserted-events : (ids : List ℕ) (l : Ledger) → (charge_inserted ids l).events ≡ l.events
unfolding charge charge_inserted
charge_inserted-events [] l = refl
charge_inserted-events (i ∷ ids) l = refl

select_none_stale :
    (now : ℕ) (rows : List EventRow)
    → any (is_stale now) rows ≡ false
    → select (λ r. not (is_stale now r)) rows ≡ rows
select_none_stale now [] h = refl
select_none_stale now (r ∷ rows) h = ground (arith, select_none_stale now rows)

no_orphan :
    (now id : ℕ) (rows : List EventRow)
    → any (is_stale now) rows ≡ false
    → any (λ r. is_stale now r && r.id == id) rows ≡ false
no_orphan now id [] h = refl
no_orphan now id (r ∷ rows) h = ground (arith, no_orphan now id rows)

keep_attempts :
    (now : ℕ) (rows : List EventRow) (attempts : List AttemptRow)
    → any (is_stale now) rows ≡ false
    → select (λ a. not (any (λ r. is_stale now r && r.id == a.request_event_id) rows)) attempts
      ≡ attempts
keep_attempts now rows [] h = refl
keep_attempts now rows (a ∷ attempts) h =
    rw (no_orphan now a.request_event_id rows h)
      (ap (λ ys. a ∷ ys) (keep_attempts now rows attempts h))

pub sweep-none : (now : ℕ) (l : Ledger) → any (is_stale now) l.events ≡ false → sweep now l ≡ l
unfolding sweep
sweep-none now l h =
    ap
      (λ xs. record l {
        events = xs;
        attempts =
            select (λ a. not (any (λ r. is_stale now r && r.id == a.request_event_id) l.events))
              l.attempts;
      })
      (select_none_stale now l.events h)
    ∙ ap (λ ys. record l { attempts = ys }) (keep_attempts now l.events l.attempts h)

-- When a batch has been stored and no row has meanwhile passed the thirty days, storing the batch
-- again inserts nothing and leaves every table as it is.
pub store_request_events-again :
    (now later : ℕ) (gateway : String) (events : List RequestEvent) (l : Ledger) (n : ℕ)
    (l' : Ledger)
    → store_request_events now gateway events l ≡ ok (n, l')
    → any (is_stale later) l'.events ≡ false
    → store_request_events later gateway events l' ≡ ok (0, l')
unfolding store_request_events charge_inserted
store_request_events-again now later gateway events l n l' h fresh =
    (let ((ids, next), inserted, rest) =
        >>=-eq-ok (insert_events now gateway events (sweep now l)) _ h in
      let s : charge_inserted ids next ≡ l' = cc in
      let same : next.events ≡ l'.events =
        sym (charge_inserted-events ids next) ∙ ap (λ k. k.events) s in
      let stored = insert_events-Stored now gateway events (sweep now l) ids next inserted in
      let again = insert_events-again later gateway events l' (
        subst (λ rows. All (λ e. any (same_request gateway e.request_id) rows ≡ true) events) same
          stored) in
      rw (sweep-none later l' fresh, again))
