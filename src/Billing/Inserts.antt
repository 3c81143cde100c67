-- ===== src/Billing/Inserts.antt =====
-- What the inserts of storeRequestEvents (control-plane/lib/request-events.ts) do to the tables.
use papi.Common.Lists.{any-append}
use papi.Common.{
  ℕ, suc, ◌≤◌, ◌<◌, ◌≡◌, refl, sym, ◌∙◌, ap, subst, String, List, [], ◌∷◌, ◌++◌, Option, none, some,
  Bool, true, false, not, ◌==◌, select, any, arith, Bool-cases, All, All-append, All-select, inl,
  inr, all,
}
use papi.Common.Result.{ok, >>=-eq-ok, guard-eq-ok}
use papi.Billing.Tables.{RequestAttempt, RequestEvent, EventRow, AttemptRow, Ledger}
use papi.Billing.Events.{
  is_stale, sweep, same_request, insert_attempts, event_row, insert_new, insert_event, push_id,
  insert_events, with_ids, key_exists, or_null, is_listed,
}

-- The ledger after rows are added to request_events, with their attempts.
abbrev pub with_rows : Ledger → List EventRow → ℕ → List AttemptRow → Ledger
with_rows l new next rows = record l { events = l.events ++ new; next_id = next; attempts = rows }

abbrev pub row_ids : List EventRow → List ℕ
row_ids [] = []
row_ids (r ∷ rows) = r.id ∷ row_ids rows

pub insert_new-ok :
    (now : ℕ) (gateway : String) (e : RequestEvent) (l : Ledger) (i : Option ℕ) (l' : Ledger)
    → insert_new now gateway e l ≡ ok (i, l')
    → (rows : List AttemptRow) × (i ≡ some l.next_id)
      × (l' ≡ with_rows l (event_row l.next_id now gateway e ∷ []) (suc l.next_id) rows)
unfolding insert_new
insert_new-ok now gateway e l i l' h =
    (let (k, rest) = guard-eq-ok (key_exists l.keys (or_null e.virtual_key_id)) _ _ h in
      let (rows, inserted, same) =
        >>=-eq-ok (insert_attempts l.next_id 0 e.attempts l.attempts) _ rest in
      (rows, cc, cc))

-- The rows that a batch adds: their numbers are at least `n`.
abbrev pub Numbered : ℕ → List EventRow → Type 0
Numbered n = All (λ r. n ≤ r.id)

-- The batch adds rows at the end of request_events, whose numbers it returns.
pub record Added (l : Ledger) (ids : List ℕ) (l' : Ledger) : Type 0 where
  pub new : List EventRow
  pub rows : List AttemptRow
  pub same : l' ≡ with_rows l new l'.next_id rows
  pub ids_same : ids ≡ row_ids new
  pub numbered : Numbered l.next_id new
  pub later : l.next_id ≤ l'.next_id
  pub below : All (λ r. r.id < l'.next_id) new

append_nil {ℓ} : {A : Type ℓ} (xs : List A) → xs ++ [] ≡ xs
append_nil [] = refl
append_nil (x ∷ xs) = ap (λ ys. x ∷ ys) (append_nil xs)

append_assoc {ℓ} : {A : Type ℓ} (xs ys zs : List A) → (xs ++ ys) ++ zs ≡ xs ++ (ys ++ zs)
append_assoc [] ys zs = refl
append_assoc (x ∷ xs) ys zs = ap (λ ws. x ∷ ws) (append_assoc xs ys zs)

row_ids-append : (xs ys : List EventRow) → row_ids (xs ++ ys) ≡ row_ids xs ++ row_ids ys
row_ids-append [] ys = refl
row_ids-append (x ∷ xs) ys = ap (λ ws. x.id ∷ ws) (row_ids-append xs ys)

Numbered-weaken : (n m : ℕ) (rows : List EventRow) → n ≤ m → Numbered m rows → Numbered n rows
Numbered-weaken n m [] le h = tt
Numbered-weaken n m (r ∷ rows) le (k, h) = (omega arith, Numbered-weaken n m rows le h)

Below-weaken :
    (n m : ℕ) (rows : List EventRow) → n ≤ m → All (λ r. r.id < n) rows → All (λ r. r.id < m) rows
Below-weaken n m [] le h = tt
Below-weaken n m (r ∷ rows) le (k, h) = (omega arith, Below-weaken n m rows le h)

Added-none : (l : Ledger) → Added l [] l
Added-none l = record {
  new = [];
  rows = l.attempts;
  same = ap (λ xs. record l { events = xs }) (sym (append_nil l.events));
  ids_same = refl;
  numbered = tt;
  later = omega arith;
  below = tt;
}

Added-one :
    (now : ℕ) (gateway : String) (e : RequestEvent) (l : Ledger) (rows : List AttemptRow)
    → Added l
        (l.next_id ∷ [])
        (with_rows l (event_row l.next_id now gateway e ∷ []) (suc l.next_id) rows)
unfolding event_row
Added-one now gateway e l rows = record {
  new = event_row l.next_id now gateway e ∷ [];
  rows = rows;
  same = refl;
  ids_same = refl;
  numbered = (omega arith, tt);
  later = omega arith;
  below = (omega arith, tt);
}

Added-trans :
    (l l1 l2 : Ledger) (ids jds : List ℕ)
    → Added l ids l1
    → Added l1 jds l2
    → Added l (ids ++ jds) l2
Added-trans l l1 l2 ids jds a b = record {
  new = a.new ++ b.new;
  rows = b.rows;
  same =
      b.same
      ∙ ap (λ k. with_rows k b.new l2.next_id b.rows) a.same
      ∙ ap (λ xs. record l { events = xs; next_id = l2.next_id; attempts = b.rows })
          (append_assoc l.events a.new b.new);
  ids_same = rw (a.ids_same, b.ids_same) (sym (row_ids-append a.new b.new));
  numbered =
      All-append (λ r. l.next_id ≤ r.id) a.new b.new a.numbered
        (Numbered-weaken l.next_id l1.next_id b.new a.later b.numbered);
  later = (let p = a.later in let q = b.later in omega arith);
  below =
      All-append (λ r. r.id < l2.next_id) a.new b.new
        (Below-weaken l1.next_id l2.next_id a.new b.later a.below) b.below;
}

pub insert_event-Added :
    (now : ℕ) (gateway : String) (e : RequestEvent) (l : Ledger) (i : Option ℕ) (l' : Ledger)
    → insert_event now gateway e l ≡ ok (i, l')
    → Added l (push_id i []) l'
unfolding insert_event
insert_event-Added now gateway e l i l' h =
    elim (Bool-cases (any (same_request gateway e.request_id) l.events)) [
      | inl dup ↦
          (let q : ok (none, l) ≡ ok (i, l') = rw dup at h in
            let s : l ≡ l' = cc in let t : none ≡ i = cc in rw (← s, ← t) (Added-none l))
      | inr new ↦
          (let (rows, s, t) = insert_new-ok now gateway e l i l' (rw new at h) in
            rw (s, t) (Added-one now gateway e l rows))
    ]

push_id-append : (i : Option ℕ) (ids : List ℕ) → push_id i [] ++ ids ≡ push_id i ids
push_id-append none ids = refl
push_id-append (some i) ids = refl

pub insert_events-Added :
    (now : ℕ) (gateway : String) (events : List RequestEvent) (l : Ledger) (ids : List ℕ)
    (l' : Ledger)
    → insert_events now gateway events l ≡ ok (ids, l')
    → Added l ids l'
unfolding insert_events
insert_events-Added now gateway [] l ids l' h =
    (let s : l ≡ l' = cc in let t : [] ≡ ids = cc in rw (← s, ← t) (Added-none l))
insert_events-Added now gateway (e ∷ events) l ids l' h =
    (let ((i, l1), first, rest) = >>=-eq-ok (insert_event now gateway e l) _ h in
      let ((jds, l2), others, last) = >>=-eq-ok (insert_events now gateway events l1) _ rest in
      let s : l2 ≡ l' = cc in
      let t : push_id i jds ≡ ids = cc in
      rw (← s, ← t, ← push_id-append i jds)
        (Added-trans l l1 l2 (push_id i []) jds (insert_event-Added now gateway e l i l1 first)
          (insert_events-Added now gateway events l1 jds l2 others)))

-- The rows with the numbers of a batch are the rows that it added.
with_ids-none :
    (ids : List ℕ) (n : ℕ) (rows : List EventRow)
    → All (λ i. n ≤ i) ids
    → All (λ r. r.id < n) rows
    → with_ids ids rows ≡ []
with_ids-none ids n [] h k = refl
with_ids-none ids n (r ∷ rows) h (b, k) = rw (absent ids h, with_ids-none ids n rows h k) refl
  where
    absent : (js : List ℕ) → All (λ i. n ≤ i) js → any (λ i. i == r.id) js ≡ false
    absent [] h = refl
    absent (j ∷ js) (a, h) = ground (arith, absent js h)

select-append {ℓ} :
    {A : Type ℓ} (p : A → Bool) (xs ys : List A) → select p (xs ++ ys) ≡ select p xs ++ select p ys
select-append p [] ys = refl
select-append p (x ∷ xs) ys = ground (arith, select-append p xs ys)

select-All {ℓ} :
    {A : Type ℓ} (p : A → Bool) (xs : List A) → All (λ x. p x ≡ true) xs → select p xs ≡ xs
select-All p [] h = refl
select-All p (x ∷ xs) (k, h) = rw k (ap (λ ys. x ∷ ys) (select-All p xs h))

own_ids :
    (before : List ℕ) (rows : List EventRow)
    → All (λ r. any (λ i. i == r.id) (before ++ row_ids rows) ≡ true) rows
own_ids before [] = tt
own_ids before (r ∷ rows) = (
  ground (arith, any-append (λ i. i == r.id) before (row_ids (r ∷ rows))),
  subst (λ ids. All (λ q. any (λ i. i == q.id) ids ≡ true) rows)
      (append_assoc before (r.id ∷ []) (row_ids rows)) (own_ids (before ++ r.id ∷ []) rows),
)

ids_at_least : (n : ℕ) (rows : List EventRow) → Numbered n rows → All (λ i. n ≤ i) (row_ids rows)
ids_at_least n [] h = tt
ids_at_least n (r ∷ rows) (k, h) = (k, ids_at_least n rows h)

-- Every stored row has a number below the next one.
abbrev pub Fresh : Ledger → Type 0
Fresh l = All (λ r. r.id < l.next_id) l.events

pub with_ids-Added :
    (l : Ledger) (ids : List ℕ) (l' : Ledger) (a : Added l ids l')
    → Fresh l
    → with_ids ids l'.events ≡ a.new
with_ids-Added l ids l' a h =
    (let p : EventRow → Bool = λ r. any (λ i. i == r.id) (row_ids a.new) in
      let old =
        with_ids-none (row_ids a.new) l.next_id l.events (ids_at_least l.next_id a.new a.numbered)
          h in
      let own = select-All p a.new (own_ids [] a.new) in
      rw (a.ids_same) (
        ap (λ k. with_ids (row_ids a.new) k.events) a.same
        ∙ select-append p l.events a.new
        ∙ ap (λ xs. xs ++ select p a.new) old
        ∙ own))

pub Fresh-Added : (l : Ledger) (ids : List ℕ) (l' : Ledger) → Added l ids l' → Fresh l → Fresh l'
Fresh-Added l ids l' a h =
    subst (λ k. All (λ r. r.id < l'.next_id) k.events) (sym a.same)
      (All-append (λ r. r.id < l'.next_id) l.events a.new
        (Below-weaken l.next_id l'.next_id l.events a.later h) a.below)

pub Fresh-sweep : (now : ℕ) (l : Ledger) → Fresh l → Fresh (sweep now l)
unfolding sweep
Fresh-sweep now l h = All-select (λ r. r.id < l.next_id) (λ r. not (is_stale now r)) l.events h

insert_attempts-listed :
    (id position : ℕ) (attempts : List RequestAttempt) (rows : List AttemptRow)
    (out : List AttemptRow)
    → insert_attempts id position attempts rows ≡ ok out
    → all (λ a. is_listed a.outcome) attempts ≡ true
unfolding insert_attempts
insert_attempts-listed id position [] rows out h = refl
insert_attempts-listed id position (a ∷ attempts) rows out h =
    (let (listed, rest) = guard-eq-ok (is_listed a.outcome) _ _ h in
      rw listed (insert_attempts-listed id (suc position) attempts _ out rest))

-- A new event is stored only when each of its attempts has one of the six outcomes that the table's
-- constraint lists; `budget_exceeded` and `concurrency_limited` are not among them.
pub insert_event-listed :
    (now : ℕ) (gateway : String) (e : RequestEvent) (l : Ledger) (i : Option ℕ) (l' : Ledger)
    → any (same_request gateway e.request_id) l.events ≡ false
    → insert_event now gateway e l ≡ ok (i, l')
    → all (λ a. is_listed a.outcome) e.attempts ≡ true
unfolding insert_event insert_new
insert_event-listed now gateway e l i l' new h =
    (let (k, rest) =
        guard-eq-ok (key_exists l.keys (or_null e.virtual_key_id)) _ _
          (rw (new, insert_event) at h) in
      let (rows, inserted, same) =
        >>=-eq-ok (insert_attempts l.next_id 0 e.attempts l.attempts) _ rest in
      insert_attempts-listed l.next_id 0 e.attempts l.attempts rows inserted)
