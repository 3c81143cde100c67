-- ===== src/Reset/Rows.antt =====
-- The rows that each transaction of control-plane/lib/codex/quota.ts on a reset leaves.
use papi.Common.{
  ℕ, ◌≡◌, refl, ap, ◌≢◌, ◌⊎◌, String, List, [], ◌∷◌, ◌++◌, Option, none, some, Bool, true, false,
  if◌then◌else◌, find, update_where, arith, Bool-cases, Option-cases, inl, inr, not, ◌||◌, ltb,
  length,
}
use mathlib.Core.Path.{subst}
use papi.Common.Text.{Text, trim}
use papi.Common.Json.{Fields}
use papi.Common.Result.{Result, ok, or_throw-eq-ok, guard-eq-ok}
use papi.Reset.Table.{
  Status, pending, succeeded, failed, unknown, status_eq, Operation, Preflight, World, load_by_key,
  load_by_id, expires, expired, expire_pending, active_of, find_last, is_codex,
}
use papi.Reset.Actions.{
  Prepared, prepare, begin, or_same, refuse_active, started, is_pending, settled,
  update_after_dispatch, reconcile_begin, is_unknown, inconclusive, is_unknown_of, reconciled,
  Resolution, as_succeeded, as_failed, other, resolution_status, resolved, resolve_row, resolve,
}
use papi.Reset.Evolution.{IsSettled, Edge, Change, Evolves, Evolves-update}

pub pending_of : (s : Status) → status_eq s pending ≡ true → s ≡ pending
unfolding status_eq
pending_of s h = ground arith

pub unknown_of : (s : Status) → status_eq s unknown ≡ true → s ≡ unknown
unfolding status_eq
unknown_of s h = ground arith

pub Edge-unknown : (t : Status) → t ≢ pending → Edge unknown t
Edge-unknown pending h = h refl
Edge-unknown unknown h = tt
Edge-unknown succeeded h = tt
Edge-unknown failed h = tt

-- The fields that a change keeps.
pub record Keeps (o p : Operation) : Type 0 where
  id : p.id ≡ o.id
  account : p.account_id ≡ o.account_id
  key : p.idempotency_key ≡ o.idempotency_key
  request : p.upstream_request_id ≡ o.upstream_request_id
  preflight : p.preflight ≡ o.preflight

pub from_pending : (o p : Operation) → o.status ≡ pending → Keeps o p → Change o p
from_pending o p e k = record {
  id = k.id;
  account = k.account;
  key = k.key;
  request = k.request;
  preflight = k.preflight;
  edge = rw e tt;
  frozen = λ s. absurd (rw e at s);
}

pub from_unknown :
    (o p : Operation) → o.status ≡ unknown → p.status ≢ pending → Keeps o p → Change o p
from_unknown o p e ne k = record {
  id = k.id;
  account = k.account;
  key = k.key;
  request = k.request;
  preflight = k.preflight;
  edge = rw e (Edge-unknown p.status ne);
  frozen = λ s. absurd (rw e at s);
}

pub expire-Evolves :
    (now : ℕ) (account : String) (key : Option Text) (rows : List Operation)
    → Evolves rows (expire_pending now account key rows)
unfolding expire_pending
expire-Evolves now account key rows = Evolves-update (expires now account key) expired rows λ o h.
    from_pending o (expired o) (pending_of o.status (ground arith))
      (record { id = refl; account = refl; key = refl; request = refl; preflight = refl })

pub settled-Evolves :
    (id : String) (status : Status) (summary : Fields) (warning : Option String) (now : ℕ)
    (rows : List Operation)
    → Evolves rows (update_where (is_pending id) (settled status summary warning now) rows)
settled-Evolves id status summary warning now rows =
    Evolves-update (is_pending id) (settled status summary warning now) rows λ o h.
      from_pending o (settled status summary warning now o) (pending_of o.status (ground arith))
        (record { id = refl; account = refl; key = refl; request = refl; preflight = refl })

pub inconclusive-Evolves :
    (id code : String) (rows : List Operation)
    → Evolves rows (update_where (is_unknown id) (inconclusive code) rows)
inconclusive-Evolves id code rows = Evolves-update (is_unknown id) (inconclusive code) rows λ o h.
    let e = unknown_of o.status (ground arith) in
    from_unknown o (inconclusive code o) e (λ q. cc)
      (record { id = refl; account = refl; key = refl; request = refl; preflight = refl })

pub ne_pending : (c : Bool) → (if c then succeeded else unknown) ≢ pending
ne_pending true = λ e. cc
ne_pending false = λ e. cc

pub reconciled-Evolves :
    (account id : String) (c : Bool) (quota credits : Fields) (now : ℕ) (rows : List Operation)
    → Evolves rows (update_where (is_unknown_of account id) (reconciled c quota credits now) rows)
reconciled-Evolves account id c quota credits now rows =
    Evolves-update (is_unknown_of account id) (reconciled c quota credits now) rows λ o h.
      from_unknown o (reconciled c quota credits now o) (unknown_of o.status (ground arith))
        (ne_pending c)
        (record { id = refl; account = refl; key = refl; request = refl; preflight = refl })

pub resolved-Evolves :
    (account id : String) (status : Status) (note : Text) (now : ℕ) (rows : List Operation)
    → status ≢ pending
    → Evolves rows (update_where (is_unknown_of account id) (resolved status note now) rows)
resolved-Evolves account id status note now rows ne =
    Evolves-update (is_unknown_of account id) (resolved status note now) rows λ o h.
      from_unknown o (resolved status note now o) (unknown_of o.status (ground arith)) ne
        (record { id = refl; account = refl; key = refl; request = refl; preflight = refl })

pub or_same-eq-ok :
    (w : World) (o : Option Operation) (rest : Result Prepared) (p : Prepared)
    → or_same w o rest ≡ ok p
    → ((p.dispatch ≡ false) × (p.world ≡ w) × (o ≡ some p.operation)) ⊎ ((o ≡ none) × (rest ≡ ok p))
unfolding or_same
or_same-eq-ok w none rest p e = inr (refl, e)
or_same-eq-ok w (some o) rest p e = inl (ground arith, ground arith, ground arith)

pub refuse_active-eq-ok :
    (o : Option Operation) (rest : Result Prepared) (p : Prepared)
    → refuse_active o rest ≡ ok p
    → (o ≡ none) × (rest ≡ ok p)
unfolding refuse_active
refuse_active-eq-ok none rest p e = (refl, e)
refuse_active-eq-ok (some o) rest p e = cc

pub begin-eq-ok :
    (w : World) (account : String) (key : Text) (id request_id : String) (preflight : Preflight)
    (now : ℕ) (p : Prepared)
    → begin w account key id request_id preflight now ≡ ok p
    → (is_codex account w.accounts ≡ true)
      × (p.dispatch ≡ true)
      × (p.operation ≡ started account key id request_id preflight now)
      × (p.world.operations ≡ w.operations ++ p.operation ∷ [])
unfolding begin
begin-eq-ok w account key id request_id preflight now p e =
    elim (Bool-cases (is_codex account w.accounts)) [
      | inl codex ↦ (codex, ground arith, ground arith, ground arith)
      | inr foreign ↦ ground arith
    ]

-- What a prepared reset leaves: the rows after the sweep, with the new row if it dispatches.
pub prepare-rows :
    (w : World) (account : String) (key : Text) (id request_id : String) (preflight : Preflight)
    (now : ℕ) (p : Prepared)
    → prepare w account key id request_id preflight now ≡ ok p
    → let rows = expire_pending now account none w.operations in
      ((p.dispatch ≡ false)
        × (p.world.operations ≡ rows)
        × (load_by_key account key rows ≡ some p.operation))
      ⊎ ((p.dispatch ≡ true)
          × (p.operation ≡ started account key id request_id preflight now)
          × (p.world.operations ≡ rows ++ p.operation ∷ [])
          × (load_by_key account key rows ≡ none)
          × (find_last (active_of account) rows ≡ none)
          × (is_codex account w.accounts ≡ true))
unfolding prepare
prepare-rows w account key id request_id preflight now p e =
    let rows = expire_pending now account none w.operations in
    let clean = record w { operations = rows } in
    elim (or_same-eq-ok clean (load_by_key account key rows) _ p e) [
      | inl (d, same_world, saved) ↦ inl (d, ap (λ (v : World). v.operations) same_world, saved)
      | inr (fresh, e') ↦
          let (idle, e'') = refuse_active-eq-ok (find_last (active_of account) rows) _ p e' in
          let (codex, d, row, table) =
            begin-eq-ok clean account key id request_id preflight now p e'' in
          inr (d, row, table, fresh, idle, codex)
    ]

pub finished-rows :
    (w : World) (id : String) (status : Status) (summary : Fields) (warning : Option String)
    (now : ℕ) (w' : World) (o : Operation)
    → update_after_dispatch w id status summary warning now ≡ ok (w', o)
    → w'.operations ≡ update_where (is_pending id) (settled status summary warning now) w.operations
unfolding update_after_dispatch
finished-rows w id status summary warning now w' o e =
    elim (Option-cases (find (is_pending id) w.operations)) [
      | inl missing ↦ ground arith
      | inr (old, found) ↦ ground arith
    ]

pub reconcile_begun-rows :
    (w : World) (account id : String) (now : ℕ) (w' : World) (o : Operation)
    → reconcile_begin w account id now ≡ ok (w', o)
    → w'.operations ≡ expire_pending now account none w.operations
unfolding reconcile_begin
reconcile_begun-rows w account id now w' o e =
    elim (Option-cases (load_by_id account id (expire_pending now account none w.operations))) [
      | inl missing ↦ ground arith
      | inr (old, found) ↦ ground arith
    ]

pub resolution-IsSettled :
    (r : Resolution) (s : Status) → resolution_status r ≡ some s → IsSettled s
resolution-IsSettled as_succeeded s e = let q : succeeded ≡ s = cc in subst IsSettled q tt
resolution-IsSettled as_failed s e = let q : failed ≡ s = cc in subst IsSettled q tt
resolution-IsSettled other s e = cc

pub settled-ne-pending : (s : Status) → IsSettled s → s ≢ pending
settled-ne-pending s h e = rw e at h

pub resolve_row-rows :
    (w : World) (account id : String) (status : Status) (note : Text) (now : ℕ) (w' : World)
    (o : Operation)
    → resolve_row w account id status note now ≡ ok (w', o)
    → w'.operations
      ≡ update_where
          (is_unknown_of account id)
          (resolved status note now)
          (expire_pending now account none w.operations)
unfolding resolve_row
resolve_row-rows w account id status note now w' o e =
    let rows = expire_pending now account none w.operations in
    elim (Option-cases (find (is_unknown_of account id) rows)) [
      | inl missing ↦ elim (Option-cases (load_by_id account id rows)) [
        | inl gone ↦ ground arith
        | inr (old, found) ↦ ground arith
      ]
      | inr (old, found) ↦ ground arith
    ]

pub resolve-rows :
    (w : World) (account id : String) (r : Resolution) (note : Text) (now : ℕ) (w' : World)
    (o : Operation)
    → resolve w account id r note now ≡ ok (w', o)
    → (s : Status) × IsSettled s
      × (w'.operations
          ≡ update_where
              (is_unknown_of account id)
              (resolved s (trim note) now)
              (expire_pending now account none w.operations))
unfolding resolve
resolve-rows w account id r note now w' o e =
    let (s, status, e') = or_throw-eq-ok (resolution_status r) _ _ e in
    let (long, e'') =
      guard-eq-ok (not (ltb (length (trim note)) 10 || ltb 1000 (length (trim note)))) _ _ e' in
    (s, resolution-IsSettled r s status, resolve_row-rows w account id s (trim note) now w' o e'')
