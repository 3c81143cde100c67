-- ===== src/Reset/Invariant.antt =====
-- What holds of the reset table after any history: one unresolved reset for an account, one row for
-- a key, and the time columns that go with each status.
use papi.Common.{
  ℕ, ◌≤◌, ◌≡◌, sym, ◌∙◌, String, List, [], ◌∷◌, ◌++◌, Option, none, Bool, true, str_eq_iff, arith,
  inl, inr, length, length-update_where, All, &&_split,
}
use papi.Common.Text.{Text, same_iff, trim}
use papi.Reset.Table.{
  Operation, World, has_key, load_by_key, expires, expired, expire_pending, active_of, find_last,
}
use papi.Reset.Actions.{
  is_pending, settled, is_unknown, inconclusive, reconcile_failed, is_unknown_of, reconciled,
  reconcile_commit, resolved,
}
use papi.Reset.Evolution.{Change, Evolves}
use papi.Reset.Steps.{
  Step, expire, prepared, finished, reconcile_begun, reconcile_unread, reconcile_done,
  resolved_by_hand, Reach, here, next, Step-Evolves,
}
use papi.Reset.Rows.{
  expire-Evolves, prepare-rows, finished-rows, reconcile_begun-rows, resolve-rows,
}
use papi.Reset.Counts.{
  count, count-append, count-Evolves, count-find_last, count-find, active_of-back, has_key-kept,
}
use papi.Reset.Shapes.{IsShaped, Step-IsShaped}

pub record Inv (w : World) : Type 0 where
  pub one_active : (account : String) → count (active_of account) w.operations ≤ 1
  pub one_per_key : (account : String) (key : Text) → count (has_key account key) w.operations ≤ 1
  pub shapes : All IsShaped w.operations

-- Every step but a dispatching reset keeps the number of rows; that one sweeps and adds one row.
pub data Grows (rows new : List Operation) : Type 0 where
  level : length new ≡ length rows → Grows rows new
  more :
      (swept : List Operation) (o : Operation)
      → length swept ≡ length rows
      → Evolves rows swept
      → new ≡ swept ++ o ∷ []
      → find_last (active_of o.account_id) swept ≡ none
      → load_by_key o.account_id o.idempotency_key swept ≡ none
      → Grows rows new

length-expire :
    (now : ℕ) (account : String) (key : Option Text) (rows : List Operation)
    → length (expire_pending now account key rows) ≡ length rows
unfolding expire_pending
length-expire now account key rows = length-update_where (expires now account key) expired rows

Step-Grows : {w w' : World} → Step w w' → Grows w.operations w'.operations
Step-Grows {w} (expire now account key) = level (length-expire now account key w.operations)
Step-Grows {w} (prepared account key id request_id preflight now p e) =
    let kept = length-expire now account none w.operations in
    elim (prepare-rows w account key id request_id preflight now p e) [
      | inl (d, table, saved) ↦ level (rw table kept)
      | inr (d, row, table, fresh, idle, codex) ↦
          more (expire_pending now account none w.operations) p.operation kept
            (expire-Evolves now account none w.operations) table (rw row idle) (rw row fresh)
    ]
Step-Grows {w} (finished id status summary warning now w' o ne e) = level (
    rw (finished-rows w id status summary warning now w' o e)
      (length-update_where (is_pending id) (settled status summary warning now) w.operations))
Step-Grows {w} (reconcile_begun account id now w' o e) = level (
    rw (reconcile_begun-rows w account id now w' o e) (length-expire now account none w.operations))
Step-Grows {w} (reconcile_unread id code) = level (
    unfold reconcile_failed in length-update_where (is_unknown id) (inconclusive code) w.operations)
Step-Grows {w} (reconcile_done account id c quota credits now) = level (
    unfold reconcile_commit in
    length-update_where (is_unknown_of account id) (reconciled c quota credits now) w.operations)
Step-Grows {w} (resolved_by_hand account id r note now w' o e) =
    let (s, ne, table) = resolve-rows w account id r note now w' o e in
    level (
      rw table (
        length-update_where (is_unknown_of account id) (resolved s (trim note) now) _
        ∙ length-expire now account none w.operations))

-- A count that is at most one stays so, if a new row that qualifies finds no other.
grown-count :
    (P : Operation → Bool) (rows new : List Operation)
    → ((o p : Operation) → Change o p → P p ≡ true → P o ≡ true)
    → Evolves rows new
    → ((swept : List Operation) (o : Operation)
        → find_last (active_of o.account_id) swept ≡ none
        → load_by_key o.account_id o.idempotency_key swept ≡ none
        → P o ≡ true
        → count P swept ≡ 0)
    → Grows rows new
    → count P rows ≤ 1
    → count P new ≤ 1
unfolding count
grown-count P rows new back e alone (level n) h = omega (arith, count-Evolves P back rows new e n)
grown-count P rows new back e alone (more swept o n es table idle fresh) h = rw table (
    ground (
      arith,
      count-append P swept (o ∷ []),
      count-Evolves P back rows swept es n,
      alone swept o idle fresh,
    ))

one_active-kept :
    (account : String) (rows new : List Operation)
    → Evolves rows new
    → Grows rows new
    → count (active_of account) rows ≤ 1
    → count (active_of account) new ≤ 1
one_active-kept account rows new e g h =
    grown-count (active_of account) rows new (active_of-back account) e
      (λ swept o idle fresh hit.
        let same_account = (str_eq_iff o.account_id account).0 (&&_split _ _ hit).0 in
        count-find_last (active_of account) swept (rw same_account at idle))
      g h

one_per_key-kept :
    (account : String) (key : Text) (rows new : List Operation)
    → Evolves rows new
    → Grows rows new
    → count (has_key account key) rows ≤ 1
    → count (has_key account key) new ≤ 1
unfolding load_by_key
one_per_key-kept account key rows new e g h =
    grown-count (has_key account key) rows new
      (λ o p c hit. sym (has_key-kept account key o p c) ∙ hit) e
      (λ swept o idle fresh hit.
        let (a, k) = &&_split _ _ hit in
        let same_account = (str_eq_iff o.account_id account).0 a in
        let same_key = (same_iff o.idempotency_key key).0 k in
        count-find (has_key account key) swept (rw (same_account, same_key) at fresh))
      g h

pub Step-Inv : {w w' : World} → Step w w' → Inv w → Inv w'
Step-Inv {w} {w'} st v = record {
  one_active = λ account.
      one_active-kept account w.operations w'.operations (Step-Evolves st) (Step-Grows st)
        (v.one_active account);
  one_per_key = λ account key.
      one_per_key-kept account key w.operations w'.operations (Step-Evolves st) (Step-Grows st)
        (v.one_per_key account key);
  shapes = Step-IsShaped st v.shapes;
}

-- After any interleaving of the transactions of any number of requests, starting from a table that
-- satisfies the invariant (an empty one does): no account has two resets that are pending or
-- unknown, no account has two rows with one key, a row has a lease exactly while it is pending, and
-- a completion time exactly once it is settled.
pub Reach-Inv : {w w' : World} → Reach w w' → Inv w → Inv w'
Reach-Inv here v = v
Reach-Inv (next r st) v = Step-Inv st (Reach-Inv r v)
