-- ===== src/Billing/Balances.antt =====
-- The live balances and the books: payments (control-plane/lib/webhooks.ts) and usage
-- (control-plane/lib/request-events.ts) keep each balance equal to what balance.ts computes.
use papi.Common.{
  ℕ, ◌+◌, ◌≡◌, refl, sym, ◌∙◌, ap, subst, String, List, [], ◌∷◌, ◌++◌, Bool, true, false, ◌&&◌,
  if◌then◌else◌, str_eq, str_eq_iff, any, arith, Bool-cases, All, inl, inr, ◌⊎◌, select,
}
use papi.Common.Int.{
  ℤ, pos, ◌+ℤ◌, ◌-ℤ◌, ltb_ℤ, +ℤ_zero, zero_+ℤ, -ℤ_zero, +ℤ_swap, +ℤ_assoc, -ℤ_sum,
}
use papi.Common.Result.{ok, >>=-eq-ok}
use papi.Billing.Tables.{RequestEvent, EventRow, Team, VirtualKey, Credit, Ledger}
use papi.Billing.Credits.{grant, topup, add_balance, credit_team}
use papi.Billing.Payments.{credit_team-ok}
use papi.Billing.Events.{
  is_stale, insert_events, sweep, spent, charges, debit, charge, charge_inserted, with_ids,
  store_request_events,
}
use papi.Billing.Retry.{sweep-none}
use papi.Billing.Inserts.{Added, insert_events-Added, with_ids-Added, Fresh}
use papi.Billing.Reconcile.{credited, computed}

-- The team's live balance is the one that the books give.
abbrev pub IsBooked : Ledger → Team → Type 0
IsBooked l t = t.balance_usd ≡ computed l t.id

credited-append :
    (team : String) (credits : List Credit) (c : Credit)
    → credited team (credits ++ c ∷ [])
      ≡ credited team credits +ℤ (if str_eq c.team_id team then c.delta_usd else pos 0)
unfolding credited
credited-append team [] c = elim (Bool-cases (str_eq c.team_id team)) [
  | inl hit ↦ rw hit (+ℤ_zero c.delta_usd ∙ sym (zero_+ℤ c.delta_usd))
  | inr miss ↦ rw miss (sym (+ℤ_zero (pos 0)))
]
credited-append team (d ∷ credits) c =
    go (str_eq d.team_id team) _ _ _ (credited-append team credits c)
  where
    go :
        (b : Bool) (rest old new : ℤ)
        → rest ≡ old +ℤ new
        → (if b then d.delta_usd +ℤ rest else rest) ≡ (if b then d.delta_usd +ℤ old else old) +ℤ new
    go true rest old new e = ap (λ x. d.delta_usd +ℤ x) e ∙ sym (+ℤ_assoc d.delta_usd old new)
    go false rest old new e = e

grant-computed :
    (team external : String) (delta : ℕ) (l : Ledger) (id : String)
    → computed (grant team external delta l) id
      ≡ computed l id +ℤ (if str_eq team id then pos delta else pos 0)
unfolding computed grant
grant-computed team external delta l id =
    ap (λ x. x -ℤ pos (spent l.keys id l.events))
      (credited-append id l.credits (topup team external delta))
    ∙ +ℤ_swap (credited id l.credits) (if str_eq team id then pos delta else pos 0)
        (pos (spent l.keys id l.events))

add_balance-IsBooked :
    (team external : String) (delta : ℕ) (l : Ledger) (teams : List Team)
    → All (IsBooked l) teams
    → All (IsBooked (grant team external delta l)) (add_balance team delta teams)
unfolding add_balance
add_balance-IsBooked team external delta l [] h = tt
add_balance-IsBooked team external delta l (t ∷ teams) (b, h) =
    (booked t b (Bool-cases (str_eq t.id team)), add_balance-IsBooked team external delta l teams h)
  where
    booked :
        (t : Team)
        → IsBooked l t
        → (str_eq t.id team ≡ true) ⊎ (str_eq t.id team ≡ false)
        → IsBooked
            (grant team external delta l)
            (if str_eq t.id team then record t { balance_usd = t.balance_usd +ℤ pos delta } else t)
    booked t b (inl hit) =
        (let same : str_eq team t.id ≡ true =
            ground (arith, str_eq_iff t.id team, str_eq_iff team t.id) in
          rw hit (
            ap (λ x. x +ℤ pos delta) b
            ∙ ap (λ q. computed l t.id +ℤ (if q then pos delta else pos 0)) (sym same)
            ∙ sym (grant-computed team external delta l t.id)))
    booked t b (inr miss) =
        (let same : str_eq team t.id ≡ false =
            ground (arith, str_eq_iff t.id team, str_eq_iff team t.id) in
          rw miss (
            b
            ∙ sym (+ℤ_zero (computed l t.id))
            ∙ ap (λ q. computed l t.id +ℤ (if q then pos delta else pos 0)) (sym same)
            ∙ sym (grant-computed team external delta l t.id)))

-- A payment keeps every booked balance booked: the team's balance and its credits grow together, or
-- neither does.
pub credit_team-IsBooked :
    (team external : String) (delta : ℕ) (l : Ledger) (b : Bool) (l' : Ledger)
    → All (IsBooked l) l.teams
    → credit_team team external delta l ≡ ok (b, l')
    → All (IsBooked l') l'.teams
unfolding grant
credit_team-IsBooked team external delta l b l' h e =
    elim (credit_team-ok team external delta l b l' e) [
      | inl (_, _, same) ↦ rw same h
      | inr (_, _, same) ↦ rw same (add_balance-IsBooked team external delta l l.teams h)
    ]

spent-append :
    (keys : List VirtualKey) (team : String) (xs ys : List EventRow)
    → spent keys team (xs ++ ys) ≡ spent keys team xs + spent keys team ys
unfolding spent
spent-append keys team [] ys = omega arith
spent-append keys team (x ∷ xs) ys = omega (arith, spent-append keys team xs ys)

spent_none :
    (keys : List VirtualKey) (team : String) (rows : List EventRow)
    → any (charges keys team) rows ≡ false
    → spent keys team rows ≡ 0
unfolding spent
spent_none keys team [] h = refl
spent_none keys team (r ∷ rows) h = ground (arith, spent_none keys team rows)

-- The debit takes what the rows of each team with a balance above zero cost.
debit-IsBooked :
    (l l' : Ledger) (rows : List EventRow) (teams : List Team)
    → ((id : String) → computed l' id ≡ computed l id -ℤ pos (spent l.keys id rows))
    → All (λ t. IsBooked l t × (ltb_ℤ (pos 0) t.balance_usd ≡ true)) teams
    → All (IsBooked l') (debit l.keys rows teams)
unfolding debit
debit-IsBooked l l' rows [] k h = tt
debit-IsBooked l l' rows (t ∷ teams) k ((b, above), h) =
    (booked (Bool-cases (any (charges l.keys t.id) rows)), debit-IsBooked l l' rows teams k h)
  where
    booked :
        (any (charges l.keys t.id) rows ≡ true) ⊎ (any (charges l.keys t.id) rows ≡ false)
        → IsBooked l' (
            if any (charges l.keys t.id) rows && ltb_ℤ (pos 0) t.balance_usd
            then record t { balance_usd = t.balance_usd -ℤ pos (spent l.keys t.id rows) }
            else t)
    booked (inl hit) =
        rw (hit, above) (ap (λ x. x -ℤ pos (spent l.keys t.id rows)) b ∙ sym (k t.id))
    booked (inr miss) = rw miss (
        b
        ∙ sym (-ℤ_zero (computed l t.id))
        ∙ ap (λ n. computed l t.id -ℤ pos n) (sym (spent_none l.keys t.id rows miss))
        ∙ sym (k t.id))

any_none : {A : Type 0} (p : A → Bool) (xs : List A) → select (λ x. false) xs ≡ []
any_none p [] = refl
any_none p (x ∷ xs) = any_none p xs

debit_nothing : (keys : List VirtualKey) (teams : List Team) → debit keys [] teams ≡ teams
unfolding debit
debit_nothing keys [] = refl
debit_nothing keys (t ∷ teams) = ap (λ ts. t ∷ ts) (debit_nothing keys teams)

charge_inserted-teams :
    (ids : List ℕ) (l : Ledger)
    → (charge_inserted ids l).teams ≡ debit l.keys (with_ids ids l.events) l.teams
unfolding charge_inserted charge
charge_inserted-teams [] l = sym (
    ap (λ rows. debit l.keys rows l.teams) (any_none (λ r. false) l.events)
    ∙ debit_nothing l.keys l.teams)
charge_inserted-teams (i ∷ ids) l = refl

charge_inserted-computed :
    (ids : List ℕ) (l : Ledger) (id : String) → computed (charge_inserted ids l) id ≡ computed l id
unfolding charge_inserted charge computed
charge_inserted-computed [] l id = refl
charge_inserted-computed (i ∷ ids) l id = refl

Added-computed :
    (l : Ledger) (ids : List ℕ) (l' : Ledger) (a : Added l ids l') (id : String)
    → computed l' id ≡ computed l id -ℤ pos (spent l.keys id a.new)
unfolding computed
Added-computed l ids l' a id =
    ap (λ k. credited id k.credits -ℤ pos (spent k.keys id k.events)) a.same
    ∙ ap (λ n. credited id l.credits -ℤ pos n) (spent-append l.keys id l.events a.new)
    ∙ -ℤ_sum (credited id l.credits) (spent l.keys id l.events) (spent l.keys id a.new)

-- When no row is past the thirty days and every team's balance is booked and above zero, storing a
-- batch keeps every balance booked: each team is debited by exactly what its new rows cost.
pub store_request_events-IsBooked :
    (now : ℕ) (gateway : String) (events : List RequestEvent) (l : Ledger) (n : ℕ) (l' : Ledger)
    → Fresh l
    → any (is_stale now) l.events ≡ false
    → All (λ t. IsBooked l t × (ltb_ℤ (pos 0) t.balance_usd ≡ true)) l.teams
    → store_request_events now gateway events l ≡ ok (n, l')
    → All (IsBooked l') l'.teams
unfolding store_request_events
store_request_events-IsBooked now gateway events l n l' fresh recent booked h =
    (let ((ids, next), stored, rest) =
        >>=-eq-ok (insert_events now gateway events (sweep now l)) _ h in
      let s : charge_inserted ids next ≡ l' = cc in
      let inserted : insert_events now gateway events l ≡ ok (ids, next) =
        subst (λ k. insert_events now gateway events k ≡ ok (ids, next)) (sweep-none now l recent)
          stored in
      let a = insert_events-Added now gateway events l ids next inserted in
      let teams : l'.teams ≡ debit l.keys a.new l.teams =
        ap (λ k. k.teams) (sym s)
        ∙ charge_inserted-teams ids next
        ∙ ap (λ rows. debit next.keys rows next.teams) (with_ids-Added l ids next a fresh)
        ∙ ap (λ k. debit k.keys a.new k.teams) a.same in
      let books : (id : String) → computed l' id ≡ computed l id -ℤ pos (spent l.keys id a.new) =
        λ id.
          ap (λ k. computed k id) (sym s)
          ∙ charge_inserted-computed ids next id
          ∙ Added-computed l ids next a id in
      subst (All (IsBooked l')) (sym teams) (debit-IsBooked l l' a.new l.teams books booked))
