-- ===== src/Billing/Nightly.antt =====
-- The nightly reconciliation (reconcileTeamBalances of control-plane/lib/balance.ts).
use papi.Common.{
  ℕ, ◌+◌, ◌≡◌, refl, sym, ◌∙◌, ap, String, List, [], ◌∷◌, Bool, false, not, if◌then◌else◌, select,
  arith, All, Option, none, some, str_eq, ltb, leb, ◌&&◌, Bool-cases, inl, inr,
}
use papi.Common.Int.{ℤ, pos, ◌+ℤ◌, ◌-ℤ◌, ltb_ℤ, -ℤ_back, same_no_drift}
use papi.Billing.Tables.{EventRow, Team, VirtualKey, Ledger}
use papi.Billing.Events.{is_stale, sweep, spent, team_of, is_some_of, charges}
use papi.Billing.Reconcile.{
  credited, computed, at_least_zero, drifts, reconcile_teams, drifted, count_teams,
  reconcile_team_balances,
}
use papi.Billing.Balances.{IsBooked}

reconcile_teams-again :
    (l l' : Ledger) (teams : List Team)
    → ((id : String) → computed l' id ≡ computed l id)
    → reconcile_teams l' (reconcile_teams l teams) ≡ reconcile_teams l teams
unfolding reconcile_teams
reconcile_teams-again l l' [] k = refl
reconcile_teams-again l l' (t ∷ teams) k = rw (k t.id) (
    ap (λ ts. record t { balance_usd = at_least_zero (computed l t.id) } ∷ ts)
      (reconcile_teams-again l l' teams k))

-- A second reconciliation leaves every table as the first one left it.
pub reconcile_team_balances-again :
    (l : Ledger)
    → (reconcile_team_balances (reconcile_team_balances l).1).1 ≡ (reconcile_team_balances l).1
unfolding reconcile_team_balances computed
reconcile_team_balances-again l =
    ap (λ ts. record l { teams = ts })
      (reconcile_teams-again l (record l { teams = reconcile_teams l l.teams }) l.teams
        (λ id. refl))

keep_booked :
    (t : Team) (c : ℤ)
    → t.balance_usd ≡ c
    → ltb_ℤ t.balance_usd (pos 0) ≡ false
    → record t { balance_usd = at_least_zero c } ≡ t
keep_booked t c b above =
    ap (λ x. record t { balance_usd = at_least_zero x }) (sym b)
    ∙ ap (λ q. record t { balance_usd = (if q then pos 0 else t.balance_usd) }) above

no_drift : (a b : ℤ) → a ≡ b → drifts b a ≡ false
no_drift a b e = ap (λ x. drifts x a) (sym e) ∙ ground (arith, same_no_drift a)

reconcile_booked :
    (l : Ledger) (teams : List Team)
    → All (λ t. IsBooked l t × (ltb_ℤ t.balance_usd (pos 0) ≡ false)) teams
    → (reconcile_teams l teams ≡ teams) × (drifted l teams ≡ 0)
unfolding reconcile_teams drifted
reconcile_booked l [] h = (refl, refl)
reconcile_booked l (t ∷ teams) ((b, above), h) =
    (let (same, none_drift) = reconcile_booked l teams h in
      (
        rw (same) (ap (λ u. u ∷ teams) (keep_booked t (computed l t.id) b above)),
        rw (no_drift t.balance_usd (computed l t.id) b, none_drift),
      ))

-- When every balance is booked and not below zero, the reconciliation reports no drift and changes
-- nothing.
pub reconcile_team_balances-booked :
    (l : Ledger)
    → All (λ t. IsBooked l t × (ltb_ℤ t.balance_usd (pos 0) ≡ false)) l.teams
    → reconcile_team_balances l ≡ (record { updated = count_teams l.teams; drifted = 0 }, l)
unfolding reconcile_team_balances
reconcile_team_balances-booked l h =
    (let (same, none_drift) = reconcile_booked l l.teams h in rw (same, none_drift))

spent-split :
    (keys : List VirtualKey) (team : String) (p : EventRow → Bool) (rows : List EventRow)
    → spent keys team rows
      ≡ spent keys team (select (λ r. not (p r)) rows) + spent keys team (select p rows)
unfolding spent
spent-split keys team p [] = omega arith
spent-split keys team p (r ∷ rows) = ground (arith, spent-split keys team p rows)

computed-sweep :
    (now : ℕ) (l : Ledger) (team : String)
    → computed (sweep now l) team
      ≡ computed l team +ℤ pos (spent l.keys team (select (is_stale now) l.events))
unfolding computed sweep
computed-sweep now l team =
    -ℤ_back (credited team l.credits)
      (spent l.keys team (select (λ r. not (is_stale now r)) l.events))
      (spent l.keys team (select (is_stale now) l.events))
    ∙ ap
        (λ n.
          credited team l.credits
          -ℤ pos n
          +ℤ pos (spent l.keys team (select (is_stale now) l.events)))
        (sym (spent-split l.keys team (is_stale now) l.events))

abbrev is_team : String → Option String → Bool
is_team team none = false
is_team team (some t) = str_eq t team

-- The team of the first key with an id is this one.
unfoldable pub owns : List VirtualKey → String → Option String → Bool
owns keys team none = false
owns [] team (some k) = false
owns (v ∷ keys) team (some k) =
    if str_eq v.id k then is_team team v.team_id else owns keys team (some k)

-- What the team's successful requests received more than thirty days ago have cost.
unfoldable pub old_cost : ℕ → List VirtualKey → String → List EventRow → ℕ
unfolding owns
old_cost now keys team [] = 0
old_cost now keys team (r ∷ rows) =
    if ltb (r.received_at + 2592000000) now && (r.event.succeeded && owns keys team r.key_id)
    then r.event.cost_usd + old_cost now keys team rows
    else old_cost now keys team rows

-- What its other successful requests have cost.
unfoldable pub recent_cost : ℕ → List VirtualKey → String → List EventRow → ℕ
unfolding owns
recent_cost now keys team [] = 0
recent_cost now keys team (r ∷ rows) =
    if leb now (r.received_at + 2592000000) && (r.event.succeeded && owns keys team r.key_id)
    then r.event.cost_usd + recent_cost now keys team rows
    else recent_cost now keys team rows

team_of-cons :
    (v : VirtualKey) (keys : List VirtualKey) (k : String)
    → team_of (v ∷ keys) (some k) ≡ (if str_eq v.id k then v.team_id else team_of keys (some k))
unfolding team_of
team_of-cons v keys k = elim (Bool-cases (str_eq v.id k)) [
  | inl here ↦ rw (team_of, here) refl
  | inr away ↦ rw (team_of, away) refl
]

owns-team_of :
    (keys : List VirtualKey) (team : String) (key : Option String)
    → is_some_of team (team_of keys key) ≡ owns keys team key
unfolding owns team_of
owns-team_of [] team none = refl
owns-team_of (v ∷ keys) team none = refl
owns-team_of [] team (some k) = refl
owns-team_of (v ∷ keys) team (some k) = elim (Bool-cases (str_eq v.id k)) [
  | inl here ↦ rw (team_of-cons v keys k, here) (owned team v.team_id)
  | inr away ↦ rw (team_of-cons v keys k, away) (owns-team_of keys team (some k))
]
  where
    owned : (team : String) (o : Option String) → is_some_of team o ≡ is_team team o
    owned team none = refl
    owned team (some t) = refl

spent-old_cost :
    (now : ℕ) (keys : List VirtualKey) (team : String) (rows : List EventRow)
    → spent keys team (select (is_stale now) rows) ≡ old_cost now keys team rows
unfolding spent old_cost charges is_stale
spent-old_cost now keys team [] = refl
spent-old_cost now keys team (r ∷ rows) =
    ground (arith, spent-old_cost now keys team rows, owns-team_of keys team r.key_id)

spent-recent_cost :
    (now : ℕ) (keys : List VirtualKey) (team : String) (rows : List EventRow)
    → spent keys team (select (λ r. not (is_stale now r)) rows) ≡ recent_cost now keys team rows
unfolding spent recent_cost charges is_stale
spent-recent_cost now keys team [] = refl
spent-recent_cost now keys team (r ∷ rows) =
    ground (arith, spent-recent_cost now keys team rows, owns-team_of keys team r.key_id)

computed-recent_cost :
    (now : ℕ) (l : Ledger) (team : String)
    → computed (sweep now l) team
      ≡ credited team l.credits -ℤ pos (recent_cost now l.keys team l.events)
unfolding computed sweep
computed-recent_cost now l team =
    ap (λ n. credited team l.credits -ℤ pos n) (spent-recent_cost now l.keys team l.events)

computed-old_cost :
    (now : ℕ) (l : Ledger) (team : String)
    → computed (sweep now l) team ≡ computed l team +ℤ pos (old_cost now l.keys team l.events)
computed-old_cost now l team =
    computed-sweep now l team
    ∙ ap (λ n. computed l team +ℤ pos n) (spent-old_cost now l.keys team l.events)

-- The teams with these balances, 0 for one that is below zero.
abbrev pub with_balances : (String → ℤ) → List Team → List Team
with_balances balance [] = []
with_balances balance (t ∷ teams) =
    record t { balance_usd = at_least_zero (balance t.id) } ∷ with_balances balance teams

reconcile_teams-with_balances :
    (l : Ledger) (balance : String → ℤ) (teams : List Team)
    → ((team : String) → computed l team ≡ balance team)
    → reconcile_teams l teams ≡ with_balances balance teams
unfolding reconcile_teams
reconcile_teams-with_balances l balance [] same = refl
reconcile_teams-with_balances l balance (t ∷ teams) same = rw (same t.id) (
    ap (λ ts. record t { balance_usd = at_least_zero (balance t.id) } ∷ ts)
      (reconcile_teams-with_balances l balance teams same))

-- When the reconciliation runs after the usage events older than thirty days are deleted, each team's
-- balance becomes its credits less the cost of its successful requests of the last thirty days, or 0
-- where that is below zero. So the team is given back what its older successful requests have cost:
-- the balance is what the reconciliation computes with all events, and that cost more. A request
-- belongs to the team of the key with its id.
pub sweep-refunds :
    (now : ℕ) (l : Ledger)
    → ((reconcile_team_balances (sweep now l)).1.teams
        ≡ with_balances
            (λ team. credited team l.credits -ℤ pos (recent_cost now l.keys team l.events))
            l.teams)
      × ((reconcile_team_balances (sweep now l)).1.teams
          ≡ with_balances
              (λ team. computed l team +ℤ pos (old_cost now l.keys team l.events))
              l.teams)
unfolding reconcile_team_balances sweep
sweep-refunds now l = (
  reconcile_teams-with_balances (sweep now l) _ l.teams (computed-recent_cost now l),
  reconcile_teams-with_balances (sweep now l) _ l.teams (computed-old_cost now l),
)
