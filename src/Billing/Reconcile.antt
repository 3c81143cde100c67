-- ===== src/Billing/Reconcile.antt =====
-- reconcileTeamBalances of control-plane/lib/balance.ts: every team's balance is computed again from
-- the credits and the stored usage. A difference of one millionth of a dollar, which the source
-- compares in floating point, is no drift here.
use papi.Common.{ℕ, suc, ◌+◌, String, List, [], ◌∷◌, Bool, if◌then◌else◌, str_eq, ◌||◌}
use papi.Common.Int.{ℤ, pos, ◌+ℤ◌, ◌-ℤ◌, ltb_ℤ}
use papi.Billing.Tables.{Team, Credit, Ledger}
use papi.Billing.Events.{spent}

-- `sum(ct.delta_usd)` of a team.
unfoldable pub credited : String → List Credit → ℤ
credited team [] = pos 0
credited team (c ∷ credits) =
    if str_eq c.team_id team then c.delta_usd +ℤ credited team credits else credited team credits

unfoldable pub computed : Ledger → String → ℤ
unfolding credited
computed l team = credited team l.credits -ℤ pos (spent l.keys team l.events)

-- `Math.max(computed, 0)`
abbrev pub at_least_zero : ℤ → ℤ
at_least_zero a = if ltb_ℤ a (pos 0) then pos 0 else a

-- `Math.abs(computed - live) > 1e-6`
abbrev pub drifts : ℤ → ℤ → Bool
drifts a b = ltb_ℤ (pos 1) (a -ℤ b) || ltb_ℤ (pos 1) (b -ℤ a)

unfoldable pub reconcile_teams : Ledger → List Team → List Team
unfolding computed
reconcile_teams l [] = []
reconcile_teams l (t ∷ teams) =
    record t { balance_usd = at_least_zero (computed l t.id) } ∷ reconcile_teams l teams

unfoldable pub drifted : Ledger → List Team → ℕ
unfolding computed
drifted l [] = 0
drifted l (t ∷ teams) = (if drifts (computed l t.id) t.balance_usd then 1 else 0) + drifted l teams

pub record Report : Type 0 where
  pub updated : ℕ
  pub drifted : ℕ

abbrev pub count_teams : List Team → ℕ
count_teams [] = 0
count_teams (t ∷ teams) = suc (count_teams teams)

unfoldable pub reconcile_team_balances : Ledger → Report × Ledger
unfolding reconcile_teams drifted
reconcile_team_balances l = (
  record { updated = count_teams l.teams; drifted = drifted l l.teams },
  record l { teams = reconcile_teams l l.teams },
)
