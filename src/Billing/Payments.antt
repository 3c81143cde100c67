-- ===== src/Billing/Payments.antt =====
-- What the Paddle webhook (control-plane/lib/webhooks.ts) grants, and that it grants it once.
use papi.Common.{
  ℕ, ◌≡◌, sym, ◌∙◌, subst, String, [], ◌∷◌, Option, some, Bool, true, false, not, str_eq,
  str_eq_refl, any, arith, Bool-cases, inl, inr, ◌⊎◌,
}
use papi.Common.Result.{Result, ok, >>=-eq-ok, guard-eq-ok, or_throw-eq-ok}
use papi.Common.Text.{Text}
use papi.Billing.Tables.{Ledger}
use papi.Billing.Credits.{
  Mac, verify_signature, PaddleEvent, PaddleReply, ignored, done, not_payable, is_usd, positive,
  same_source, team_exists, credit_team, grant, topup, completed, apply_event, configured,
  paddle_webhook_core,
}
use papi.Common.Lists.{any-append}

-- The two ways in which the transaction succeeds: the payment is known, or it is granted.
pub credit_team-ok :
    (team external : String) (delta : ℕ) (l : Ledger) (b : Bool) (l' : Ledger)
    → credit_team team external delta l ≡ ok (b, l')
    → ((any (same_source "paddle" external) l.credits ≡ true) × (b ≡ false) × (l' ≡ l))
      ⊎ ((any (same_source "paddle" external) l.credits ≡ false)
          × (b ≡ true)
          × (l' ≡ grant team external delta l))
unfolding credit_team
credit_team-ok team external delta l b l' h =
    elim (Bool-cases (any (same_source "paddle" external) l.credits)) [
      | inl dup ↦ (let q : ok (false, l) ≡ ok (b, l') = rw dup at h in inl (dup, cc, cc))
      | inr new ↦
          (let (k, q) = guard-eq-ok (team_exists l.teams team) _ _ (rw new at h) in
            inr (new, cc, cc))
    ]

grant-known :
    (team external : String) (delta : ℕ) (l : Ledger)
    → str_eq external "" ≡ false
    → any (same_source "paddle" external) (grant team external delta l).credits ≡ true
unfolding grant
grant-known team external delta l full =
    any-append (same_source "paddle" external) l.credits (topup team external delta ∷ [])
    ∙ ground (arith, str_eq_refl external, str_eq_refl "paddle")

credit_team-again :
    (team external : String) (delta : ℕ) (l : Ledger) (b : Bool) (l' : Ledger)
    → str_eq external "" ≡ false
    → credit_team team external delta l ≡ ok (b, l')
    → credit_team team external delta l' ≡ ok (false, l')
unfolding credit_team
credit_team-again team external delta l b l' full h =
    elim (credit_team-ok team external delta l b l' h) [
      | inl (dup, _, same) ↦ rw (same) (rw dup)
      | inr (new, _, same) ↦ rw (same) (rw (grant-known team external delta l full))
    ]

completed-run :
    (e : PaddleEvent) (l : Ledger) (team : String) (d : ℕ) (b : Bool) (l' : Ledger)
    → is_usd e.currency_code ≡ true
    → not (not_payable e.status) ≡ true
    → e.team_id ≡ some team
    → positive e.total ≡ some d
    → credit_team team e.id d l ≡ ok (b, l')
    → completed e l ≡ ok (done b d, l')
unfolding completed
completed-run e l team d b l' usd paid known amount credited =
    rw (usd, paid, known, amount, credited)

completed-again :
    (e : PaddleEvent) (l : Ledger) (b : Bool) (delta : ℕ) (l' : Ledger)
    → str_eq e.id "" ≡ false
    → completed e l ≡ ok (done b delta, l')
    → completed e l' ≡ ok (done false delta, l')
unfolding completed
completed-again e l b delta l' full h =
    (let (usd, h1) = guard-eq-ok (is_usd e.currency_code) _ _ h in
      let (paid, h2) = guard-eq-ok (not (not_payable e.status)) _ _ h1 in
      let (team, known, h3) = or_throw-eq-ok e.team_id _ _ h2 in
      let (d, amount, h4) = or_throw-eq-ok (positive e.total) _ _ h3 in
      let ((c, next), credited, h5) = >>=-eq-ok (credit_team team e.id d l) _ h4 in
      let s : next ≡ l' = cc in
      let t : d ≡ delta = cc in
      let again = credit_team-again team e.id d l c next full credited in
      let twice = completed-run e next team d false next usd paid known amount again in
      subst (λ k. completed e k ≡ ok (done false delta, k)) s
        (subst (λ n. completed e next ≡ ok (done false n, next)) t twice))

apply_event-again :
    (e : PaddleEvent) (l : Ledger) (b : Bool) (delta : ℕ) (l' : Ledger)
    → str_eq e.id "" ≡ false
    → apply_event e l ≡ ok (done b delta, l')
    → apply_event e l' ≡ ok (done false delta, l')
unfolding apply_event
apply_event-again e l b delta l' full h =
    elim (Bool-cases (str_eq e.event_type "transaction.completed")) [
      | inl paid ↦ rw paid (completed-again e l b delta l' full (rw paid at h))
      | inr never ↦
          (let q : ok (ignored e.event_type, l) ≡ ok (done b delta, l') = rw never at h in
            absurd (ground arith))
    ]

-- What the webhook asks before it reads an event.
paddle_webhook_core-passes :
    (hmac : Mac) (parse : Text → Result PaddleEvent) (hosted : Bool) (secret : Option String)
    (now : ℕ) (header : Option Text) (body : Text) (l : Ledger) (r : PaddleReply) (l' : Ledger)
    → paddle_webhook_core hmac parse hosted secret now header body l ≡ ok (r, l')
    → (key : String) × (e : PaddleEvent) × (hosted ≡ true)
      × (configured secret ≡ some key)
      × (verify_signature hmac now body header key ≡ true)
      × (parse body ≡ ok e)
      × (apply_event e l ≡ ok (r, l'))
unfolding paddle_webhook_core
paddle_webhook_core-passes hmac parse hosted secret now header body l r l' h =
    (let (is_hosted, h1) = guard-eq-ok hosted _ _ h in
      let (key, set, h2) = or_throw-eq-ok (configured secret) _ _ h1 in
      let (signed, h3) = guard-eq-ok (verify_signature hmac now body header key) _ _ h2 in
      let (e, read, h4) = >>=-eq-ok (parse body) _ h3 in (key, e, is_hosted, set, signed, read, h4))

-- A notification that was answered may come again at a later time, signed anew, with a body that
-- reads as the same event, whose id is not empty: it credits nothing and changes no table.
pub paddle_webhook_core-again :
    (hmac : Mac) (parse : Text → Result PaddleEvent) (hosted : Bool) (secret : Option String)
    (now later : ℕ) (header again : Option Text) (body copy : Text) (l : Ledger) (b : Bool)
    (delta : ℕ) (l' : Ledger) (e : PaddleEvent) (key : String)
    → paddle_webhook_core hmac parse hosted secret now header body l ≡ ok (done b delta, l')
    → parse body ≡ ok e
    → parse copy ≡ ok e
    → str_eq e.id "" ≡ false
    → configured secret ≡ some key
    → verify_signature hmac later copy again key ≡ true
    → paddle_webhook_core hmac parse hosted secret later again copy l' ≡ ok (done false delta, l')
unfolding paddle_webhook_core
paddle_webhook_core-again hmac parse hosted secret now later header again body copy l b delta l' e
      key h first second full set signed =
    (let (k, f, is_hosted, _, _, read, applied) =
        paddle_webhook_core-passes hmac parse hosted secret now header body l (done b delta) l' h in
      let same : f ≡ e = (let q : ok f ≡ ok e = sym read ∙ first in cc) in
      let twice =
        apply_event-again e l b delta l' full
          (subst (λ x. apply_event x l ≡ ok (done b delta, l')) same applied) in
      rw (is_hosted, set, signed, second) twice)
