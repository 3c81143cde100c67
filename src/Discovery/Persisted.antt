-- ===== src/Discovery/Persisted.antt =====
-- On the rows after `persistAccountModels` of control-plane/lib/codex/operations.ts.
use papi.Common.{
  ℕ, ◌≡◌, refl, List, [], ◌∷◌, ◌++◌, Bool, true, false, not, ◌||◌, select, all, any, any-append,
  update_where, str_eq, str_eq_refl, All, All-append, Bool-cases, inl, inr, arith, ◌∙◌,
}
use papi.Common.Text.{Text, same, same_iff, member}
use papi.Discovery.Metadata.{ParsedModel}
use papi.Discovery.Catalog.{
  Account, DiscoveredModel, is_row, seen_again, new_row, upsert_model, upsert_models, unavailable,
  is_unseen, upstream_models, persist_account_models,
}

abbrev pub of_others : Account → DiscoveredModel → Bool
of_others a r = not (str_eq r.account_id a.id)

-- An update of rows that a test leaves out, which leaves them out still.
select-update_where :
    (p q : DiscoveredModel → Bool) (f : DiscoveredModel → DiscoveredModel)
    (rows : List DiscoveredModel)
    → ((r : DiscoveredModel) → p r ≡ true → (q r ≡ false) × (q (f r) ≡ false))
    → select q (update_where p f rows) ≡ select q rows
select-update_where p q f [] h = refl
select-update_where p q f (r ∷ rows) h = ground (arith, h r, select-update_where p q f rows h)

select-snoc :
    (q : DiscoveredModel → Bool) (rows : List DiscoveredModel) (r : DiscoveredModel)
    → q r ≡ false
    → select q (rows ++ r ∷ []) ≡ select q rows
select-snoc q [] r h = ground (arith, h)
select-snoc q (s ∷ rows) r h = ground (arith, select-snoc q rows r h)

upsert_model-others :
    (now : ℕ) (a : Account) (m : ParsedModel) (rows : List DiscoveredModel)
    → select (of_others a) (upsert_model now a m rows) ≡ select (of_others a) rows
unfolding upsert_model
upsert_model-others now a m rows = elim (Bool-cases (any (is_row a.id m.upstream_model) rows)) [
  | inl b ↦ rw b (
      select-update_where (is_row a.id m.upstream_model) (of_others a) (seen_again now m) rows
        (λ r h. ground (arith, h)))
  | inr b ↦
      rw b (select-snoc (of_others a) rows (new_row now a m) (ground (arith, str_eq_refl a.id)))
]

upsert_models-others :
    (now : ℕ) (a : Account) (ms : List ParsedModel) (rows : List DiscoveredModel)
    → select (of_others a) (upsert_models now a ms rows) ≡ select (of_others a) rows
unfolding upsert_models
upsert_models-others now a [] rows = refl
upsert_models-others now a (m ∷ ms) rows =
    upsert_models-others now a ms (upsert_model now a m rows) ∙ upsert_model-others now a m rows

-- A row of the account whose model passes the test is available.
IsShown : Account → (Text → Bool) → DiscoveredModel → Type 0
IsShown a p r = str_eq r.account_id a.id ≡ true → p r.upstream_model ≡ true → r.available ≡ true

All-map {ℓ κ μ} :
    {A : Type ℓ} (P : A → Type κ) (Q : A → Type μ) (xs : List A)
    → ((x : A) → P x → Q x)
    → All P xs
    → All Q xs
All-map P Q [] f h = tt
All-map P Q (x ∷ xs) f (p, h) = (f x p, All-map P Q xs f h)

updated-IsShown :
    (now : ℕ) (a : Account) (m : ParsedModel) (p : Text → Bool) (rows : List DiscoveredModel)
    → All (IsShown a p) rows
    → All
        (IsShown a (λ t. same t m.upstream_model || p t))
        (update_where (is_row a.id m.upstream_model) (seen_again now m) rows)
unfolding IsShown
updated-IsShown now a m p [] h = tt
updated-IsShown now a m p (r ∷ rows) (s, h) =
    (λ e q. ground (arith, s), updated-IsShown now a m p rows h)

-- Where no row has the key, none is its model's.
fresh-IsShown :
    (a : Account) (m : ParsedModel) (p : Text → Bool) (rows : List DiscoveredModel)
    → any (is_row a.id m.upstream_model) rows ≡ false
    → All (IsShown a p) rows
    → All (IsShown a (λ t. same t m.upstream_model || p t)) rows
unfolding IsShown
fresh-IsShown a m p [] n h = tt
fresh-IsShown a m p (r ∷ rows) n (s, h) =
    (λ e q. ground (arith, s), fresh-IsShown a m p rows (ground arith) h)

upsert_model-IsShown :
    (now : ℕ) (a : Account) (m : ParsedModel) (p : Text → Bool) (rows : List DiscoveredModel)
    → All (IsShown a p) rows
    → All (IsShown a (λ t. same t m.upstream_model || p t)) (upsert_model now a m rows)
unfolding upsert_model IsShown
upsert_model-IsShown now a m p rows h =
    elim (Bool-cases (any (is_row a.id m.upstream_model) rows)) [
      | inl b ↦ rw b (updated-IsShown now a m p rows h)
      | inr b ↦ rw b (
          All-append (IsShown a (λ t. same t m.upstream_model || p t)) rows (new_row now a m ∷ [])
            (fresh-IsShown a m p rows b h) ((λ e q. refl), tt))
    ]

upsert_models-IsShown :
    (now : ℕ) (a : Account) (ms : List ParsedModel) (p : Text → Bool) (rows : List DiscoveredModel)
    → All (IsShown a p) rows
    → All (IsShown a (λ t. member t (upstream_models ms) || p t)) (upsert_models now a ms rows)
unfolding upsert_models IsShown member
upsert_models-IsShown now a [] p rows h = h
upsert_models-IsShown now a (m ∷ ms) p rows h =
    All-map (IsShown a (λ t. member t (upstream_models ms) || (same t m.upstream_model || p t)))
      (IsShown a (λ t. member t (upstream_models (m ∷ ms)) || p t))
      (upsert_models now a ms (upsert_model now a m rows))
      (λ r s e q. ground (
        arith,
        s,
        same_iff r.upstream_model m.upstream_model,
        same_iff m.upstream_model r.upstream_model,
      ))
      (upsert_models-IsShown now a ms (λ t. same t m.upstream_model || p t)
        (upsert_model now a m rows) (upsert_model-IsShown now a m p rows h))

-- A row of the account is available exactly when its model has been seen.
abbrev IsCurrent : Account → List Text → DiscoveredModel → Type 0
IsCurrent a seen r = str_eq r.account_id a.id ≡ true → r.available ≡ member r.upstream_model seen

marked-IsCurrent :
    (a : Account) (seen : List Text) (rows : List DiscoveredModel)
    → All (IsShown a (λ t. member t seen || false)) rows
    → All (IsCurrent a seen) (update_where (is_unseen a seen) unavailable rows)
unfolding IsShown
marked-IsCurrent a seen [] h = tt
marked-IsCurrent a seen (r ∷ rows) (s, h) = (λ e. ground (arith, s), marked-IsCurrent a seen rows h)

any-update_where :
    (p q : DiscoveredModel → Bool) (f : DiscoveredModel → DiscoveredModel)
    (rows : List DiscoveredModel)
    → ((r : DiscoveredModel) → q (f r) ≡ q r)
    → any q (update_where p f rows) ≡ any q rows
any-update_where p q f [] h = refl
any-update_where p q f (r ∷ rows) h = ground (arith, h r, any-update_where p q f rows h)

upsert_model-present :
    (now : ℕ) (a : Account) (m : ParsedModel) (t : Text) (rows : List DiscoveredModel)
    → (same t m.upstream_model || any (is_row a.id t) rows) ≡ true
    → any (is_row a.id t) (upsert_model now a m rows) ≡ true
unfolding upsert_model
upsert_model-present now a m t rows h =
    elim (Bool-cases (any (is_row a.id m.upstream_model) rows)) [
      | inl b ↦
          rw
            (
              b,
              any-update_where (is_row a.id m.upstream_model) (is_row a.id t) (seen_again now m)
                  rows (λ r. refl),
            )
            (ground (arith, b, h, same_iff t m.upstream_model))
      | inr b ↦
          rw (b, any-append (is_row a.id t) rows (new_row now a m ∷ []))
            (ground (
              arith,
              h,
              str_eq_refl a.id,
              same_iff t m.upstream_model,
              same_iff m.upstream_model t,
            ))
    ]

upsert_models-present :
    (now : ℕ) (a : Account) (ms : List ParsedModel) (t : Text) (rows : List DiscoveredModel)
    → (member t (upstream_models ms) || any (is_row a.id t) rows) ≡ true
    → any (is_row a.id t) (upsert_models now a ms rows) ≡ true
unfolding upsert_models member
upsert_models-present now a [] t rows h = h
upsert_models-present now a (m ∷ ms) t rows h =
    upsert_models-present now a ms t (upsert_model now a m rows) (
      ground (
        arith,
        h,
        upsert_model-present now a m t rows,
        same_iff t m.upstream_model,
        same_iff m.upstream_model t,
      ))

abbrev pub of_account : Account → DiscoveredModel → Bool
of_account a r = str_eq r.account_id a.id

-- The row says whether its model has been seen.
abbrev pub IsTold : List Text → DiscoveredModel → Type 0
IsTold seen r = r.available ≡ member r.upstream_model seen

current-IsTold :
    (a : Account) (seen : List Text) (rows : List DiscoveredModel)
    → All (IsCurrent a seen) rows
    → All (IsTold seen) (select (of_account a) rows)
current-IsTold a seen [] h = tt
current-IsTold a seen (r ∷ rows) (c, h) = elim (Bool-cases (of_account a r)) [
  | inl b ↦ rw b (c b, current-IsTold a seen rows h)
  | inr b ↦ rw b (current-IsTold a seen rows h)
]

all-member :
    (p : Text → Bool) (ts : List Text)
    → ((t : Text) → member t ts ≡ true → p t ≡ true)
    → all p ts ≡ true
unfolding member
all-member p [] h = refl
all-member p (t ∷ ts) h =
    ground (arith, h t, same_iff t t, all-member p ts λ u k. h u (ground (arith, k)))

none-IsShown : (a : Account) (rows : List DiscoveredModel) → All (IsShown a (λ t. false)) rows
unfolding IsShown
none-IsShown a [] = tt
none-IsShown a (r ∷ rows) = ((λ e q. ground (arith, q)), none-IsShown a rows)

-- After `persistAccountModels`, the rows of the other accounts are as before; a row of the account
-- is available exactly when its model is one of those given; and every model given has a row of
-- the account.
pub persist_account_models-IsTold :
    (now : ℕ) (a : Account) (ms : List ParsedModel) (rows : List DiscoveredModel)
    → (select (of_others a) (persist_account_models now a ms rows) ≡ select (of_others a) rows)
      × All
          (IsTold (upstream_models ms))
          (select (of_account a) (persist_account_models now a ms rows))
      × (all (λ t. any (is_row a.id t) (persist_account_models now a ms rows)) (upstream_models ms)
          ≡ true)
unfolding persist_account_models
persist_account_models-IsTold now a ms rows =
    let seen = upstream_models ms in
    let stored = upsert_models now a ms rows in
    (
      select-update_where (is_unseen a seen) (of_others a) unavailable stored
            (λ r h. ground (arith, h))
          ∙ upsert_models-others now a ms rows,
      current-IsTold a seen _ (
          marked-IsCurrent a seen stored
            (upsert_models-IsShown now a ms (λ t. false) rows (none-IsShown a rows))),
      all-member (λ t. any (is_row a.id t) (update_where (is_unseen a seen) unavailable stored))
          seen
          λ t h.
            any-update_where (is_unseen a seen) (is_row a.id t) unavailable stored (λ r. refl)
            ∙ upsert_models-present now a ms t rows (ground (arith, h)),
    )
