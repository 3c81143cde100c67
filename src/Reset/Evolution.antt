-- ===== src/Reset/Evolution.antt =====
-- How the rows of the reset table may change: each keeps its identity and moves along the edges of
-- the status graph, and a settled one stays as it is.
use papi.Common.{
  ◌≡◌, refl, ◌∙◌, List, [], ◌∷◌, ◌++◌, some, Bool, true, false, if◌then◌else◌, find, update_where,
  arith, Bool-cases, inl, inr,
}
use papi.Reset.Table.{Status, pending, succeeded, failed, unknown, Operation}

abbrev pub IsSettled : Status → Type 0
IsSettled succeeded = Unit
IsSettled failed = Unit
IsSettled pending = ⊥
IsSettled unknown = ⊥

-- The edges of the status graph, staying included: a pending row may become anything, an unknown
-- one may be settled, and a settled one stays.
abbrev pub Edge : Status → Status → Type 0
Edge pending t = Unit
Edge unknown pending = ⊥
Edge unknown t = Unit
Edge succeeded succeeded = Unit
Edge succeeded t = ⊥
Edge failed failed = Unit
Edge failed t = ⊥

pub Edge-trans : (s t u : Status) → Edge s t → Edge t u → Edge s u
Edge-trans pending t u p q = tt
Edge-trans unknown pending u p q = elim p [ ]
Edge-trans unknown unknown pending p q = elim q [ ]
Edge-trans unknown unknown unknown p q = tt
Edge-trans unknown unknown succeeded p q = tt
Edge-trans unknown unknown failed p q = tt
Edge-trans unknown succeeded succeeded p q = tt
Edge-trans unknown succeeded pending p q = elim q [ ]
Edge-trans unknown succeeded unknown p q = elim q [ ]
Edge-trans unknown succeeded failed p q = elim q [ ]
Edge-trans unknown failed failed p q = tt
Edge-trans unknown failed pending p q = elim q [ ]
Edge-trans unknown failed unknown p q = elim q [ ]
Edge-trans unknown failed succeeded p q = elim q [ ]
Edge-trans succeeded succeeded u p q = q
Edge-trans succeeded pending u p q = elim p [ ]
Edge-trans succeeded unknown u p q = elim p [ ]
Edge-trans succeeded failed u p q = elim p [ ]
Edge-trans failed failed u p q = q
Edge-trans failed pending u p q = elim p [ ]
Edge-trans failed unknown u p q = elim p [ ]
Edge-trans failed succeeded u p q = elim p [ ]

pub Edge-refl : (s : Status) → Edge s s
Edge-refl pending = tt
Edge-refl unknown = tt
Edge-refl succeeded = tt
Edge-refl failed = tt

pub record Change (o p : Operation) : Type 0 where
  pub id : p.id ≡ o.id
  pub account : p.account_id ≡ o.account_id
  pub key : p.idempotency_key ≡ o.idempotency_key
  pub request : p.upstream_request_id ≡ o.upstream_request_id
  pub preflight : p.preflight ≡ o.preflight
  pub edge : Edge o.status p.status
  pub frozen : IsSettled o.status → p ≡ o

pub Change-refl : (o : Operation) → Change o o
Change-refl o = record {
  id = refl;
  account = refl;
  key = refl;
  request = refl;
  preflight = refl;
  edge = Edge-refl o.status;
  frozen = λ s. refl;
}

IsSettled-step : (s t : Status) → IsSettled s → Edge s t → IsSettled t
IsSettled-step succeeded succeeded h e = tt
IsSettled-step failed failed h e = tt
IsSettled-step pending t h e = elim h [ ]
IsSettled-step unknown t h e = elim h [ ]
IsSettled-step succeeded pending h e = elim e [ ]
IsSettled-step succeeded unknown h e = elim e [ ]
IsSettled-step succeeded failed h e = elim e [ ]
IsSettled-step failed pending h e = elim e [ ]
IsSettled-step failed unknown h e = elim e [ ]
IsSettled-step failed succeeded h e = elim e [ ]

pub Change-trans : {o p q : Operation} → Change o p → Change p q → Change o q
Change-trans {o} {p} {q} c d = record {
  id = d.id ∙ c.id;
  account = d.account ∙ c.account;
  key = d.key ∙ c.key;
  request = d.request ∙ c.request;
  preflight = d.preflight ∙ c.preflight;
  edge = Edge-trans o.status p.status q.status c.edge d.edge;
  frozen = λ s. d.frozen (IsSettled-step o.status p.status s c.edge) ∙ c.frozen s;
}

-- Rows change one by one, and new ones come behind them.
abbrev pub Evolves : List Operation → List Operation → Type 0
Evolves [] new = Unit
Evolves (o ∷ rows) [] = ⊥
Evolves (o ∷ rows) (p ∷ new) = Change o p × Evolves rows new

pub Evolves-refl : (rows : List Operation) → Evolves rows rows
Evolves-refl [] = tt
Evolves-refl (o ∷ rows) = (Change-refl o, Evolves-refl rows)

pub Evolves-trans : (a b c : List Operation) → Evolves a b → Evolves b c → Evolves a c
Evolves-trans [] b c h k = tt
Evolves-trans (o ∷ a) (p ∷ b) (q ∷ c) (x, h) (y, k) = (Change-trans x y, Evolves-trans a b c h k)
Evolves-trans (o ∷ a) [] c h k = elim h [ ]
Evolves-trans (o ∷ a) (p ∷ b) [] h k = elim k [ ]

pub Evolves-append : (rows new : List Operation) → Evolves rows (rows ++ new)
Evolves-append [] new = tt
Evolves-append (o ∷ rows) new = (Change-refl o, Evolves-append rows new)

pub Evolves-update :
    (p : Operation → Bool) (f : Operation → Operation) (rows : List Operation)
    → ((o : Operation) → p o ≡ true → Change o (f o))
    → Evolves rows (update_where p f rows)
Evolves-update p f [] h = tt
Evolves-update p f (o ∷ rows) h = (here (p o) refl, Evolves-update p f rows h)
  where
    here : (b : Bool) → p o ≡ b → Change o (if b then f o else o)
    here true e = h o e
    here false e = Change-refl o

-- A row that is found by a part of its identity is found again, changed.
module _ (P : Operation → Bool) (kept : (o p : Operation) → Change o p → P p ≡ P o) where
  pub find-Evolves :
      (rows new : List Operation) (o : Operation)
      → Evolves rows new
      → find P rows ≡ some o
      → (p : Operation) × (find P new ≡ some p) × Change o p
  find-Evolves [] new o h e = ground arith
  find-Evolves (x ∷ rows) [] o h e = elim h [ ]
  find-Evolves (x ∷ rows) (y ∷ new) o (c, h) e = elim (Bool-cases (P x)) [
    | inl hit ↦
        let same_row : x ≡ o = ground arith in (y, rw (kept x y c ∙ hit) refl, subst_row same_row c)
    | inr miss ↦
        let (p, found, change) = find-Evolves rows new o h (ground arith) in
        (p, rw (kept x y c ∙ miss) found, change)
  ]
    where
      subst_row : {a b q : Operation} → a ≡ b → Change a q → Change b q
      subst_row e c = rw e at c
