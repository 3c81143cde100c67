-- ===== src/Reset/Counts.antt =====
-- How many rows of the reset table have a property, through changes along the status graph.
use papi.Common.{
  ℕ, ◌+◌, ◌≤◌, ◌≡◌, refl, String, List, [], ◌∷◌, ◌++◌, none, Bool, true, if◌then◌else◌, str_eq_iff,
  find, arith, Option-cases, inl, inr, length,
}
use papi.Common.Text.{Text}
use papi.Reset.Table.{
  Status, pending, succeeded, failed, unknown, Operation, is_active, has_key, has_id, active_of,
  find_last,
}
use papi.Reset.Evolution.{Edge, Change, Evolves}

unfoldable pub count : (Operation → Bool) → List Operation → ℕ
count p [] = 0
count p (o ∷ rows) = (if p o then 1 else 0) + count p rows

pub count-append :
    (p : Operation → Bool) (xs ys : List Operation) → count p (xs ++ ys) ≡ count p xs + count p ys
unfolding count
count-append p [] ys = omega arith
count-append p (x ∷ xs) ys = omega (arith, count-append p xs ys)

-- Where no row newly qualifies, no more rows qualify.
pub count-Evolves :
    (P : Operation → Bool)
    → ((o p : Operation) → Change o p → P p ≡ true → P o ≡ true)
    → (rows new : List Operation) → Evolves rows new
    → length new ≡ length rows
    → count P new ≤ count P rows
unfolding count
count-Evolves P h [] [] e n = omega arith
count-Evolves P h [] (p ∷ new) e n = absurd (omega arith)
count-Evolves P h (o ∷ rows) [] e n = elim e [ ]
count-Evolves P h (o ∷ rows) (p ∷ new) (c, e) n =
    ground (arith, h o p c, count-Evolves P h rows new e (omega arith))

pub count-find_last :
    (P : Operation → Bool) (rows : List Operation) → find_last P rows ≡ none → count P rows ≡ 0
unfolding count find_last
count-find_last P [] e = refl
count-find_last P (o ∷ rows) e = elim (Option-cases (find_last P rows)) [
  | inl nothing ↦ ground (arith, count-find_last P rows nothing)
  | inr (q, found) ↦ ground arith
]

pub count-find :
    (P : Operation → Bool) (rows : List Operation) → find P rows ≡ none → count P rows ≡ 0
unfolding count
count-find P [] e = refl
count-find P (o ∷ rows) e = ground (arith, count-find P rows)

pub active-back : (s t : Status) → Edge s t → is_active t ≡ true → is_active s ≡ true
active-back pending t e h = refl
active-back unknown t e h = refl
active-back succeeded succeeded e h = h
active-back succeeded pending e h = elim e [ ]
active-back succeeded unknown e h = elim e [ ]
active-back succeeded failed e h = elim e [ ]
active-back failed failed e h = h
active-back failed pending e h = elim e [ ]
active-back failed unknown e h = elim e [ ]
active-back failed succeeded e h = elim e [ ]

pub active_of-back :
    (account : String) (o p : Operation)
    → Change o p
    → active_of account p ≡ true
    → active_of account o ≡ true
active_of-back account o p c h = ground (
  arith,
  active-back o.status p.status c.edge,
  str_eq_iff o.account_id account,
  str_eq_iff p.account_id account,
  c.account,
)

pub has_key-kept :
    (account : String) (key : Text) (o p : Operation)
    → Change o p
    → has_key account key p ≡ has_key account key o
has_key-kept account key o p c = rw (c.account, c.key)

pub has_id-kept :
    (account id : String) (o p : Operation) → Change o p → has_id account id p ≡ has_id account id o
has_id-kept account id o p c = rw (c.account, c.id)
