-- ===== src/Routes/Unique.antt =====
-- On the aliases without regard to case, and the ids of their rows.
use papi.Common.{
  ◌≡◌, refl, ap, String, List, [], ◌∷◌, ◌++◌, map, some, Bool, true, false, not, ◌&&◌, any, find,
  select, update_where, str_eq, str_eq_iff, Bool-cases, inl, inr, ◌⊎◌, arith, sym, ◌∙◌, any-append,
}
use papi.Common.Text.{Text, same, same_iff, member}
use papi.Common.Distinct.{distinct, distinct-append}
use papi.Snapshot.Tables.{AliasRow}
use papi.Routes.{folded, rename_rows}

abbrev pub names : List AliasRow → List Text
names = map (λ r. folded r.alias)

abbrev pub distinct_ids : List AliasRow → Bool
distinct_ids [] = true
distinct_ids (r ∷ rows) = not (any (λ q. str_eq q.id r.id) rows) && distinct_ids rows

names-append :
    (rows : List AliasRow) (r : AliasRow)
    → names (rows ++ r ∷ []) ≡ names rows ++ folded r.alias ∷ []
names-append [] r = refl
names-append (q ∷ rows) r = ap (λ ns. folded q.alias ∷ ns) (names-append rows r)

member-names :
    (t : Text) (rows : List AliasRow)
    → member t (names rows) ≡ any (λ r. same (folded r.alias) t) rows
unfolding member
member-names t [] = refl
member-names t (r ∷ rows) =
    ground (arith, member-names t rows, same_iff t (folded r.alias), same_iff (folded r.alias) t)

-- A row with a new alias and a new id.
pub added-distinct :
    (rows : List AliasRow) (r : AliasRow)
    → distinct (names rows) ≡ true
    → any (λ q. same (folded q.alias) (folded r.alias)) rows ≡ false
    → distinct (names (rows ++ r ∷ [])) ≡ true
added-distinct rows r d n =
    rw (names-append rows r)
      (distinct-append (names rows) (folded r.alias) d (member-names (folded r.alias) rows ∙ n))

pub added-distinct_ids :
    (rows : List AliasRow) (r : AliasRow)
    → distinct_ids rows ≡ true
    → any (λ q. str_eq q.id r.id) rows ≡ false
    → distinct_ids (rows ++ r ∷ []) ≡ true
added-distinct_ids [] r d n = refl
added-distinct_ids (q ∷ rows) r d n = ground (
  arith,
  added-distinct_ids rows r,
  any-append (λ p. str_eq p.id q.id) rows (r ∷ []),
  str_eq_iff q.id r.id,
  str_eq_iff r.id q.id,
)

-- Rows that are taken away.
member-kept :
    (p : AliasRow → Bool) (t : Text) (rows : List AliasRow)
    → member t (names rows) ≡ false
    → member t (names (select p rows)) ≡ false
unfolding member
member-kept p t [] h = refl
member-kept p t (r ∷ rows) h = ground (arith, member-kept p t rows)

pub kept-distinct :
    (p : AliasRow → Bool) (rows : List AliasRow)
    → distinct (names rows) ≡ true
    → distinct (names (select p rows)) ≡ true
kept-distinct p [] d = refl
kept-distinct p (r ∷ rows) d =
    ground (arith, kept-distinct p rows, member-kept p (folded r.alias) rows)

any-kept :
    (p q : AliasRow → Bool) (rows : List AliasRow)
    → any q rows ≡ false
    → any q (select p rows) ≡ false
any-kept p q [] h = refl
any-kept p q (r ∷ rows) h = ground (arith, any-kept p q rows)

pub kept-distinct_ids :
    (p : AliasRow → Bool) (rows : List AliasRow)
    → distinct_ids rows ≡ true
    → distinct_ids (select p rows) ≡ true
kept-distinct_ids p [] d = refl
kept-distinct_ids p (r ∷ rows) d =
    ground (arith, kept-distinct_ids p rows, any-kept p (λ q. str_eq q.id r.id) rows)

-- An update that leaves the ids.
pub updated-distinct_ids :
    (p : AliasRow → Bool) (f : AliasRow → AliasRow) (rows : List AliasRow)
    → ((r : AliasRow) → (f r).id ≡ r.id)
    → distinct_ids rows ≡ true
    → distinct_ids (update_where p f rows) ≡ true
updated-distinct_ids p f [] h d = refl
updated-distinct_ids p f (r ∷ rows) h d =
    ground (arith, h r, updated-distinct_ids p f rows h, same_ids rows r.id)
  where
    same_ids :
        (qs : List AliasRow) (id : String)
        → any (λ q. str_eq q.id id) (update_where p f qs) ≡ any (λ q. str_eq q.id id) qs
    same_ids [] id = refl
    same_ids (q ∷ qs) id = ground (arith, h q, same_ids qs id)

pub same_names :
    (p : AliasRow → Bool) (f : AliasRow → AliasRow) (rows : List AliasRow)
    → ((r : AliasRow) → (f r).alias ≡ r.alias)
    → names (update_where p f rows) ≡ names rows
same_names p f [] h = refl
same_names p f (r ∷ rows) h = ground (arith, h r, same_names p f rows h)

-- A row that another's new alias would clash with.
abbrev clashes : String → String → AliasRow → Bool
clashes id next r = same (folded r.alias) (folded next) && not (str_eq r.id id)

unclashing :
    (id next : String) (rows : List AliasRow)
    → any (λ r. same (folded r.alias) (folded next)) rows ≡ false
    → any (clashes id next) rows ≡ false
unclashing id next [] h = refl
unclashing id next (r ∷ rows) h = ground (arith, unclashing id next rows)

found-member :
    (id : String) (rows : List AliasRow) (r : AliasRow)
    → find (λ q. str_eq q.id id) rows ≡ some r
    → member (folded r.alias) (names rows) ≡ true
unfolding member
found-member id [] r h = cc
found-member id (q ∷ rows) r h =
    ground (arith, found-member id rows r, same_iff (folded r.alias) (folded r.alias))

-- An alias that only changes its case clashes with no other.
recased-unclashing :
    (id next : String) (rows : List AliasRow) (r : AliasRow)
    → distinct (names rows) ≡ true
    → find (λ q. str_eq q.id id) rows ≡ some r
    → folded r.alias ≡ folded next
    → any (clashes id next) rows ≡ false
recased-unclashing id next [] r d f e = refl
recased-unclashing id next (q ∷ rows) r d f e = elim (Bool-cases (str_eq q.id id)) [
  | inl b ↦
      let is_r : q ≡ r = ground (arith, b, f) in
      let q_is : folded q.alias ≡ folded next = ap (λ (a : AliasRow). folded a.alias) is_r ∙ e in
      let absent : member (folded q.alias) (names rows) ≡ false = ground (arith, d) in
      let alone : any (λ p. same (folded p.alias) (folded next)) rows ≡ false =
        sym (member-names (folded next) rows) ∙ rw (sym q_is) absent in
      ground (arith, b, unclashing id next rows alone)
  | inr b ↦
      let found : find (λ p. str_eq p.id id) rows ≡ some r = ground (arith, b, f) in
      let apart : same (folded q.alias) (folded next) ≡ false =
        elim (Bool-cases (same (folded q.alias) (folded next))) [
          | inl w ↦
              let q_is : folded q.alias ≡ folded r.alias =
                (same_iff (folded q.alias) (folded next)).0 w ∙ sym e in
              let there : member (folded q.alias) (names rows) ≡ true =
                rw q_is (found-member id rows r found) in
              ground (arith, d, there)
          | inr w ↦ w
        ] in
      ground (arith, apart, recased-unclashing id next rows r (ground (arith, d)) found e)
]

unrenamed :
    (id next : String) (rows : List AliasRow)
    → any (λ r. str_eq r.id id) rows ≡ false
    → rename_rows id next rows ≡ rows
unfolding rename_rows
unrenamed id next [] h = refl
unrenamed id next (r ∷ rows) h = ground (arith, unrenamed id next rows)

member-renamed :
    (id next : String) (t : Text) (rows : List AliasRow)
    → member t (names rows) ≡ false
    → same t (folded next) ≡ false
    → member t (names (rename_rows id next rows)) ≡ false
unfolding rename_rows member
member-renamed id next t [] h n = refl
member-renamed id next t (r ∷ rows) h n =
    let rest = member-renamed id next t rows (ground (arith, h)) n in
    elim (Bool-cases (str_eq r.id id)) [
      | inl b ↦ rw b (ground (arith, n, rest, same_iff t (folded next), same_iff (folded next) t))
      | inr b ↦ rw b (ground (arith, h, rest))
    ]

-- The other rows do not clash, so none has the alias.
others-unclashing :
    (id next : String) (rows : List AliasRow)
    → any (λ r. str_eq r.id id) rows ≡ false
    → any (clashes id next) rows ≡ false
    → any (λ r. same (folded r.alias) (folded next)) rows ≡ false
others-unclashing id next [] h c = refl
others-unclashing id next (r ∷ rows) h c = ground (arith, others-unclashing id next rows)

renamed-distinct :
    (id next : String) (rows : List AliasRow)
    → distinct (names rows) ≡ true
    → distinct_ids rows ≡ true
    → any (clashes id next) rows ≡ false
    → distinct (names (rename_rows id next rows)) ≡ true
unfolding rename_rows
renamed-distinct id next [] d i c = refl
renamed-distinct id next (r ∷ rows) d i c = elim (Bool-cases (str_eq r.id id)) [
  | inl b ↦
      let id_is : r.id ≡ id = (str_eq_iff r.id id).0 b in
      let others : any (λ q. str_eq q.id id) rows ≡ false = rw (sym id_is) (ground (arith, i)) in
      let alone = others-unclashing id next rows others (ground (arith, c)) in
      let absent : member (folded next) (names rows) ≡ false =
        member-names (folded next) rows ∙ alone in
      rw (b, unrenamed id next rows others) (ground (arith, absent, d))
  | inr b ↦
      let apart : same (folded r.alias) (folded next) ≡ false = ground (arith, b, c) in
      let absent = member-renamed id next (folded r.alias) rows (ground (arith, d)) apart in
      let rest =
        renamed-distinct id next rows (ground (arith, d)) (ground (arith, i)) (ground (arith, c)) in
      rw b (ground (arith, absent, rest))
]

-- What `renameModelAlias` checks before it gives the row with the id another alias.
pub rename_rows-distinct :
    (id next : String) (rows : List AliasRow) (r : AliasRow)
    → distinct (names rows) ≡ true
    → distinct_ids rows ≡ true
    → find (λ q. str_eq q.id id) rows ≡ some r
    → (same (folded r.alias) (folded next) ≡ true)
      ⊎ (any (λ q. same (folded q.alias) (folded next)) rows ≡ false)
    → distinct (names (rename_rows id next rows)) ≡ true
rename_rows-distinct id next rows r d i f (inl s) =
    renamed-distinct id next rows d i
      (recased-unclashing id next rows r d f ((same_iff (folded r.alias) (folded next)).0 s))
rename_rows-distinct id next rows r d i f (inr n) =
    renamed-distinct id next rows d i (unclashing id next rows n)
