-- ===== src/Routes/Keys.antt =====
-- On the models that the virtual keys allow, in control-plane/lib/model-routes.ts and the renaming of
-- aliases.
use papi.Common.{
  ◌≡◌, refl, ap, sym, String, List, [], ◌∷◌, ◌++◌, map, some, Bool, true, false, not, ◌&&◌, any,
  all, find, select, update_where, str_eq, str_eq_refl, str_eq_iff, includes, includes-append,
  Bool-cases, inl, inr, arith,
}
use papi.Snapshot.Tables.{AliasRow, KeyRow}
use papi.Routes.{replace, renamed_key, rename_keys, rename_rows, without_model, drop_from_keys}
use papi.Routes.Unique.{distinct_ids}

abbrev pub aliases : List AliasRow → List String
aliases = map (λ r. r.alias)

-- Every model that a key allows is one of the names.
abbrev pub allows_known : List String → KeyRow → Bool
allows_known names k = all (includes names) k.models

all_mono {ℓ} :
    {A : Type ℓ} (p q : A → Bool) (xs : List A)
    → ((x : A) → p x ≡ true → q x ≡ true)
    → all p xs ≡ true
    → all q xs ≡ true
all_mono p q [] f h = refl
all_mono p q (x ∷ xs) f h = ground (arith, f x, all_mono p q xs f)

-- More names.
pub more-known :
    (names more : List String) (keys : List KeyRow)
    → all (allows_known names) keys ≡ true
    → all (allows_known (names ++ more)) keys ≡ true
more-known names more keys = all_mono (allows_known names) (allows_known (names ++ more)) keys λ k.
    all_mono (includes names) (includes (names ++ more)) k.models
      λ m h. ground (arith, h, includes-append names more m)

all-update_where :
    (p q q' : KeyRow → Bool) (f : KeyRow → KeyRow) (keys : List KeyRow)
    → ((k : KeyRow) → p k ≡ true → q k ≡ true → q' (f k) ≡ true)
    → ((k : KeyRow) → p k ≡ false → q k ≡ true → q' k ≡ true)
    → all q keys ≡ true
    → all q' (update_where p f keys) ≡ true
all-update_where p q q' f [] h n a = refl
all-update_where p q q' f (k ∷ keys) h n a =
    ground (arith, h k, n k, all-update_where p q q' f keys h n)

aliases-append :
    (rows : List AliasRow) (r : AliasRow) → aliases (rows ++ r ∷ []) ≡ aliases rows ++ r.alias ∷ []
aliases-append [] r = refl
aliases-append (q ∷ rows) r = ap (λ ns. q.alias ∷ ns) (aliases-append rows r)

pub added-known :
    (rows : List AliasRow) (r : AliasRow) (keys : List KeyRow)
    → all (allows_known (aliases rows)) keys ≡ true
    → all (allows_known (aliases (rows ++ r ∷ []))) keys ≡ true
added-known rows r keys h =
    rw (aliases-append rows r) (more-known (aliases rows) (r.alias ∷ []) keys h)

-- A row that has the id has the alias.
only-found :
    (id : String) (rows : List AliasRow) (r : AliasRow)
    → distinct_ids rows ≡ true
    → find (λ q. str_eq q.id id) rows ≡ some r
    → any (λ q. str_eq q.id id && not (str_eq q.alias r.alias)) rows ≡ false
only-found id [] r d f = refl
only-found id (q ∷ rows) r d f = elim (Bool-cases (str_eq q.id id)) [
  | inl b ↦
      let is_r : q ≡ r = ground (arith, b, f) in
      let id_is : q.id ≡ id = (str_eq_iff q.id id).0 b in
      let others : any (λ p. str_eq p.id id) rows ≡ false = rw (sym id_is) (ground (arith, d)) in
      let alias_is : str_eq q.alias r.alias ≡ true = rw is_r (str_eq_refl r.alias) in
      ground (arith, alias_is, none_other rows others)
  | inr b ↦ ground (arith, b, only-found id rows r (ground (arith, d)) (ground (arith, b, f)))
]
  where
    none_other :
        (ps : List AliasRow)
        → any (λ p. str_eq p.id id) ps ≡ false
        → any (λ p. str_eq p.id id && not (str_eq p.alias r.alias)) ps ≡ false
    none_other [] h = refl
    none_other (p ∷ ps) h = ground (arith, none_other ps)

-- After a renaming the new alias is there, and the others stay.
next-included :
    (id next : String) (rows : List AliasRow) (r : AliasRow)
    → find (λ q. str_eq q.id id) rows ≡ some r
    → includes (aliases (rename_rows id next rows)) next ≡ true
unfolding rename_rows
next-included id next [] r f = cc
next-included id next (q ∷ rows) r f = elim (Bool-cases (str_eq q.id id)) [
  | inl b ↦ rw b (ground (arith, str_eq_refl next))
  | inr b ↦ rw b (ground (arith, next-included id next rows r (ground (arith, b, f))))
]

others-included :
    (id old next m : String) (rows : List AliasRow)
    → str_eq m old ≡ false
    → any (λ q. str_eq q.id id && not (str_eq q.alias old)) rows ≡ false
    → includes (aliases rows) m ≡ true
    → includes (aliases (rename_rows id next rows)) m ≡ true
unfolding rename_rows
others-included id old next m [] n h i = cc
others-included id old next m (r ∷ rows) n h i = elim (Bool-cases (str_eq r.id id)) [
  | inl b ↦
      let is_old : str_eq r.alias old ≡ true = ground (arith, b, h) in
      let tail = others-included id old next m rows n (ground (arith, h)) in
      rw b (
        ground (
          arith,
          n,
          i,
          is_old,
          tail,
          str_eq_iff r.alias old,
          str_eq_iff r.alias m,
          str_eq_refl m,
          str_eq_iff m old,
        ))
  | inr b ↦ rw b (ground (arith, i, others-included id old next m rows n (ground (arith, h))))
]

replaced-included :
    (id next m : String) (rows : List AliasRow) (r : AliasRow)
    → distinct_ids rows ≡ true
    → find (λ q. str_eq q.id id) rows ≡ some r
    → includes (aliases rows) m ≡ true
    → includes (aliases (rename_rows id next rows)) (replace r.alias next m) ≡ true
replaced-included id next m rows r d f i = elim (Bool-cases (str_eq m r.alias)) [
  | inl b ↦ rw b (next-included id next rows r f)
  | inr b ↦ rw b (others-included id r.alias next m rows b (only-found id rows r d f) i)
]

all-map :
    (p q : String → Bool) (f : String → String) (ms : List String)
    → ((m : String) → p m ≡ true → q (f m) ≡ true)
    → all p ms ≡ true
    → all q (map f ms) ≡ true
all-map p q f [] h a = refl
all-map p q f (m ∷ ms) h a = ground (arith, h m, all-map p q f ms h)

-- A key that does not name the alias only names the others.
all-others :
    (p q : String → Bool) (old : String) (ms : List String)
    → ((m : String) → str_eq m old ≡ false → p m ≡ true → q m ≡ true)
    → includes ms old ≡ false
    → all p ms ≡ true
    → all q ms ≡ true
all-others p q old [] h n a = refl
all-others p q old (m ∷ ms) h n a = ground (arith, h m, all-others p q old ms h)

pub renamed-known :
    (id next : String) (rows : List AliasRow) (r : AliasRow) (keys : List KeyRow)
    → distinct_ids rows ≡ true
    → find (λ q. str_eq q.id id) rows ≡ some r
    → all (allows_known (aliases rows)) keys ≡ true
    → all (allows_known (aliases (rename_rows id next rows))) (rename_keys r.alias next keys) ≡ true
unfolding rename_keys
renamed-known id next rows r keys d f =
    let after = aliases (rename_rows id next rows) in
    all-update_where (λ k. includes k.models r.alias) (allows_known (aliases rows))
      (allows_known after) (renamed_key r.alias next) keys
      (λ k named known.
        all-map (includes (aliases rows)) (includes after) (replace r.alias next) k.models
          (λ m i. replaced-included id next m rows r d f i) known)
      (λ k unnamed known.
        all-others (includes (aliases rows)) (includes after) r.alias k.models
          (λ m n i. others-included id r.alias next m rows n (only-found id rows r d f) i) unnamed
          known)

-- The other aliases stay after a deletion.
others-kept :
    (id old m : String) (rows : List AliasRow)
    → str_eq m old ≡ false
    → any (λ q. str_eq q.id id && not (str_eq q.alias old)) rows ≡ false
    → includes (aliases rows) m ≡ true
    → includes (aliases (select (λ q. not (str_eq q.id id)) rows)) m ≡ true
others-kept id old m [] n h i = cc
others-kept id old m (r ∷ rows) n h i = ground (
  arith,
  n,
  i,
  h,
  others-kept id old m rows n,
  str_eq_iff r.alias old,
  str_eq_iff r.alias m,
  str_eq_iff m old,
)

all-select-others :
    (p q : String → Bool) (old : String) (ms : List String)
    → ((m : String) → str_eq m old ≡ false → p m ≡ true → q m ≡ true)
    → all p ms ≡ true
    → all q (select (λ m. not (str_eq m old)) ms) ≡ true
all-select-others p q old [] h a = refl
all-select-others p q old (m ∷ ms) h a = ground (arith, h m, all-select-others p q old ms h)

pub deleted-known :
    (id : String) (rows : List AliasRow) (r : AliasRow) (keys : List KeyRow)
    → distinct_ids rows ≡ true
    → find (λ q. str_eq q.id id) rows ≡ some r
    → all (allows_known (aliases rows)) keys ≡ true
    → all
        (allows_known (aliases (select (λ q. not (str_eq q.id id)) rows)))
        (drop_from_keys r.alias keys)
      ≡ true
unfolding drop_from_keys
deleted-known id rows r keys d f =
    let after = aliases (select (λ q. not (str_eq q.id id)) rows) in
    all-update_where (λ k. includes k.models r.alias) (allows_known (aliases rows))
      (allows_known after) (without_model r.alias) keys
      (λ k named known.
        all-select-others (includes (aliases rows)) (includes after) r.alias k.models
          (λ m n i. others-kept id r.alias m rows n (only-found id rows r d f) i) known)
      (λ k unnamed known.
        all-others (includes (aliases rows)) (includes after) r.alias k.models
          (λ m n i. others-kept id r.alias m rows n (only-found id rows r d f) i) unnamed known)
