-- ===== src/Discovery/Workers/Order.antt =====
-- On one turn of a worker of `mapLimit` in control-plane/lib/codex/operations.ts.
use papi.Common.{
  ℕ, zero, suc, ◌≤◌, ◌<◌, ◌≡◌, refl, ap, ◌∙◌, List, [], ◌∷◌, ◌++◌, Option, none, some, Bool, true,
  false, ◌||◌, ◌==◌, length, get_elem?, any, map, Bool-cases, inl, inr, arith, any-append, ==_iff,
}
use papi.Discovery.Workers.{
  Worker, ready, running, stopped, is_running, is_stopped, Shared, set_at, beside, behind,
  unwritten, move, turn,
}

module _ {ℓ κ} {A : Type ℓ} {B : Type κ} where
  -- What `out` holds in the end.
  abbrev pub results : (A → B) → List A → List (Option B)
  results fn [] = []
  results fn (a ∷ items) = some (fn a) ∷ results fn items

  pub length-map : (fn : A → B) (items : List A) → length (map fn items) ≡ length items
  length-map fn [] = refl
  length-map fn (a ∷ items) = ap suc (length-map fn items)

  -- A list that has each result at its place is the list of the results.
  pub in_place :
      (fn : A → B) (items : List A) (out : List (Option B))
      → length out ≡ length items
      → ((i : ℕ) → i < length items → get_elem? out i ≡ some (get_elem? (map fn items) i))
      → out ≡ results fn items
  in_place fn [] [] h k = refl
  in_place fn [] (x ∷ out) h k = ground arith
  in_place fn (a ∷ items) [] h k = ground arith
  in_place fn (a ∷ items) (x ∷ out) h k = ground (
    arith,
    k 0 (omega arith),
    in_place fn items out (omega (arith, h)) λ i lt. k (suc i) (omega (arith, lt)),
  )

pub length-unwritten {ℓ κ} :
    {A : Type ℓ} (B : Type κ) (items : List A) → length (unwritten {B = B} items) ≡ length items
length-unwritten B [] = refl
length-unwritten B (a ∷ items) = ap suc (length-unwritten B items)

module _ {κ} {B : Type κ} where
  length-set_at : (i : ℕ) (v : B) (xs : List (Option B)) → length (set_at i v xs) ≡ length xs
  length-set_at i v [] = refl
  length-set_at zero v (x ∷ xs) = refl
  length-set_at (suc i) v (x ∷ xs) = ap suc (length-set_at i v xs)

  set_at-here :
      (i : ℕ) (v : B) (xs : List (Option B))
      → i < length xs
      → get_elem? (set_at i v xs) i ≡ some (some v)
  set_at-here i v [] h = ground arith
  set_at-here zero v (x ∷ xs) h = refl
  set_at-here (suc i) v (x ∷ xs) h = set_at-here i v xs (omega (arith, h))

  set_at-elsewhere :
      (i j : ℕ) (v : B) (xs : List (Option B))
      → (i == j) ≡ false
      → get_elem? (set_at i v xs) j ≡ get_elem? xs j
  set_at-elsewhere i j v [] h = refl
  set_at-elsewhere zero zero v (x ∷ xs) h = ground arith
  set_at-elsewhere zero (suc j) v (x ∷ xs) h = refl
  set_at-elsewhere (suc i) zero v (x ∷ xs) h = refl
  set_at-elsewhere (suc i) (suc j) v (x ∷ xs) h = set_at-elsewhere i j v xs (ground arith)

  pub get_elem?-some : (xs : List B) (i : ℕ) → i < length xs → (v : B) × (get_elem? xs i ≡ some v)
  get_elem?-some [] i h = ground arith
  get_elem?-some (x ∷ xs) zero h = (x, refl)
  get_elem?-some (x ∷ xs) (suc i) h = get_elem?-some xs i (omega (arith, h))

  beside-eq-some :
      (ws us : List Worker) (r : Option (Shared B × Worker)) (t : Shared B)
      → beside ws r ≡ some (t, us)
      → (x : Worker) × (r ≡ some (t, x)) × (us ≡ x ∷ ws)
  beside-eq-some ws us none t h = cc
  beside-eq-some ws us (some (sh, x)) t h = (x, ground arith, ground arith)

  behind-eq-some :
      (x : Worker) (us : List Worker) (r : Option (Shared B × List Worker)) (t : Shared B)
      → behind x r ≡ some (t, us)
      → (vs : List Worker) × (r ≡ some (t, vs)) × (us ≡ x ∷ vs)
  behind-eq-some x us none t h = cc
  behind-eq-some x us (some (sh, vs)) t h = (vs, ground arith, ground arith)

module _ {ℓ κ} {A : Type ℓ} {B : Type κ} (items : List A) (fn : A → B) where
  -- One worker has gone on.
  pub record Moved (sh : Shared B) (ws : List Worker) (t : Shared B) (us : List Worker)
      : Type κ where
    pub before : List Worker
    pub after : List Worker
    pub old : Worker
    pub new : Worker
    pub was : ws ≡ before ++ old ∷ after
    pub now : us ≡ before ++ new ∷ after
    pub moved : move items fn sh old ≡ some (t, new)

  pub turn-Moved :
      (w : ℕ) (sh : Shared B) (ws : List Worker) (t : Shared B) (us : List Worker)
      → turn items fn w sh ws ≡ some (t, us)
      → Moved sh ws t us
  unfolding turn
  turn-Moved w sh [] t us h = cc
  turn-Moved zero sh (x ∷ ws) t us h =
      let (y, e, q) = beside-eq-some ws us (move items fn sh x) t h in
      record { before = []; after = ws; old = x; new = y; was = refl; now = q; moved = e }
  turn-Moved (suc w) sh (x ∷ ws) t us h =
      let (vs, e, q) = behind-eq-some x us (turn items fn w sh ws) t h in
      let m = turn-Moved w sh ws t vs e in
      record {
        before = x ∷ m.before;
        after = m.after;
        old = m.old;
        new = m.new;
        was = ap (λ l. x ∷ l) m.was;
        now = q ∙ ap (λ l. x ∷ l) m.now;
        moved = m.moved;
      }

  -- Every item that is handed out is written or awaited, and a worker only returns when all are
  -- handed out.
  pub record IsInvariant (sh : Shared B) (ws : List Worker) : Type κ where
    pub long : length sh.out ≡ length items
    pub below : sh.next ≤ length items
    pub awaited : (i : ℕ) → any (is_running i) ws ≡ true → i < sh.next
    pub written :
        (i : ℕ)
        → i < sh.next
        → any (is_running i) ws ≡ false
        → get_elem? sh.out i ≡ some (get_elem? (map fn items) i)
    pub handed : any is_stopped ws ≡ true → length items ≤ sh.next

  pub any-middle :
      (p : Worker → Bool) (before after ws : List Worker) (x : Worker)
      → ws ≡ before ++ x ∷ after
      → any p ws ≡ (any p before || (p x || any p after))
  any-middle p before after ws x e = rw e (any-append p before (x ∷ after))

  module _ (sh : Shared B) (ws us before after : List Worker) where
    pub start-IsInvariant :
        ws ≡ before ++ ready ∷ after
        → us ≡ before ++ running sh.next ∷ after
        → sh.next < length items
        → IsInvariant sh ws
        → IsInvariant (record sh { next = suc sh.next }) us
    start-IsInvariant was now more inv =
        let old = λ (p : Worker → Bool). any-middle p before after ws ready was in
        let new = λ (p : Worker → Bool). any-middle p before after us (running sh.next) now in
        record {
          long = inv.long;
          below = omega (arith, more);
          awaited = λ i a. ground (arith, old (is_running i), new (is_running i), inv.awaited i);
          written = λ i lt q. ground (arith, old (is_running i), new (is_running i), inv.written i);
          handed = λ q. ground (arith, old is_stopped, new is_stopped, inv.handed);
        }

    pub stop-IsInvariant :
        ws ≡ before ++ ready ∷ after
        → us ≡ before ++ stopped ∷ after
        → length items ≤ sh.next
        → IsInvariant sh ws
        → IsInvariant sh us
    stop-IsInvariant was now full inv =
        let old = λ (p : Worker → Bool). any-middle p before after ws ready was in
        let new = λ (p : Worker → Bool). any-middle p before after us stopped now in
        record {
          long = inv.long;
          below = inv.below;
          awaited = λ i a. ground (arith, old (is_running i), new (is_running i), inv.awaited i);
          written = λ i lt q. ground (arith, old (is_running i), new (is_running i), inv.written i);
          handed = λ q. full;
        }

    pub finish-IsInvariant :
        (i : ℕ) (v : B)
        → ws ≡ before ++ running i ∷ after
        → us ≡ before ++ ready ∷ after
        → get_elem? (map fn items) i ≡ some v
        → i < length items
        → IsInvariant sh ws
        → IsInvariant (record sh { out = set_at i v sh.out }) us
    finish-IsInvariant i v was now found lt inv =
        let old = λ (p : Worker → Bool). any-middle p before after ws (running i) was in
        let new = λ (p : Worker → Bool). any-middle p before after us ready now in
        record {
          long = length-set_at i v sh.out ∙ inv.long;
          below = inv.below;
          awaited = λ j a. ground (arith, old (is_running j), new (is_running j), inv.awaited j);
          written = λ j le q. elim (Bool-cases (i == j)) [
            | inl e ↦ ground (
              arith,
              found,
              (==_iff i j).0 e,
              set_at-here i v sh.out (omega (arith, lt, inv.long)),
            )
            | inr e ↦
                set_at-elsewhere i j v sh.out e
                ∙ inv.written j le (ground (arith, e, old (is_running j), new (is_running j)))
          ];
          handed = λ q. ground (arith, old is_stopped, new is_stopped, inv.handed);
        }
