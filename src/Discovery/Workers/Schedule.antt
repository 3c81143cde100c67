-- ===== src/Discovery/Workers/Schedule.antt =====
-- On the runs of `mapLimit` in control-plane/lib/codex/operations.ts.
use papi.Common.{
  ℕ, zero, suc, ◌+◌, ◌*◌, ◌-◌, ◌≤◌, ◌<◌, ◌≡◌, refl, ap, sym, ◌∙◌, List, [], ◌∷◌, ◌++◌, Option, none,
  some, true, false, ltb, length, length-append, all, any, min, map, Bool-cases, inl, inr, ◌⊎◌,
  arith, ltb→lt,
}
use papi.Discovery.Workers.{
  Worker, ready, running, stopped, is_running, is_stopped, Shared, set_at, after_turn, unwritten,
  crew, move, turn, run, map_limit,
}
use papi.Discovery.Workers.Order.{
  results, length-unwritten, length-map, in_place, turn-Moved, IsInvariant, start-IsInvariant,
  stop-IsInvariant, finish-IsInvariant, get_elem?-some, any-middle,
}

-- The turns that a worker can still take without taking another item.
weight : Worker → ℕ
weight ready = 1
weight (running i) = 2
weight stopped = 0

weigh : List Worker → ℕ
unfolding weight
weigh [] = 0
weigh (x ∷ ws) = weight x + weigh ws

weigh-append : (ws us : List Worker) → weigh (ws ++ us) ≡ weigh ws + weigh us
unfolding weigh
weigh-append [] us = omega arith
weigh-append (x ∷ ws) us = omega (arith, weigh-append ws us)

weigh-crew : (k : ℕ) → weigh (crew k) ≡ k
unfolding weigh weight
weigh-crew zero = refl
weigh-crew (suc k) = omega (arith, weigh-crew k)

length-crew : (k : ℕ) → length (crew k) ≡ k
length-crew zero = refl
length-crew (suc k) = ap suc (length-crew k)

none-running : (ws : List Worker) (i : ℕ) → all is_stopped ws ≡ true → any (is_running i) ws ≡ false
none-running [] i h = refl
none-running (ready ∷ ws) i h = ground arith
none-running (running j ∷ ws) i h = ground arith
none-running (stopped ∷ ws) i h = none-running ws i h

some-stopped :
    (ws : List Worker) → all is_stopped ws ≡ true → 0 < length ws → any is_stopped ws ≡ true
some-stopped [] h lt = ground arith
some-stopped (x ∷ ws) h lt = ground arith

crew-quiet : (i k : ℕ) → (any (is_running i) (crew k) ≡ false) × (any is_stopped (crew k) ≡ false)
crew-quiet i zero = (refl, refl)
crew-quiet i (suc k) = crew-quiet i k

module _ {ℓ κ} {A : Type ℓ} {B : Type κ} (items : List A) (fn : A → B) where
  after_turn-eq-some :
      (r : Option (Shared B × List Worker))
      (rest : Shared B → List Worker → Option (Shared B × List Worker))
      {last : Shared B × List Worker}
      → after_turn r rest ≡ some last
      → (sh : Shared B) × ((ws : List Worker) × (r ≡ some (sh, ws)) × (rest sh ws ≡ some last))
  after_turn-eq-some none rest h = cc
  after_turn-eq-some (some (sh, ws)) rest h = (sh, (ws, refl, h))

  -- The turns that are left at most.
  abbrev potential : Shared B → List Worker → ℕ
  potential sh ws = 2 * (length items - sh.next) + weigh ws

  move-IsInvariant :
      (sh t : Shared B) (ws us before after : List Worker) (x y : Worker)
      → ws ≡ before ++ x ∷ after
      → us ≡ before ++ y ∷ after
      → move items fn sh x ≡ some (t, y)
      → IsInvariant items fn sh ws
      → IsInvariant items fn t us
        × (2 * (length items - sh.next) + weight x ≡ suc (2 * (length items - t.next) + weight y))
  unfolding move weight
  move-IsInvariant sh t ws us before after ready y was now h inv =
      elim (Bool-cases (ltb sh.next (length items))) [
        | inl b ↦
            let et : t ≡ record sh { next = suc sh.next } = ground (arith, h, b) in
            let ey : y ≡ running sh.next = ground (arith, h, b) in
            rw (et, ey)
              (
                start-IsInvariant items fn sh ws us before after was (rw now (rw ey refl))
                    (ltb→lt _ _ b) inv,
                ground (arith, b),
              )
        | inr b ↦
            let et : t ≡ sh = ground (arith, h, b) in
            let ey : y ≡ stopped = ground (arith, h, b) in
            rw (et, ey)
              (
                stop-IsInvariant items fn sh ws us before after was (rw now (rw ey refl))
                    (ground (arith, b)) inv,
                ground (arith, b),
              )
      ]
  move-IsInvariant sh t ws us before after (running i) y was now h inv =
      let there : any (is_running i) ws ≡ true =
        ground (arith, any-middle items fn (is_running i) before after ws (running i) was) in
      let lt : i < length items = omega (arith, inv.awaited i there, inv.below) in
      let (v, found) = get_elem?-some (map fn items) i (rw (length-map fn items) lt) in
      let et : t ≡ record sh { out = set_at i v sh.out } = ground (arith, h, found) in
      let ey : y ≡ ready = ground (arith, h, found) in
      rw (et, ey)
        (
          finish-IsInvariant items fn sh ws us before after i v was (rw now (rw ey refl)) found lt
              inv,
          omega arith,
        )
  move-IsInvariant sh t ws us before after stopped y was now h inv = cc

  turn-IsInvariant :
      (w : ℕ) (sh t : Shared B) (ws us : List Worker)
      → turn items fn w sh ws ≡ some (t, us)
      → IsInvariant items fn sh ws
      → IsInvariant items fn t us
        × (length us ≡ length ws)
        × (potential sh ws ≡ suc (potential t us))
  unfolding weigh
  turn-IsInvariant w sh t ws us h inv =
      let m = turn-Moved items fn w sh ws t us h in
      let (next, less) =
        move-IsInvariant sh t ws us m.before m.after m.old m.new m.was m.now m.moved inv in
      (
        next,
        rw
            (
              m.was,
              m.now,
              length-append m.before (m.old ∷ m.after),
              length-append m.before (m.new ∷ m.after),
            )
            refl,
        rw
            (
              m.was,
              m.now,
              weigh-append m.before (m.old ∷ m.after),
              weigh-append m.before (m.new ∷ m.after),
            )
            (omega (arith, less)),
      )

  run-IsInvariant :
      (schedule : List ℕ) (sh t : Shared B) (ws us : List Worker)
      → run items fn schedule sh ws ≡ some (t, us)
      → IsInvariant items fn sh ws
      → IsInvariant items fn t us
        × (length us ≡ length ws)
        × (potential sh ws ≡ length schedule + potential t us)
  unfolding run
  run-IsInvariant [] sh t ws us h inv =
      let et : sh ≡ t = ground (arith, h) in
      let eu : ws ≡ us = ground (arith, h) in rw (sym et, sym eu) (inv, refl, omega arith)
  run-IsInvariant (w ∷ schedule) sh t ws us h inv =
      let (sh1, (ws1, e, h1)) =
        after_turn-eq-some (turn items fn w sh ws) (λ t us. run items fn schedule t us) h in
      let (inv1, same1, less1) = turn-IsInvariant w sh sh1 ws ws1 e inv in
      let (inv2, same2, less2) = run-IsInvariant schedule sh1 t ws1 us h1 inv1 in
      (inv2, same2 ∙ same1, omega (arith, less1, less2))

  crew-IsInvariant :
      (k : ℕ) → IsInvariant items fn (record { next = 0; out = unwritten items }) (crew k)
  crew-IsInvariant k = record {
    long = length-unwritten B items;
    below = omega arith;
    awaited = λ i a. ground (arith, crew-quiet i k);
    written = λ i lt q. ground (arith, lt);
    handed = λ q. ground (arith, crew-quiet 0 k);
  }

  -- When all the workers of `mapLimit` have returned, and there is at least one where there are
  -- items, `out` holds the result of every item at the item's place, whatever the order of their
  -- turns.
  pub map_limit-results :
      (limit : ℕ) (schedule : List ℕ) (t : Shared B) (us : List Worker)
      → 0 < limit
      → map_limit items fn limit schedule ≡ some (t, us)
      → all is_stopped us ≡ true
      → t.out ≡ results fn items
  unfolding map_limit
  map_limit-results limit schedule t us some_worker h done =
      let crew_size = min limit (length items) in
      let (inv, same, less) =
        run-IsInvariant schedule _ t (crew crew_size) us h (crew-IsInvariant crew_size) in
      in_place fn items t.out inv.long λ i lt.
        inv.written i
          (omega (
            arith,
            lt,
            inv.handed (
                some-stopped us done (omega (arith, same, length-crew crew_size, lt, some_worker))),
          ))
          (none-running us i done)

  someone :
      (sh : Shared B) (ws : List Worker)
      → all is_stopped ws ≡ false
      → (w : ℕ) × ((t : Shared B) × ((us : List Worker) × (turn items fn w sh ws ≡ some (t, us))))
  unfolding turn move
  someone sh [] h = cc
  someone sh (ready ∷ ws) h = elim (Bool-cases (ltb sh.next (length items))) [
    | inl b ↦ (0, (record sh { next = suc sh.next }, (running sh.next ∷ ws, rw b refl)))
    | inr b ↦ (0, (sh, (stopped ∷ ws, rw b refl)))
  ]
  someone sh (running i ∷ ws) h = (0, (_, (_, refl)))
  someone sh (stopped ∷ ws) h =
      let (w, (t, (us, e))) = someone sh ws h in (suc w, (t, (stopped ∷ us, rw e refl)))

  -- After any turns of `mapLimit`, either all the workers have returned or some worker can go on;
  -- and no more than two turns for each item and one for each worker are ever taken.
  pub map_limit-ends :
      (limit : ℕ) (schedule : List ℕ) (t : Shared B) (us : List Worker)
      → map_limit items fn limit schedule ≡ some (t, us)
      → (length schedule ≤ 2 * length items + min limit (length items))
        × ((all is_stopped us ≡ true)
            ⊎ ((w : ℕ) × ((t' : Shared B) × ((us' : List Worker) × (turn items fn w t us
                      ≡ some (t', us'))))))
  unfolding map_limit
  map_limit-ends limit schedule t us h =
      let crew_size = min limit (length items) in
      let (inv, same, less) =
        run-IsInvariant schedule _ t (crew crew_size) us h (crew-IsInvariant crew_size) in
      (
        omega (arith, less, weigh-crew crew_size),
        elim (Bool-cases (all is_stopped us)) [ inl b ↦ inl b | inr b ↦ inr (someone t us b) ],
      )
