-- ===== src/Discovery/Workers.antt =====
-- control-plane/lib/codex/operations.ts, `mapLimit`: several workers take the items of a list in
-- turn. A worker goes on without a pause from one `await` to the next; a schedule names the
-- worker that goes on at each turn.
pub mod Order
pub mod Schedule
use papi.Common.{
  ℕ, zero, suc, ◌+◌, ◌*◌, ◌-◌, ◌≤◌, ◌<◌, ◌≡◌, refl, List, [], ◌∷◌, ◌++◌, Option, none, some, Bool,
  true, false, ◌&&◌, ◌||◌, if◌then◌else◌, ltb, leb, ◌==◌, length, get_elem?, all, any, min, map,
}

-- A worker stands before its loop's test, awaits the call for an item, or has returned.
pub data Worker : Type 0 where
  ready : Worker
  running : (index : ℕ) → Worker
  stopped : Worker

abbrev pub is_running : ℕ → Worker → Bool
is_running i ready = false
is_running i (running j) = j == i
is_running i stopped = false

abbrev pub is_stopped : Worker → Bool
is_stopped ready = false
is_stopped (running j) = false
is_stopped stopped = true

-- The variables `next` and `out`; an element of `out` that is not written is `none`.
pub record Shared {κ} (B : Type κ) : Type κ where
  pub next : ℕ
  pub out : List (Option B)

module _ {κ} {B : Type κ} where
  -- `out[i] = v`
  abbrev pub set_at : ℕ → B → List (Option B) → List (Option B)
  set_at i v [] = []
  set_at zero v (x ∷ xs) = some v ∷ xs
  set_at (suc i) v (x ∷ xs) = x ∷ set_at i v xs

  -- A worker's result, before the workers that stand after it in the list.
  abbrev pub beside : List Worker → Option (Shared B × Worker) → Option (Shared B × List Worker)
  beside ws none = none
  beside ws (some (sh, x)) = some (sh, x ∷ ws)

  abbrev pub behind : Worker → Option (Shared B × List Worker) → Option (Shared B × List Worker)
  behind x none = none
  behind x (some (sh, ws)) = some (sh, x ∷ ws)

  -- `out[index] = await fn(items[index])`, for the item that is there.
  abbrev pub write_at : ℕ → Option B → List (Option B) → List (Option B)
  write_at i none out = out
  write_at i (some v) out = set_at i v out

-- The turns that follow one.
abbrev pub after_turn {κ} :
    {B : Type κ}
    → Option (Shared B × List Worker)
    → (Shared B → List Worker → Option (Shared B × List Worker))
    → Option (Shared B × List Worker)
after_turn none rest = none
after_turn (some (sh, ws)) rest = rest sh ws

-- The empty list of results, and the workers at their start.
abbrev pub unwritten {ℓ κ} : {A : Type ℓ} {B : Type κ} → List A → List (Option B)
unwritten [] = []
unwritten (a ∷ items) = none ∷ unwritten items

abbrev pub crew : ℕ → List Worker
crew zero = []
crew (suc k) = ready ∷ crew k

module _ {ℓ κ} {A : Type ℓ} {B : Type κ} (items : List A) (fn : A → B) where
  -- One worker goes on: `none` where it has returned.
  unfoldable pub move : Shared B → Worker → Option (Shared B × Worker)
  move sh ready =
      if ltb sh.next (length items)
      then some (record sh { next = suc sh.next }, running sh.next)
      else some (sh, stopped)
  move sh (running i) =
      some (record sh { out = write_at i (get_elem? (map fn items) i) sh.out }, ready)
  move sh stopped = none

  -- The turn of the worker at a place of the list; `none` where there is none that can go on.
  unfoldable pub turn : ℕ → Shared B → List Worker → Option (Shared B × List Worker)
  unfolding move
  turn w sh [] = none
  turn zero sh (x ∷ ws) = beside ws (move sh x)
  turn (suc w) sh (x ∷ ws) = behind x (turn w sh ws)

  unfoldable pub run : List ℕ → Shared B → List Worker → Option (Shared B × List Worker)
  unfolding turn
  run [] sh ws = some (sh, ws)
  run (w ∷ schedule) sh ws = after_turn (turn w sh ws) λ t us. run schedule t us

  -- `mapLimit(items, limit, fn)` after the turns of a schedule.
  unfoldable pub map_limit : ℕ → List ℕ → Option (Shared B × List Worker)
  unfolding run
  map_limit limit schedule =
      run schedule (record { next = 0; out = unwritten items }) (crew (min limit (length items)))
