-- ===== src/RateLimit/Window.antt =====
-- What the limiter promises: how many calls of a key pass in one window, and how large its map
-- grows.
use papi.Common.{
  ℕ, ◌+◌, ◌≤◌, ◌<◌, min, ◌≡◌, refl, ◌∙◌, ◌≢◌, inl, inr, String, List, [], ◌∷◌, Option, none, some,
  Bool, true, false, if◌then◌else◌, ltb, str_eq, str_eq_iff, str_eq_refl, length, arith, All,
  Bool-cases,
}
use papi.Common.Dict.{lookup, lookup-insert, length-insert-le}
use papi.Common.Number.{Number, num, nan}
use papi.RateLimit.{Bucket, Buckets, max_buckets, shed, consume, rate_limit}

pub record Attempt : Type 0 where
  pub key : String
  pub limit : Number
  pub window : ℕ
  pub now : ℕ

abbrev fresh : ℕ → ℕ → Bucket
fresh now window = record { count = 1; reset_at = now + window }

abbrev pub bit : Bool → ℕ
bit true = 1
bit false = 0

-- How many of the attempts with this key are answered `true`, and how many there are.
unfoldable pub served : String → Buckets → List Attempt → ℕ
served k m [] = 0
served k m (a ∷ rest) =
    let r = rate_limit m a.key a.limit a.window a.now in
    (if str_eq a.key k then bit r.1 else 0) + served k r.0 rest

unfoldable pub asked : String → List Attempt → ℕ
asked k [] = 0
asked k (a ∷ rest) = (if str_eq a.key k then 1 else 0) + asked k rest

shed_small : (now : ℕ) (m : Buckets) → length m ≤ max_buckets → shed now m ≡ m
unfolding shed
shed_small now m h = ground arith

consume-length :
    (m : Buckets) (key : String) (limit : Number) (window now : ℕ) (o : Option Bucket)
    → length (consume m key limit window now o).0 ≤ length m + 1
unfolding consume
consume-length m key limit window now none = length-insert-le key (fresh now window) m
consume-length m key limit window now (some b) = ground (
  arith,
  length-insert-le key (fresh now window) m,
  length-insert-le key (record b { count = b.count + 1 }) m,
)

shed-length : (now : ℕ) (m : Buckets) → length (shed now m) ≤ max_buckets
unfolding shed
shed-length now m = ground arith

rate_limit-length :
    (m : Buckets) (key : String) (limit : Number) (window now : ℕ)
    → length m ≤ max_buckets + 1
    → length (rate_limit m key limit window now).0 ≤ max_buckets + 1
unfolding rate_limit
rate_limit-length m key limit window now h = ground (
  arith,
  shed-length now m,
  consume-length (shed now m) key limit window now (lookup key (shed now m)),
)

-- The map after some calls.
unfoldable pub after_attempts : Buckets → List Attempt → Buckets
after_attempts m [] = m
after_attempts m (a ∷ rest) = after_attempts (rate_limit m a.key a.limit a.window a.now).0 rest

after_attempts-length-le :
    (m : Buckets) (calls : List Attempt)
    → length m ≤ max_buckets + 1
    → length (after_attempts m calls) ≤ max_buckets + 1
unfolding after_attempts
after_attempts-length-le m [] h = h
after_attempts-length-le m (a ∷ calls) h =
    after_attempts-length-le (rate_limit m a.key a.limit a.window a.now).0 calls
      (rate_limit-length m a.key a.limit a.window a.now h)

-- After any sequence of calls, with any keys, limits, windows and times, from the empty map, the map
-- holds at most 50 001 buckets.
pub after_attempts-length : (calls : List Attempt) → length (after_attempts [] calls) ≤ 50001
after_attempts-length calls = after_attempts-length-le [] calls (omega arith)

-- Below the cap, one call grows the map by one bucket at most.
rate_limit-grows :
    (m : Buckets) (key : String) (limit : Number) (window now : ℕ)
    → length m ≤ max_buckets
    → length (rate_limit m key limit window now).0 ≤ length m + 1
unfolding rate_limit
rate_limit-grows m key limit window now h = ground (
  arith,
  shed_small now m,
  consume-length (shed now m) key limit window now (lookup key (shed now m)),
)

consume_other :
    (m : Buckets) (key k : String) (limit : Number) (window now : ℕ) (o : Option Bucket)
    → key ≢ k
    → lookup k (consume m key limit window now o).0 ≡ lookup k m
unfolding consume
consume_other m key k limit window now none ne =
    ground (arith, str_eq_iff key k, lookup-insert key k (fresh now window) m)
consume_other m key k limit window now (some b) ne = ground (
  arith,
  str_eq_iff key k,
  lookup-insert key k (fresh now window) m,
  lookup-insert key k (record b { count = b.count + 1 }) m,
)

-- A call with another key leaves a bucket as it was, as long as the map is not above its cap.
pub rate_limit_other :
    (m : Buckets) (key k : String) (limit : Number) (window now : ℕ)
    → length m ≤ max_buckets
    → key ≢ k
    → lookup k (rate_limit m key limit window now).0 ≡ lookup k m
unfolding rate_limit
rate_limit_other m key k limit window now small ne = ground (
  arith,
  shed_small now m,
  consume_other (shed now m) key k limit window now (lookup key (shed now m)),
)

-- A call with the bucket's own key inside its window passes exactly below the limit, and counts
-- itself exactly then.
rate_limit_live :
    (m : Buckets) (key k : String) (lim : Number) (limit window now : ℕ) (b : Bucket)
    → key ≡ k
    → lim ≡ num limit
    → length m ≤ max_buckets
    → 0 < limit
    → 0 < window
    → lookup k m ≡ some b
    → now < b.reset_at
    → let r = rate_limit m key lim window now in
      (r.1 ≡ ltb b.count limit)
      × (lookup k r.0 ≡ some (record b { count = b.count + bit (ltb b.count limit) }))
unfolding rate_limit consume
rate_limit_live m key k lim limit window now b same_key same small pl pw e live =
    rw (same_key, same, shed_small now m small, e)
      (ground (arith, str_eq_refl k, lookup-insert k k (record b { count = b.count + 1 }) m))

-- One key's calls in one window: while the map stays below its cap and no window has passed, the
-- calls that pass are the first ones, up to the limit, and every later one is refused.
pub served-window :
    (k : String) (limit : ℕ) (b : Bucket) (m : Buckets) (calls : List Attempt)
    → 0 < limit
    → lookup k m ≡ some b
    → length m + length calls ≤ max_buckets
    → All (λ a. (a.now < b.reset_at) × (0 < a.window) × (a.key ≡ k → a.limit ≡ num limit)) calls
    → b.count ≤ limit
    → b.count + served k m calls ≡ min limit (b.count + asked k calls)
unfolding served asked
served-window k limit b m [] pl e size h le = omega arith
served-window k limit b m (a ∷ calls) pl e size ((live, pw, same), h) le =
    let grows = rate_limit-grows m a.key a.limit a.window a.now (omega arith) in
    elim (Bool-cases (str_eq a.key k)) [
      | inl hit ↦
          let key = (str_eq_iff a.key k).0 hit in
          let (passed, found) =
            rate_limit_live m a.key k a.limit limit a.window a.now b key (same key) (omega arith) pl
              pw e live in
          rw (hit, passed)
            (ground (
              arith,
              served-window k limit (record b { count = b.count + bit (ltb b.count limit) })
                  (rate_limit m a.key a.limit a.window a.now).0 calls pl found (omega arith) h,
            ))
      | inr miss ↦
          let kept =
            rate_limit_other m a.key k a.limit a.window a.now (omega arith)
              (ground (arith, str_eq_iff a.key k)) in
          rw miss (
            omega (
              arith,
              served-window k limit b (rate_limit m a.key a.limit a.window a.now).0 calls pl
                  (kept ∙ e) (omega arith) h le,
            ))
    ]

-- With a limit that is no number every call passes, however many came before it.
pub rate_limit_nan :
    (m : Buckets) (key : String) (window now : ℕ)
    → 0 < window
    → (rate_limit m key nan window now).1 ≡ true
unfolding rate_limit consume
rate_limit_nan m key window now h = ground arith

-- With the limit 0 every call is refused, and nothing is recorded.
pub rate_limit_closed :
    (m : Buckets) (key : String) (window now : ℕ) → rate_limit m key (num 0) window now ≡ (m, false)
unfolding rate_limit
rate_limit_closed m key window now = refl
