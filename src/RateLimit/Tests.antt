-- ===== src/RateLimit/Tests.antt =====
-- Runs of rateLimit of control-plane/lib/rate-limit.ts on concrete calls.
use papi.Common.{◌+◌, ◌≤◌, ◌<◌, ◌≡◌, refl, List, some, [], ◌∷◌, String, arith, length, min}
use papi.Common.Dict.{lookup, insert}
use papi.Common.Number.{num}
use papi.Common.Text.{codes}
use papi.RateLimit.{client_ip, Bucket, Buckets, shed, consume, rate_limit}
use papi.RateLimit.Window.{
  Attempt, served, asked, after_attempts, after_attempts-length, served-window,
}

abbrev signup_bucket : Bucket
signup_bucket = record { count = 1; reset_at = 3600 }

abbrev buckets : Buckets
buckets = ("signup:a", signup_bucket) ∷ []

abbrev attempt : String → Attempt
attempt key = record { key = key; limit = num 2; window = 3600; now = 10 }

abbrev attempts : List Attempt
attempts = attempt "signup:a" ∷ attempt "login:b" ∷ attempt "signup:a" ∷ attempt "signup:a" ∷ []

attempts_served : served "signup:a" buckets attempts ≡ 1
unfolding served rate_limit consume shed lookup insert
attempts_served = refl

in_window : {key : String} → (10 < 3600) × (0 < 3600) × (key ≡ "signup:a" → num 2 ≡ num 2)
in_window = (omega arith, omega arith, λ e. refl)

served-window_example :
    signup_bucket.count + served "signup:a" buckets attempts
    ≡ min 2 (signup_bucket.count + asked "signup:a" attempts)
unfolding lookup
served-window_example =
    served-window "signup:a" 2 signup_bucket buckets attempts (omega arith) refl (omega arith)
      (in_window, (in_window, (in_window, (in_window, tt)))) (omega arith)

after_attempts-length_example : length (after_attempts [] attempts) ≤ 50001
after_attempts-length_example = after_attempts-length attempts

two_keys : length (after_attempts [] attempts) ≡ 2
unfolding after_attempts rate_limit consume shed lookup insert
two_keys = refl

-- The limiter's key is the first hop, and a fixed text without one.
hop_read : client_ip (some (codes " 203.0.113.7 , 10.0.0.1")) ≡ codes "203.0.113.7"
unfolding client_ip papi.Ipacl.first_hop papi.Common.Text.split papi.Common.Text.trim
hop_read = refl

hop_missing : client_ip (some (codes " , 10.0.0.1")) ≡ codes "local"
unfolding client_ip papi.Ipacl.first_hop papi.Common.Text.split papi.Common.Text.trim
hop_missing = refl
