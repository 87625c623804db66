-- ===== src/Tests/RateLimitTests.antt =====
-- The rate limiter: two attempts in ten seconds of a clock with one tick per second.
use cron_qms.Prelude.{ℕ, ◌-◌, ◌≤◌, ◌≡◌, ◌≢◌, refl, String, List, [], ◌∷◌, count, arith, eq_iff}
use mathlib.Core.Bool.{false≢true}
use cron_qms.Core.RateLimit.{Limiter, Verdict, allowed, wait, expire, hit_deque, Hits}
use cron_qms.Core.RateLimit.Window.{accepted, within, accepted-bounded}
use cron_qms.Core.RateLimit.Retry.{wait-allowed}

abbrev limiter : Limiter
limiter = record { max_hits = 2; window = 10; ticks = 1 }

abbrev attempts : List ℕ
attempts = 1 ∷ 2 ∷ 3 ∷ 12 ∷ []

accepted_times : accepted limiter [] attempts ≡ 1 ∷ 2 ∷ 12 ∷ []
unfolding accepted hit_deque expire
accepted_times = refl

accepted-bounded_example : count (within 2 10) (accepted limiter [] attempts) ≤ 2
accepted-bounded_example =
    accepted-bounded limiter attempts 2
      (omega arith, (omega arith, (omega arith, (omega arith, tt))))

refused : ◌≡◌ {A = List ℕ × Verdict} (hit_deque limiter 3 (1 ∷ 2 ∷ [])) (1 ∷ 2 ∷ [], wait 9)
unfolding hit_deque expire
refused = refl

wait-allowed_example :
    (1 ∷ 2 ∷ [] ≡ expire (3 - 10) (1 ∷ 2 ∷ [])) × ((hit_deque limiter 12 (1 ∷ 2 ∷ [])).1 ≡ allowed)
wait-allowed_example =
    wait-allowed limiter 3 12 9 (1 ∷ 2 ∷ []) (1 ∷ 2 ∷ []) (omega arith) (omega arith) refused
      (omega arith)

abbrev store : Hits
store = ("login:a", 1 ∷ 2 ∷ []) ∷ []

keys_differ : ◌≢◌ {A = String} "login:a" "login:b"
keys_differ h = false≢true ((eq_iff "login:a" "login:b").1 h)
