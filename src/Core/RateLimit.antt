-- ===== src/Core/RateLimit.antt =====
-- app/core/ratelimit.py. A time is a number of ticks of the monotonic clock, `ticks` of them in a
-- second; the code's floating-point times are taken to be exact. The lock makes a hit atomic.
pub mod Window
pub mod Retry
pub mod Keys
use cron_qms.Prelude.{
  ℕ, ◌+◌, ◌-◌, ◌/◌, String, Bool, true, false, List, [], ◌∷◌, ◌++◌, length, ltb, leb, if◌then◌else◌,
  str_eq, Option, none, some, Result, ok, err, http, crash,
}

-- `SlidingWindowLimiter` without its store
pub record Limiter : Type 0 where
  pub max_hits : ℕ
  pub window : ℕ
  pub ticks : ℕ

-- What a hit gives: None, the seconds to wait, or the IndexError of `hits[0]` on an empty deque.
pub data Verdict : Type 0 where
  allowed : Verdict
  wait : ℕ → Verdict
  index_error : Verdict

-- `while hits and hits[0] < cutoff: hits.popleft()`; a cutoff before the clock's start is 0 here,
-- and drops nothing either.
unfoldable pub expire : ℕ → List ℕ → List ℕ
expire cutoff [] = []
expire cutoff (h ∷ hits) = let rest = expire cutoff hits in if ltb h cutoff then rest else h ∷ hits

-- `int(hits[0] + self.window_seconds - now) + 1`
abbrev pub retry_after : Limiter → ℕ → List ℕ → Verdict
retry_after l now [] = index_error
retry_after l now (h ∷ _) = wait ((h + l.window - now) / l.ticks + 1)

-- `hit` on the deque of one key
unfoldable pub hit_deque : Limiter → ℕ → List ℕ → List ℕ × Verdict
unfolding expire
hit_deque l now hits =
    let live = expire (now - l.window) hits in
    if leb l.max_hits (length live)
    then (live, retry_after l now live)
    else (live ++ now ∷ [], allowed)

-- `_hits`, a dictionary whose missing keys have an empty deque
abbrev pub Hits : Type 0
Hits = List (String × List ℕ)

unfoldable pub deque : String → Hits → List ℕ
deque key [] = []
deque key ((k, hits) ∷ rest) = let others = deque key rest in if str_eq k key then hits else others

unfoldable pub put : String → List ℕ → Hits → Hits
put key hits [] = (key, hits) ∷ []
put key hits ((k, old) ∷ rest) =
    let others = put key hits rest in if str_eq k key then (k, hits) ∷ rest else (k, old) ∷ others

unfoldable pub hit : Limiter → ℕ → String → Hits → Hits × Verdict
unfolding deque put hit_deque
hit l now key store =
    let result = hit_deque l now (deque key store) in (put key result.0 store, result.1)

-- The answer of `rate_limit`'s dependency outside the exempt environments
unfoldable pub dependency : Verdict → Result (Unit {0})
dependency allowed = ok tt
dependency (wait n) = err (http 429 "Too many attempts. Please wait and try again.")
dependency index_error = err crash
