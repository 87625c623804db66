-- ===== src/Core/RateLimit/Retry.antt =====
-- What a refusal by the limiter of app/core/ratelimit.py means.
use cron_qms.Prelude.{
  ℕ, ◌+◌, ◌*◌, ◌-◌, ◌/◌, ◌≤◌, ◌<◌, ◌≡◌, refl, sym, subst, true, false, List, [], ◌∷◌, length,
  length-append, ltb, leb, arith,
}
use cron_qms.Core.RateLimit.{Limiter, Verdict, allowed, wait, expire, retry_after, hit_deque}

expire-length-le : (c : ℕ) (hits : List ℕ) → length (expire c hits) ≤ length hits
unfolding expire
expire-length-le c [] = omega arith
expire-length-le c (h ∷ hits) = ground (arith, expire-length-le c hits)

module _ (l : Limiter) (now : ℕ) (hits : List ℕ) (few : length hits ≤ l.max_hits) where
  -- The deque of a key never outgrows the limit.
  pub hit_deque-length : length (hit_deque l now hits).0 ≤ l.max_hits
  unfolding hit_deque
  hit_deque-length = ground (
    arith,
    expire-length-le (now - l.window) hits,
    length-append (expire (now - l.window) hits) (now ∷ []),
  )

rounded_up : (x t : ℕ) → 0 < t → x < (x / t + 1) * t
rounded_up x t pos = omega arith

module _ (l : Limiter) (now now' : ℕ) (pos : 0 < l.ticks) where
  after_wait :
      (live : List ℕ) {n : ℕ}
      → length live ≤ l.max_hits
      → retry_after l now live ≡ wait n
      → now + n * l.ticks ≤ now'
      → (hit_deque l now' live).1 ≡ allowed
  unfolding hit_deque expire
  after_wait [] few e later = cc
  after_wait (h ∷ rest) {n} few e later =
      let reached = rounded_up (h + l.window - now) l.ticks pos in
      let is : n ≡ (h + l.window - now) / l.ticks + 1 = ground arith in
      let passed : h + l.window - now < n * l.ticks =
        subst (λ k. h + l.window - now < k * l.ticks) (sym is) reached in
      let gone : ltb h (now' - l.window) ≡ true = ground arith in
      let room : leb l.max_hits (length (expire (now' - l.window) rest)) ≡ false =
        ground (arith, expire-length-le (now' - l.window) rest) in
      rw (gone, room) refl

refusal :
    (l : Limiter) (now n : ℕ) (hits hits' : List ℕ)
    → ◌≡◌ {A = List ℕ × Verdict} (hit_deque l now hits) (hits', wait n)
    → (hits' ≡ expire (now - l.window) hits) × (retry_after l now hits' ≡ wait n)
unfolding hit_deque
refusal l now n hits hits' h = ground arith

-- Where the deque of a key holds no more than `max_hits` times and a second has at least one tick, a
-- refused attempt is not recorded, and a caller who waits the seconds that it answers, with no attempt
-- of the same key in between, is let in.
pub wait-allowed :
    (l : Limiter) (now now' n : ℕ) (hits hits' : List ℕ)
    → 0 < l.ticks
    → length hits ≤ l.max_hits
    → ◌≡◌ {A = List ℕ × Verdict} (hit_deque l now hits) (hits', wait n)
    → now + n * l.ticks ≤ now'
    → (hits' ≡ expire (now - l.window) hits) × ((hit_deque l now' hits').1 ≡ allowed)
wait-allowed l now now' n hits hits' pos few h later =
    let (is, e) = refusal l now n hits hits' h in
    let short : length hits' ≤ l.max_hits =
      ground (arith, is, expire-length-le (now - l.window) hits) in
    (is, after_wait l now now' pos hits' short e later)
