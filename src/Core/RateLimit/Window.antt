-- ===== src/Core/RateLimit/Window.antt =====
-- How many attempts the limiter of app/core/ratelimit.py accepts in any window of time.
use cron_qms.Prelude.{
  ℕ, ◌+◌, ◌-◌, ◌≤◌, ◌<◌, ◌≡◌, refl, inl, inr, Bool, true, false, ◌&&◌, List, [], ◌∷◌, ◌++◌, length,
  count, count-append, count-le-length, leb, arith, Bool-cases, if◌then◌else◌,
}
use cron_qms.Core.RateLimit.{Limiter, Verdict, allowed, retry_after, expire, hit_deque}

abbrev is_allowed : Verdict → Bool
is_allowed allowed = true
is_allowed _ = false

-- The attempts of one key at the given times, and the times of those that are accepted.
unfoldable pub accepted : Limiter → List ℕ → List ℕ → List ℕ
accepted l hits [] = []
accepted l hits (now ∷ later) =
    let result = hit_deque l now hits in
    let rest = accepted l result.0 later in if is_allowed result.1 then now ∷ rest else rest

-- The clock never runs backwards.
abbrev pub IsMonotonic : ℕ → List ℕ → Type 0
IsMonotonic last [] = Unit
IsMonotonic last (now ∷ later) = (last ≤ now) × IsMonotonic now later

abbrev pub within : ℕ → ℕ → ℕ → Bool
within from window x = leb from x && leb x (from + window)

expire-length : (c : ℕ) (hits : List ℕ) → count (leb c) hits ≤ length (expire c hits)
unfolding expire
expire-length c [] = omega arith
expire-length c (h ∷ hits) = ground (arith, expire-length c hits, count-le-length (leb c) hits)

expire-count :
    (c d : ℕ) (hits : List ℕ) → c ≤ d → count (leb d) (expire c hits) ≡ count (leb d) hits
unfolding expire
expire-count c d [] le = refl
expire-count c d (h ∷ hits) le = ground (arith, expire-count c d hits)

count-implies :
    (p q : ℕ → Bool) (xs : List ℕ) → ((x : ℕ) → p x ≡ true → q x ≡ true) → count p xs ≤ count q xs
count-implies p q [] f = omega arith
count-implies p q (x ∷ xs) f = ground (arith, f x, count-implies p q xs)

-- What the deque knows of the accepted attempts when the last attempt was at the time `last`.
record IsLog (l : Limiter) (last : ℕ) (log hits : List ℕ) : Type 0 where
  recent : (c : ℕ) → last - l.window ≤ c → count (leb c) log ≤ count (leb c) hits
  bounded : (from : ℕ) → count (within from l.window) log ≤ l.max_hits

module _ (l : Limiter) (last now : ℕ) (log hits : List ℕ) (h : IsLog l last log hits)
    (later : last ≤ now) where
  live_recent :
      (c : ℕ)
      → now - l.window ≤ c
      → count (leb c) log ≤ count (leb c) (expire (now - l.window) hits)
  live_recent c le =
      omega (arith, expire-count (now - l.window) c hits le, h.recent c (omega arith))

  refused-IsLog : IsLog l now log (expire (now - l.window) hits)
  refused-IsLog = record { recent = live_recent; bounded = h.bounded }

  accepted-IsLog :
      length (expire (now - l.window) hits) < l.max_hits
      → IsLog l now (now ∷ log) (expire (now - l.window) hits ++ now ∷ [])
  accepted-IsLog room = record {
    recent = λ c le.
        ground
          (arith, count-append (leb c) (expire (now - l.window) hits) (now ∷ []), live_recent c le);
    bounded = λ from. elim (Bool-cases (within from l.window now)) [
      | inl y ↦
          let fits : now ≤ from + l.window = ground arith in
          let in_window =
            count-implies (within from l.window) (leb (now - l.window)) log (λ x e. ground arith) in
          ground (
            arith,
            in_window,
            live_recent (now - l.window) (omega arith),
            expire-length (now - l.window) (expire (now - l.window) hits),
            expire-length (now - l.window) hits,
            expire-count (now - l.window) (now - l.window) hits (omega arith),
          )
      | inr n ↦ ground (arith, h.bounded from)
    ];
  }

retry_after_lem :
    (l : Limiter) (now : ℕ) (live : List ℕ) → is_allowed (retry_after l now live) ≡ false
retry_after_lem l now [] = refl
retry_after_lem l now (h ∷ live) = refl

module _ (l : Limiter) (hits : List ℕ) (now : ℕ) (later : List ℕ) where
  accepted_none : accepted l hits [] ≡ []
  unfolding accepted
  accepted_none = refl

  accepted_full :
      leb l.max_hits (length (expire (now - l.window) hits)) ≡ true
      → accepted l hits (now ∷ later) ≡ accepted l (expire (now - l.window) hits) later
  unfolding accepted hit_deque
  accepted_full full = rw (full, retry_after_lem l now (expire (now - l.window) hits)) refl

  accepted_free :
      leb l.max_hits (length (expire (now - l.window) hits)) ≡ false
      → accepted l hits (now ∷ later)
        ≡ now ∷ accepted l (expire (now - l.window) hits ++ now ∷ []) later
  unfolding accepted hit_deque
  accepted_free free = rw free refl

module _ (l : Limiter) (from : ℕ) where
  abbrev inside : List ℕ → ℕ
  inside xs = count (within from l.window) xs

  accepted-within :
      (times : List ℕ) (last : ℕ) (log hits : List ℕ)
      → IsLog l last log hits
      → IsMonotonic last times
      → inside log + inside (accepted l hits times) ≤ l.max_hits
  accepted-within [] last log hits h mono =
      rw (accepted_none l hits 0 []) (omega (arith, h.bounded from))
  accepted-within (now ∷ later) last log hits h mono =
      let live = expire (now - l.window) hits in
      elim (Bool-cases (leb l.max_hits (length live))) [
        | inl full ↦
            let ih =
              accepted-within later now log live (refused-IsLog l last now log hits h mono.0)
                mono.1 in
            rw (accepted_full l hits now later full) ih
        | inr free ↦
            let ih =
              accepted-within later now (now ∷ log) (live ++ now ∷ [])
                (accepted-IsLog l last now log hits h mono.0 (ground arith)) mono.1 in
            rw (accepted_free l hits now later free) (ground arith)
      ]

-- Of the attempts of one key, at times that never run backwards, at most `max_hits` are accepted in
-- any stretch of time as long as the window.
pub accepted-bounded :
    (l : Limiter) (times : List ℕ) (from : ℕ)
    → IsMonotonic 0 times
    → count (within from l.window) (accepted l [] times) ≤ l.max_hits
accepted-bounded l times from mono = omega (
  arith,
  accepted-within l from times 0 [] []
      (record { recent = λ c le. omega arith; bounded = λ x. omega arith }) mono,
)
