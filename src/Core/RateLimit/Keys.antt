-- ===== src/Core/RateLimit/Keys.antt =====
-- The store of app/core/ratelimit.py: every key has a deque of its own.
use cron_qms.Prelude.{
  ℕ, ◌≡◌, ◌≢◌, refl, inl, inr, ◌∙◌, true, false, String, List, [], ◌∷◌, arith, Bool-cases, str_eq,
  eq_iff, eq_refl,
}
use cron_qms.Core.RateLimit.{Limiter, hit_deque, Hits, deque, put, hit}

deque_hit :
    (k key : String) (hits : List ℕ) (rest : Hits)
    → str_eq k key ≡ true
    → deque key ((k, hits) ∷ rest) ≡ hits
unfolding deque
deque_hit k key hits rest y = rw y refl

deque_miss :
    (k key : String) (hits : List ℕ) (rest : Hits)
    → str_eq k key ≡ false
    → deque key ((k, hits) ∷ rest) ≡ deque key rest
unfolding deque
deque_miss k key hits rest n = rw n refl

deque-put : (key : String) (hits : List ℕ) (store : Hits) → deque key (put key hits store) ≡ hits
unfolding put
deque-put key hits [] = deque_hit key key hits [] (eq_refl key)
deque-put key hits ((k, old) ∷ rest) = elim (Bool-cases (str_eq k key)) [
  | inl y ↦ rw y (deque_hit k key hits rest y)
  | inr n ↦ rw n (deque_miss k key old (put key hits rest) n ∙ deque-put key hits rest)
]

deque-put_other :
    (key other : String) (hits : List ℕ) (store : Hits)
    → str_eq key other ≡ false
    → deque other (put key hits store) ≡ deque other store
unfolding deque put
deque-put_other key other hits [] apart = rw apart refl
deque-put_other key other hits ((k, old) ∷ rest) apart = elim (Bool-cases (str_eq k key)) [
  | inl y ↦
      let same : k ≡ key = (eq_iff k key).0 y in
      let k_apart : str_eq k other ≡ false = rw (same) apart in rw (y, k_apart) refl
  | inr n ↦
      let ih = deque-put_other key other hits rest apart in
      elim (Bool-cases (str_eq k other)) [ inl e ↦ rw (n, e) refl | inr e ↦ rw (n, e) ih ]
]

-- A hit is judged by the attempts of its own key alone, and changes no other key.
pub hit_lem :
    (l : Limiter) (now : ℕ) (key other : String) (store : Hits)
    → key ≢ other
    → ((hit l now key store).1 ≡ (hit_deque l now (deque key store)).1)
      × (deque key (hit l now key store).0 ≡ (hit_deque l now (deque key store)).0)
      × (deque other (hit l now key store).0 ≡ deque other store)
unfolding hit
hit_lem l now key other store apart = (
  refl,
  deque-put key _ store,
  deque-put_other key other _ store (ground (arith, eq_iff key other)),
)
