-- ===== src/Services/NavConfig/Trimmed.antt =====
-- `str.strip` is idempotent.
use Prim.Native.Char.{Char, code}
use cron_qms.Prelude.{
  String, ◌≡◌, refl, sym, ap, subst, ◌∙◌, inl, inr, Bool-cases, false, arith, ◌&&◌,
}
use cron_qms.Text.{is_space, is_empty, lstrip, rstrip, strip}

-- A text without a space at its start.
abbrev IsTrimmed : String → Type 0
IsTrimmed String.[] = Unit
IsTrimmed (String.◌∷◌ c s) = is_space (code c) ≡ false

lstrip-IsTrimmed : (s : String) → IsTrimmed (lstrip s)
unfolding lstrip
lstrip-IsTrimmed String.[] = tt
lstrip-IsTrimmed (String.◌∷◌ c s) = elim (Bool-cases (is_space (code c))) [
  | inl e ↦
      let skips : lstrip (String.◌∷◌ c s) ≡ lstrip s = rw e in
      subst IsTrimmed (sym skips) (lstrip-IsTrimmed s)
  | inr e ↦
      let keeps : lstrip (String.◌∷◌ c s) ≡ String.◌∷◌ c s = rw e in subst IsTrimmed (sym keeps) e
]

lstrip-same : (s : String) → IsTrimmed s → lstrip s ≡ s
unfolding lstrip
lstrip-same String.[] h = refl
lstrip-same (String.◌∷◌ c s) h = rw h

rstrip-keeps :
    (c : Char) (s : String)
    → (is_empty (rstrip s) && is_space (code c)) ≡ false
    → rstrip (String.◌∷◌ c s) ≡ String.◌∷◌ c (rstrip s)
unfolding rstrip
rstrip-keeps c s e = rw e

rstrip-IsTrimmed : (s : String) → IsTrimmed s → IsTrimmed (rstrip s)
unfolding rstrip
rstrip-IsTrimmed String.[] h = tt
rstrip-IsTrimmed (String.◌∷◌ c s) h =
    let keeps : rstrip (String.◌∷◌ c s) ≡ String.◌∷◌ c (rstrip s) =
      rstrip-keeps c s (ground (arith, h)) in
    subst IsTrimmed (sym keeps) h

rstrip-same : (s : String) → rstrip (rstrip s) ≡ rstrip s
unfolding rstrip
rstrip-same String.[] = refl
rstrip-same (String.◌∷◌ c s) = elim (Bool-cases (is_empty (rstrip s) && is_space (code c))) [
  | inl e ↦ let drops : rstrip (String.◌∷◌ c s) ≡ "" = rw e in ap rstrip drops ∙ sym drops
  | inr e ↦
      let keeps = rstrip-keeps c s e in
      let same = rstrip-same s in
      let again : (is_empty (rstrip (rstrip s)) && is_space (code c)) ≡ false =
        ap (λ x. is_empty x && is_space (code c)) same ∙ e in
      ap rstrip keeps ∙ rstrip-keeps c (rstrip s) again ∙ ap (String.◌∷◌ c) same ∙ sym keeps
]

pub strip-same : (s : String) → strip (strip s) ≡ strip s
unfolding strip
strip-same s =
    ap rstrip (lstrip-same (rstrip (lstrip s)) (rstrip-IsTrimmed (lstrip s) (lstrip-IsTrimmed s)))
    ∙ rstrip-same (lstrip s)
