-- ===== src/Entities/Secret/Hides.antt =====
-- What a masked secret gives away.
use pm.Base.{◌-◌, ◌≤◌, ◌≡◌, Text, length, take, drop, Bool-cases, inl, inr, ltb, arith}
use pm.Entities.Secret.{mask_secret, min_maskable_chars, visible_chars}

-- The mask of a secret is determined by its length and, if that is at least 12, by its first four
-- and its last four characters: two secrets that agree in these have the same mask, and below 12
-- characters any two of one length have.
pub mask_secret_hides :
    (a b : Text)
    → length a ≡ length b
    → (min_maskable_chars ≤ length a → take visible_chars a ≡ take visible_chars b)
    → (min_maskable_chars ≤ length a
        → drop (length a - visible_chars) a ≡ drop (length b - visible_chars) b)
    → mask_secret a ≡ mask_secret b
unfolding mask_secret
mask_secret_hides a b same heads tails = elim (Bool-cases (ltb (length a) min_maskable_chars)) [
  | inl short ↦ ground arith
  | inr long ↦
      let far : min_maskable_chars ≤ length a = ground arith in ground (arith, heads far, tails far)
]
