-- ===== src/Hashcash/Util/Difficulty.antt =====
-- src/hashcash/hashcash.util.ts: the difficulty curve.
use zt_access_gateway.Common.{ℕ, ◌+◌, ◌-◌, ◌*◌, ◌≤◌, ◌≡◌, arith}
use zt_access_gateway.Hashcash.Util.{difficulty_for_score}

-- For bounds in order the difficulty lies within them at every score.
pub difficulty_for_score_bounds :
    (score lo hi : ℕ)
    → lo ≤ hi
    → (lo ≤ difficulty_for_score score lo hi) × (difficulty_for_score score lo hi ≤ hi)
unfolding difficulty_for_score
difficulty_for_score_bounds score lo hi h = ground arith

split_hi : (score lo hi : ℕ) → lo ≤ hi → score * hi ≡ score * lo + score * (hi - lo)
split_hi score lo hi h = grind arith

mul_mono : (a b c : ℕ) → a ≤ b → a * c ≤ b * c
mul_mono a b c h = grind arith

-- For bounds in order a higher (less trusted) score never gets an easier puzzle, and the curve
-- stands at `min` for every score up to 0.7 and at `max` from 0.9 on.
pub difficulty_for_score_mono :
    (s t lo hi : ℕ)
    → lo ≤ hi
    → s ≤ t
    → (difficulty_for_score s lo hi ≤ difficulty_for_score t lo hi)
      × (difficulty_for_score (700000 - s) lo hi ≡ lo)
      × (difficulty_for_score (900000 + s) lo hi ≡ hi)
unfolding difficulty_for_score
difficulty_for_score_mono s t lo hi h le = (
  ground (arith, split_hi s lo hi h, split_hi t lo hi h, mul_mono s t (hi - lo) le),
  ground
      (arith, split_hi (700000 - s) lo hi h, mul_mono (700000 - s) 700000 (hi - lo) (omega arith)),
  ground
      (arith, split_hi (900000 + s) lo hi h, mul_mono 900000 (900000 + s) (hi - lo) (omega arith)),
)
