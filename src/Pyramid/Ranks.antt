-- ===== src/Pyramid/Ranks.antt =====
-- The rank tables of auto_trader_exposure_expansion/constants.py.
use mintzy_plugin_kelly_opt.Base.{
  ℕ, zero, suc, ◌-◌, ◌==◌, ◌||◌, not, Option, none, some, List, [], ◌∷◌, get_or, inl, inr, returned,
  raised, if◌then◌else◌, ◌≡◌, Call-cases, arith,
}
use mintzy_plugin_kelly_opt.Base.Int.{ℤ, pos, pos_part, is_pos}
use mintzy_plugin_kelly_opt.Number.{Number}
use mintzy_plugin_kelly_opt.Decimals.{Decimals, Field, int_of}

-- `PYR_MULTS`, in hundredths; the last of them is the multiplier of all further ranks.
abbrev pub pyr_mults : List ℕ
pyr_mults = 140 ∷ 130 ∷ 120 ∷ 100 ∷ 100 ∷ 75 ∷ 75 ∷ 75 ∷ 75 ∷ 75 ∷ []

abbrev pub last_mult : ℕ
last_mult = 75

-- `PYR_PROFIT_THRESHOLD_PCT`, in ten thousandths of a percent.
abbrev pub pyr_profit_threshold_pct : List (ℕ × ℕ)
pyr_profit_threshold_pct =
    (1, 576)
    ∷ (2, 638)
    ∷ (3, 744)
    ∷ (4, 893)
    ∷ (5, 893)
    ∷ (6, 1190)
    ∷ (7, 1374)
    ∷ (8, 1374)
    ∷ (9, 1374)
    ∷ (10, 1374)
    ∷ []

abbrev pub last_pct : ℕ
last_pct = 1374

-- `xs[i]` for an index that may be too large, and `d.get(k)` for a number.
abbrev pub nth : List ℕ → ℕ → Option ℕ
nth [] i = none
nth (x ∷ xs) zero = some x
nth (x ∷ xs) (suc i) = nth xs i

abbrev pub find : ℕ → List (ℕ × ℕ) → Option ℕ
find k [] = none
find k ((j, v) ∷ d) = let rest = find k d in if j == k then some v else rest

module _ (N : Number) (D : Decimals N) where
  open N use {Float, zero as fzero, of_int, times, divide, le}
  open D use {decimal}

  -- `PYR_MULTS[rank_key - 1]`, or the last of them.
  unfoldable pub multiplier_at : ℤ → Float
  multiplier_at rank_key = decimal (get_or (nth pyr_mults (pos_part rank_key - 1)) last_mult) 2

  unfoldable pub pyramid_multiplier_for_rank : Field Float → Option Float
  pyramid_multiplier_for_rank rank = elim (int_of N D rank) [
    | raised ↦ none
    | returned rank_key ↦ if not (is_pos rank_key) then none else some (multiplier_at rank_key)
  ]

  -- `PYR_PROFIT_THRESHOLD_PCT.get(rank_key)`, or the bucket of rank 10.
  unfoldable pub threshold_pct : ℤ → Float
  threshold_pct rank_key =
      decimal (get_or (find (pos_part rank_key) pyr_profit_threshold_pct) last_pct) 4

  unfoldable pub pyramid_profit_threshold_for_rank : Field Float → Float → Option Float
  pyramid_profit_threshold_for_rank rank capital_allocated = elim (int_of N D rank) [
    | raised ↦ none
    | returned rank_key ↦
        if not (is_pos rank_key) || le capital_allocated fzero
        then none
        else some (times capital_allocated (divide (threshold_pct rank_key) (of_int (pos 100))))
  ]

  -- A rank that has a threshold has a multiplier.
  pub threshold-multiplier :
      (rank : Field Float) (capital threshold : Float)
      → pyramid_profit_threshold_for_rank rank capital ≡ some threshold
      → (m : Float) × (pyramid_multiplier_for_rank rank ≡ some m)
  unfolding pyramid_profit_threshold_for_rank pyramid_multiplier_for_rank
  threshold-multiplier rank capital threshold h = elim (Call-cases (int_of N D rank)) [
    | inl e ↦ cc
    | inr (r, e) ↦ (multiplier_at r, ground arith)
  ]
