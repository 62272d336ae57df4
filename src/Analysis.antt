-- ===== src/Analysis.antt =====
-- auto_trader_exposure_expansion_org/analysis.py: the signal of a symbol from its predicted path, and
-- the profit of a held position. The live price that Redis gives is an argument, and log lines are
-- left out.
use mintzy_plugin_kelly_opt.Base.{◌||◌, not, Option, none, some, List, [], ◌∷◌, if◌then◌else◌}
use mintzy_plugin_kelly_opt.Base.Int.{ℤ, pos, is_pos}
use mintzy_plugin_kelly_opt.Base.Text.{Text, codes, text_eq}
use mintzy_plugin_kelly_opt.Base.Dict.{Dict, lookup, insert}
use mintzy_plugin_kelly_opt.Number.{Number}
use mintzy_plugin_kelly_opt.Decimals.{Decimals}
use mintzy_plugin_kelly_opt.PaperEngine.{OpenPosition}
use mintzy_plugin_kelly_opt.Exposure.{CachedRow}

-- The rows of a ticker, sorted by time: the predicted prices, and slot 0 of the columns
-- `trajectory_pct`, where it is there and no NaN, and `risk_regime`, where that column is there.
pub record Forecast (F : Type 0) : Type 0 where
  pub ticker : Text
  pub predicted_path : List F
  pub trajectory : Option F
  pub regime : Option ℤ

-- The entry of a symbol in the signals.
pub record Info (F : Type 0) : Type 0 where
  pub signal : Text
  pub change_pct : F
  pub curr_price : F
  pub side : Text
  pub risk_regime : ℤ

module _ (N : Number) (D : Decimals N) where
  open N use {Float, zero, of_int, plus, minus, times, divide, le}
  open D use {decimal, round2, less, eq_zero}

  -- `abs(x)`
  unfoldable pub magnitude : Float → Float
  magnitude x = if less x zero then minus zero x else x

  unfoldable pub regime_of : Float → Float → ℤ
  unfolding magnitude
  regime_of min_trade_pct trajectory_pct =
      if less (magnitude trajectory_pct) min_trade_pct then pos 0 else pos 1

  -- The trajectory and the risk regime: those of slot 0, or computed from the first four prices.
  unfoldable pub outlook : Float → Forecast Float → Float → Float → Float × ℤ
  unfolding regime_of
  outlook min_trade_pct f first_candle last_candle =
      let moved =
        if eq_zero first_candle
        then zero
        else times (divide (minus last_candle first_candle) first_candle) (decimal 100 0) in
      elim f.trajectory [
        | none ↦ (moved, regime_of min_trade_pct moved)
        | some trajectory_pct ↦ (
          trajectory_pct,
          elim f.regime [ none ↦ regime_of min_trade_pct trajectory_pct | some r ↦ r ],
        )
      ]

  unfoldable pub signal_of : Text → Float → Text
  signal_of position_side trajectory_pct =
      if text_eq position_side (codes "NONE")
      then (if less zero trajectory_pct
          then codes "BUY"
          else if less trajectory_pct zero
          then codes "SELL"
          else codes "HOLD")
      else if text_eq position_side (codes "BUY")
      then (if less trajectory_pct zero then codes "SELL" else codes "BUY")
      else if text_eq position_side (codes "SELL")
      then (if less zero trajectory_pct then codes "BUY" else codes "SELL")
      else codes "HOLD"

  -- The live price, unless it is missing or 0, or else the first predicted one.
  unfoldable pub anchor : Option Float → Float → Float
  anchor none first_candle = first_candle
  anchor (some live_price) first_candle = if eq_zero live_price then first_candle else live_price

  -- The side of the position in the book, `"NONE"` where there is none.
  unfoldable pub position_side : Text → Dict (OpenPosition Float) → Text
  position_side symbol user_positions = elim (lookup symbol user_positions) [
    | none ↦ codes "NONE"
    | some p ↦ p.side
  ]

  unfoldable pub info_of :
      Float → Dict (OpenPosition Float) → Option Float → Forecast Float → Float → Float → Info Float
  unfolding outlook signal_of anchor position_side
  info_of min_trade_pct user_positions live_price f first_candle last_candle =
      let (trajectory_pct, risk_regime) = outlook min_trade_pct f first_candle last_candle in
      let side = position_side f.ticker user_positions in
      record {
        signal = signal_of side trajectory_pct;
        change_pct = trajectory_pct;
        curr_price = anchor live_price first_candle;
        side = side;
        risk_regime = risk_regime;
      }

  -- The body of the loop over the tickers; a path of fewer than four prices is passed over.
  unfoldable pub add_signal :
      Float
      → Option Float
      → Forecast Float
      → Dict (OpenPosition Float)
      → List Float
      → Dict (Info Float)
      → Dict (Info Float)
  add_signal min_trade_pct live_price f user_positions (p0 ∷ p1 ∷ p2 ∷ p3 ∷ path) signals =
      insert f.ticker (info_of min_trade_pct user_positions live_price f p0 p3) signals
  add_signal min_trade_pct live_price f user_positions path signals = signals

  -- The loop over the tickers.
  unfoldable pub analyze :
      Float
      → (Text → Option Float)
      → List (Forecast Float)
      → Dict (OpenPosition Float)
      → Dict (Info Float)
      → Dict (Info Float)
  analyze min_trade_pct live_price [] user_positions signals = signals
  analyze min_trade_pct live_price (f ∷ fs) user_positions signals =
      analyze min_trade_pct live_price fs user_positions
        (add_signal min_trade_pct (live_price f.ticker) f user_positions f.predicted_path signals)

  -- The first cached row of the symbol.
  unfoldable pub cached_row : Text → List (CachedRow Float) → Option (CachedRow Float)
  cached_row symbol [] = none
  cached_row symbol (p ∷ rows) =
      let rest = cached_row symbol rows in if text_eq p.row.symbol symbol then some p else rest

  -- The entry price, which the broker's row replaces where it is not positive; and the positions.
  unfoldable pub patched_entry :
      Text
      → OpenPosition Float
      → List (CachedRow Float)
      → Dict (OpenPosition Float)
      → Float × Dict (OpenPosition Float)
  unfolding cached_row
  patched_entry symbol p rows positions =
      if not (le p.entry_price zero)
      then (p.entry_price, positions)
      else elim (cached_row symbol rows) [
        | none ↦ (p.entry_price, positions)
        | some c ↦
            if N.is_pos c.row.avg_price
            then (
              c.row.avg_price,
              insert symbol (record p { entry_price = c.row.avg_price }) positions,
            )
            else (p.entry_price, positions)
      ]

  unfoldable pub checked_pnl : Text → ℤ → Float → Float → Float
  unfolding magnitude
  checked_pnl side qty entry_price ltp =
      let q = of_int qty in
      let pnl =
        if text_eq side (codes "BUY")
        then times (minus ltp entry_price) q
        else times (minus entry_price ltp) q in
      if le entry_price zero
        || (not (is_pos qty) || not (text_eq side (codes "BUY") || text_eq side (codes "SELL")))
      then zero
      else if less (times entry_price q) (magnitude pnl)
      then zero
      else round2 pnl

  unfoldable pub calculate_pnl :
      Text
      → Option Float
      → List (CachedRow Float)
      → Dict (OpenPosition Float)
      → Float × Dict (OpenPosition Float)
  unfolding patched_entry checked_pnl
  calculate_pnl symbol none rows positions = (zero, positions)
  calculate_pnl symbol (some ltp) rows positions = elim (lookup symbol positions) [
    | none ↦ (zero, positions)
    | some p ↦
        let (entry_price, positions') = patched_entry symbol p rows positions in
        if le ltp zero
        then (zero, positions)
        else (checked_pnl p.side p.qty entry_price ltp, positions')
  ]
