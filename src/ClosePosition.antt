-- ===== src/ClosePosition.antt =====
-- _close_position of auto_trader_exposure_expansion_org/position_maintenance.py: what an exit does to
-- the live trader's position, cash and realized figures.
pub mod Booking
use mintzy_plugin_kelly_opt.Base.{
  ℕ, ◌-◌, min, Bool, true, false, ◌&&◌, ◌||◌, Option, none, some, get_or, if◌then◌else◌, ltb, ◌==◌,
}
use mintzy_plugin_kelly_opt.Base.Int.{ℤ, pos, pos_part, is_pos}
use mintzy_plugin_kelly_opt.Base.Text.{Text, text_eq}
use mintzy_plugin_kelly_opt.Base.Dict.{Dict, lookup, insert, pop}
use mintzy_plugin_kelly_opt.Number.{Number}
use mintzy_plugin_kelly_opt.Ledger.{buy, sell}
use mintzy_plugin_kelly_opt.PaperEngine.{OpenPosition}

-- The part of the trader that an exit changes. A missing or None field of a position is 0 or the empty
-- text, and a symbol without realized figure has 0.
pub record Account (F : Type 0) : Type 0 where
  pub positions : Dict (OpenPosition F)
  pub cash_balance : F
  pub realized_pnl : F
  pub realized_pnl_by_symbol : Dict F

module _ (N : Number) where
  open N use {Float, zero, of_int, plus, minus, times}

  -- The guard behind the conversions; the numbers are not NaN.
  unfoldable pub is_closable : OpenPosition Float → Float → ℤ → Bool
  is_closable p exit_price exit_qty =
      is_pos p.qty
      && (N.is_pos p.entry_price
          && (N.is_pos exit_price
              && (is_pos exit_qty && (text_eq p.side buy || text_eq p.side sell))))

  unfoldable pub realized_profit : OpenPosition Float → Float → ℤ → Float
  realized_profit p exit_price exit_qty =
      let realized_qty = min (pos_part p.qty) (pos_part exit_qty) in
      if text_eq p.side buy
      then times (minus exit_price p.entry_price) (of_int (pos realized_qty))
      else times (minus p.entry_price exit_price) (of_int (pos realized_qty))

  -- The book after the exit: an exit that is larger than the position flips it.
  unfoldable pub book_exit :
      Text → OpenPosition Float → Float → ℤ → Dict (OpenPosition Float) → Dict (OpenPosition Float)
  book_exit symbol p exit_price exit_qty positions =
      let current = pos_part p.qty in
      let exited = pos_part exit_qty in
      if ltb current exited
      then insert symbol
          (record {
            side = if text_eq p.side buy then sell else buy;
            qty = pos (exited - current);
            entry_price = exit_price;
          })
          positions
      else if exited == current
      then pop symbol positions
      else insert symbol (record p { qty = pos (current - exited) }) positions

  -- The exit of a position that the book has (`position_was_live`) or that a snapshot gives.
  unfoldable pub close_with :
      Bool → Text → OpenPosition Float → Float → ℤ → Account Float → Float × Account Float
  unfolding realized_profit
  close_with position_was_live symbol p exit_price exit_qty a =
      let profit = realized_profit p exit_price exit_qty in
      if is_closable p exit_price exit_qty
      then (
        profit,
        record {
          positions =
              if position_was_live
              then book_exit symbol p exit_price exit_qty a.positions
              else a.positions;
          cash_balance =
              if text_eq p.side buy
              then plus a.cash_balance (times (of_int exit_qty) exit_price)
              else a.cash_balance;
          realized_pnl = plus a.realized_pnl profit;
          realized_pnl_by_symbol =
              insert symbol (plus (get_or (lookup symbol a.realized_pnl_by_symbol) zero) profit)
                a.realized_pnl_by_symbol;
        },
      )
      else (zero, a)

  unfoldable pub close_position :
      Text → Float → ℤ → Option (OpenPosition Float) → Account Float → Float × Account Float
  unfolding close_with
  close_position symbol exit_price exit_qty position_snapshot a = elim (lookup symbol a.positions) [
    | some p ↦ close_with true symbol p exit_price exit_qty a
    | none ↦ elim position_snapshot [
      | some p ↦ close_with false symbol p exit_price exit_qty a
      | none ↦ (zero, a)
    ]
  ]
