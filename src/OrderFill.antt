-- ===== src/OrderFill.antt =====
-- auto_trader_exposure_expansion_org/order_fill.py: what a confirmed fill does to the live trader's
-- book and ledger, and how the pending orders are reconciled with the broker. Log lines, and the
-- files and documents that a finished exit writes, are left out.
pub mod Fills
pub mod Reconcile
pub mod Follows
use mintzy_plugin_kelly_opt.Base.{
  ℕ, ◌-◌, min, ltb, Bool, true, false, ◌&&◌, ◌||◌, not, Option, none, some, List, [], ◌∷◌, any,
  is_empty, is_some, get_or, Call, returned, raised, if◌then◌else◌,
}
use mintzy_plugin_kelly_opt.Base.Int.{ℤ, pos, pos_part, ◌+ℤ◌, abs, is_pos, is_zero}
use mintzy_plugin_kelly_opt.Base.Text.{Text, codes, text_eq, lower}
use mintzy_plugin_kelly_opt.Base.Dict.{Dict, lookup, insert, pop, contains}
use mintzy_plugin_kelly_opt.Base.SymbolSet.{member}
use mintzy_plugin_kelly_opt.Symbols.{Environ, normalize_symbol, present}
use mintzy_plugin_kelly_opt.Redis.{Redis}
use mintzy_plugin_kelly_opt.Ledger.{
  Trader, buy, sell, entry, get_session_ledger, record_engine_order_for_trader,
  apply_fill_to_session_ledger,
}
use mintzy_plugin_kelly_opt.Number.{Number}
use mintzy_plugin_kelly_opt.PaperEngine.{OpenPosition}
use mintzy_plugin_kelly_opt.ClosePosition.{Account, close_position}

-- A pending order. A missing id, side or action is the empty text.
pub record Pending (F : Type 0) : Type 0 where
  pub order_id : Text
  pub side : Text
  pub qty : ℤ
  pub action_type : Text
  pub order_value : F
  pub position_side : Option Text
  pub placed_at : ℕ
  pub pre_exit_position : Option (OpenPosition F)

-- `broker_pos`, the fill as the reconciler passes it; and a row of the broker's positions.
pub record LiveFill (F : Type 0) : Type 0 where
  pub side : Text
  pub qty : ℤ
  pub avg_price : F

pub record BrokerRow (F : Type 0) : Type 0 where
  pub symbol : Text
  pub side : Text
  pub qty : ℤ
  pub avg_price : F

-- A row of the broker's order book.
pub record BookOrder (F : Type 0) : Type 0 where
  pub orderid : Text
  pub orderstatus : Text
  pub filledshares : ℤ
  pub averageprice : F
  pub price : F

-- The live trader, with its Redis client where it has one.
pub record LiveTrader (F S : Type 0) : Type 0 where
  pub account : Account F
  pub ledger : Trader
  pub client : Option S
  pub reserved_exposure : Dict F

abbrev pub finalized_actions : List Text
finalized_actions = codes "EXIT_LONG" ∷ codes "COVER_SHORT" ∷ codes "STOP_LOSS" ∷ []

abbrev pub exit_actions : List Text
exit_actions =
    codes "EXIT_LONG" ∷ codes "COVER_SHORT" ∷ codes "STOP_LOSS" ∷ codes "MARKET_CLOSE_EXIT" ∷ []

abbrev pub flipping_actions : List Text
flipping_actions = codes "FLIP_TO_LONG" ∷ codes "FLIP_TO_SHORT" ∷ []

unfoldable pub own_open_qty : Trader → Text → ℤ
own_open_qty t symbol = entry (normalize_symbol symbol) (get_session_ledger t)

unfoldable pub exit_qty_for : Trader → Text → ℤ → ℤ
unfolding own_open_qty
exit_qty_for t symbol broker_qty =
    let own = own_open_qty t symbol in
    if is_zero own then broker_qty else pos (min (abs own) (pos_part broker_qty))

module _ (N : Number) where
  open N use {Float, zero, of_int, plus, minus, times, divide, le}

  abbrev pub no_fill : ℤ × Float
  no_fill = (pos 0, zero)

  -- The filled quantity and price of a row of the order book.
  unfoldable pub fill_of : BookOrder Float → ℤ × Float
  fill_of o =
      let status = lower o.orderstatus in
      let avg_price = if N.is_pos o.averageprice then o.averageprice else o.price in
      if member status (codes "cancelled" ∷ codes "rejected" ∷ [])
      then no_fill
      else if not (member status (codes "complete" ∷ codes "filled" ∷ []))
      then no_fill
      else if is_pos o.filledshares && N.is_pos avg_price
      then (o.filledshares, avg_price)
      else no_fill

  unfoldable pub find_fill : Text → List (BookOrder Float) → ℤ × Float
  unfolding fill_of
  find_fill order_id [] = no_fill
  find_fill order_id (o ∷ orders) =
      let rest = find_fill order_id orders in if text_eq o.orderid order_id then fill_of o else rest

  -- The order book's answer: `none` where it has no status or no list of orders.
  unfoldable pub get_fill_details_from_orderbook :
      Call (Option (List (BookOrder Float))) → Text → ℤ × Float
  unfolding find_fill
  get_fill_details_from_orderbook raised order_id = no_fill
  get_fill_details_from_orderbook (returned none) order_id = no_fill
  get_fill_details_from_orderbook (returned (some orders)) order_id = find_fill order_id orders

  unfoldable pub release_exposure : Text → Float → Dict Float → Dict Float
  release_exposure symbol order_value reserved = elim (lookup symbol reserved) [
    | none ↦ reserved
    | some held ↦
        let left = minus held order_value in
        if le left zero then pop symbol reserved else insert symbol left reserved
  ]

  -- The broker's row of a symbol, by its normalized name.
  unfoldable pub broker_snapshot : Text → List (BrokerRow Float) → OpenPosition Float
  broker_snapshot sym [] = record { side = []; qty = pos 0; entry_price = zero }
  broker_snapshot sym (p ∷ rows) =
      let rest = broker_snapshot sym rows in
      if text_eq (normalize_symbol p.symbol) sym
      then record { side = p.side; qty = p.qty; entry_price = p.avg_price }
      else rest

  unfoldable pub snapshot_position_for_exit :
      Text → List (BrokerRow Float) → Dict (OpenPosition Float) → OpenPosition Float
  unfolding broker_snapshot
  snapshot_position_for_exit symbol rows positions =
      let sym = normalize_symbol symbol in
      elim (lookup sym positions) [ some p ↦ p | none ↦ broker_snapshot sym rows ]

  -- The entry's position: a new one, or the held one with the blended price.
  unfoldable pub enter :
      Text → LiveFill Float → Float → Dict (OpenPosition Float) → Dict (OpenPosition Float)
  enter symbol fill entry_price positions = elim (lookup symbol positions) [
    | none ↦
        insert symbol (record { side = fill.side; qty = fill.qty; entry_price = entry_price })
          positions
    | some p ↦
        insert symbol
          (record p {
            entry_price =
                divide
                  (plus (times (of_int p.qty) p.entry_price) (times (of_int fill.qty) entry_price))
                  (of_int (p.qty +ℤ fill.qty));
            qty = p.qty +ℤ fill.qty;
          })
          positions
  ]
