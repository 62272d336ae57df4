-- ===== src/OrderFill/Reconcile.antt =====
-- `_reconcile_pending_orders`: one round over the pending orders, with the broker's positions and the
-- answer of the order book as they are in that round.
pub mod Settled
use mintzy_plugin_kelly_opt.Base.{
  ℕ, min, Bool, true, false, ◌&&◌, ◌||◌, not, Option, none, some, List, [], ◌∷◌, is_empty, is_some,
  get_or, Call, if◌then◌else◌, ltb, ◌-◌, any,
}
use mintzy_plugin_kelly_opt.Base.Int.{ℤ, pos, pos_part, is_pos}
use mintzy_plugin_kelly_opt.Base.Text.{Text, codes, text_eq}
use mintzy_plugin_kelly_opt.Base.Dict.{Dict}
use mintzy_plugin_kelly_opt.Base.SymbolSet.{member}
use mintzy_plugin_kelly_opt.Symbols.{Environ}
use mintzy_plugin_kelly_opt.Redis.{Redis}
use mintzy_plugin_kelly_opt.Ledger.{buy, sell}
use mintzy_plugin_kelly_opt.Number.{Number}
use mintzy_plugin_kelly_opt.OrderFill.{
  Pending, LiveFill, BrokerRow, BookOrder, LiveTrader, exit_actions, flipping_actions,
  get_fill_details_from_orderbook, release_exposure,
}
use mintzy_plugin_kelly_opt.OrderFill.Fills.{handle_filled}

-- The seconds after which an order counts as rejected.
abbrev pub order_timeout : ℕ
order_timeout = 120

-- The first row of the symbol on the side of the order with a quantity.
unfoldable pub match_row : {F : Type 0} → Text → Text → List (BrokerRow F) → Option (BrokerRow F)
match_row sym side [] = none
match_row sym side (p ∷ rows) =
    let rest = match_row sym side rows in
    if text_eq p.symbol sym && (text_eq p.side side && is_pos p.qty) then some p else rest

unfoldable pub still_exists : {F : Type 0} → Text → Text → List (BrokerRow F) → Bool
still_exists sym side rows = any (λ p. text_eq p.symbol sym && text_eq p.side side) rows

-- The order book's quantity, or else the order's, as far as the broker holds it.
unfoldable pub matched_qty : ℤ → ℤ → ℤ → ℤ
matched_qty actual_qty broker_qty expected_qty =
    if is_pos actual_qty
    then pos (min (pos_part actual_qty) (pos_part broker_qty))
    else if is_pos expected_qty
    then pos (min (pos_part broker_qty) (pos_part expected_qty))
    else expected_qty

module _ (N : Number) (R : Redis) (environ : Environ) where
  open N use {Float, zero, le}
  open R use {Store}

  -- Whether the order stays pending, and the trader.
  abbrev pub Outcome : Type 0
  Outcome = Bool × LiveTrader Float Store

  unfoldable pub settle : Text → Pending Float → LiveTrader Float Store → Outcome
  settle sym ctx t = (
    false,
    record t { reserved_exposure = release_exposure N sym ctx.order_value t.reserved_exposure },
  )

  module _ (rows : List (BrokerRow Float)) (book : Call (Option (List (BookOrder Float)))) where
    -- A fill with the order book's price, as flips and exits wait for it.
    unfoldable pub fill_at_price : Text → Text → Pending Float → LiveTrader Float Store → Outcome
    fill_at_price sym side ctx t =
        let (actual_qty, exit_price) = get_fill_details_from_orderbook N book ctx.order_id in
        let fill : LiveFill Float = record {
          side = side;
          qty = if is_pos actual_qty then actual_qty else ctx.qty;
          avg_price = exit_price;
        } in
        if le exit_price zero
        then (true, t)
        else settle sym ctx (handle_filled N R environ sym fill ctx rows book t)

    -- A fill that the broker's positions show.
    unfoldable pub fill_matched :
        Text → BrokerRow Float → Pending Float → LiveTrader Float Store → Outcome
    fill_matched sym p ctx t =
        let (actual_qty, ob_avg) = get_fill_details_from_orderbook N book ctx.order_id in
        let fill : LiveFill Float = record {
          side = p.side;
          qty = matched_qty actual_qty p.qty ctx.qty;
          avg_price = if le p.avg_price zero && N.is_pos ob_avg then ob_avg else p.avg_price;
        } in
        settle sym ctx (handle_filled N R environ sym fill ctx rows book t)

    unfoldable pub time_out : ℕ → Text → Pending Float → LiveTrader Float Store → Outcome
    time_out now sym ctx t =
        if ltb order_timeout (now - ctx.placed_at) then settle sym ctx t else (true, t)

    -- The body of the loop over the orders of a symbol.
    unfoldable pub reconcile_order : ℕ → Text → Pending Float → LiveTrader Float Store → Outcome
    reconcile_order now sym ctx t =
        if is_empty ctx.order_id
        then settle sym ctx t
        else if member ctx.action_type flipping_actions
        then fill_at_price sym
            (if text_eq ctx.action_type (codes "FLIP_TO_LONG") then buy else sell) ctx t
        else elim (match_row sym ctx.side rows) [
          | some p ↦ fill_matched sym p ctx t
          | none ↦
              if member ctx.action_type exit_actions
                && not (still_exists sym (get_or ctx.position_side ctx.side) rows)
              then fill_at_price sym ctx.side ctx t
              else time_out now sym ctx t
        ]

    -- The orders of a symbol that stay pending.
    unfoldable pub reconcile_orders :
        ℕ
        → Text
        → List (Pending Float)
        → LiveTrader Float Store
        → List (Pending Float) × LiveTrader Float Store
    unfolding reconcile_order
    reconcile_orders now sym [] t = ([], t)
    reconcile_orders now sym (ctx ∷ orders) t =
        let (stays, t1) = reconcile_order now sym ctx t in
        let (kept, t2) = reconcile_orders now sym orders t1 in
        (if stays then ctx ∷ kept else kept, t2)

    -- The round: a symbol goes with its last order.
    unfoldable pub reconcile_pending_orders :
        ℕ
        → Dict (List (Pending Float))
        → LiveTrader Float Store
        → Dict (List (Pending Float)) × LiveTrader Float Store
    unfolding reconcile_orders
    reconcile_pending_orders now [] t = ([], t)
    reconcile_pending_orders now ((sym, orders) ∷ pending) t =
        let (kept, t1) = reconcile_orders now sym orders t in
        let (rest, t2) = reconcile_pending_orders now pending t1 in
        (if is_empty kept && not (is_empty orders) then rest else (sym, kept) ∷ rest, t2)
