-- ===== src/OrderFill/Fills.antt =====
-- `_track_engine_fill`, `_finalize_symbol_exit_fill` (of exit_finalization.py) and `_handle_filled`.
use mintzy_plugin_kelly_opt.Base.{
  ◌&&◌, ◌||◌, not, Option, none, some, List, [], ◌∷◌, is_empty, is_some, Call, if◌then◌else◌, ◌++◌,
}
use mintzy_plugin_kelly_opt.Base.Int.{is_pos, is_zero}
use mintzy_plugin_kelly_opt.Base.Text.{Text}
use mintzy_plugin_kelly_opt.Base.Dict.{pop, contains}
use mintzy_plugin_kelly_opt.Base.SymbolSet.{member}
use mintzy_plugin_kelly_opt.Symbols.{Environ, normalize_symbol}
use mintzy_plugin_kelly_opt.Redis.{Redis}
use mintzy_plugin_kelly_opt.Ledger.{record_engine_order_for_trader, apply_fill_to_session_ledger}
use mintzy_plugin_kelly_opt.Number.{Number}
use mintzy_plugin_kelly_opt.PaperEngine.{OpenPosition}
use mintzy_plugin_kelly_opt.ClosePosition.{close_position}
use mintzy_plugin_kelly_opt.OrderFill.{
  Pending, LiveFill, BrokerRow, BookOrder, LiveTrader, finalized_actions, exit_actions,
  flipping_actions, get_fill_details_from_orderbook, snapshot_position_for_exit, enter,
}

-- `a or b` of two texts.
abbrev pub first_text : Text → Text → Text
first_text [] b = b
first_text (c ∷ a) b = c ∷ a

module _ (N : Number) (R : Redis) (environ : Environ) where
  open N use {Float, zero, le}
  open R use {Store}

  unfoldable pub track_engine_fill :
      Text → LiveFill Float → Pending Float → LiveTrader Float Store → LiveTrader Float Store
  track_engine_fill symbol fill ctx t =
      let client = record_engine_order_for_trader R t.ledger t.client (some ctx.order_id) in
      let fill_qty = if is_zero fill.qty then ctx.qty else fill.qty in
      let (ledger', client') =
        apply_fill_to_session_ledger R environ (t.ledger, client) symbol fill_qty ctx.action_type
          (first_text ctx.side fill.side) in
      record t { ledger = ledger'; client = client' }

  unfoldable pub finalize_symbol_exit_fill :
      Text
      → LiveFill Float
      → Pending Float
      → List (BrokerRow Float)
      → LiveTrader Float Store
      → LiveTrader Float Store
  finalize_symbol_exit_fill symbol fill ctx rows t =
      let sym = normalize_symbol symbol in
      let exit_qty = if is_zero fill.qty then ctx.qty else fill.qty in
      let pre_exit : OpenPosition Float = elim ctx.pre_exit_position [
        | some p ↦ p
        | none ↦ snapshot_position_for_exit N sym rows t.account.positions
      ] in
      track_engine_fill symbol fill ctx (record t {
        account = (close_position N sym fill.avg_price exit_qty (some pre_exit) t.account).1;
      })

  -- The branch of an exit or a flip.
  unfoldable pub exit_filled :
      Text
      → LiveFill Float
      → Pending Float
      → List (BrokerRow Float)
      → LiveTrader Float Store
      → LiveTrader Float Store
  exit_filled symbol fill ctx rows t =
      let held = contains symbol t.account.positions in
      let taken : LiveFill Float = record fill { side = first_text ctx.side fill.side } in
      let a = t.account in
      if member ctx.action_type finalized_actions
        && (N.is_pos fill.avg_price && (held || is_some ctx.pre_exit_position))
      then finalize_symbol_exit_fill symbol taken ctx rows t
      else if N.is_pos fill.avg_price && held
      then track_engine_fill symbol fill ctx
          (record t { account = (close_position N symbol fill.avg_price fill.qty none a).1 })
      else if member ctx.action_type exit_actions
      then track_engine_fill symbol fill ctx
          (record t { account = record a { positions = pop symbol a.positions } })
      else t

  -- The branch of an entry; its price may come from the order book.
  unfoldable pub entry_filled :
      Text
      → LiveFill Float
      → Pending Float
      → Call (Option (List (BookOrder Float)))
      → LiveTrader Float Store
      → LiveTrader Float Store
  entry_filled symbol fill ctx book t =
      let found = (get_fill_details_from_orderbook N book ctx.order_id).1 in
      let entry_price =
        if le fill.avg_price zero && not (is_empty ctx.order_id) then found else fill.avg_price in
      let a = t.account in
      if le entry_price zero
      then t
      else track_engine_fill symbol fill ctx (record t {
        account = record a { positions = enter N symbol fill entry_price a.positions };
      })

  unfoldable pub handle_filled :
      Text
      → LiveFill Float
      → Pending Float
      → List (BrokerRow Float)
      → Call (Option (List (BookOrder Float)))
      → LiveTrader Float Store
      → LiveTrader Float Store
  handle_filled symbol fill ctx rows book t =
      if not (is_pos fill.qty)
      then t
      else if member ctx.action_type (exit_actions ++ flipping_actions)
      then exit_filled symbol fill ctx rows t
      else entry_filled symbol fill ctx book t
