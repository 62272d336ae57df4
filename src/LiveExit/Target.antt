-- ===== src/LiveExit/Target.antt =====
-- The position that a single exit closes, and its order.
use mintzy_plugin_kelly_opt.Base.{
  ◌&&◌, ◌||◌, not, Option, none, some, List, [], ◌∷◌, length, get_or, if◌then◌else◌,
}
use mintzy_plugin_kelly_opt.Base.Int.{is_pos}
use mintzy_plugin_kelly_opt.Base.Text.{Text, codes, text_eq}
use mintzy_plugin_kelly_opt.Base.Dict.{Dict, lookup}
use mintzy_plugin_kelly_opt.Symbols.{normalize_symbol}
use mintzy_plugin_kelly_opt.Ledger.{buy, sell}
use mintzy_plugin_kelly_opt.Number.{Number}
use mintzy_plugin_kelly_opt.Decimals.{Decimals}
use mintzy_plugin_kelly_opt.PaperEngine.{OpenPosition}
use mintzy_plugin_kelly_opt.OrderBatcher.{OrderRequest}
use mintzy_plugin_kelly_opt.OrderFill.{exit_qty_for}
use mintzy_plugin_kelly_opt.Exposure.{CachedRow, Desk}
use mintzy_plugin_kelly_opt.Cycle.{Note, Cycle}
use mintzy_plugin_kelly_opt.LiveExit.{PositionsReply, get_broker_positions}

-- The first row with the symbol as its normalized name.
unfoldable pub named_row : {F : Type 0} → Text → List (CachedRow F) → Option (CachedRow F)
named_row symbol [] = none
named_row symbol (p ∷ rows) =
    let rest = named_row symbol rows in
    if text_eq (normalize_symbol p.row.symbol) symbol then some p else rest

module _ (N : Number) (D : Decimals N) {S : Type 0} where
  open N use {Float, zero, of_int, times, le}

  -- `self._broker_positions_cache = self._get_broker_positions()`
  unfoldable pub refresh : PositionsReply Float → Cycle Float S → Cycle Float S
  refresh reply c = record c {
    desk = record c.desk { broker_positions_cache = get_broker_positions N D reply };
  }

  -- The tick's price, the one cached by the cycle, or the entry price.
  unfoldable pub engine_price : Text → Dict Float → Desk Float S → OpenPosition Float → Float
  engine_price symbol cycle_ltp d p =
      let tick : Float = elim (lookup symbol d.live_pnl) [ none ↦ zero | some m ↦ m.ltp ] in
      let cached = get_or (lookup symbol cycle_ltp) zero in
      if not (le tick zero) then tick else if not (le cached zero) then cached else p.entry_price

  -- The position of the trader's own book, where the broker's list misses it.
  unfoldable pub engine_target : Text → Dict Float → Desk Float S → Option (CachedRow Float)
  unfolding engine_price
  engine_target symbol cycle_ltp d = elim (lookup symbol d.trader.account.positions) [
    | none ↦ none
    | some p ↦
        if is_pos p.qty && (text_eq p.side buy || text_eq p.side sell)
        then some (record {
          row = record { symbol = symbol; side = p.side; qty = p.qty; avg_price = p.entry_price };
          ltp = engine_price symbol cycle_ltp d p;
        })
        else none
  ]

  unfoldable pub find_target : Text → Dict Float → Desk Float S → Option (CachedRow Float)
  find_target symbol cycle_ltp d = elim (named_row symbol d.broker_positions_cache) [
    | some p ↦ some p
    | none ↦ engine_target symbol cycle_ltp d
  ]

  -- `_snapshot_position_for_exit(symbol, target_pos)`
  unfoldable pub exit_snapshot : Text → CachedRow Float → Desk Float S → OpenPosition Float
  exit_snapshot symbol target d =
      let sym = normalize_symbol symbol in
      elim (lookup sym d.trader.account.positions) [
        | some p ↦ p
        | none ↦
            let p = get_or (named_row sym d.broker_positions_cache) target in
            record { side = p.row.side; qty = p.row.qty; entry_price = p.row.avg_price }
      ]

  unfoldable pub exit_note : Text → CachedRow Float → Desk Float S → Note Float
  exit_note symbol p d =
      let qty = exit_qty_for d.trader.ledger symbol p.row.qty in
      record {
        action_type = if text_eq p.row.side buy then codes "EXIT_LONG" else codes "COVER_SHORT";
        side = if text_eq p.row.side buy then sell else buy;
        qty = qty;
        order_value = times p.ltp (of_int qty);
        position_side = some p.row.side;
        pre_exit_position = some (exit_snapshot symbol p d);
      }

  -- The order, whose tag is the place of its metadata.
  unfoldable pub exit_request : Text → Note Float → Cycle Float S → OrderRequest
  exit_request symbol note c = record {
    symbol = symbol;
    side = note.side;
    qty = note.qty;
    tag = length c.notes;
  }
