-- ===== src/Cycle/Trade.antt =====
-- The body of the cycle's loop: what is done for a symbol, and the loop over the signals.
use mintzy_plugin_kelly_opt.Base.{
  Bool, true, false, ◌&&◌, ◌||◌, not, Option, none, some, [], ◌∷◌, is_some, Call, returned, raised,
  if◌then◌else◌, ◌==◌,
}
use mintzy_plugin_kelly_opt.Base.Int.{ℤ, pos_part, is_pos, is_zero}
use mintzy_plugin_kelly_opt.Base.Text.{Text, codes, text_eq}
use mintzy_plugin_kelly_opt.Base.Dict.{Dict, lookup, pop, contains}
use mintzy_plugin_kelly_opt.Base.SymbolSet.{member}
use mintzy_plugin_kelly_opt.Symbols.{normalize_symbol}
use mintzy_plugin_kelly_opt.Ledger.{buy, sell}
use mintzy_plugin_kelly_opt.Number.{Number}
use mintzy_plugin_kelly_opt.Decimals.{Decimals}
use mintzy_plugin_kelly_opt.Pyramid.Document.{Root}
use mintzy_plugin_kelly_opt.Pyramid.Merge.{Mongo}
use mintzy_plugin_kelly_opt.Exposure.{CachedRow, can_reserve_exposure, reserve_exposure}
use mintzy_plugin_kelly_opt.Analysis.{Info, cached_row}
use mintzy_plugin_kelly_opt.Cycle.{
  Cycle, left_alone, not_hit, hit, queue_order, held_row, check_stop, queue_stop, entry_note,
  entry_qty, queue_flip,
}

module _ (N : Number) (D : Decimals N) (json_loads : Text → Call (Option (Root N.Float)))
    (M : Mongo N.Float) (has_name : Text → M.Store → Call Bool) (st : M.Store) {S : Type 0} where
  open N use {Float, of_int, times}

  -- An entry or an expansion of a quantity, if the exposure has room for it.
  unfoldable pub queue_entry : Text → Text → Text → Float → ℤ → Cycle Float S → Cycle Float S
  queue_entry sym action_type side curr_price qty c =
      let order_value = times curr_price (of_int qty) in
      if not (is_pos qty)
      then c
      else elim (can_reserve_exposure N D json_loads M has_name sym order_value c.desk st) [
        | raised ↦ c
        | returned (false, d) ↦ record c { desk = d }
        | returned (true, d) ↦
            queue_order sym (entry_note N D action_type side qty curr_price)
              (if text_eq side buy then codes "buy" else codes "sell")
              (record c { desk = reserve_exposure N D json_loads sym order_value d })
      ]

  -- Scenarios 1 and 2.
  unfoldable pub open_position : Text → Text → Text → Float → Cycle Float S → Cycle Float S
  open_position sym action_type side curr_price c = elim (entry_qty N D sym curr_price c) [
    | raised ↦ c
    | returned (qty, c') ↦ queue_entry sym action_type side curr_price qty c'
  ]

  -- Scenarios 5 and 7.
  unfoldable pub expand_position : Text → Text → Text → Float → Cycle Float S → Cycle Float S
  expand_position sym action_type side curr_price c = elim (lookup sym c.symbol_qty) [
    | none ↦ c
    | some qty ↦ queue_entry sym action_type side curr_price qty c
  ]

  unfoldable pub expand_same_side :
      Text → Info Float → CachedRow Float → Cycle Float S → Cycle Float S
  expand_same_side sym info p c =
      if not (pos_part info.risk_regime == 2)
      then c
      else if text_eq info.signal buy && text_eq p.row.side buy
      then expand_position sym (codes "EXPAND_LONG") buy info.curr_price c
      else if text_eq info.signal sell && text_eq p.row.side sell
      then expand_position sym (codes "EXPAND_SHORT") sell info.curr_price c
      else c

  -- The scenarios of a symbol without a pending order, by its signal and the broker's position.
  unfoldable pub follow_signal :
      Text → Info Float → Option (CachedRow Float) → Cycle Float S → Cycle Float S
  follow_signal sym info none c =
      if text_eq info.signal buy
      then open_position sym (codes "OPEN_LONG") buy info.curr_price c
      else if text_eq info.signal sell
      then open_position sym (codes "OPEN_SHORT") sell info.curr_price c
      else c
  follow_signal sym info (some p) c =
      if text_eq info.signal sell && text_eq p.row.side buy
      then queue_flip N D sym (codes "FLIP_TO_SHORT") sell info.curr_price p c
      else if text_eq info.signal buy && text_eq p.row.side sell
      then queue_flip N D sym (codes "FLIP_TO_LONG") buy info.curr_price p c
      else expand_same_side sym info p c

  unfoldable pub stop_or_follow :
      Text → Info Float → Option (CachedRow Float) → Cycle Float S → Cycle Float S
  stop_or_follow sym info held c =
      let followed = if contains sym c.pending then c else follow_signal sym info held c in
      elim held [
        | none ↦ followed
        | some p ↦ elim (check_stop N D sym info.curr_price p c) [
          | left_alone ↦ c
          | not_hit ↦ followed
          | hit exit_side qty ↦ queue_stop N D sym info.curr_price p exit_side qty c
        ]
      ]

  -- The book follows the broker: a position that the broker does not show goes.
  unfoldable pub follow_broker : Text → Option (CachedRow Float) → Cycle Float S → Cycle Float S
  follow_broker sym held c =
      let t = c.desk.trader in
      if is_some held || contains sym c.pending then c else record c {
        desk = record c.desk {
          trader = record t {
            account = record t.account { positions = pop sym t.account.positions };
          };
        };
      }

  unfoldable pub trade_symbol : Text → Info Float → Cycle Float S → Cycle Float S
  trade_symbol sym info c =
      let held = held_row (cached_row N D sym c.desk.broker_positions_cache) in
      let c' = follow_broker sym held c in
      if member (normalize_symbol sym) c.exited_symbols
      then c
      else if is_zero info.risk_regime
      then c'
      else stop_or_follow sym info held c'

  -- `for sym, info in signals.items()`
  unfoldable pub trade_symbols : Dict (Info Float) → Cycle Float S → Cycle Float S
  trade_symbols [] c = c
  trade_symbols ((sym, info) ∷ signals) c = trade_symbols signals (trade_symbol sym info c)
