-- ===== src/Cycle.antt =====
-- The trading cycle of auto_trader_exposure_expansion_org/trader.py: the loop over the signals, which
-- queues the orders of a cycle. One cycle runs at a time, and no other thread changes the trader
-- meanwhile; `pending` and the exited symbols are as they are when it starts. The risk veto is left
-- out, which no code sets, as are the rows for the interface and the log lines. A call that raises
-- leaves the symbol, with what was done for it before.
pub mod Trade
pub mod Results
pub mod Effects
pub mod Orders
pub mod Symbols
pub mod Frame
pub mod Once
pub mod Booked
use mintzy_plugin_kelly_opt.Base.{
  ℕ, Bool, true, false, ◌&&◌, ◌||◌, not, Option, none, some, List, [], ◌∷◌, ◌++◌, length, map,
  is_empty, is_some, Call, returned, raised, if◌then◌else◌,
}
use mintzy_plugin_kelly_opt.Base.Int.{ℤ, ◌+ℤ◌, is_pos, is_zero}
use mintzy_plugin_kelly_opt.Base.Text.{Text, codes, text_eq}
use mintzy_plugin_kelly_opt.Base.Dict.{Dict, lookup, insert, pop, contains}
use mintzy_plugin_kelly_opt.Base.SymbolSet.{member}
use mintzy_plugin_kelly_opt.Symbols.{normalize_symbol}
use mintzy_plugin_kelly_opt.Ledger.{buy, sell}
use mintzy_plugin_kelly_opt.Number.{Number}
use mintzy_plugin_kelly_opt.Decimals.{Decimals}
use mintzy_plugin_kelly_opt.Pyramid.Document.{Root}
use mintzy_plugin_kelly_opt.Pyramid.Merge.{Mongo}
use mintzy_plugin_kelly_opt.OrderBatcher.{OrderRequest, OrderBatcher, add_order}
use mintzy_plugin_kelly_opt.PaperEngine.{OpenPosition}
use mintzy_plugin_kelly_opt.OrderFill.{
  Pending, BrokerRow, LiveTrader, exit_qty_for, snapshot_position_for_exit,
}
use mintzy_plugin_kelly_opt.Exposure.{CachedRow, Desk, can_reserve_exposure, reserve_exposure}
use mintzy_plugin_kelly_opt.Analysis.{Info, cached_row}

-- The capital of a symbol and its stop loss, where it has one.
pub record Allotment (F : Type 0) : Type 0 where
  pub capital : F
  pub stop_loss : Option F

-- What the code reads of an order's metadata.
pub record Note (F : Type 0) : Type 0 where
  pub action_type : Text
  pub side : Text
  pub qty : ℤ
  pub order_value : F
  pub position_side : Option Text
  pub pre_exit_position : Option (OpenPosition F)

-- The state of a cycle. The tag of an order is the place of its metadata in `notes`.
pub record Cycle (F S : Type 0) : Type 0 where
  pub desk : Desk F S
  pub pending : Dict (List (Pending F))
  pub exited_symbols : List Text
  pub symbol_qty : Dict ℤ
  pub symbol_allocations : Dict (Allotment F)
  pub batch : OrderBatcher
  pub notes : List (Note F)

-- What the check of the stop loss says: the symbol is left for this cycle, the check does not apply
-- or the stop is not hit, or it is hit, with the side and the quantity of the exit.
pub data StopCheck : Type 0 where
  left_alone : StopCheck
  not_hit : StopCheck
  hit : Text → ℤ → StopCheck

-- `order_batcher.add_order(OrderRequest(…, metadata=…), category)`
unfoldable pub queue_order : {F S : Type 0} → Text → Note F → Text → Cycle F S → Cycle F S
queue_order sym note category c =
    let order : OrderRequest = record {
      symbol = sym;
      side = note.side;
      qty = note.qty;
      tag = length c.notes;
    } in
    record c { batch = add_order c.batch order category; notes = c.notes ++ note ∷ [] }

abbrev pub cached_rows : {F S : Type 0} → Desk F S → List (BrokerRow F)
cached_rows {F} d = map (λ (q : CachedRow F). q.row) d.broker_positions_cache

-- The broker's row of a symbol where it shows an open position.
unfoldable pub held_row : {F : Type 0} → Option (CachedRow F) → Option (CachedRow F)
held_row none = none
held_row (some p) = if is_pos p.row.qty then some p else none

module _ (N : Number) (D : Decimals N) where
  open N use {Float, zero, one, of_int, plus, minus, times, divide, le}
  open D use {decimal, truncate, less, eq_zero}

  unfoldable pub is_position_settled : CachedRow Float → Bool
  is_position_settled p =
      is_pos p.row.qty
      && (N.is_pos p.row.avg_price && (text_eq p.row.side buy || text_eq p.row.side sell))

  -- The side that exits a position whose price has passed its stop.
  unfoldable pub stop_side : Text → Float → Float → Float → Option Text
  stop_side position_side entry_price sl_pct curr_price =
      if text_eq position_side buy
      then (if le curr_price (times entry_price (minus one sl_pct))
            && not (less entry_price curr_price)
          then some sell
          else none)
      else if text_eq position_side sell
      then (if le (times entry_price (plus one sl_pct)) curr_price
            && not (less curr_price entry_price)
          then some buy
          else none)
      else none

  -- The metadata of an order that opens, expands or flips a position.
  unfoldable pub entry_note : Text → Text → ℤ → Float → Note Float
  entry_note action_type side qty curr_price = record {
    action_type = action_type;
    side = side;
    qty = qty;
    order_value = times curr_price (of_int qty);
    position_side = none;
    pre_exit_position = none;
  }

  module _ {S : Type 0} where
    unfoldable pub check_stop : Text → Float → CachedRow Float → Cycle Float S → StopCheck
    unfolding is_position_settled stop_side
    check_stop sym curr_price p c = elim (lookup sym c.symbol_allocations) [
      | none ↦ not_hit
      | some a ↦
          if not (is_position_settled p) || contains sym c.pending
          then not_hit
          else elim a.stop_loss [
            | none ↦ not_hit
            | some sl_pct ↦
                let qty = exit_qty_for c.desk.trader.ledger sym p.row.qty in
                if not (N.is_pos sl_pct)
                then not_hit
                else if le p.row.avg_price zero || (not (is_pos qty) || is_empty p.row.side)
                then left_alone
                else elim (stop_side p.row.side p.row.avg_price sl_pct curr_price) [
                  | none ↦ not_hit
                  | some exit_side ↦ hit exit_side qty
                ]
          ]
    ]

    unfoldable pub queue_stop :
        Text → Float → CachedRow Float → Text → ℤ → Cycle Float S → Cycle Float S
    queue_stop sym curr_price p exit_side qty c =
        let note : Note Float = record {
          action_type = codes "STOP_LOSS";
          side = exit_side;
          qty = qty;
          order_value = times curr_price (of_int qty);
          position_side = some p.row.side;
          pre_exit_position = some (
              snapshot_position_for_exit N sym (cached_rows c.desk)
                c.desk.trader.account.positions);
        } in
        queue_order sym note (codes "exit") c

    -- The quantity of an entry, which the first one of the session fixes.
    unfoldable pub entry_qty : Text → Float → Cycle Float S → Call (ℤ × Cycle Float S)
    entry_qty sym curr_price c =
        let capital : Float = elim (lookup sym c.symbol_allocations) [
          | none ↦ times c.desk.trader.account.cash_balance (decimal 1 1)
          | some a ↦ a.capital
        ] in
        elim (lookup sym c.symbol_qty) [
          | some qty ↦ returned (qty, c)
          | none ↦
              if eq_zero curr_price then raised else elim (truncate (divide capital curr_price)) [
                | raised ↦ raised
                | returned qty ↦
                    returned (qty, record c { symbol_qty = insert sym qty c.symbol_qty })
              ]
        ]

    -- Scenarios 3 and 4: an order of twice the quantity that the session exits.
    unfoldable pub queue_flip :
        Text → Text → Text → Float → CachedRow Float → Cycle Float S → Cycle Float S
    unfolding entry_note
    queue_flip sym action_type side curr_price p c =
        let qty = exit_qty_for c.desk.trader.ledger sym p.row.qty in
        queue_order sym (entry_note action_type side (qty +ℤ qty) curr_price)
          (if text_eq side buy then codes "buy" else codes "sell") c
