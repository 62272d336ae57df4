-- ===== src/Examples/Trading.antt =====
-- Examples for the trading cycle: a fresh entry, a position below its stop in the quiet regime, and
-- an order that times out.
use mintzy_plugin_kelly_opt.Base.{
  ℕ, ◌+◌, ◌≤◌, ◌≡◌, refl, Bool, true, false, none, some, List, [], ◌∷◌, length, Call, returned,
  arith,
}
use mintzy_plugin_kelly_opt.Base.Int.{pos}
use mintzy_plugin_kelly_opt.Base.Text.{
  Text, codes, text_eq, upper, upper_code, lower, lower_code, is_space, strip_left, strip,
  drop_eq_suffix,
}
use mintzy_plugin_kelly_opt.Base.Dict.{Dict, lookup, insert}
use mintzy_plugin_kelly_opt.Base.SymbolSet.{member}
use mintzy_plugin_kelly_opt.Symbols.{normalize_symbol}
use mintzy_plugin_kelly_opt.Ledger.{buy, sell, get_session_ledger}
use mintzy_plugin_kelly_opt.Redis.{Redis}
use mintzy_plugin_kelly_opt.Decimals.{real, float_of}
use mintzy_plugin_kelly_opt.OrderBatcher.{empty, add_order, get_all_orders}
use mintzy_plugin_kelly_opt.OrderFill.{LiveTrader, own_open_qty, exit_qty_for}
use mintzy_plugin_kelly_opt.Pyramid.Lookup.{coerce_leverage_multiplier}
use mintzy_plugin_kelly_opt.Pyramid.Cash.{cash_of, occurs_in, starts_with}
use mintzy_plugin_kelly_opt.Exposure.{
  CachedRow, Desk, open_row, stock_exposure, total_symbol_exposure, max_allowed, reserve_exposure,
  resolve_leverage_multiplier, can_reserve_exposure,
}
use mintzy_plugin_kelly_opt.Exposure.FreeCash.{
  raw_cash, scan_keys, raw_keys, keep_scan, read_key, scan_items, scanned_number, names_cash,
  BalanceReply, get_free_cash, session_free_cash_fallback,
}
use mintzy_plugin_kelly_opt.Exposure.Funds.{free_cash_is_not_negative}
use mintzy_plugin_kelly_opt.Exposure.Leverage.{leverage_is_settled}
use mintzy_plugin_kelly_opt.Analysis.{
  Forecast, Info, magnitude, regime_of, outlook, signal_of, anchor, position_side, info_of,
  add_signal, analyze, cached_row,
}
use mintzy_plugin_kelly_opt.Executor.{submit_orders}
use mintzy_plugin_kelly_opt.Executor.Conserved.{Run, orders_with, as_one}
use mintzy_plugin_kelly_opt.Cycle.{
  Cycle, queue_order, held_row, is_position_settled, stop_side, check_stop, queue_stop, entry_note,
  entry_qty,
}
use mintzy_plugin_kelly_opt.Cycle.Trade.{
  queue_entry, open_position, follow_signal, stop_or_follow, follow_broker, trade_symbol,
  trade_symbols,
}
use mintzy_plugin_kelly_opt.Cycle.Results.{orders_to_send, process_results}
use mintzy_plugin_kelly_opt.Cycle.Effects.{slate}
use mintzy_plugin_kelly_opt.Cycle.Symbols.{Outcome, order_enters_or_leaves}
use mintzy_plugin_kelly_opt.Cycle.Once.{is_for, may_trade, one_order_per_symbol}
use mintzy_plugin_kelly_opt.Cycle.Booked.{
  entries, all_entries, placed_for, placed_orders_are_pending, late_orders_are_not_pending,
}
use mintzy_plugin_kelly_opt.Examples.Computer.{computer}
use mintzy_plugin_kelly_opt.Examples.Pyramid.{fixed, digits, no_json, mongo}
use mintzy_plugin_kelly_opt.Examples.Fills.{unset}
use mintzy_plugin_kelly_opt.Examples.Sending.{
  order, idle, idle-IsQuiet, after_time_out, after_time_out-IsDone, late-Run,
}

abbrev pub R : Redis
R = computer.redis

abbrev pub lists_all : Text → mongo.Store → Call Bool
lists_all name st = returned true

abbrev trader : LiveTrader ℕ R.Store
trader = record {
  account = record {
    positions = [];
    cash_balance = 0;
    realized_pnl = 0;
    realized_pnl_by_symbol = [];
  };
  ledger = record {
    ui_session_id = some (codes "s1");
    session_id = none;
    has_lock = true;
    open_qty = some [];
  };
  client = none;
  reserved_exposure = [];
}

-- A capital of 100,000 at a leverage of 2, of which a symbol may take half.
abbrev desk : List (CachedRow ℕ) → Desk ℕ R.Store
desk rows = record {
  trader = trader;
  leverage_multiplier = real 20000;
  configuration_id = none;
  has_collection = false;
  initial_capital = 1000000000;
  max_exposure_pct = 5000;
  broker_positions_cache = rows;
  live_pnl = [];
}

abbrev pub cycle : List (CachedRow ℕ) → Cycle ℕ R.Store
cycle rows = record {
  desk = desk rows;
  pending = [];
  exited_symbols = [];
  symbol_qty = [];
  symbol_allocations = (codes "TCS", record { capital = 100000000; stop_loss = some 200 }) ∷ [];
  batch = empty;
  notes = [];
}

-- From 2,000 up by one per cent.
abbrev rising : List (Forecast ℕ)
rising =
    record {
      ticker = codes "TCS";
      predicted_path = 20000000 ∷ 20050000 ∷ 20100000 ∷ 20200000 ∷ [];
      trajectory = none;
      regime = none;
    }
    ∷ []

abbrev signals : ℕ → Dict (Info ℕ)
signals min_trade_pct = analyze fixed digits min_trade_pct (λ s. none) rising [] []

abbrev traded : ℕ → List (CachedRow ℕ) → Cycle ℕ R.Store
traded min_trade_pct rows =
    trade_symbols fixed digits no_json mongo lists_all none (signals min_trade_pct) (cycle rows)

one_order_per_symbol_example :
    orders_with (is_for (codes "TCS")) (orders_to_send (traded 5000 []))
    ≤ as_one (may_trade (codes "TCS") (signals 5000) (cycle []))
one_order_per_symbol_example =
    one_order_per_symbol fixed digits no_json mongo lists_all none (codes "TCS") 5000 (λ s. none)
      rising (cycle []) refl

fresh_entry :
    orders_to_send (traded 5000 [])
    ≡ record { symbol = codes "TCS"; side = buy; qty = pos 5; tag = 0 } ∷ []
unfolding orders_to_send trade_symbols trade_symbol analyze add_signal get_all_orders text_eq insert
    member info_of stop_or_follow held_row cached_row lookup follow_broker follow_signal
    open_position entry_qty queue_entry can_reserve_exposure resolve_leverage_multiplier
    coerce_leverage_multiplier anchor outlook position_side regime_of magnitude signal_of
    normalize_symbol drop_eq_suffix strip strip_left is_space upper upper_code float_of max_allowed
    total_symbol_exposure stock_exposure open_row reserve_exposure queue_order entry_note add_order
    lower lower_code
fresh_entry = refl

-- A long position bought at 2,100, whose stop is at 2,058.
abbrev pub sinking : List (CachedRow ℕ)
sinking =
    record {
      row = record { symbol = codes "TCS"; side = buy; qty = pos 5; avg_price = 21000000 };
      ltp = 20000000;
    }
    ∷ []

-- In the quiet regime, which a threshold of two per cent gives, its stop loss does not go out.
stop_waits : orders_to_send (traded 20000 sinking) ≡ []
unfolding orders_to_send trade_symbols trade_symbol analyze add_signal get_all_orders text_eq insert
    member info_of stop_or_follow held_row cached_row lookup follow_broker follow_signal
    open_position entry_qty queue_entry can_reserve_exposure resolve_leverage_multiplier
    coerce_leverage_multiplier anchor outlook position_side regime_of magnitude signal_of
    normalize_symbol drop_eq_suffix strip strip_left is_space upper upper_code float_of max_allowed
    total_symbol_exposure stock_exposure open_row reserve_exposure queue_order entry_note add_order
    lower lower_code
stop_waits = refl

-- In the trading regime it does.
stop_goes_out :
    orders_to_send (traded 5000 sinking)
    ≡ record { symbol = codes "TCS"; side = sell; qty = pos 5; tag = 0 } ∷ []
unfolding orders_to_send trade_symbols trade_symbol analyze add_signal get_all_orders text_eq insert
    member info_of stop_or_follow held_row cached_row lookup follow_broker follow_signal
    open_position entry_qty queue_entry can_reserve_exposure resolve_leverage_multiplier
    coerce_leverage_multiplier anchor outlook position_side regime_of magnitude signal_of
    normalize_symbol drop_eq_suffix strip strip_left is_space upper upper_code float_of max_allowed
    total_symbol_exposure stock_exposure open_row reserve_exposure queue_order entry_note add_order
    lower lower_code check_stop is_position_settled stop_side exit_qty_for own_open_qty
    get_session_ledger queue_stop
stop_goes_out = refl

abbrev pub falling : Info ℕ
falling = record {
  signal = sell;
  change_pct = 0;
  curr_price = 20000000;
  side = codes "NONE";
  risk_regime = pos 1;
}

order_enters_or_leaves_example :
    Outcome fixed digits no_json mongo lists_all none
      (codes "TCS")
      falling
      (held_row (cached_row fixed digits (codes "TCS") sinking))
      (slate (cycle sinking))
      (trade_symbol fixed digits no_json mongo lists_all none (codes "TCS") falling (cycle sinking))
order_enters_or_leaves_example =
    order_enters_or_leaves fixed digits no_json mongo lists_all none (codes "TCS") falling
      (cycle sinking)

-- One order that waits in the batch, and times out in the executor.
abbrev sending : Cycle ℕ R.Store
sending = record (cycle []) { batch = record empty { buy_orders = order ∷ [] } }

sending-Run : Run 1 (submit_orders (orders_to_send sending) (idle [])) 4 (order ∷ []) after_time_out
unfolding orders_to_send get_all_orders text_eq
sending-Run = late-Run

placed_orders_are_pending_example :
    entries (codes "TCS") (process_results fixed R unset 7 after_time_out.results sending).pending
    ≡ entries (codes "TCS") sending.pending + placed_for (codes "TCS") after_time_out.results
placed_orders_are_pending_example =
    placed_orders_are_pending fixed R unset 7 (codes "TCS") sending (idle []) tt sending-Run

late_orders_are_not_pending_example :
    all_entries (process_results fixed R unset 7 after_time_out.results sending).pending
      + length (order ∷ [])
    ≤ all_entries sending.pending + length (orders_to_send sending)
late_orders_are_not_pending_example =
    late_orders_are_not_pending fixed R unset 7 sending (idle []) tt (idle-IsQuiet []) sending-Run
      after_time_out-IsDone

-- The status is success, and only the raw answer has a figure.
abbrev balance : BalanceReply ℕ
balance = record {
  success = true;
  free_cash = none;
  payload = none;
  candidate = some ((codes "netAvailable", real 70000) ∷ []);
}

free_cash_found : get_free_cash fixed digits none (returned (some balance)) ≡ some 70000
unfolding get_free_cash cash_of raw_cash scan_keys raw_keys keep_scan read_key lookup text_eq
    scan_items scanned_number names_cash lower lower_code occurs_in starts_with
    session_free_cash_fallback
free_cash_found = refl

free_cash_is_not_negative_example : fixed.le fixed.zero 70000 ≡ true
free_cash_is_not_negative_example =
    free_cash_is_not_negative fixed digits (λ n. ground arith) refl refl none
      (returned (some balance)) free_cash_found

leverage_found :
    resolve_leverage_multiplier fixed digits no_json mongo lists_all 40000 (desk []) none
    ≡ returned (20000, desk [])
unfolding resolve_leverage_multiplier coerce_leverage_multiplier float_of
leverage_found = refl

leverage_is_settled_example :
    (fixed.is_pos 20000 ≡ true)
    × (resolve_leverage_multiplier fixed digits no_json mongo lists_all 10000 (desk []) none
        ≡ returned (20000, desk []))
leverage_is_settled_example =
    leverage_is_settled fixed digits no_json mongo lists_all 40000 (desk []) none refl
      leverage_found 10000 none
