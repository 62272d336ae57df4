-- ===== src/Examples/Fills.antt =====
-- Examples for the live fills: a flip, an exit by a stop loss, and an entry without a price.
use mintzy_plugin_kelly_opt.Base.{
  ℕ, true, false, none, some, [], ◌∷◌, ◌++◌, returned, ◌≡◌, refl, ap, leb,
}
use mintzy_plugin_kelly_opt.Base.Int.{pos}
use mintzy_plugin_kelly_opt.Base.Text.{
  codes, text_eq, upper, upper_code, strip, strip_left, is_space, drop_eq_suffix, lower, lower_code,
}
use mintzy_plugin_kelly_opt.Base.Dict.{lookup, insert}
use mintzy_plugin_kelly_opt.Base.SymbolSet.{member}
use mintzy_plugin_kelly_opt.Symbols.{normalize_symbol, is_enabled, Environ}
use mintzy_plugin_kelly_opt.Ledger.{
  buy, sell, entry, get_session_ledger, eod_use_session_ledger_enabled,
}
use mintzy_plugin_kelly_opt.Ledger.Tracking.{HasLedger}
use mintzy_plugin_kelly_opt.PaperEngine.{OpenPosition}
use mintzy_plugin_kelly_opt.ClosePosition.{
  is_closable, close_position, close_with, book_exit, realized_profit,
}
use mintzy_plugin_kelly_opt.ClosePosition.Booking.{signed}
use mintzy_plugin_kelly_opt.OrderFill.{
  Pending, LiveFill, BrokerRow, LiveTrader, exit_actions, flipping_actions, release_exposure,
  get_fill_details_from_orderbook,
}
use mintzy_plugin_kelly_opt.OrderFill.Fills.{handle_filled, exit_filled, track_engine_fill}
use mintzy_plugin_kelly_opt.OrderFill.Follows.{FitsBook, leaves, fill_keeps_agreement}
use mintzy_plugin_kelly_opt.OrderFill.Reconcile.{match_row, reconcile_order}
use mintzy_plugin_kelly_opt.OrderFill.Reconcile.Settled.{
  IsSettled, reconcile_order-IsSettled, unpriced_entry_is_dropped,
}
use mintzy_plugin_kelly_opt.Redis.{Redis}
use mintzy_plugin_kelly_opt.Examples.Computer.{computer}
use mintzy_plugin_kelly_opt.Examples.Pyramid.{fixed}

-- No variable is set, so the ledger is on.
abbrev pub unset : Environ
unset name = none

abbrev R : Redis
R = computer.redis

abbrev held : OpenPosition ℕ
held = record { side = buy; qty = pos 50; entry_price = 1000000 }

abbrev trader : LiveTrader ℕ R.Store
trader = record {
  account = record {
    positions = (codes "TCS", held) ∷ [];
    cash_balance = 0;
    realized_pnl = 0;
    realized_pnl_by_symbol = [];
  };
  ledger = record {
    ui_session_id = some (codes "s1");
    session_id = none;
    has_lock = true;
    open_qty = some ((codes "TCS", pos 50) ∷ []);
  };
  client = none;
  reserved_exposure = (codes "INFY", 5000) ∷ [];
}

trader-HasLedger : HasLedger unset trader.ledger ((codes "TCS", pos 50) ∷ [])
unfolding eod_use_session_ledger_enabled is_enabled lower lower_code text_eq
trader-HasLedger = record { enabled = refl; locked = refl; there = refl }

-- A flip of 100 against the 50 held.
abbrev flip : Pending ℕ
flip = record {
  order_id = codes "o1";
  side = sell;
  qty = pos 100;
  action_type = codes "FLIP_TO_SHORT";
  order_value = 0;
  position_side = none;
  placed_at = 0;
  pre_exit_position = none;
}

abbrev flip_fill : LiveFill ℕ
flip_fill = record { side = sell; qty = pos 100; avg_price = 1100000 }

flip_fits : FitsBook fixed computer.redis unset (codes "TCS") flip_fill flip trader
unfolding member text_eq lookup is_closable
flip_fits = leaves held refl refl refl refl

normal_symbol : normalize_symbol (codes "TCS") ≡ codes "TCS"
unfolding normalize_symbol upper upper_code drop_eq_suffix strip strip_left is_space
normal_symbol = refl

books_agree :
    signed (lookup (codes "TCS") trader.account.positions)
    ≡ entry (codes "TCS") (get_session_ledger trader.ledger)
unfolding lookup get_session_ledger text_eq
books_agree = refl

fill_keeps_agreement_example :
    (let u = handle_filled fixed R unset (codes "TCS") flip_fill flip [] (returned none) trader in
      signed (lookup (codes "TCS") u.account.positions)
      ≡ entry (codes "TCS") (get_session_ledger u.ledger))
fill_keeps_agreement_example =
    fill_keeps_agreement fixed R unset (codes "TCS") flip_fill flip [] (returned none)
      ((codes "TCS", pos 50) ∷ []) trader trader-HasLedger normal_symbol refl flip_fits books_agree

-- A flip sells what is held and goes on to the other side.
flip_turns :
    (handle_filled fixed R unset
      (codes "TCS")
      flip_fill
      flip
      []
      (returned none)
      trader).account.positions
    ≡ (codes "TCS", record { side = sell; qty = pos 50; entry_price = 1100000 }) ∷ []
unfolding handle_filled exit_filled track_engine_fill close_position close_with book_exit
    realized_profit is_closable member text_eq lookup insert
flip_turns = refl

-- An entry that the broker shows without a price, while the order book has none either.
abbrev opening : Pending ℕ
opening = record {
  order_id = codes "o2";
  side = buy;
  qty = pos 10;
  action_type = codes "OPEN_LONG";
  order_value = 5000;
  position_side = none;
  placed_at = 0;
  pre_exit_position = none;
}

abbrev unpriced : BrokerRow ℕ
unpriced = record { symbol = codes "INFY"; side = buy; qty = pos 10; avg_price = 0 }

opening_enters : member opening.action_type (exit_actions ++ flipping_actions) ≡ false
unfolding member text_eq
opening_enters = refl

opening_matches : match_row (codes "INFY") buy (unpriced ∷ []) ≡ some unpriced
unfolding match_row text_eq
opening_matches = refl

no_price : (get_fill_details_from_orderbook fixed (returned none) (codes "o2")).1 ≡ 0
unfolding get_fill_details_from_orderbook
no_price = refl

unpriced_entry_is_dropped_example :
    reconcile_order fixed R unset (unpriced ∷ []) (returned none) 5 (codes "INFY") opening trader
    ≡ (
      false,
      record trader {
        reserved_exposure = release_exposure fixed (codes "INFY") 5000 trader.reserved_exposure;
      },
    )
unpriced_entry_is_dropped_example =
    unpriced_entry_is_dropped fixed R unset (unpriced ∷ []) (returned none) 5 (codes "INFY") opening
      trader unpriced refl opening_enters opening_matches refl (ap (λ x. leb x 0) no_price)

reconcile_order-IsSettled_example :
    IsSettled fixed R unset
      (unpriced ∷ [])
      (returned none)
      (codes "TCS")
      flip
      trader
      (reconcile_order fixed R unset (unpriced ∷ []) (returned none) 5 (codes "TCS") flip trader)
reconcile_order-IsSettled_example =
    reconcile_order-IsSettled fixed R unset (unpriced ∷ []) (returned none) 5 (codes "TCS") flip
      trader
