-- ===== src/Examples/Leaving.antt =====
-- Examples for the single exits: a long position of five, which the broker lists among other rows.
use mintzy_plugin_kelly_opt.Base.{
  ℕ, ◌+◌, ◌≡◌, refl, none, some, List, [], ◌∷◌, All, Call, returned, raised, arith, if◌then◌else◌,
}
use mintzy_plugin_kelly_opt.Base.Int.{pos, is_pos}
use mintzy_plugin_kelly_opt.Base.Text.{
  Text, codes, text_eq, upper, upper_code, is_space, strip_left, strip, drop_eq_suffix,
}
use mintzy_plugin_kelly_opt.Base.Dict.{Dict, lookup}
use mintzy_plugin_kelly_opt.Symbols.{normalize_symbol}
use mintzy_plugin_kelly_opt.Ledger.{buy}
use mintzy_plugin_kelly_opt.Decimals.{
  Field, text, whole, real, is_truthy, float_of, float_or, int_of,
}
use mintzy_plugin_kelly_opt.OrderBatcher.{OrderRequest}
use mintzy_plugin_kelly_opt.Executor.{OrderResult, failed_result, sent_result}
use mintzy_plugin_kelly_opt.Executor.Conserved.{as_one}
use mintzy_plugin_kelly_opt.Cycle.{Cycle}
use mintzy_plugin_kelly_opt.Cycle.Trade.{trade_symbol}
use mintzy_plugin_kelly_opt.Cycle.Results.{pending_entry, get_elem?}
use mintzy_plugin_kelly_opt.Cycle.Effects.{slate}
use mintzy_plugin_kelly_opt.Cycle.Booked.{entries}
use mintzy_plugin_kelly_opt.LiveExit.{
  PositionsReply, first_truthy, product_text, product_of, net_qty, symbol_text, trading_symbol,
  average_price, position_row, get_broker_positions,
}
use mintzy_plugin_kelly_opt.LiveExit.Target.{
  refresh, named_row, find_target, exit_snapshot, exit_note, exit_request,
}
use mintzy_plugin_kelly_opt.LiveExit.Single.{
  ExitAnswer, exit_entry, take_result, take_answer, order_sent, order_failed, exit_single_position,
}
use mintzy_plugin_kelly_opt.LiveExit.Rows.{IsIntraday, rows_of, get_broker_positions-IsIntraday}
use mintzy_plugin_kelly_opt.LiveExit.Order.{only_closing_orders_are_sent}
use mintzy_plugin_kelly_opt.LiveExit.Answer.{
  was_sent, standing, failed_exit_changes_nothing, exited_symbol_is_left,
}
use mintzy_plugin_kelly_opt.Examples.Pyramid.{fixed, digits, no_json, mongo}
use mintzy_plugin_kelly_opt.Examples.Fills.{unset}
use mintzy_plugin_kelly_opt.Examples.Trading.{R, lists_all, cycle, falling}

abbrev row : Text → Text → Dict (Field ℕ)
row symbol product =
    (codes "tradingsymbol", text symbol)
    ∷ (codes "producttype", text product)
    ∷ (codes "netqty", whole (pos 5))
    ∷ (codes "averageprice", real 21000000)
    ∷ (codes "ltp", real 20000000)
    ∷ []

abbrev pub reply : PositionsReply ℕ
reply = returned (
    some (
      some (row (codes "INFY-EQ") (codes "DELIVERY"))
      ∷ none
      ∷ some (row (codes "TCS-EQ") (codes "INTRADAY"))
      ∷ []))

abbrev pub accepting : List OrderRequest → Call (List OrderResult)
accepting [] = returned []
accepting (o ∷ os) = returned (sent_result o (codes "o1") ∷ [])

abbrev pub refusing : List OrderRequest → Call (List OrderResult)
refusing [] = returned []
refusing (o ∷ os) = returned (failed_result o (codes "rejected") ∷ [])

one_position :
    get_broker_positions fixed digits reply
    ≡ record {
      row = record { symbol = codes "TCS"; side = buy; qty = pos 5; avg_price = 21000000 };
      ltp = 20000000;
    }
      ∷ []
unfolding get_broker_positions position_row product_of product_text first_truthy is_truthy net_qty
    int_of trading_symbol symbol_text average_price float_or float_of upper upper_code
    drop_eq_suffix lookup text_eq
one_position = refl

exit_is_sent :
    (exit_single_position fixed digits R unset (codes "tcs") reply [] accepting 7 (cycle [])).0
    ≡ order_sent (codes "o1")
unfolding get_broker_positions position_row product_of product_text first_truthy is_truthy net_qty
    int_of trading_symbol symbol_text average_price float_or float_of upper upper_code
    drop_eq_suffix lookup text_eq exit_single_position refresh find_target named_row
    normalize_symbol strip strip_left is_space take_answer take_result exit_entry pending_entry
    exit_request exit_note exit_snapshot get_elem?
exit_is_sent = refl

get_broker_positions-IsIntraday_example :
    All (IsIntraday fixed digits (rows_of reply)) (get_broker_positions fixed digits reply)
get_broker_positions-IsIntraday_example = get_broker_positions-IsIntraday fixed digits reply

-- An executor that takes only orders of a positive quantity.
abbrev choosy : List OrderRequest → Call (List OrderResult)
choosy [] = returned []
choosy (o ∷ os) = if is_pos o.qty then accepting (o ∷ os) else raised

exit_order_is_accepted :
    (exit_single_position fixed digits R unset (codes "tcs") reply [] refusing 7 (cycle [])).0
    ≡ order_failed (some (codes "rejected"))
unfolding get_broker_positions position_row product_of product_text first_truthy is_truthy net_qty
    int_of trading_symbol symbol_text average_price float_or float_of upper upper_code
    drop_eq_suffix lookup text_eq exit_single_position refresh find_target named_row
    normalize_symbol strip strip_left is_space take_answer take_result exit_entry pending_entry
    exit_request exit_note exit_snapshot get_elem?
exit_order_is_accepted = refl

failed_exit_changes_nothing_example :
    standing
      (exit_single_position fixed digits R unset (codes "tcs") reply [] refusing 7 (cycle [])).1
    ≡ standing (cycle [])
failed_exit_changes_nothing_example =
    failed_exit_changes_nothing fixed digits R unset (codes "tcs") reply [] refusing 7 (cycle [])
      (rw exit_order_is_accepted refl)

abbrev left : ExitAnswer × Cycle ℕ R.Store
left = exit_single_position fixed digits R unset (codes "tcs") reply [] accepting 7 (cycle [])

same_symbol : normalize_symbol (codes "TCS") ≡ drop_eq_suffix (upper (codes "tcs"))
unfolding normalize_symbol drop_eq_suffix upper upper_code strip strip_left is_space
same_symbol = refl

exited_symbol_is_left_example :
    (slate (trade_symbol fixed digits no_json mongo lists_all none (codes "TCS") falling left.1)
      ≡ slate left.1)
    × (entries (drop_eq_suffix (upper (codes "tcs"))) left.1.pending
        ≡ entries (drop_eq_suffix (upper (codes "tcs"))) (cycle []).pending
          + as_one (was_sent left.0))
exited_symbol_is_left_example =
    exited_symbol_is_left fixed digits R unset (codes "tcs") reply [] accepting 7 (cycle []) no_json
      mongo lists_all none (codes "TCS") falling same_symbol (rw exit_is_sent refl)

only_closing_orders_are_sent_example :
    exit_single_position fixed digits R unset (codes "tcs") reply [] accepting 7 (cycle [])
    ≡ exit_single_position fixed digits R unset (codes "tcs") reply [] choosy 7 (cycle [])
only_closing_orders_are_sent_example =
    only_closing_orders_are_sent fixed digits R unset (codes "tcs") reply [] accepting choosy 7
      (cycle []) (λ o k. let not_empty = k.not_empty in ground arith)
