-- ===== src/LiveExit/EndOfDay.antt =====
-- `_exit_all_positions_and_stop` and `_run_eod_exit_body` of the live package's eod_exit.py. The wait
-- of up to a minute for the fills is an argument: what the other threads, the reconciler above all,
-- have done to the trader when it ends. Left out are the trade book, the trade log, the alerts and
-- the status for the interface.
use mintzy_plugin_kelly_opt.Base.{
  ℕ, ◌+◌, Bool, true, false, Option, none, some, List, [], ◌∷◌, ◌++◌, length, map, get_or, Call,
  returned, raised, if◌then◌else◌,
}
use mintzy_plugin_kelly_opt.Base.Int.{pos}
use mintzy_plugin_kelly_opt.Base.Text.{Text, codes, text_eq}
use mintzy_plugin_kelly_opt.Base.Dict.{keys}
use mintzy_plugin_kelly_opt.Symbols.{Environ, BrokerPosition}
use mintzy_plugin_kelly_opt.Redis.{Redis, SessionMeta}
use mintzy_plugin_kelly_opt.Ledger.{buy, sell, record_engine_order_for_trader}
use mintzy_plugin_kelly_opt.Number.{Number}
use mintzy_plugin_kelly_opt.Decimals.{Decimals, Field}
use mintzy_plugin_kelly_opt.PaperEngine.{OpenPosition}
use mintzy_plugin_kelly_opt.OrderBatcher.{OrderRequest}
use mintzy_plugin_kelly_opt.Executor.{OrderResult}
use mintzy_plugin_kelly_opt.EodExit.{
  EodState, Slot, PlanStatus, proceed, finished, busy, try_begin_eod_exit, mark_eod_exit_done,
  release_eod_exit_in_progress, Books, finalize_eod_shutdown, prepare_eod_exit_plan, ExitPosition,
  exit_plan_to_broker_positions,
}
use mintzy_plugin_kelly_opt.ExitPlan.{ExitRow}
use mintzy_plugin_kelly_opt.Exposure.{CachedRow}
use mintzy_plugin_kelly_opt.Exposure.FreeCash.{BalanceReply, get_free_cash, sync_cash_with_broker}
use mintzy_plugin_kelly_opt.Cycle.{Note, Cycle}
use mintzy_plugin_kelly_opt.Cycle.Results.{note_of, pending_entry, add_pending}
use mintzy_plugin_kelly_opt.LiveExit.{PositionsReply}
use mintzy_plugin_kelly_opt.LiveExit.Target.{refresh}

-- The trader with the guard of its end-of-day exit.
pub record Day (F S : Type 0) : Type 0 where
  pub cycle : Cycle F S
  pub eod : EodState

-- What the broker, the executor and the other threads answer and do during the exit.
pub record DayInput (F S : Type 0) : Type 0 where
  pub reply : PositionsReply F
  pub submit : List OrderRequest → Call (List OrderResult)
  pub now : ℕ
  pub meanwhile : Cycle F S → Cycle F S
  pub session_free : Option (Field F)
  pub balance : Call (Option (BalanceReply F))

-- A cached row as the plan reads it.
unfoldable pub broker_position : {F : Type 0} → CachedRow F → BrokerPosition F
broker_position p = record {
  symbol = p.row.symbol;
  side = some p.row.side;
  qty = p.row.qty;
  ltp = some p.ltp;
}

unfoldable pub exit_side_of : {F : Type 0} → ExitPosition F → Text
exit_side_of p = if text_eq p.side buy then sell else buy

-- The orders, each tagged with the place of its metadata.
unfoldable pub exit_requests : {F : Type 0} → ℕ → List (ExitPosition F) → List OrderRequest
exit_requests n [] = []
exit_requests n (p ∷ ps) =
    record { symbol = p.symbol; side = exit_side_of p; qty = pos p.qty; tag = n }
    ∷ exit_requests (n + 1) ps

module _ (N : Number) (D : Decimals N) (R : Redis) (environ : Environ)
    (json_loads : Text → Call SessionMeta) where
  open N use {Float, zero, of_int, times}
  open R use {Store}

  unfoldable pub market_close_note : ExitPosition Float → Note Float
  market_close_note p = record {
    action_type = codes "MARKET_CLOSE_EXIT";
    side = exit_side_of p;
    qty = pos p.qty;
    order_value = times (get_or p.ltp zero) (of_int (pos p.qty));
    position_side = none;
    pre_exit_position = none;
  }

  -- The body of the loop over the results.
  unfoldable pub take_exit_result : ℕ → OrderResult → Cycle Float Store → Cycle Float Store
  take_exit_result now r c =
      let t = c.desk.trader in
      let note : Note Float = record (note_of N R environ r c) {
        action_type = codes "MARKET_CLOSE_EXIT";
        position_side = none;
        pre_exit_position = none;
      } in
      if r.success
      then record c {
        desk = record c.desk {
          trader = record t {
            client = record_engine_order_for_trader R t.ledger t.client r.order_id;
          };
        };
        pending =
            add_pending N R environ r.symbol
              (pending_entry N R environ note (get_or r.order_id []) now) c.pending;
      }
      else c

  unfoldable pub take_exit_results : ℕ → List OrderResult → Cycle Float Store → Cycle Float Store
  unfolding take_exit_result
  take_exit_results now [] c = c
  take_exit_results now (r ∷ rs) c = take_exit_results now rs (take_exit_result now r c)

  module _ (i : DayInput Float Store) where
    -- `finalize_eod_shutdown(self, clear_positions=True, sync_broker=…)`
    unfoldable pub close_books : Bool → Cycle Float Store → Cycle Float Store
    close_books sync_broker c =
        let t = c.desk.trader in
        let sync_cash : Float → Float =
          λ cash. get_or (get_free_cash N D i.session_free i.balance) cash in
        let b : Books (OpenPosition Float) Float = record {
          positions = some t.account.positions;
          trader = t.ledger;
          cash = t.account.cash_balance;
        } in
        let closed = finalize_eod_shutdown (some sync_cash) true sync_broker b in
        record c {
          desk = record c.desk {
            trader = record t {
              account = record t.account {
                positions = get_or closed.positions [];
                cash_balance = closed.cash;
              };
              ledger = closed.trader;
            };
          };
        }

    -- From the results to the end.
    unfoldable pub finish_day : List OrderResult → Cycle Float Store → Cycle Float Store
    unfolding close_books
    finish_day rs c =
        let c' = i.meanwhile (take_exit_results i.now rs c) in
        close_books false
          (record c' { desk = (sync_cash_with_broker N D i.session_free i.balance c'.desk).1 })

    -- A plan that is not empty.
    unfoldable pub send_exits :
        List (ExitPosition Float) → Day Float Store → Call Bool × Day Float Store
    unfolding finish_day
    send_exits positions d =
        let c = record d.cycle { notes = d.cycle.notes ++ map market_close_note positions } in
        elim (i.submit (exit_requests (length d.cycle.notes) positions)) [
          | raised ↦ (raised, record d { cycle = c })
          | returned rs ↦
              (returned true, record { cycle = finish_day rs c; eod = mark_eod_exit_done d.eod })
        ]

    -- What is done with the plan, and whether the day may end without orders.
    unfoldable pub follow_plan :
        List (ExitRow Float) → Bool → Day Float Store → Call Bool × Day Float Store
    follow_plan (r ∷ plan) mark_done_empty d =
        send_exits (exit_plan_to_broker_positions (r ∷ plan)) d
    follow_plan [] true d =
        (returned true, record { cycle = close_books true d.cycle; eod = mark_eod_exit_done d.eod })
    follow_plan [] false d = (returned false, record d { eod = release_eod_exit_in_progress d.eod })

    -- The plan of the day, from the broker's positions as they are then.
    unfoldable pub plan_day : Cycle Float Store → List (ExitRow Float) × Bool × PlanStatus
    unfolding broker_position
    plan_day c =
        prepare_eod_exit_plan R json_loads environ c.desk.trader.ledger c.desk.trader.client
          (map broker_position c.desk.broker_positions_cache) (keys c.symbol_allocations)

    unfoldable pub run_eod_exit_body : Day Float Store → Call Bool × Day Float Store
    run_eod_exit_body d =
        let c = refresh N D i.reply d.cycle in
        let planned = plan_day c in follow_plan planned.0 planned.1 (record d { cycle = c })

  -- The end of the exit: one that raised is released.
  unfoldable pub conclude :
      Slot → Day Float Store → Call Bool × Day Float Store → Bool × Day Float Store
  conclude finished d outcome = (true, d)
  conclude busy d outcome = (false, d)
  conclude proceed d (returned ok, d') = (ok, d')
  conclude proceed d (raised, d') = (false, record d' { eod = release_eod_exit_in_progress d'.eod })

  unfoldable pub exit_all_positions_and_stop :
      DayInput Float Store → Day Float Store → Bool × Day Float Store
  exit_all_positions_and_stop i d0 =
      let (slot, eod) = try_begin_eod_exit d0.eod in
      let d = record d0 { eod = eod } in conclude slot d (run_eod_exit_body i d)
