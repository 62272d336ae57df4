-- ===== src/LiveExit/Flattened.antt =====
-- The orders of the live end-of-day exit, and how it leaves the day.
use mintzy_plugin_kelly_opt.Base.{
  ℕ, ◌+◌, ◌≤◌, ◌≡◌, refl, ap, subst, sym as p_sym, Bool, true, false, List, [], ◌∷◌, length, map,
  All, Call, if◌then◌else◌, arith,
}
use mintzy_plugin_kelly_opt.Base.Int.{ℤ, pos_part, abs, is_pos}
use mintzy_plugin_kelly_opt.Base.Text.{Text}
use mintzy_plugin_kelly_opt.Base.Dict.{Dict, keys, lookup}
use mintzy_plugin_kelly_opt.Symbols.{Environ, BrokerPosition, exit_only_session_symbols_enabled}
use mintzy_plugin_kelly_opt.Redis.{Redis, SessionMeta}
use mintzy_plugin_kelly_opt.Ledger.{
  Trader, buy, sell, entry, get_session_ledger, eod_use_session_ledger_enabled,
}
use mintzy_plugin_kelly_opt.Number.{Number}
use mintzy_plugin_kelly_opt.Decimals.{Decimals}
use mintzy_plugin_kelly_opt.OrderBatcher.{OrderRequest}
use mintzy_plugin_kelly_opt.Executor.{OrderResult}
use mintzy_plugin_kelly_opt.ExitPlan.{
  ExitRow, opposite, qty_of, side_of, broker_positions_to_map, build_eod_exit_plan,
}
use mintzy_plugin_kelly_opt.ExitPlan.Quantities.{IsSafe}
use mintzy_plugin_kelly_opt.ExitPlan.Build.{build-IsSafe}
use mintzy_plugin_kelly_opt.EodExit.{
  try_begin_eod_exit, judge_plan, prepare_eod_exit_plan, exit_plan_to_broker_positions,
}
use mintzy_plugin_kelly_opt.LiveExit.{get_broker_positions}
use mintzy_plugin_kelly_opt.LiveExit.Target.{refresh}
use mintzy_plugin_kelly_opt.LiveExit.EndOfDay.{
  Day, DayInput, broker_position, exit_side_of, exit_requests, send_exits, run_eod_exit_body,
  follow_plan, plan_day, close_books, conclude, exit_all_positions_and_stop,
}

-- An order that exits what the session itself owns, as far as the broker holds it.
pub record ClosesOwn {F : Type 0} (ledger : Dict ℤ) (broker_map : Dict (BrokerPosition F))
    (o : OrderRequest) : Type 0 where
  pub positive : 1 ≤ pos_part o.qty
  pub owned : pos_part o.qty ≤ abs (entry o.symbol ledger)
  pub held : pos_part o.qty ≤ pos_part (qty_of (lookup o.symbol broker_map))
  pub closes_own : o.side ≡ (if is_pos (entry o.symbol ledger) then sell else buy)
  pub closes_held : o.side ≡ opposite (side_of (lookup o.symbol broker_map))

exit_requests-AllClose :
    {F : Type 0} (ledger : Dict ℤ) (broker_map : Dict (BrokerPosition F)) (n : ℕ)
    (rows : List (ExitRow F))
    → All (IsSafe ledger broker_map) rows
    → All (ClosesOwn ledger broker_map) (exit_requests n (exit_plan_to_broker_positions rows))
unfolding exit_requests exit_plan_to_broker_positions exit_side_of
exit_requests-AllClose ledger broker_map n [] h = tt
exit_requests-AllClose ledger broker_map n (r ∷ rows) h =
    let safe = h.0 in
    let shown = safe.shown_side in
    let closes_own = safe.closes_own in
    let closes_held = safe.closes_held in
    (
      record {
        positive = safe.positive;
        owned = safe.owned;
        held = safe.held;
        closes_own = ground (arith, shown, closes_own, closes_held);
        closes_held = ground (arith, shown);
      },
      exit_requests-AllClose ledger broker_map (n + 1) rows h.1,
    )

module _ (N : Number) (D : Decimals N) (R : Redis) (environ : Environ)
    (json_loads : Text → Call SessionMeta) where
  open N use {Float}
  open R use {Store}

  send_exits-submit :
      (i : DayInput Float Store) (submit' : List OrderRequest → Call (List OrderResult)) (ps : _)
      (d : Day Float Store)
      → i.submit (exit_requests (length d.cycle.notes) ps)
        ≡ submit' (exit_requests (length d.cycle.notes) ps)
      → send_exits N D R environ json_loads i ps d
        ≡ send_exits N D R environ json_loads (record i { submit = submit' }) ps d
  unfolding send_exits
  send_exits-submit i submit' ps d h = rw (h, send_exits) refl

  follow_plan-submit :
      (i : DayInput Float Store) (submit' : List OrderRequest → Call (List OrderResult))
      (plan : List (ExitRow Float)) (mark_done_empty : Bool) (d : Day Float Store)
      → i.submit (exit_requests (length d.cycle.notes) (exit_plan_to_broker_positions plan))
        ≡ submit' (exit_requests (length d.cycle.notes) (exit_plan_to_broker_positions plan))
      → follow_plan N D R environ json_loads i plan mark_done_empty d
        ≡ follow_plan N D R environ json_loads
            (record i { submit = submit' })
            plan
            mark_done_empty
            d
  unfolding follow_plan close_books
  follow_plan-submit i submit' (r ∷ plan) mark_done_empty d h =
      send_exits-submit i submit' (exit_plan_to_broker_positions (r ∷ plan)) d h
  follow_plan-submit i submit' [] true d h = refl
  follow_plan-submit i submit' [] false d h = refl

  judge_plan-plan : (plan : List (ExitRow Float)) (t : Trader) → (judge_plan plan t).0 ≡ plan
  unfolding judge_plan
  judge_plan-plan [] t = ground arith
  judge_plan-plan (r ∷ plan) t = refl

  module _ (i : DayInput Float Store) (d : Day Float Store) where
    -- What the broker holds, as the plan reads it.
    abbrev pub held_at_broker : Dict (BrokerPosition Float)
    held_at_broker =
        broker_positions_to_map (map broker_position (get_broker_positions N D i.reply))

    plan_day-AllSafe :
        exit_only_session_symbols_enabled environ ≡ true
        → eod_use_session_ledger_enabled environ ≡ true
        → All
            (IsSafe (get_session_ledger d.cycle.desk.trader.ledger) held_at_broker)
            (plan_day N D R environ json_loads i (refresh N D i.reply d.cycle)).0
    unfolding plan_day prepare_eod_exit_plan refresh
    plan_day-AllSafe scoped by_ledger =
        let t = d.cycle.desk.trader in
        let positions = map broker_position (get_broker_positions N D i.reply) in
        let fallback = keys d.cycle.symbol_allocations in
        let plan =
          (build_eod_exit_plan R json_loads environ t.ledger t.client positions fallback).0 in
        subst (All (IsSafe (get_session_ledger t.ledger) held_at_broker))
          (p_sym (judge_plan-plan plan t.ledger))
          (build-IsSafe R json_loads environ t.ledger t.client positions fallback scoped by_ledger)

    -- With both switches on, the live end-of-day exit does not depend on what the executor answers
    -- to other lists of orders than those in which every order has a positive quantity that
    -- exceeds neither the session's own position of its symbol nor the broker's, and the side that
    -- closes both.
    pub only_owned_quantities_are_exited :
        exit_only_session_symbols_enabled environ ≡ true
        → eod_use_session_ledger_enabled environ ≡ true
        → (submit' : List OrderRequest → Call (List OrderResult))
        → ((os : List OrderRequest)
            → All (ClosesOwn (get_session_ledger d.cycle.desk.trader.ledger) held_at_broker) os
            → i.submit os ≡ submit' os)
        → exit_all_positions_and_stop N D R environ json_loads i d
          ≡ exit_all_positions_and_stop N D R environ json_loads (record i { submit = submit' }) d
    unfolding exit_all_positions_and_stop run_eod_exit_body plan_day
    only_owned_quantities_are_exited scoped by_ledger submit' agree =
        let (slot, eod) = try_begin_eod_exit d.eod in
        let c = refresh N D i.reply d.cycle in
        let planned = plan_day N D R environ json_loads i c in
        let requests = exit_requests (length c.notes) (exit_plan_to_broker_positions planned.0) in
        ap (conclude N D R environ json_loads slot (record d { eod = eod })) (
          follow_plan-submit i submit' planned.0 planned.1 (record { cycle = c; eod = eod })
            (agree requests (
              exit_requests-AllClose (get_session_ledger d.cycle.desk.trader.ledger) held_at_broker
                (length c.notes) planned.0 (plan_day-AllSafe scoped by_ledger))))
