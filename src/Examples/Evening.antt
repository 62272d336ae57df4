-- ===== src/Examples/Evening.antt =====
-- Examples for the live end-of-day exit: the session owns three of the five that the broker holds.
use mintzy_plugin_kelly_opt.Base.{
  ℕ, ◌⊎◌, ◌≡◌, refl, true, false, none, some, List, [], ◌∷◌, Call, returned, raised, arith,
  if◌then◌else◌, All,
}
use mintzy_plugin_kelly_opt.Base.Int.{pos, is_pos}
use mintzy_plugin_kelly_opt.Base.Text.{codes}
use mintzy_plugin_kelly_opt.Ledger.{sell}
use mintzy_plugin_kelly_opt.OrderBatcher.{OrderRequest}
use mintzy_plugin_kelly_opt.Executor.{OrderResult, failed_result}
use mintzy_plugin_kelly_opt.EodExit.{busy, try_begin_eod_exit}
use mintzy_plugin_kelly_opt.Cycle.{Cycle}
use mintzy_plugin_kelly_opt.LiveExit.Target.{refresh}
use mintzy_plugin_kelly_opt.LiveExit.EndOfDay.{Day, DayInput, plan_day, exit_all_positions_and_stop}
use mintzy_plugin_kelly_opt.LiveExit.Flattened.{only_owned_quantities_are_exited}
use mintzy_plugin_kelly_opt.LiveExit.Settled.{
  next_slot, day_ends_or_is_retried, Answers, failed_exits_are_not_retried,
}
use mintzy_plugin_kelly_opt.Examples.Pyramid.{fixed, digits}
use mintzy_plugin_kelly_opt.Examples.Session.{no_meta, environ, environ_scoped, environ_by_ledger}
use mintzy_plugin_kelly_opt.Examples.Trading.{R, cycle}
use mintzy_plugin_kelly_opt.Examples.Leaving.{reply, accepting}

abbrev holding : Cycle ℕ R.Store
holding =
    let c = cycle [] in
    record c {
      desk = record c.desk {
        trader = record c.desk.trader {
          ledger = record c.desk.trader.ledger { open_qty = some ((codes "TCS", pos 3) ∷ []) };
        };
      };
    }

abbrev evening : Day ℕ R.Store
evening = record { cycle = holding; eod = record { exit_done = none; in_progress = none } }

-- The result of an order that the broker rejects.
abbrev rejected : OrderResult
rejected =
    failed_result (record { symbol = codes "TCS"; side = sell; qty = pos 3; tag = 0 })
      (codes "rejected")

abbrev rejecting : List OrderRequest → Call (List OrderResult)
rejecting os = returned (rejected ∷ [])

abbrev input : (List OrderRequest → Call (List OrderResult)) → DayInput ℕ R.Store
input submit = record {
  reply = reply;
  submit = submit;
  now = 7;
  meanwhile = λ c. c;
  session_free = none;
  balance = raised;
}

rejecting-Answers : Answers fixed digits R environ no_meta rejecting
rejecting-Answers os = (rejected ∷ [], refl)

accepting-Answers : Answers fixed digits R environ no_meta accepting
accepting-Answers [] = ([], refl)
accepting-Answers (o ∷ os) = (_, refl)

-- An exit that the broker rejects ends as one that it accepts.
failed_exits_are_not_retried_example :
    let first =
      exit_all_positions_and_stop fixed digits R environ no_meta (input rejecting) evening in
    let other =
      exit_all_positions_and_stop fixed digits R environ no_meta (input accepting) evening in
    (first.0 ≡ other.0)
    × (first.1.eod ≡ other.1.eod)
    × (((first.0 ≡ false)
          × (((try_begin_eod_exit evening.eod).0 ≡ busy)
              ⊎ ((plan_day fixed digits R environ no_meta
                    (input rejecting)
                    (refresh fixed digits reply evening.cycle)).0
                  ≡ [])))
        ⊎ (exit_all_positions_and_stop fixed digits R environ no_meta (input accepting) first.1
            ≡ (true, first.1)))
failed_exits_are_not_retried_example =
    failed_exits_are_not_retried fixed digits R environ no_meta (input rejecting) evening accepting
      (input accepting) rejecting-Answers accepting-Answers

day_ends_or_is_retried_example :
    (try_begin_eod_exit
      (exit_all_positions_and_stop fixed digits R environ no_meta
        (input rejecting)
        evening).1.eod).0
    ≡ next_slot
        (try_begin_eod_exit evening.eod).0
        (exit_all_positions_and_stop fixed digits R environ no_meta (input rejecting) evening).0
day_ends_or_is_retried_example =
    day_ends_or_is_retried fixed digits R environ no_meta (input rejecting) evening

-- An executor that raises at an order without a quantity.
abbrev careful : List OrderRequest → Call (List OrderResult)
careful [] = returned []
careful (o ∷ os) = if is_pos o.qty then accepting (o ∷ os) else raised

careful_agrees :
    {P : OrderRequest → Type 0}
    → ((o : OrderRequest) → P o → is_pos o.qty ≡ true)
    → (os : List OrderRequest) → All P os
    → accepting os ≡ careful os
careful_agrees k [] h = refl
careful_agrees k (o ∷ os) h = rw (k o h.0) refl

only_owned_quantities_are_exited_example :
    exit_all_positions_and_stop fixed digits R environ no_meta (input accepting) evening
    ≡ exit_all_positions_and_stop fixed digits R environ no_meta (input careful) evening
only_owned_quantities_are_exited_example =
    only_owned_quantities_are_exited fixed digits R environ no_meta (input accepting) evening
      environ_scoped environ_by_ledger careful
      (careful_agrees (λ o k. let positive = k.positive in ground arith))
