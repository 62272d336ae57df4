-- ===== src/Examples/Sending.antt =====
-- Examples for the parallel order executor: one worker, and an order whose answer comes too late.
use mintzy_plugin_kelly_opt.Base.{
  ℕ, ◌+◌, ◌*◌, ◌<◌, ◌≡◌, refl, ◌⊎◌, Bool, none, some, List, [], ◌∷◌, length, arith,
}
use mintzy_plugin_kelly_opt.Base.Int.{pos}
use mintzy_plugin_kelly_opt.Base.Text.{Text, codes, text_eq}
use mintzy_plugin_kelly_opt.OrderBatcher.{OrderRequest}
use mintzy_plugin_kelly_opt.Executor.{
  OrderResult, Reply, dict, sent_result, with_order_id, execute_single_order, Executor,
  submit_orders, timeout_result, put, take, answer, collect, time_out, IsQuiet, IsDone,
}
use mintzy_plugin_kelly_opt.Executor.Conserved.{
  Run, here, next, CanMove, orders_with, results_with, submit_orders_ends, results_are_accounted,
}

abbrev pub order : OrderRequest
order = record { symbol = codes "TCS"; side = codes "BUY"; qty = pos 5; tag = 0 }

abbrev later_order : OrderRequest
later_order = record { symbol = codes "INFY"; side = codes "SELL"; qty = pos 2; tag = 1 }

abbrev pub reply : Reply
reply = dict (some (codes "26")) (some (codes "placed")) none

-- The executor with some results in its queue.
abbrev pub idle : List OrderResult → Executor
idle rs = record {
  to_put = [];
  awaited = [];
  order_queue = [];
  working = [];
  result_queue = rs;
  results = [];
}

pub idle-IsQuiet : (rs : List OrderResult) → IsQuiet (idle rs)
idle-IsQuiet rs = record { none_to_put = refl; none_queued = refl; none_working = refl }

abbrev pub after_time_out : Executor
after_time_out = record (idle (sent_result order (codes "26") ∷ [])) {
  results = timeout_result order ∷ [];
}

pub late-Run : Run 1 (submit_orders (order ∷ []) (idle [])) 4 (order ∷ []) after_time_out
unfolding submit_orders execute_single_order with_order_id text_eq
late-Run =
    next
      (next (next (next here (put order [] refl)) (time_out order [] refl refl refl))
        (take order [] refl (omega arith)))
      (answer [] order [] reply refl)

submit_orders_ends_example :
    (IsDone after_time_out × (4 ≡ 4 * length (order ∷ [])))
    ⊎ (CanMove 1 after_time_out × (4 < 4 * length (order ∷ [])))
submit_orders_ends_example =
    submit_orders_ends (omega arith) (order ∷ []) (idle []) (idle-IsQuiet []) late-Run

pub after_time_out-IsDone : IsDone after_time_out
after_time_out-IsDone = record {
  quiet = record { none_to_put = refl; none_queued = refl; none_working = refl };
  none_awaited = refl;
}

abbrev about_tcs : Text → ℕ → Bool
about_tcs symbol tag = text_eq symbol (codes "TCS")

results_are_accounted_example :
    (length after_time_out.results ≡ length (order ∷ []))
    × (length after_time_out.result_queue ≡ length (idle []).result_queue + length (order ∷ []))
    × (results_with about_tcs after_time_out.results
          + results_with about_tcs after_time_out.result_queue
        ≡ orders_with about_tcs (order ∷ [])
          + results_with about_tcs (idle []).result_queue
          + orders_with about_tcs (order ∷ []))
results_are_accounted_example =
    results_are_accounted about_tcs (order ∷ []) (idle []) (idle-IsQuiet []) late-Run
      after_time_out-IsDone

-- The next call, for another order, returns the result of the first one and leaves its own.
next_call_is_shifted :
    Run 1
      (submit_orders (later_order ∷ []) after_time_out)
      4
      []
      (record (idle (sent_result later_order (codes "26") ∷ [])) {
        results = sent_result order (codes "26") ∷ [];
      })
unfolding submit_orders execute_single_order with_order_id text_eq
next_call_is_shifted =
    next
      (next
        (next (next here (put later_order [] refl))
          (collect later_order [] (sent_result order (codes "26")) [] refl refl refl))
        (take later_order [] refl (omega arith)))
      (answer [] later_order [] reply refl)
