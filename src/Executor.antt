-- ===== src/Executor.antt =====
-- `ParallelOrderExecutor` of order_execution.py in the live package: what becomes of one order, and a
-- call of `submit_orders` with the two queues that it shares with the workers. The step relation has
-- the moves of the submitter and of the workers, in any order; `place_order` of the broker may answer
-- anything. `stop` and its sentinels are left out: nothing calls it while a call of `submit_orders`
-- runs. Of a result, `tag` is the order's metadata; the price and the quantity filled are always 0.
pub mod Conserved
use mintzy_plugin_kelly_opt.Base.{
  ℕ, ◌<◌, ◌≡◌, Bool, true, false, Option, none, some, List, [], ◌∷◌, ◌++◌, is_empty, length, get_or,
  if◌then◌else◌,
}
use mintzy_plugin_kelly_opt.Base.Text.{Text, codes, text_eq}
use mintzy_plugin_kelly_opt.OrderBatcher.{OrderRequest}

pub record OrderResult : Type 0 where
  pub symbol : Text
  pub success : Bool
  pub order_id : Option Text
  pub filled : Bool
  pub error : Option Text
  pub tag : ℕ

-- What `broker.place_order` does: it raises, it returns something that is no dict, or a dict with
-- these keys.
pub data Reply : Type 0 where
  raised : Text → Reply
  not_dict : Reply
  dict : (order_id status error : Option Text) → Reply

abbrev pub failed_result : OrderRequest → Text → OrderResult
failed_result order reason = record {
  symbol = order.symbol;
  success = false;
  order_id = none;
  filled = false;
  error = some reason;
  tag = order.tag;
}

abbrev pub sent_result : OrderRequest → Text → OrderResult
sent_result order id = record {
  symbol = order.symbol;
  success = true;
  order_id = some id;
  filled = false;
  error = none;
  tag = order.tag;
}

-- `if not order_id`
unfoldable pub with_order_id : OrderRequest → Option Text → OrderResult
with_order_id order none = failed_result order (codes "No order ID received")
with_order_id order (some id) =
    if is_empty id then failed_result order (codes "No order ID received") else sent_result order id

unfoldable pub execute_single_order : Reply → OrderRequest → OrderResult
execute_single_order (raised reason) order = failed_result order reason
execute_single_order not_dict order = with_order_id order none
execute_single_order (dict order_id status error) order =
    if text_eq (get_or status []) (codes "error")
    then failed_result order (get_or error (codes "Unknown error"))
    else with_order_id order order_id

-- `to_put` are the orders that the call has not put into the queue yet, `awaited` those for which its
-- second loop has no result yet, `working` those that a worker has taken.
pub record Executor : Type 0 where
  pub to_put : List OrderRequest
  pub awaited : List OrderRequest
  pub order_queue : List OrderRequest
  pub working : List OrderRequest
  pub result_queue : List OrderResult
  pub results : List OrderResult

-- The state in which a call of `submit_orders` begins.
unfoldable pub submit_orders : List OrderRequest → Executor → Executor
submit_orders orders e = record e { to_put = orders; awaited = orders; results = [] }

abbrev pub timeout_result : OrderRequest → OrderResult
timeout_result order = failed_result order (codes "Order execution timeout")

-- A move, with the order that timed out in it, if one did.
pub data Move (max_workers : ℕ) (e : Executor) : Option OrderRequest → Executor → Type 0 where
  put :
      (o : OrderRequest) (os : List OrderRequest)
      → e.to_put ≡ o ∷ os
      → Move max_workers e none (record e { to_put = os; order_queue = e.order_queue ++ o ∷ [] })
  take :
      (o : OrderRequest) (os : List OrderRequest)
      → e.order_queue ≡ o ∷ os
      → length e.working < max_workers
      → Move max_workers e none (record e { order_queue = os; working = o ∷ e.working })
  answer :
      (before : List OrderRequest) (o : OrderRequest) (behind : List OrderRequest) (reply : Reply)
      → e.working ≡ before ++ o ∷ behind
      → Move max_workers e none (record e {
        working = before ++ behind;
        result_queue = e.result_queue ++ execute_single_order reply o ∷ [];
      })
  collect :
      (o : OrderRequest) (os : List OrderRequest) (r : OrderResult) (rs : List OrderResult)
      → e.to_put ≡ []
      → e.awaited ≡ o ∷ os
      → e.result_queue ≡ r ∷ rs
      → Move max_workers e none
          (record e { awaited = os; result_queue = rs; results = e.results ++ r ∷ [] })
  time_out :
      (o : OrderRequest) (os : List OrderRequest)
      → e.to_put ≡ []
      → e.awaited ≡ o ∷ os
      → e.result_queue ≡ []
      → Move max_workers e
          (some o)
          (record e { awaited = os; results = e.results ++ timeout_result o ∷ [] })

-- No order is queued or in the hands of a worker.
pub record IsQuiet (e : Executor) : Type 0 where
  pub none_to_put : e.to_put ≡ []
  pub none_queued : e.order_queue ≡ []
  pub none_working : e.working ≡ []

-- `submit_orders` returns: each order has a result, and `order_queue.join()` is through.
pub record IsDone (e : Executor) : Type 0 where
  pub quiet : IsQuiet e
  pub none_awaited : e.awaited ≡ []
