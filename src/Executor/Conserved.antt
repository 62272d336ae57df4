-- ===== src/Executor/Conserved.antt =====
-- What becomes of the results of `submit_orders` under any interleaving of it with the workers.
use mintzy_plugin_kelly_opt.Base.{
  ℕ, suc, ◌+◌, ◌*◌, ◌<◌, ◌≡◌, refl, ap, ◌∙◌, ◌⊎◌, inl, inr, Bool, true, Option, none, some, List,
  [], ◌∷◌, ◌++◌, length, length-append, push, arith, if◌then◌else◌,
}
use mintzy_plugin_kelly_opt.Base.Text.{Text}
use mintzy_plugin_kelly_opt.OrderBatcher.{OrderRequest}
use mintzy_plugin_kelly_opt.Executor.{
  OrderResult, Reply, raised, not_dict, dict, with_order_id, execute_single_order, Executor,
  submit_orders, timeout_result, Move, put, take, answer, collect, time_out, IsQuiet, IsDone,
}

-- A run of a number of moves, with the orders that timed out in it.
pub data Run (max_workers : ℕ) (e : Executor) : ℕ → List OrderRequest → Executor → Type 0 where
  here : Run max_workers e 0 [] e
  next :
      {n : ℕ} {late : List OrderRequest} {v : Executor} {o : Option OrderRequest} {w : Executor}
      → Run max_workers e n late v
      → Move max_workers v o w
      → Run max_workers e (suc n) (push o late) w

-- The moves that are left at most.
abbrev pub weight : Executor → ℕ
weight e = 3 * length e.to_put + length e.awaited + 2 * length e.order_queue + length e.working

abbrev pub as_one : Bool → ℕ
as_one b = if b then 1 else 0

module _ (p : Text → ℕ → Bool) where
  -- How many of the orders, and of the results, have a symbol and a tag that pass the test.
  abbrev pub orders_with : List OrderRequest → ℕ
  orders_with [] = 0
  orders_with (o ∷ os) = as_one (p o.symbol o.tag) + orders_with os

  abbrev pub results_with : List OrderResult → ℕ
  results_with [] = 0
  results_with (r ∷ rs) = as_one (p r.symbol r.tag) + results_with rs

  pub orders_with-append :
      (xs ys : List OrderRequest) → orders_with (xs ++ ys) ≡ orders_with xs + orders_with ys
  orders_with-append [] ys = omega arith
  orders_with-append (x ∷ xs) ys = omega (arith, orders_with-append xs ys)

  results_with-append :
      (xs ys : List OrderResult) → results_with (xs ++ ys) ≡ results_with xs + results_with ys
  results_with-append [] ys = omega arith
  results_with-append (x ∷ xs) ys = omega (arith, results_with-append xs ys)

  -- The orders and results that are anywhere on their way.
  abbrev pub held : Executor → ℕ
  held e =
      orders_with e.to_put
      + orders_with e.order_queue
      + orders_with e.working
      + results_with e.result_queue
      + results_with e.results

  with_order_id-held :
      (o : OrderRequest) (id : Option Text)
      → p (with_order_id o id).symbol (with_order_id o id).tag ≡ p o.symbol o.tag
  unfolding with_order_id
  with_order_id-held o none = refl
  with_order_id-held o (some id) = ground arith

  -- Whatever the broker does, the result carries the symbol and the tag of its order.
  execute_single_order-held :
      (reply : Reply) (o : OrderRequest)
      → p (execute_single_order reply o).symbol (execute_single_order reply o).tag
        ≡ p o.symbol o.tag
  unfolding execute_single_order
  execute_single_order-held (raised reason) o = refl
  execute_single_order-held not_dict o = with_order_id-held o none
  execute_single_order-held (dict order_id status error) o =
      ground (arith, with_order_id-held o order_id)

  Move-held :
      {m : ℕ} {u v : Executor} {o : Option OrderRequest}
      → Move m u o v
      → held v ≡ held u + orders_with (push o [])
  Move-held {u} (put o os h) =
      omega (arith, ap orders_with h, orders_with-append u.order_queue (o ∷ []))
  Move-held (take o os h k) = omega (arith, ap orders_with h)
  Move-held {u} (answer before o behind reply h) = omega (
    arith,
    ap orders_with h,
    orders_with-append before (o ∷ behind),
    orders_with-append before behind,
    results_with-append u.result_queue (execute_single_order reply o ∷ []),
    ap as_one (execute_single_order-held reply o),
  )
  Move-held {u} (collect o os r rs h k e) =
      omega (arith, ap results_with e, results_with-append u.results (r ∷ []))
  Move-held {u} (time_out o os h k e) =
      omega (arith, results_with-append u.results (timeout_result o ∷ []))

  orders_with-push :
      (o : Option OrderRequest) (os : List OrderRequest)
      → orders_with (push o os) ≡ orders_with (push o []) + orders_with os
  orders_with-push none os = omega arith
  orders_with-push (some o) os = omega arith

  Run-held :
      {m : ℕ} {u : Executor} {n : ℕ} {late : List OrderRequest} {v : Executor}
      → Run m u n late v
      → held v ≡ held u + orders_with late
  Run-held here = omega arith
  Run-held (next {late} {o} r s) = omega (arith, Run-held r, Move-held s, orders_with-push o late)

Move-results :
    {m : ℕ} {u v : Executor} {o : Option OrderRequest}
    → Move m u o v
    → length v.results + length v.awaited ≡ length u.results + length u.awaited
Move-results (put o os h) = refl
Move-results (take o os h k) = refl
Move-results (answer before o behind reply h) = refl
Move-results {u} (collect o os r rs h k e) =
    omega (arith, ap length k, length-append u.results (r ∷ []))
Move-results {u} (time_out o os h k e) =
    omega (arith, ap length k, length-append u.results (timeout_result o ∷ []))

Run-results :
    {m : ℕ} {u : Executor} {n : ℕ} {late : List OrderRequest} {v : Executor}
    → Run m u n late v
    → length v.results + length v.awaited ≡ length u.results + length u.awaited
Run-results here = refl
Run-results (next r s) = Move-results s ∙ Run-results r

Move-weight :
    {m : ℕ} {u v : Executor} {o : Option OrderRequest} → Move m u o v → weight u ≡ suc (weight v)
Move-weight {u} (put o os h) = omega (arith, ap length h, length-append u.order_queue (o ∷ []))
Move-weight (take o os h k) = omega (arith, ap length h)
Move-weight (answer before o behind reply h) =
    omega (arith, ap length h, length-append before (o ∷ behind), length-append before behind)
Move-weight (collect o os r rs h k e) = omega (arith, ap length k)
Move-weight (time_out o os h k e) = omega (arith, ap length k)

Run-weight :
    {m : ℕ} {u : Executor} {n : ℕ} {late : List OrderRequest} {v : Executor}
    → Run m u n late v
    → weight u ≡ n + weight v
Run-weight here = omega arith
Run-weight (next r s) = omega (arith, Run-weight r, Move-weight s)

-- A move that is possible in a state.
pub record CanMove (max_workers : ℕ) (e : Executor) : Type 0 where
  pub late : Option OrderRequest
  pub after : Executor
  pub move : Move max_workers e late after

abbrev DoneOrMoves : ℕ → Executor → Type 0
DoneOrMoves m e = IsDone e ⊎ CanMove m e

module _ {m : ℕ} (some_worker : 0 < m) where
  moves_or_done :
      (to_put awaited order_queue working : List OrderRequest)
      (result_queue results : List OrderResult)
      → DoneOrMoves m (record {
        to_put = to_put;
        awaited = awaited;
        order_queue = order_queue;
        working = working;
        result_queue = result_queue;
        results = results;
      })
  moves_or_done (o ∷ os) ws q ks rs ds =
      inr (record { late = none; after = _; move = put o os refl })
  moves_or_done [] ws q (k ∷ ks) rs ds =
      inr (record { late = none; after = _; move = answer [] k ks not_dict refl })
  moves_or_done [] ws (o ∷ os) [] rs ds =
      inr (record { late = none; after = _; move = take o os refl some_worker })
  moves_or_done [] (w ∷ ws) [] [] (r ∷ rs) ds =
      inr (record { late = none; after = _; move = collect w ws r rs refl refl refl })
  moves_or_done [] (w ∷ ws) [] [] [] ds =
      inr (record { late = some w; after = _; move = time_out w ws refl refl refl })
  moves_or_done [] [] [] [] rs ds = inl (record {
    quiet = record { none_to_put = refl; none_queued = refl; none_working = refl };
    none_awaited = refl;
  })

  done_or_moves : (e : Executor) → DoneOrMoves m e
  done_or_moves e =
      moves_or_done e.to_put e.awaited e.order_queue e.working e.result_queue e.results

start-weight :
    (orders : List OrderRequest) (e : Executor)
    → IsQuiet e
    → weight (submit_orders orders e) ≡ 4 * length orders
unfolding submit_orders
start-weight orders e q = omega (arith, ap length q.none_queued, ap length q.none_working)

IsDone-weight : (e : Executor) → IsDone e → weight e ≡ 0
IsDone-weight e d = omega (
  arith,
  ap length d.quiet.none_to_put,
  ap length d.none_awaited,
  ap length d.quiet.none_queued,
  ap length d.quiet.none_working,
)

-- With at least one worker and no order left over from before, a call of submit_orders whose moves
-- so far, and those of the workers, are counted either has returned, after exactly four moves for
-- each order, or has made fewer moves and another is possible.
pub submit_orders_ends :
    {m : ℕ}
    → 0 < m
    → (orders : List OrderRequest) (e : Executor) → IsQuiet e
    → {n : ℕ} {late : List OrderRequest} {v : Executor} → Run m (submit_orders orders e) n late v
    → (IsDone v × (n ≡ 4 * length orders)) ⊎ (CanMove m v × (n < 4 * length orders))
submit_orders_ends {m} some_worker orders e q {n} {v} r =
    let total = start-weight orders e q in
    let left = Run-weight r in
    elim (done_or_moves some_worker v) [
      | inl d ↦ inl (d, omega (arith, total, left, IsDone-weight v d))
      | inr c ↦ inr (c, omega (arith, total, left, Move-weight c.move))
    ]

every_result : (rs : List OrderResult) → results_with (λ s t. true) rs ≡ length rs
every_result [] = refl
every_result (r ∷ rs) = omega (arith, every_result rs)

every_order : (os : List OrderRequest) → orders_with (λ s t. true) os ≡ length os
every_order [] = refl
every_order (o ∷ os) = omega (arith, every_order os)

accounted :
    {m : ℕ} (p : Text → ℕ → Bool) (orders : List OrderRequest) (e : Executor)
    → IsQuiet e
    → {n : ℕ} {late : List OrderRequest} {v : Executor} → Run m (submit_orders orders e) n late v
    → IsDone v
    → results_with p v.results + results_with p v.result_queue
      ≡ orders_with p orders + results_with p e.result_queue + orders_with p late
unfolding submit_orders
accounted p orders e q r d =
    let count : List OrderRequest → ℕ = orders_with p in
    omega (
      arith,
      Run-held p r,
      ap count q.none_queued,
      ap count q.none_working,
      ap count d.quiet.none_to_put,
      ap count d.quiet.none_queued,
      ap count d.quiet.none_working,
    )

-- When a call of submit_orders returns that began with no order left over from before, it has one
-- result for each of its orders; in the result queue there is one result more than before for each
-- order that timed out; and for every test of a symbol and metadata, the results that pass it,
-- returned or in the queue, are as many as the orders of the call, the results that were in the
-- queue before, and the orders that timed out that pass it.
pub results_are_accounted :
    {m : ℕ} (p : Text → ℕ → Bool) (orders : List OrderRequest) (e : Executor)
    → IsQuiet e
    → {n : ℕ} {late : List OrderRequest} {v : Executor} → Run m (submit_orders orders e) n late v
    → IsDone v
    → (length v.results ≡ length orders)
      × (length v.result_queue ≡ length e.result_queue + length late)
      × (results_with p v.results + results_with p v.result_queue
          ≡ orders_with p orders + results_with p e.result_queue + orders_with p late)
unfolding submit_orders
results_are_accounted p orders e q {late} {v} r d =
    let one_each : length v.results ≡ length orders =
      omega (arith, Run-results r, ap length d.none_awaited) in
    let in_all = accounted (λ s t. true) orders e q r d in
    (
      one_each,
      omega (
        arith,
        one_each,
        in_all,
        every_result v.results,
        every_result v.result_queue,
        every_result e.result_queue,
        every_order orders,
        every_order late,
      ),
      accounted p orders e q r d,
    )
