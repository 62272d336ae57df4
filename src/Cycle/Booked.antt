-- ===== src/Cycle/Booked.antt =====
-- What becomes of the orders of a cycle: which of them are pending after their results.
use mintzy_plugin_kelly_opt.Base.{
  ℕ, ◌+◌, ◌≤◌, ◌≡◌, refl, subst, Bool, true, false, ◌&&◌, Option, none, some, List, [], ◌∷◌, ◌++◌,
  length, length-append, is_some, get_or, All, All-append, arith,
}
use mintzy_plugin_kelly_opt.Base.Text.{Text, text_eq, text_eq_iff}
use mintzy_plugin_kelly_opt.Base.Dict.{Dict, lookup, insert, lookup-insert}
use mintzy_plugin_kelly_opt.Symbols.{Environ, present}
use mintzy_plugin_kelly_opt.Redis.{Redis}
use mintzy_plugin_kelly_opt.Number.{Number}
use mintzy_plugin_kelly_opt.OrderBatcher.{OrderRequest}
use mintzy_plugin_kelly_opt.OrderFill.{Pending}
use mintzy_plugin_kelly_opt.Executor.{
  OrderResult, Reply, raised, not_dict, dict, with_order_id, execute_single_order, Executor,
  submit_orders, timeout_result, Move, put, take, answer, collect, time_out, IsQuiet, IsDone,
}
use mintzy_plugin_kelly_opt.Executor.Conserved.{Run, here, next, as_one, results_are_accounted}
use mintzy_plugin_kelly_opt.Cycle.{Cycle}
use mintzy_plugin_kelly_opt.Cycle.Results.{
  result_symbol, orders_to_send, note_of, pending_entry, add_pending, release_reserved,
  process_result, process_results,
}

-- The pending orders of a symbol, and those of all symbols.
abbrev pub entries : {F : Type 0} → Text → Dict (List (Pending F)) → ℕ
entries s pending = length (get_or (lookup s pending) [])

abbrev pub all_entries : {F : Type 0} → Dict (List (Pending F)) → ℕ
all_entries [] = 0
all_entries ((s, ps) ∷ pending) = length ps + all_entries pending

abbrev pub has_id : OrderResult → Bool
has_id r = is_some (present r.order_id)

-- How many results have an order id, and how many of them are of a symbol.
abbrev pub placed : List OrderResult → ℕ
placed [] = 0
placed (r ∷ rs) = as_one (has_id r) + placed rs

abbrev pub placed_for : Text → List OrderResult → ℕ
placed_for s [] = 0
placed_for s (r ∷ rs) = as_one (has_id r && text_eq (result_symbol r) s) + placed_for s rs

abbrev IsUnfilled : OrderResult → Type 0
IsUnfilled r = r.filled ≡ false

with_order_id-IsUnfilled : (o : OrderRequest) (id : Option Text) → IsUnfilled (with_order_id o id)
unfolding with_order_id
with_order_id-IsUnfilled o none = refl
with_order_id-IsUnfilled o (some id) = ground arith

execute_single_order-IsUnfilled :
    (reply : Reply) (o : OrderRequest) → IsUnfilled (execute_single_order reply o)
unfolding execute_single_order
execute_single_order-IsUnfilled (raised reason) o = refl
execute_single_order-IsUnfilled not_dict o = with_order_id-IsUnfilled o none
execute_single_order-IsUnfilled (dict order_id status error) o =
    ground (arith, with_order_id-IsUnfilled o order_id)

-- No result of the executor is filled, in its queue or returned.
abbrev pub AllUnfilled : Executor → Type 0
AllUnfilled e = All IsUnfilled e.result_queue × All IsUnfilled e.results

first_of :
    {rs : List OrderResult} {r : OrderResult} {rest : List OrderResult}
    → rs ≡ r ∷ rest
    → All IsUnfilled rs
    → IsUnfilled r × All IsUnfilled rest
first_of e h = subst (All IsUnfilled) e h

Move-AllUnfilled :
    {m : ℕ} {u v : Executor} {o : Option OrderRequest}
    → Move m u o v
    → AllUnfilled u
    → AllUnfilled v
Move-AllUnfilled (put o os h) a = a
Move-AllUnfilled (take o os h k) a = a
Move-AllUnfilled {u} (answer before o behind reply h) a =
    (All-append IsUnfilled u.result_queue _ a.0 (execute_single_order-IsUnfilled reply o, tt), a.1)
Move-AllUnfilled {u} (collect o os r rs h k e) a =
    let (first, rest) = first_of e a.0 in (rest, All-append IsUnfilled u.results _ a.1 (first, tt))
Move-AllUnfilled {u} (time_out o os h k e) a =
    (a.0, All-append IsUnfilled u.results _ a.1 (refl, tt))

Run-AllUnfilled :
    {m : ℕ} {u : Executor} {n : ℕ} {late : List OrderRequest} {v : Executor}
    → Run m u n late v
    → AllUnfilled u
    → AllUnfilled v
Run-AllUnfilled here a = a
Run-AllUnfilled (next r s) a = Move-AllUnfilled s (Run-AllUnfilled r a)

placed-append : (xs ys : List OrderResult) → placed (xs ++ ys) ≡ placed xs + placed ys
placed-append [] ys = omega arith
placed-append (x ∷ xs) ys = omega (arith, placed-append xs ys)

-- An order that timed out has a result without an id.
Run-placed :
    {m : ℕ} {u : Executor} {n : ℕ} {late : List OrderRequest} {v : Executor}
    → Run m u n late v
    → placed u.results ≤ length u.results
    → placed v.results + length late ≤ length v.results
Run-placed here h = omega arith
Run-placed (next r (put o os e)) h = Run-placed r h
Run-placed (next r (take o os e k)) h = Run-placed r h
Run-placed (next r (answer before o behind reply e)) h = Run-placed r h
Run-placed (next {v} r (collect o os x xs h k e)) a =
    ground
      (arith, Run-placed r a, placed-append v.results (x ∷ []), length-append v.results (x ∷ []))
Run-placed (next {v} r (time_out o os h k e)) a = omega (
  arith,
  Run-placed r a,
  placed-append v.results (timeout_result o ∷ []),
  length-append v.results (timeout_result o ∷ []),
)

all_entries-insert :
    {F : Type 0} (s : Text) (p : Pending F) (pending : Dict (List (Pending F)))
    → all_entries (insert s (get_or (lookup s pending) [] ++ p ∷ []) pending)
      ≡ all_entries pending + 1
unfolding insert lookup
all_entries-insert s p [] = omega arith
all_entries-insert s p ((k, ps) ∷ pending) =
    ground (arith, all_entries-insert s p pending, length-append ps (p ∷ []))

module _ (N : Number) (R : Redis) (environ : Environ) where
  open N use {Float}
  open R use {Store}

  process_result-entries :
      (now : ℕ) (s : Text) (r : OrderResult) (c : Cycle Float Store)
      → IsUnfilled r
      → entries s (process_result N R environ now r c).pending
        ≡ entries s c.pending + as_one (has_id r && text_eq (result_symbol r) s)
  unfolding process_result add_pending release_reserved
  process_result-entries now s r c h = ground (
    arith,
    lookup-insert (result_symbol r) s
        (get_or (lookup (result_symbol r) c.pending) []
          ++ pending_entry N R environ (note_of N R environ r c) (get_or (present r.order_id) [])
              now
            ∷ [])
        c.pending,
    text_eq_iff (result_symbol r) s,
    length-append (get_or (lookup s c.pending) []) (
        pending_entry N R environ (note_of N R environ r c) (get_or (present r.order_id) []) now
        ∷ []),
  )

  process_result-all_entries :
      (now : ℕ) (r : OrderResult) (c : Cycle Float Store)
      → IsUnfilled r
      → all_entries (process_result N R environ now r c).pending
        ≡ all_entries c.pending + as_one (has_id r)
  unfolding process_result add_pending release_reserved
  process_result-all_entries now r c h = ground (
    arith,
    all_entries-insert (result_symbol r)
        (pending_entry N R environ (note_of N R environ r c) (get_or (present r.order_id) []) now)
        c.pending,
  )

  process_results-entries :
      (now : ℕ) (s : Text) (rs : List OrderResult) (c : Cycle Float Store)
      → All IsUnfilled rs
      → entries s (process_results N R environ now rs c).pending
        ≡ entries s c.pending + placed_for s rs
  unfolding process_results
  process_results-entries now s [] c h = omega arith
  process_results-entries now s (r ∷ rs) c h = omega (
    arith,
    process_results-entries now s rs (process_result N R environ now r c) h.1,
    process_result-entries now s r c h.0,
  )

  process_results-all_entries :
      (now : ℕ) (rs : List OrderResult) (c : Cycle Float Store)
      → All IsUnfilled rs
      → all_entries (process_results N R environ now rs c).pending
        ≡ all_entries c.pending + placed rs
  unfolding process_results
  process_results-all_entries now [] c h = omega arith
  process_results-all_entries now (r ∷ rs) c h = omega (
    arith,
    process_results-all_entries now rs (process_result N R environ now r c) h.1,
    process_result-all_entries now r c h.0,
  )

  -- Whatever the broker answers and however the workers interleave, if no result in the queue from
  -- before is filled, the pending orders of a symbol grow by exactly the returned results of that
  -- symbol that have an order id.
  pub placed_orders_are_pending :
      {m : ℕ} (now : ℕ) (s : Text) (c : Cycle Float Store) (e : Executor)
      → All IsUnfilled e.result_queue
      → {n : ℕ} {late : List OrderRequest} {v : Executor}
      → Run m (submit_orders (orders_to_send c) e) n late v
      → entries s (process_results N R environ now v.results c).pending
        ≡ entries s c.pending + placed_for s v.results
  unfolding submit_orders
  placed_orders_are_pending now s c e unfilled {v} run =
      process_results-entries now s v.results c (Run-AllUnfilled run (unfilled, tt)).1

  -- When a call of submit_orders with the orders of a cycle returns that began with no order left
  -- over and no filled result in the queue, the orders that the cycle makes pending and those that
  -- timed out are together at most the orders that were sent.
  pub late_orders_are_not_pending :
      {m : ℕ} (now : ℕ) (c : Cycle Float Store) (e : Executor)
      → All IsUnfilled e.result_queue
      → IsQuiet e
      → {n : ℕ} {late : List OrderRequest} {v : Executor}
      → Run m (submit_orders (orders_to_send c) e) n late v
      → IsDone v
      → all_entries (process_results N R environ now v.results c).pending + length late
        ≤ all_entries c.pending + length (orders_to_send c)
  unfolding submit_orders
  late_orders_are_not_pending now c e unfilled quiet {late} {v} run done = omega (
    arith,
    process_results-all_entries now v.results c (Run-AllUnfilled run (unfilled, tt)).1,
    Run-placed run (omega arith),
    (results_are_accounted (λ s t. true) (orders_to_send c) e quiet run done).0,
  )
