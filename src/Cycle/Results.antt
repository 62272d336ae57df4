-- ===== src/Cycle/Results.antt =====
-- The second half of the cycle: the orders go to the executor, and its results are processed. What a
-- filled result does is here because the code has it; no result of the live executor is filled.
-- Trade log rows, alerts and the exit documents are left out.
use mintzy_plugin_kelly_opt.Base.{
  ℕ, zero, suc, ◌&&◌, Option, none, some, List, [], ◌∷◌, ◌++◌, get_or, if◌then◌else◌,
}
use mintzy_plugin_kelly_opt.Base.Int.{pos}
use mintzy_plugin_kelly_opt.Base.Text.{Text, codes, upper, drop_eq_suffix}
use mintzy_plugin_kelly_opt.Base.Dict.{Dict, lookup, insert}
use mintzy_plugin_kelly_opt.Base.SymbolSet.{member}
use mintzy_plugin_kelly_opt.Symbols.{Environ, present}
use mintzy_plugin_kelly_opt.Redis.{Redis}
use mintzy_plugin_kelly_opt.Number.{Number}
use mintzy_plugin_kelly_opt.OrderBatcher.{OrderRequest, get_all_orders}
use mintzy_plugin_kelly_opt.Executor.{OrderResult}
use mintzy_plugin_kelly_opt.OrderFill.{Pending, LiveFill, finalized_actions, release_exposure}
use mintzy_plugin_kelly_opt.OrderFill.Fills.{finalize_symbol_exit_fill}
use mintzy_plugin_kelly_opt.Cycle.{Note, Cycle, cached_rows}

-- The metadata of a tag.
unfoldable pub get_elem? {ℓ} : {A : Type ℓ} → List A → ℕ → Option A
get_elem? [] i = none
get_elem? (x ∷ xs) zero = some x
get_elem? (x ∷ xs) (suc i) = get_elem? xs i

-- `result.symbol.upper().replace("-EQ", "")`
unfoldable pub result_symbol : OrderResult → Text
result_symbol r = drop_eq_suffix (upper r.symbol)

-- What is sent to the executor.
unfoldable pub orders_to_send : {F S : Type 0} → Cycle F S → List OrderRequest
orders_to_send c = get_all_orders c.batch (codes "exit_first")

module _ (N : Number) (R : Redis) (environ : Environ) where
  open N use {Float}
  open R use {Store}

  -- `result.metadata or {}`
  unfoldable pub note_of : OrderResult → Cycle Float Store → Note Float
  note_of r c = get_or (get_elem? c.notes r.tag) (record {
    action_type = [];
    side = [];
    qty = pos 0;
    order_value = N.zero;
    position_side = none;
    pre_exit_position = none;
  })

  unfoldable pub pending_entry : Note Float → Text → ℕ → Pending Float
  pending_entry note order_id now = record {
    order_id = order_id;
    side = note.side;
    qty = note.qty;
    action_type = note.action_type;
    order_value = note.order_value;
    position_side = note.position_side;
    placed_at = now;
    pre_exit_position = note.pre_exit_position;
  }

  -- `self.pending_orders[sym].append(…)`
  unfoldable pub add_pending :
      Text → Pending Float → Dict (List (Pending Float)) → Dict (List (Pending Float))
  add_pending sym p pending = insert sym (get_or (lookup sym pending) [] ++ p ∷ []) pending

  -- A filled exit is finalized; the live executor's results have no price and no quantity.
  unfoldable pub filled_result :
      Text → Note Float → Text → ℕ → Cycle Float Store → Cycle Float Store
  filled_result sym note order_id now c =
      let fill : LiveFill Float = record { side = note.side; qty = pos 0; avg_price = N.zero } in
      let ctx : Pending Float = record (pending_entry note order_id now) { qty = pos 0 } in
      if member note.action_type finalized_actions
      then record c {
        desk = record c.desk {
          trader =
              finalize_symbol_exit_fill N R environ sym fill ctx (cached_rows c.desk) c.desk.trader;
        };
      }
      else c

  unfoldable pub release_reserved : Text → Note Float → Cycle Float Store → Cycle Float Store
  release_reserved sym note c =
      let t = c.desk.trader in
      record c {
        desk = record c.desk {
          trader = record t {
            reserved_exposure = release_exposure N sym note.order_value t.reserved_exposure;
          };
        };
      }

  unfoldable pub process_result : ℕ → OrderResult → Cycle Float Store → Cycle Float Store
  process_result now r c =
      let sym = result_symbol r in
      let note = note_of r c in
      if r.success && r.filled
      then filled_result sym note (get_or r.order_id []) now c
      else elim (present r.order_id) [
        | none ↦ release_reserved sym note c
        | some order_id ↦ record c {
          pending = add_pending sym (pending_entry note order_id now) c.pending;
        }
      ]

  unfoldable pub process_results : ℕ → List OrderResult → Cycle Float Store → Cycle Float Store
  process_results now [] c = c
  process_results now (r ∷ rs) c = process_results now rs (process_result now r c)
