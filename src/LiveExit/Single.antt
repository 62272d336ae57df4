-- ===== src/LiveExit/Single.antt =====
-- `exit_single_position`: what becomes of the executor's answer.
use mintzy_plugin_kelly_opt.Base.{
  ℕ, ◌&&◌, not, Option, none, some, List, [], ◌∷◌, ◌++◌, get_or, Call, returned, raised,
  if◌then◌else◌,
}
use mintzy_plugin_kelly_opt.Base.Int.{pos}
use mintzy_plugin_kelly_opt.Base.Text.{Text, codes, upper, drop_eq_suffix}
use mintzy_plugin_kelly_opt.Base.Dict.{Dict}
use mintzy_plugin_kelly_opt.Base.SymbolSet.{add}
use mintzy_plugin_kelly_opt.Symbols.{Environ}
use mintzy_plugin_kelly_opt.Redis.{Redis}
use mintzy_plugin_kelly_opt.Number.{Number}
use mintzy_plugin_kelly_opt.Decimals.{Decimals}
use mintzy_plugin_kelly_opt.OrderBatcher.{OrderRequest}
use mintzy_plugin_kelly_opt.Executor.{OrderResult}
use mintzy_plugin_kelly_opt.OrderFill.{Pending, LiveFill}
use mintzy_plugin_kelly_opt.OrderFill.Fills.{finalize_symbol_exit_fill}
use mintzy_plugin_kelly_opt.Cycle.{Note, Cycle, cached_rows}
use mintzy_plugin_kelly_opt.Cycle.Results.{get_elem?, pending_entry, add_pending}
use mintzy_plugin_kelly_opt.LiveExit.{PositionsReply}
use mintzy_plugin_kelly_opt.LiveExit.Target.{refresh, find_target, exit_note, exit_request}

-- The answers of a single exit; an order may have failed with an error.
pub data ExitAnswer : Type 0 where
  no_position no_result call_raised : ExitAnswer
  order_failed : Option Text → ExitAnswer
  order_filled order_sent : Text → ExitAnswer

module _ (N : Number) (D : Decimals N) (R : Redis) (environ : Environ) where
  open N use {Float, zero}
  open R use {Store}

  -- `exit_ctx`, from the metadata of the result.
  unfoldable pub exit_entry : Note Float → OrderResult → ℕ → Cycle Float Store → Pending Float
  exit_entry note r now c =
      let found : Note Float = get_or (get_elem? c.notes r.tag) (record {
        action_type = codes "EXIT_LONG";
        side = [];
        qty = pos 0;
        order_value = zero;
        position_side = none;
        pre_exit_position = none;
      }) in
      pending_entry N R environ
        (record found {
          pre_exit_position = elim found.pre_exit_position [
            | some p ↦ some p
            | none ↦ note.pre_exit_position
          ];
        })
        (get_or r.order_id []) now

  unfoldable pub leave_symbol : Text → Cycle Float Store → Cycle Float Store
  leave_symbol symbol c = record c { exited_symbols = add symbol c.exited_symbols }

  -- The branch of a result that is filled, with a price and a quantity of 0.
  unfoldable pub finish_exit : Text → Pending Float → Cycle Float Store → Cycle Float Store
  finish_exit symbol ctx c =
      let fill : LiveFill Float = record { side = ctx.side; qty = ctx.qty; avg_price = zero } in
      record c {
        desk = record c.desk {
          trader =
              finalize_symbol_exit_fill N R environ symbol fill ctx (cached_rows c.desk)
                c.desk.trader;
        };
      }

  unfoldable pub take_result :
      Text → Note Float → ℕ → OrderResult → Cycle Float Store → ExitAnswer × Cycle Float Store
  take_result symbol note now r c =
      let ctx = exit_entry note r now c in
      if not r.success
      then (order_failed r.error, c)
      else if r.filled && N.is_pos zero
      then (order_filled ctx.order_id, leave_symbol symbol (finish_exit symbol ctx c))
      else (
        order_sent ctx.order_id,
        leave_symbol symbol (record c { pending = add_pending N R environ symbol ctx c.pending }),
      )

  unfoldable pub take_answer :
      Text
      → Note Float
      → ℕ
      → Call (List OrderResult)
      → Cycle Float Store
      → ExitAnswer × Cycle Float Store
  take_answer symbol note now raised c = (call_raised, c)
  take_answer symbol note now (returned []) c = (no_result, c)
  take_answer symbol note now (returned (r ∷ rs)) c = take_result symbol note now r c

  -- `submit` is what the executor answers to the orders of this call.
  unfoldable pub exit_single_position :
      Text
      → PositionsReply Float
      → Dict Float
      → (List OrderRequest → Call (List OrderResult))
      → ℕ
      → Cycle Float Store
      → ExitAnswer × Cycle Float Store
  exit_single_position s reply cycle_ltp submit now c0 =
      let symbol = drop_eq_suffix (upper s) in
      let c = refresh N D reply c0 in
      elim (find_target N D symbol cycle_ltp c.desk) [
        | none ↦ (no_position, c)
        | some p ↦
            let note = exit_note N D symbol p c.desk in
            take_answer symbol note now (submit (exit_request N D symbol note c ∷ []))
              (record c { notes = c.notes ++ note ∷ [] })
      ]
